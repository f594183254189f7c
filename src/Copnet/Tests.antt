-- ===== src/Copnet/Tests.antt =====
-- Calls of a program with three processors.
use net_lib.Prelude.{ℕ, ◌-◌, ◌^◌, ◌<◌, ◌≡◌, refl, [], ◌∷◌, ◌++◌, arith}
use net_lib.Prelude.Int.{pos}
use net_lib.Selector.{at, out_of_range, round_robin, new_selector}
use net_lib.Scheduler.{co_go}
use net_lib.Socket.Info.{codes, decimal}
use net_lib.Copnet.{program, coroutine_of, co_sleep, print_co_nums}
use net_lib.Copnet.Targets.{calls_reach}

calls_reach_example :
    ((j : ℕ) × (j < 3) × ((co_go (pos 7) (new_selector round_robin) (4 ∷ 0 ∷ 2 ∷ [])).0 ≡ at j))
    × (co_sleep (coroutine_of 2) (4 ∷ 0 ∷ 2 ∷ []) ≡ at 2)
    × (co_sleep program (4 ∷ 0 ∷ 2 ∷ []) ≡ out_of_range (2 ^ 64 - 1))
calls_reach_example = calls_reach (pos 7) (new_selector round_robin) 4 0 (2 ∷ []) 2 (omega arith)

line : print_co_nums (14 ∷ 0 ∷ 2 ∷ []) ≡ codes "14,0,2," ++ 10 ∷ []
unfolding print_co_nums decimal
line = refl
