-- ===== src/Copnet.antt =====
-- The functions that a program calls (src/copnet.cc, src/copnet_api.h), and `threadIdx`, by which a
-- coroutine finds the processor that runs it (src/processor.cc).
-- `counts` are the numbers of coroutines of the processors, in their order.
pub mod Targets
pub mod Numbers
mod Tests
use net_lib.Prelude.{ℕ, zero, suc, Option, List, [], ◌∷◌, ◌++◌}
use net_lib.Prelude.Int.{ℤ, pos, negsuc}
use net_lib.Selector.{Pick, Selector}
use net_lib.Scheduler.{get_processor, co_go}
use net_lib.Socket.Info.{decimal}
use net_lib.Lifecycle.{Host, Fate, scheduler_join}

-- Who calls: a thread of the program, or a coroutine in the loop of processor `tid_`.
pub data Caller : Type 0 where
  program : Caller
  coroutine_of : (tid : ℕ) → Caller

-- `threadIdx` is -1 in every thread until the loop of a processor sets it to `tid_`.
abbrev pub thread_idx : Caller → ℤ
thread_idx program = negsuc 0
thread_idx (coroutine_of tid) = pos tid

-- `co_sleep`: the processor whose `wait` is called. `Socket::accept`, `read`, `connect` and `send`
-- call `waitEvent` of the same one, and `rlock` and `wlock` its `yield`.
unfoldable pub co_sleep : Caller → List ℕ → Pick
co_sleep caller counts = get_processor counts (thread_idx caller)

-- `co_go(func, stackSize, i)` for `i` from `first` on, `rounds` times, as the acceptors are started;
-- `counts i` are the numbers at the call with `i`.
unfoldable pub co_go_each : (first rounds : ℕ) → Selector → (ℕ → List ℕ) → List Pick
co_go_each first zero s counts = []
co_go_each first (suc rounds) s counts =
    let (pick, s') = co_go (pos first) s (counts first) in
    pick ∷ co_go_each (suc first) rounds s' counts

-- The digits of a `size_t`, which has 64 bits.
abbrev pub size_digits : ℕ
size_digits = 20

-- `printCoNums`: the bytes that it writes.
unfoldable pub print_co_nums : List ℕ → List ℕ
print_co_nums [] = 10 ∷ []
print_co_nums (c ∷ counts) = decimal size_digits c ++ (b',' ∷ print_co_nums counts)

-- `sche_join`
abbrev pub sche_join : ℕ → List Host → Option Fate
sche_join n hosts = scheduler_join n hosts
