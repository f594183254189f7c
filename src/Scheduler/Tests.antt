-- ===== src/Scheduler/Tests.antt =====
-- Two threads that call `getScheduler`, and coroutines that are handed out.
use net_lib.Prelude.{ℕ, ◌≤◌, ◌≡◌, refl, Option, some, [], ◌∷◌}
use net_lib.Scheduler.{got, start_global, get_scheduler_step, get_scheduler}
use net_lib.Scheduler.Single.{single_scheduler}

-- Thread 0 gets as far as the construction; thread 1 calls then and comes back at once, with a
-- scheduler that has no processor.
early :
    let g = get_scheduler 16 (0 ∷ 0 ∷ 0 ∷ 0 ∷ 0 ∷ 1 ∷ 1 ∷ []) start_global in
    (g.point 1 ≡ got (some 0)) × (g.processors 0 ≡ 0)
unfolding get_scheduler get_scheduler_step
early = (refl, refl)

-- With one processor to start, thread 0 comes back with all of it.
complete :
    let g = get_scheduler 1 (0 ∷ 0 ∷ 0 ∷ 0 ∷ 0 ∷ 0 ∷ 0 ∷ 0 ∷ []) start_global in
    (g.point 0 ≡ got (some 0)) × (g.processors 0 ≡ 1)
unfolding get_scheduler get_scheduler_step
complete = (refl, refl)

single_scheduler_example :
    ((get_scheduler 16 (0 ∷ 1 ∷ 0 ∷ 1 ∷ 0 ∷ 0 ∷ 0 ∷ 2 ∷ 2 ∷ []) start_global).made ≤ 1)
    × (◌≡◌ {A = Option ℕ} (some 0) (some 0))
unfolding get_scheduler get_scheduler_step
single_scheduler_example =
    single_scheduler 16 (0 ∷ 1 ∷ 0 ∷ 1 ∷ 0 ∷ 0 ∷ 0 ∷ 2 ∷ 2 ∷ []) 2 (some 0) refl
