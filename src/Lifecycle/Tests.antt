-- ===== src/Lifecycle/Tests.antt =====
-- Threads at concrete moments, and the theorems at them.
use net_lib.Prelude.{◌≡◌, refl, ℕ, suc, if◌then◌else◌, arith, true, false, none, some, [], ◌∷◌}
use net_lib.Processor.{pro_running, pro_stopped}
use net_lib.Lifecycle.{
  launched, looping, returned, thread_step, Host, new_host, loop, thread_steps, stop, done,
  waits_on, aborts, bad_delete, delete_cos, finish, end_thread, stop_all, join_all, join, destroy,
  destroy_scheduler, start_scheduler,
}
use net_lib.Lifecycle.Ends.{
  ended_joined, all_empty, stop_lost, destroy_race, destroy_scheduler_ends, destroy_scheduler_early,
}

-- A thread whose `Epoller::init` fails returns, and its owner can join it.
init_fails :
    join (thread_steps 1 false true (loop new_host))
    ≡ done (record { status = pro_stopped; point = returned; joined = true; co_set = [] })
unfolding thread_steps thread_step loop join
init_fails = refl

abbrev in_loop : Host
in_loop = record { status = pro_running; point = looping; joined = false; co_set = 10 ∷ [] }

abbrev made_only : Host
made_only = record { status = pro_stopped; point = launched; joined = false; co_set = [] }

stop_lost_example : join (thread_steps 3 true true (stop made_only)) ≡ waits_on
stop_lost_example = stop_lost 2 made_only refl refl

destroy_race_example :
    (destroy true true 0 3 in_loop ≡ delete_cos (10 ∷ []) (ended_joined (10 ∷ [])))
    × (destroy true true 2 2 in_loop ≡ aborts)
    × ((k : ℕ) → destroy true true 1 2 (thread_steps (suc k) true true (stop in_loop)) ≡ aborts)
destroy_race_example = destroy_race 1 2 true true in_loop refl refl (λ e. ground arith)

-- A coroutine is left on the second processor.
destroy_scheduler_ends_example :
    destroy_scheduler 1 (record in_loop { co_set = [] } ∷ in_loop ∷ [])
    ≡ (if all_empty (record in_loop { co_set = [] } ∷ in_loop ∷ []) then none else some bad_delete)
destroy_scheduler_ends_example =
    destroy_scheduler_ends 0 (record in_loop { co_set = [] } ∷ in_loop ∷ [])
      ((refl, refl), ((refl, refl), tt))

one_left : destroy_scheduler 1 (record in_loop { co_set = [] } ∷ in_loop ∷ []) ≡ some bad_delete
unfolding destroy_scheduler stop_all join_all stop join thread_steps thread_step destroy end_thread
    finish delete_cos
one_left = refl

-- A scheduler that is destroyed just after its start never comes back from it.
started_only : destroy_scheduler 3 (start_scheduler 2) ≡ some waits_on
started_only = destroy_scheduler_early 2 1
