-- ===== src/Spinlock/Tests.antt =====
-- Two threads at one spinlock, and the theorems at them.
use net_lib.Prelude.{ℕ, ◌≡◌, refl, arith}
use net_lib.Prelude.Family.{update}
use net_lib.Spinlock.{
  spinning, Threads, after_try, calls_lock, tries, Reach, start, later, start_threads, try_lock,
}
use net_lib.Spinlock.Exclusion.{spinlock_exclusion}

abbrev calling : Threads
calling = record start_threads { place = update start_threads.place 0 spinning }

abbrev both : Threads
both = record (after_try calling 0) { place = update (after_try calling 0).place 1 spinning }

-- 0 is inside, and 1 spins.
both-Reach : Reach 2 both
unfolding after_try try_lock
both-Reach =
    later (later (later start (calls_lock 0 (omega arith) refl)) (tries 0 (omega arith) refl))
      (calls_lock 1 (omega arith) refl)

spinlock_exclusion_example : ◌≡◌ {A = ℕ} 0 0
unfolding after_try try_lock
spinlock_exclusion_example = spinlock_exclusion both-Reach 0 0 (omega arith) (omega arith) refl refl
