-- ===== src/RwMutex/Tests.antt =====
-- Runs of the read-write lock, and its theorems at them.
use net_lib.Prelude.{ℕ, ◌≡◌, refl, inl, [], ◌∷◌, arith}
use net_lib.Prelude.Family.{update}
use net_lib.RwMutex.{try_rlock, try_wlock, wunlock, free_lock}
use net_lib.RwMutex.System.{
  wants_write, wants_read, System, Reach, start, later, call_rlock, call_wlock, enter_rlock,
  enter_wlock, start_system, after_rlock, after_wlock,
}
use net_lib.RwMutex.Spec.{History}
use net_lib.RwMutex.Refine.{holders, lock_refines}
use net_lib.RwMutex.Safety.{writer_exclusion}

-- Coroutine 0 holds the lock for writing, and coroutine 1 waits to read.
abbrev writer_asks : System
writer_asks = record start_system { pc = update start_system.pc 0 wants_write }

abbrev writer_holds : System
writer_holds = after_wlock writer_asks 0

abbrev reader_asks : System
reader_asks = record { mutex = writer_holds.mutex; pc = update writer_holds.pc 1 wants_read }

abbrev reader_waits : System
reader_waits = after_rlock reader_asks 1

writer_holds-Reach : Reach 2 writer_holds
writer_holds-Reach =
    later (later start (call_wlock 0 (omega arith) refl)) (enter_wlock 0 (omega arith) refl)

reader_waits-Reach : Reach 2 reader_waits
unfolding after_wlock try_wlock
reader_waits-Reach =
    later (later writer_holds-Reach (call_rlock 1 (omega arith) refl))
      (enter_rlock 1 (omega arith) refl)

-- Coroutine 0 reads.
abbrev one_reader : System
one_reader = after_rlock (record start_system { pc = update start_system.pc 0 wants_read }) 0

one_reader-Reach : Reach 2 one_reader
one_reader-Reach =
    later (later start (call_rlock 0 (omega arith) refl)) (enter_rlock 0 (omega arith) refl)

writer_exclusion_example : ◌≡◌ {A = ℕ} 0 0
unfolding after_wlock after_rlock try_wlock try_rlock
writer_exclusion_example =
    writer_exclusion reader_waits-Reach 0 0 (omega arith) (omega arith) refl (inl refl)

-- The writer's unlock wakes the reader.
woken_in_order : (wunlock reader_waits.mutex).1 ≡ 1 ∷ []
unfolding after_wlock after_rlock try_wlock try_rlock wunlock free_lock
woken_in_order = refl

lock_refines_example : History 2 (holders reader_waits)
lock_refines_example = lock_refines reader_waits-Reach
