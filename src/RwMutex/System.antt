-- ===== src/RwMutex/System.antt =====
-- Coroutines that use one read-write lock (src/mutex.cc), interleaved in any order at the
-- granularity of the critical sections.
use net_lib.Prelude.{ℕ, ◌<◌, ◌≡◌, Bool, true, false, List, [], ◌∷◌, if◌then◌else◌}
use net_lib.Prelude.Family.{update}
use net_lib.RwMutex.{RwMutex, new_mutex, try_rlock, try_wlock, runlock, wunlock}

-- Where a coroutine stands. `wants_…` is the head of `rlock` or `wlock`, at the first call and after
-- a wake-up; `parked_…` is the `yield` behind a refused attempt.
pub data Pc : Type 0 where
  idle wants_read wants_write parked_read parked_write reading writing : Pc

pub record System : Type 0 where
  pub mutex : RwMutex
  pub pc : ℕ → Pc

-- What `goCo` brings about: the coroutine is resumed behind its `yield` and tries again.
abbrev pub wake : Pc → Pc
wake parked_read = wants_read
wake parked_write = wants_write
wake p = p

unfoldable pub wake_list : List ℕ → (ℕ → Pc) → ℕ → Pc
wake_list [] pc = pc
wake_list (co ∷ cos) pc = wake_list cos (update pc co (wake (pc co)))

unfoldable pub after_rlock : System → ℕ → System
after_rlock s i =
    let (granted, m) = try_rlock s.mutex i in
    record { mutex = m; pc = update s.pc i (if granted then reading else parked_read) }

unfoldable pub after_wlock : System → ℕ → System
after_wlock s i =
    let (granted, m) = try_wlock s.mutex i in
    record { mutex = m; pc = update s.pc i (if granted then writing else parked_write) }

unfoldable pub after_runlock : System → ℕ → System
after_runlock s i =
    let (m, woken) = runlock s.mutex in
    record { mutex = m; pc = wake_list woken (update s.pc i idle) }

unfoldable pub after_wunlock : System → ℕ → System
after_wunlock s i =
    let (m, woken) = wunlock s.mutex in
    record { mutex = m; pc = wake_list woken (update s.pc i idle) }

-- One step of one of `n` coroutines. Only a holder unlocks, in the mode in which it holds the lock.
pub data Step (n : ℕ) (s : System) : System → Type 0 where
  call_rlock :
      (i : ℕ) → i < n → s.pc i ≡ idle → Step n s (record s { pc = update s.pc i wants_read })
  call_wlock :
      (i : ℕ) → i < n → s.pc i ≡ idle → Step n s (record s { pc = update s.pc i wants_write })
  enter_rlock : (i : ℕ) → i < n → s.pc i ≡ wants_read → Step n s (after_rlock s i)
  enter_wlock : (i : ℕ) → i < n → s.pc i ≡ wants_write → Step n s (after_wlock s i)
  call_runlock : (i : ℕ) → i < n → s.pc i ≡ reading → Step n s (after_runlock s i)
  call_wunlock : (i : ℕ) → i < n → s.pc i ≡ writing → Step n s (after_wunlock s i)

abbrev pub start_system : System
start_system = record { mutex = new_mutex; pc = λ _. idle }

pub data Reach (n : ℕ) : System → Type 0 where
  start : Reach n start_system
  later : {s t : System} → Reach n s → Step n s t → Reach n t

abbrev pub is_reading : Pc → Bool
is_reading reading = true
is_reading _ = false

abbrev pub is_writing : Pc → Bool
is_writing writing = true
is_writing _ = false

abbrev pub is_parked : Pc → Bool
is_parked parked_read = true
is_parked parked_write = true
is_parked _ = false
