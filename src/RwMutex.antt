-- ===== src/RwMutex.antt =====
-- src/mutex.h and src/mutex.cc: the read-write lock of coroutines.
-- Each operation is its critical section under `lock_` (the spinlock of Spinlock.antt). A coroutine
-- is a number. `rlock` and `wlock` run their section, and where it refuses they yield and call
-- themselves again when they are resumed: the attempts are `try_rlock` and `try_wlock`, and the
-- waiting and the retry are steps of RwMutex/System.antt. What `freeLock` hands to `goCo`, in
-- order, is the list that an unlock returns.
pub mod System
pub mod Invariant
pub mod Safety
pub mod Spec
pub mod Refine
mod Tests
use net_lib.Prelude.{ℕ, Bool, true, false, List, [], ◌∷◌, ◌++◌, if◌then◌else◌}
use net_lib.Prelude.Int.{ℤ, pos, negsuc, ◌+ℤ◌, ◌==ℤ◌}

-- `muStatus`
pub data MuStatus : Type 0 where
  mu_free mu_reading mu_writing : MuStatus

pub record RwMutex : Type 0 where
  pub state : MuStatus
  pub reading_num : ℤ
  pub waiting : List ℕ

abbrev pub new_mutex : RwMutex
new_mutex = record { state = mu_free; reading_num = pos 0; waiting = [] }

-- `state_ == MU_FREE || state_ == MU_READING`
abbrev pub readable : MuStatus → Bool
readable mu_writing = false
readable _ = true

abbrev pub writable : MuStatus → Bool
writable mu_free = true
writable _ = false

-- `waitingCo_.push(co)`
abbrev pub enqueue : RwMutex → ℕ → RwMutex
enqueue m co = record m { waiting = m.waiting ++ co ∷ [] }

-- The section of `rlock`: whether the lock was granted, and the mutex after it.
unfoldable pub try_rlock : RwMutex → ℕ → Bool × RwMutex
try_rlock m co =
    if readable m.state
    then (true, record m { reading_num = m.reading_num +ℤ pos 1; state = mu_reading })
    else (false, enqueue m co)

-- The section of `wlock`.
unfoldable pub try_wlock : RwMutex → ℕ → Bool × RwMutex
try_wlock m co =
    if writable m.state then (true, record m { state = mu_writing }) else (false, enqueue m co)

-- The loop of `freeLock`: it pops the queue from the front until it is empty.
pub pop_all : List ℕ → RwMutex → RwMutex × List ℕ
pop_all [] m = (m, [])
pop_all (co ∷ cos) m =
    let (m', woken) = pop_all cos (record m { waiting = cos }) in (m', co ∷ woken)

unfoldable pub free_lock : RwMutex → RwMutex × List ℕ
unfolding pop_all
free_lock m = pop_all m.waiting (record m { state = mu_free })

-- `fetch_add(-1)` returns the number before.
unfoldable pub runlock : RwMutex → RwMutex × List ℕ
runlock m =
    let left : RwMutex = record m { reading_num = m.reading_num +ℤ negsuc 0 } in
    if m.reading_num ==ℤ pos 1 then free_lock left else (left, [])

unfoldable pub wunlock : RwMutex → RwMutex × List ℕ
wunlock m = free_lock m
