-- ===== src/Spinlock.antt =====
-- src/spinlock.h and src/spinlock_guard.h: the lock of threads that spins on one atomic number.
-- A thread is a number. `lock` is its loop of `compare_exchange_strong`, one round for each step, so
-- that the rounds and the unlocks of the threads mix in any order. A SpinlockGuard is a `lock` in
-- its constructor and an `unlock` in its destructor.
pub mod Exclusion
mod Tests
use net_lib.Prelude.{ℕ, ◌<◌, ◌≡◌, Bool, true, false, ◌==◌, if◌then◌else◌}
use net_lib.Prelude.Family.{update}

pub record Spinlock : Type 0 where
  pub sem : ℕ

abbrev pub new_spinlock : Spinlock
new_spinlock = record { sem = 1 }

-- `compare_exchange_strong(expected, desired)`: whether it exchanged, what `expected` is after it,
-- and the atomic.
abbrev pub compare_exchange : Spinlock → ℕ → ℕ → Bool × ℕ × Spinlock
compare_exchange l expected desired =
    if l.sem == expected then (true, expected, record { sem = desired }) else (false, l.sem, l)

-- One round of the loop of `lock`, which starts with 1 in `exp` and puts 1 there again.
unfoldable pub try_lock : Spinlock → Bool × Spinlock
try_lock l = let (exchanged, exp, l') = compare_exchange l 1 0 in (exchanged, l')

unfoldable pub unlock : Spinlock → Spinlock
unlock l = record { sem = 1 }

-- Where a thread stands: outside, in the loop of `lock`, or between `lock` and `unlock`.
pub data Place : Type 0 where
  outside spinning inside : Place

pub record Threads : Type 0 where
  pub spinlock : Spinlock
  pub place : ℕ → Place

-- A round of thread `i`.
unfoldable pub after_try : Threads → ℕ → Threads
after_try s i =
    let (granted, l) = try_lock s.spinlock in
    record { spinlock = l; place = update s.place i (if granted then inside else spinning) }

unfoldable pub after_unlock : Threads → ℕ → Threads
after_unlock s i = record { spinlock = unlock s.spinlock; place = update s.place i outside }

-- One step of one of `n` threads.
pub data Step (n : ℕ) (s : Threads) : Threads → Type 0 where
  calls_lock :
      (i : ℕ)
      → i < n
      → s.place i ≡ outside
      → Step n s (record s { place = update s.place i spinning })
  tries : (i : ℕ) → i < n → s.place i ≡ spinning → Step n s (after_try s i)
  unlocks : (i : ℕ) → i < n → s.place i ≡ inside → Step n s (after_unlock s i)

abbrev pub start_threads : Threads
start_threads = record { spinlock = new_spinlock; place = λ _. outside }

pub data Reach (n : ℕ) : Threads → Type 0 where
  start : Reach n start_threads
  later : {s t : Threads} → Reach n s → Step n s t → Reach n t
