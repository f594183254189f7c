-- ===== src/Timer.antt =====
-- src/timer.h and src/timer.cc: the coroutines that sleep, and the timer descriptor that wakes their
-- processor. `std::priority_queue` with `std::greater` over pairs of a time and a pointer is the list
-- of its entries from the least one on. Each reading of the clock is an argument, as are the results
-- of `::read`. `armed` is the last setting of the descriptor by `timerfd_settime`.
pub mod Heap
pub mod Expiry
pub mod Arming
pub mod Sort
pub mod Spec
pub mod Due
pub mod Refine
mod Tests
use net_lib.Prelude.{
  ℕ, zero, suc, ◌+◌, Bool, true, false, ◌&&◌, ◌||◌, Option, none, some, List, [], ◌∷◌, ltb, leb,
  ◌==◌, if◌then◌else◌,
}
use net_lib.Prelude.Int.{ℤ, pos, negsuc}
use net_lib.Clock.{TimeSpec, time_interval_from_now}

pub record Entry : Type 0 where
  pub time : ℕ
  pub co : ℕ

-- A setting of the descriptor: when it was made, and the interval from then.
pub record Setting : Type 0 where
  pub set_at : ℕ
  pub interval : TimeSpec

pub record Timer : Type 0 where
  pub heap : List Entry
  pub armed : Option Setting

abbrev pub new_timer : Timer
new_timer = record { heap = []; armed = none }

-- The order of the pairs.
abbrev pub before : Entry → Entry → Bool
before a b = ltb a.time b.time || ((a.time == b.time) && leb a.co b.co)

-- `priority_queue::push`
unfoldable pub push : Entry → List Entry → List Entry
push e [] = e ∷ []
push e (x ∷ xs) = if before e x then e ∷ x ∷ xs else x ∷ push e xs

-- `resetTimeOfTimefd(time)` at the clock `present`.
unfoldable pub reset_timefd : ℕ → ℕ → Timer → Timer
reset_timefd time present t = record t {
  armed = some (record { set_at = present; interval = time_interval_from_now time present });
}

-- `timerCoHeap_.top().first == time`; the queue is not empty there.
abbrev pub top_is : ℕ → List Entry → Bool
top_is time [] = false
top_is time (x ∷ xs) = x.time == time

-- `runAt`
unfoldable pub run_at : ℕ → ℕ → ℕ → Timer → Timer
run_at time co present t =
    let pushed : Timer = record t { heap = push (record { time = time; co = co }) t.heap } in
    if top_is time pushed.heap then reset_timefd time present pushed else pushed

-- `runAfter`, which reads the clock at `start` and, if it sets the descriptor, at `present`.
unfoldable pub run_after : ℕ → ℕ → ℕ → ℕ → Timer → Timer
run_after time co start present t = run_at (start + time) co present t

-- `wakeUp`, which reads the clock at `start` and at `present`.
unfoldable pub wake_up : ℕ → ℕ → Timer → Timer
wake_up start present t = reset_timefd start present t

-- The loop that takes what is due at `present`, with the coroutines in the order in which they are
-- appended, and the entries that are left.
unfoldable pub pop_due : ℕ → List Entry → List ℕ × List Entry
pop_due present [] = ([], [])
pop_due present (x ∷ xs) =
    let (cos, rest) = pop_due present xs in
    if leb x.time present then (x.co ∷ cos, rest) else ([], x ∷ xs)

-- `TIMER_DUMMYBUF_SIZE`
abbrev pub dummybuf_size : ℕ
dummybuf_size = 1024

abbrev pub fills_buffer : ℤ → Bool
fills_buffer (pos n) = leb dummybuf_size n
fills_buffer (negsuc n) = false

-- The loop that reads the descriptor, with the results that are left; none means that it still reads.
unfoldable pub drain : List ℤ → Option (List ℤ)
drain [] = none
drain (r ∷ rs) = if fills_buffer r then drain rs else some rs

-- The end of `getExpiredCoroutines`: the descriptor is set to the first entry that is left.
abbrev pub rearm : List Entry → ℕ → Timer → Timer
rearm [] present t = t
rearm (x ∷ xs) present t = reset_timefd x.time present t

abbrev pub when_drained : ℕ → Timer → List ℕ → Option (List ℤ) → Option (List ℕ × Timer)
when_drained later t cos none = none
when_drained later t cos (some rs) = some (cos, rearm t.heap later t)

-- `getExpiredCoroutines`, which reads the clock at `present` and, if it sets the descriptor, at
-- `later`.
unfoldable pub get_expired : ℕ → ℕ → List ℤ → Timer → Option (List ℕ × Timer)
get_expired present later reads t =
    let (cos, rest) = pop_due present t.heap in
    when_drained later (record t { heap = rest }) cos (drain reads)
