-- ===== src/Timer/Arming.antt =====
-- When the timer descriptor fires (src/timer.cc).
use mathlib.Core.Path.{subst}
use net_lib.Prelude.{
  ℕ, ◌+◌, ◌*◌, ◌≤◌, ◌<◌, ◌≡◌, ◌⊎◌, refl, inl, inr, true, false, Option, none, some, List, [], ◌∷◌,
  arith, Bool-cases, sym, ==_iff, All,
}
use net_lib.Prelude.Int.{ℤ}
use net_lib.Clock.{time_interval_from_now}
use net_lib.Clock.Interval.{nanos, interval_exact}
use net_lib.Timer.{
  when_drained, Entry, Setting, Timer, new_timer, before, push, reset_timefd, top_is, run_at,
  run_after, wake_up, pop_due, drain, rearm, get_expired,
}

-- The descriptor fires by the time of the first entry, or at most a microsecond behind its setting.
abbrev pub InTime : ℕ → Option Setting → Type 0
InTime time none = ⊥
InTime time (some s) =
    (s.set_at * 1_000_000 + nanos s.interval ≤ time * 1_000_000) ⊎ (nanos s.interval ≤ 1000)

abbrev pub Covered : List Entry → Option Setting → Type 0
Covered [] armed = Unit {0}
Covered (x ∷ xs) armed = InTime x.time armed

abbrev pub IsArmed : Timer → Type 0
IsArmed t = Covered t.heap t.armed

reset-InTime :
    (time present : ℕ)
    → InTime time
        (some (record { set_at = present; interval = time_interval_from_now time present }))
reset-InTime time present = ground (arith, interval_exact time present)

-- An entry that is put in front has the time of the descriptor's new setting.
push-top :
    (e : Entry) (xs : List Entry)
    → (top_is e.time (push e xs) ≡ true)
      ⊎ ((x : Entry) × (ys zs : List Entry) × (xs ≡ x ∷ ys) × (push e xs ≡ x ∷ zs))
unfolding push
push-top e [] = inl (ground arith)
push-top e (x ∷ xs) = elim (Bool-cases (before e x)) [
  | inl first ↦ inl (rw first (ground arith))
  | inr later ↦ inr (x, xs, push e xs, refl, rw later)
]

Covered-top :
    (time : ℕ) (xs : List Entry) (armed : Option Setting)
    → top_is time xs ≡ true
    → InTime time armed
    → Covered xs armed
Covered-top time [] armed h i = tt
Covered-top time (x ∷ xs) armed h i = subst (λ k. InTime k armed) (sym ((==_iff x.time time).0 h)) i

Covered-push :
    (e : Entry) (xs : List Entry) (armed : Option Setting)
    → top_is e.time (push e xs) ≡ false
    → Covered xs armed
    → Covered (push e xs) armed
Covered-push e xs armed h v = elim (push-top e xs) [
  | inl top ↦ cc
  | inr (x, ys, zs, whole, pushed) ↦ rw pushed (rw whole at v)
]

run_at-IsArmed : (time co present : ℕ) (t : Timer) → IsArmed t → IsArmed (run_at time co present t)
unfolding run_at reset_timefd
run_at-IsArmed time co present t v =
    let e : Entry = record { time = time; co = co } in
    elim (Bool-cases (top_is time (push e t.heap))) [
      | inl top ↦ rw top (Covered-top time (push e t.heap) _ top (reset-InTime time present))
      | inr other ↦ rw other (Covered-push e t.heap t.armed other v)
    ]

wake_up-IsArmed :
    (start present : ℕ) (t : Timer) → start ≤ present → IsArmed (wake_up start present t)
unfolding wake_up reset_timefd
wake_up-IsArmed start present t h = now_set t.heap
  where
    now_set :
        (xs : List Entry)
        → Covered xs
            (some (record { set_at = present; interval = time_interval_from_now start present }))
    now_set [] = tt
    now_set (x ∷ xs) = ground (arith, interval_exact start present)

rearm-IsArmed : (xs : List Entry) (later : ℕ) (t : Timer) → t.heap ≡ xs → IsArmed (rearm xs later t)
unfolding reset_timefd
rearm-IsArmed [] later t e = rw e tt
rearm-IsArmed (x ∷ xs) later t e = rw e (reset-InTime x.time later)

-- The operations, with the readings of the clock and the results of the reads that they meet.
pub data Op : Type 0 where
  sleeps : (time co start present : ℕ) → Op
  wakes : (start delay : ℕ) → Op
  expires : (present later : ℕ) (reads : List ℤ) → Op

-- A call that has not come back is left out of the account.
abbrev pub state_of : Timer → Option (List ℕ × Timer) → Timer
state_of t none = t
state_of t (some (cos, t')) = t'

unfoldable pub apply : Op → Timer → Timer
apply (sleeps time co start present) t = run_after time co start present t
apply (wakes start delay) t = wake_up start (start + delay) t
apply (expires present later reads) t = state_of t (get_expired present later reads t)

unfoldable pub run : List Op → Timer → Timer
run [] t = t
run (op ∷ ops) t = run ops (apply op t)

drained-IsArmed :
    (later : ℕ) (t t' : Timer) (cos : List ℕ) (left : Option (List ℤ))
    → IsArmed t
    → IsArmed (state_of t (when_drained later t' cos left))
drained-IsArmed later t t' cos none v = v
drained-IsArmed later t t' cos (some rs) v = rearm-IsArmed t'.heap later t' refl

apply-IsArmed : (op : Op) (t : Timer) → IsArmed t → IsArmed (apply op t)
unfolding apply run_after get_expired drain
apply-IsArmed (sleeps time co start present) t v = run_at-IsArmed (start + time) co present t v
apply-IsArmed (wakes start delay) t v = wake_up-IsArmed start (start + delay) t (omega arith)
apply-IsArmed (expires present later reads) t v =
    drained-IsArmed later t (record t { heap = (pop_due present t.heap).1 })
      (pop_due present t.heap).0 (drain reads) v

run-IsArmed : (ops : List Op) (t : Timer) → IsArmed t → IsArmed (run ops t)
unfolding run
run-IsArmed [] t v = v
run-IsArmed (op ∷ ops) t v = run-IsArmed ops (apply op t) (apply-IsArmed op t v)

-- No sleeper is forgotten: after any sequence of `runAfter`, `wakeUp` and `getExpiredCoroutines`, if a
-- coroutine sleeps then the descriptor is set, and it fires by the time of the first entry, or
-- within a microsecond of its setting.
pub run-InTime :
    (ops : List Op) (x : Entry) (xs : List Entry)
    → (run ops new_timer).heap ≡ x ∷ xs
    → InTime x.time (run ops new_timer).armed
run-InTime ops x xs e = rw e at (run-IsArmed ops new_timer tt)

-- What goes to sleep before all others stands in front.
push-first_time :
    (time co : ℕ) (xs : List Entry)
    → All (λ e. time < e.time) xs
    → top_is time (push (record { time = time; co = co }) xs) ≡ true
unfolding push
push-first_time time co [] all = ground arith
push-first_time time co (x ∷ xs) (sooner, all) =
    let first : before (record { time = time; co = co }) x ≡ true = ground (arith, sooner) in
    rw first (ground arith)

-- `wakeUp` sets the descriptor so that it fires a microsecond after the setting. Where a coroutine
-- then goes to sleep until a time to come, before all that sleep, this setting is replaced: from then
-- on the descriptor is set to fire at that time, and no more for the wake-up.
pub wake_up_overwritten :
    (time co start present later : ℕ) (t : Timer)
    → start ≤ present
    → later < time
    → All (λ e. time < e.time) t.heap
    → let woken = wake_up start present t in
      ((s : Setting) × (woken.armed ≡ some s) × (s.set_at ≡ present) × (nanos s.interval ≡ 1000))
      × ((s : Setting) × ((run_at time co later woken).armed ≡ some s)
          × (s.set_at * 1_000_000 + nanos s.interval ≡ time * 1_000_000))
unfolding wake_up run_at reset_timefd
wake_up_overwritten time co start present later t past h sooner = (
  (
    record { set_at = present; interval = time_interval_from_now start present },
    refl,
    refl,
    ground (arith, interval_exact start present),
  ),
  (
    record { set_at = later; interval = time_interval_from_now time later },
    rw (push-first_time time co t.heap sooner) refl,
    ground (arith, interval_exact time later),
  ),
)
