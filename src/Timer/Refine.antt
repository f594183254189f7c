-- ===== src/Timer/Refine.antt =====
-- The timer against its specification, over any sequence of its operations (src/timer.cc).
use mathlib.Core.Quot
use mathlib.Core.Path.{subst}
use net_lib.Prelude.{
  ℕ, ◌+◌, ◌≡◌, refl, sym, ap, ◌∙◌, inl, inr, true, false, Option, none, some, List, [], ◌∷◌, map,
  Bool-cases,
}
use net_lib.Prelude.Int.{ℤ}
use net_lib.Timer.{
  Entry, Timer, new_timer, push, top_is, reset_timefd, run_at, run_after, wake_up, pop_due, drain,
  rearm, when_drained, get_expired,
}
use net_lib.Timer.Heap.{IsSorted, push-IsSorted}
use net_lib.Timer.Expiry.{rearm-heap}
use net_lib.Timer.Arming.{Op, sleeps, wakes, expires, apply, run, state_of}
use net_lib.Timer.Spec.{Sleepers, order, order_self, add, select, selected, add-mk, selected-mk}
use net_lib.Timer.Sort.{push-Permᴰ}
use net_lib.Timer.Due.{pop_due-select, select-IsSorted}

-- What the specification says of each operation; `left` are the results of the reads that are left.
abbrev abs_expire : ℕ → Option (List ℤ) → Sleepers → Sleepers
abs_expire present none s = s
abs_expire present (some left) s = selected false present s

abbrev pub abs_apply : Op → Sleepers → Sleepers
abs_apply (sleeps time co start present) s = add (record { time = start + time; co = co }) s
abs_apply (wakes start delay) s = s
abs_apply (expires present later reads) s = abs_expire present (drain reads) s

unfoldable pub abs_run : List Op → Sleepers → Sleepers
abs_run [] s = s
abs_run (op ∷ ops) s = abs_run ops (abs_apply op s)

record Refines (t : Timer) (s : Sleepers) : Type 0 where
  same : Quot.mk t.heap ≡ s
  sorted : IsSorted t.heap

run_at-heap :
    (time co present : ℕ) (t : Timer)
    → (run_at time co present t).heap ≡ push (record { time = time; co = co }) t.heap
unfolding run_at reset_timefd
run_at-heap time co present t =
    elim (Bool-cases (top_is time (push (record { time = time; co = co }) t.heap))) [
      | inl top ↦ rw top refl
      | inr other ↦ rw other refl
    ]

expired_heap :
    (present later : ℕ) (reads left : List ℤ) (t : Timer)
    → drain reads ≡ some left
    → let rest = (pop_due present t.heap).1 in
      let t' = rearm rest later (record t { heap = rest }) in
      get_expired present later reads t ≡ some ((pop_due present t.heap).0, t')
unfolding get_expired
expired_heap present later reads left t e = rw e refl

pop_due-Refines :
    (present later : ℕ) (t : Timer) (s : Sleepers)
    → Refines t s
    → let rest = (pop_due present t.heap).1 in
      Refines (rearm rest later (record t { heap = rest })) (selected false present s)
pop_due-Refines present later t s v =
    let rest = (pop_due present t.heap).1 in
    let heap : (rearm rest later (record t { heap = rest })).heap ≡ select false present t.heap =
      rearm-heap rest later (record t { heap = rest })
      ∙ (pop_due-select present t.heap v.sorted).1 in
    record {
      same =
          ap Quot.mk heap
          ∙ sym (selected-mk false present t.heap)
          ∙ ap (selected false present) v.same;
      sorted = subst IsSorted (sym heap) (select-IsSorted present false t.heap v.sorted);
    }

drained-Refines :
    (present later : ℕ) (t : Timer) (s : Sleepers) (left : Option (List ℤ))
    → Refines t s
    → let (cos, rest) = pop_due present t.heap in
      Refines
        (state_of t (when_drained later (record t { heap = rest }) cos left))
        (abs_expire present left s)
drained-Refines present later t s none v = v
drained-Refines present later t s (some left) v = pop_due-Refines present later t s v

apply-Refines :
    (op : Op) (t : Timer) (s : Sleepers) → Refines t s → Refines (apply op t) (abs_apply op s)
unfolding apply run_after wake_up reset_timefd get_expired
apply-Refines (sleeps time co start present) t s v =
    let e : Entry = record { time = start + time; co = co } in
    let heap = run_at-heap (start + time) co present t in
    record {
      same =
          ap Quot.mk heap
          ∙ Quot.sound (push-Permᴰ e t.heap)
          ∙ sym (add-mk e t.heap)
          ∙ ap (add e) v.same;
      sorted = subst IsSorted (sym heap) (push-IsSorted e t.heap v.sorted);
    }
apply-Refines (wakes start delay) t s v = record { same = v.same; sorted = v.sorted }
apply-Refines (expires present later reads) t s v =
    drained-Refines present later t s (drain reads) v

run-Refines :
    (ops : List Op) (t : Timer) (s : Sleepers) → Refines t s → Refines (run ops t) (abs_run ops s)
unfolding run abs_run
run-Refines [] t s v = v
run-Refines (op ∷ ops) t s v =
    run-Refines ops (apply op t) (abs_apply op s) (apply-Refines op t s v)

abbrev pub nobody : Sleepers
nobody = Quot.mk []

-- After any sequence of `runAfter`, `wakeUp` and `getExpiredCoroutines`, the queue is the ordered list
-- of the sleepers that the specification has, whatever the order of their calls: those that were
-- added, without those that were due at an earlier `getExpiredCoroutines` that returned. And a
-- `getExpiredCoroutines` that drains the descriptor then returns, hands out the coroutines of just the
-- sleepers that are due, ordered by time and then by address, and keeps the others.
pub timer_refines :
    (ops : List Op) (present later : ℕ) (reads left : List ℤ)
    → drain reads ≡ some left
    → let t = run ops new_timer in
      let s = abs_run ops nobody in
      (t.heap ≡ order s)
      × ((t' : Timer) × (get_expired present later reads t
            ≡ some (map (λ e. e.co) (order (selected true present s)), t'))
          × (t'.heap ≡ order (selected false present s)))
timer_refines ops present later reads left e =
    let t = run ops new_timer in
    let v = run-Refines ops new_timer nobody (record { same = refl; sorted = tt }) in
    let due = select true present t.heap in
    let t' =
      rearm (pop_due present t.heap).1 later (record t { heap = (pop_due present t.heap).1 }) in
    let w = pop_due-Refines present later t _ v in
    let handed : due ≡ order (selected true present (abs_run ops nobody)) =
      sym (order_self due (select-IsSorted present true t.heap v.sorted))
      ∙ ap order (sym (selected-mk true present t.heap) ∙ ap (selected true present) v.same) in
    (
      sym (order_self t.heap v.sorted) ∙ ap order v.same,
      (
        t',
        expired_heap present later reads left t e
            ∙ ap (λ cos. some (cos, t'))
                ((pop_due-select present t.heap v.sorted).0 ∙ ap (map (λ e. e.co)) handed),
        sym (order_self _ w.sorted) ∙ ap order w.same,
      ),
    )
