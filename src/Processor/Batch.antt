-- ===== src/Processor/Batch.antt =====
-- `goCoBatch` against a call of `goCo` for each (src/processor.cc).
use net_lib.Prelude.{
  ℕ, suc, ◌+◌, ◌≡◌, refl, sym, ap, ◌∙◌, Bool, true, false, not, List, [], ◌∷◌, ◌++◌, length, arith,
}
use net_lib.Processor.{
  Processor, queue, set_queue, push_new, push_all, wake_up_epoller, go_co, go_co_batch, go_each,
}

abbrev woken : ℕ → Processor → Processor
woken k p = record p { wake_ups = k }

set_queue-woken :
    (r : Bool) (cos : List ℕ) (k : ℕ) (p : Processor)
    → set_queue r cos (woken k p) ≡ woken k (set_queue r cos p)
set_queue-woken true cos k p = refl
set_queue-woken false cos k p = refl

queue-woken : (r : Bool) (k : ℕ) (p : Processor) → queue r (woken k p) ≡ queue r p
queue-woken true k p = refl
queue-woken false k p = refl

push_new-woken : (co k : ℕ) (p : Processor) → push_new co (woken k p) ≡ woken k (push_new co p)
unfolding push_new
push_new-woken co k p =
    let r = not p.running_que in
    let logged = record p { pushed = p.pushed ++ co ∷ [] } in
    ap (λ q. set_queue r (q ++ co ∷ []) (woken k logged)) (queue-woken r k p)
    ∙ set_queue-woken r (queue r p ++ co ∷ []) k logged

push_all-woken :
    (cos : List ℕ) (k : ℕ) (p : Processor) → push_all cos (woken k p) ≡ woken k (push_all cos p)
unfolding push_all
push_all-woken [] k p = refl
push_all-woken (co ∷ cos) k p =
    ap (push_all cos) (push_new-woken co k p) ∙ push_all-woken cos k (push_new co p)

push_new-wake_ups : (co : ℕ) (p : Processor) → (push_new co p).wake_ups ≡ p.wake_ups
unfolding push_new
push_new-wake_ups co p = set_queue-wake_ups (not p.running_que) _ _
  where
    set_queue-wake_ups :
        (r : Bool) (cos : List ℕ) (q : Processor) → (set_queue r cos q).wake_ups ≡ q.wake_ups
    set_queue-wake_ups true cos q = refl
    set_queue-wake_ups false cos q = refl

push_all-wake_ups : (cos : List ℕ) (p : Processor) → (push_all cos p).wake_ups ≡ p.wake_ups
unfolding push_all
push_all-wake_ups [] p = refl
push_all-wake_ups (co ∷ cos) p = push_all-wake_ups cos (push_new co p) ∙ push_new-wake_ups co p

-- A call of `goCo` for each is the pushes of a batch, with a wake-up for each.
go_each-push_all :
    (cos : List ℕ) (p : Processor)
    → go_each cos p ≡ woken (p.wake_ups + length cos) (push_all cos p)
unfolding go_each go_co wake_up_epoller push_all
go_each-push_all [] p = ap (λ k. woken k p) (omega arith)
go_each-push_all (co ∷ cos) p =
    let pushed = push_new co p in
    let awake = suc pushed.wake_ups in
    let count : awake + length cos ≡ p.wake_ups + suc (length cos) =
      omega (arith, push_new-wake_ups co p) in
    go_each-push_all cos (woken awake pushed)
    ∙ ap (woken (awake + length cos)) (push_all-woken cos awake pushed)
    ∙ ap (λ k. woken k (push_all cos pushed)) count

-- `goCoBatch` leaves the processor as a call of `goCo` for each of the coroutines in turn would, with
-- the same queues in the same order, but that it calls `wakeUp` once, also for no coroutine at all,
-- where the calls of `goCo` do so once for each.
pub go_co_batch-go_each :
    (cos : List ℕ) (p : Processor)
    → (go_co_batch cos p ≡ record (go_each cos p) { wake_ups = p.wake_ups + 1 })
      × ((go_each cos p).wake_ups ≡ p.wake_ups + length cos)
unfolding go_co_batch wake_up_epoller
go_co_batch-go_each cos p =
    let e = go_each-push_all cos p in
    let once : suc (push_all cos p).wake_ups ≡ p.wake_ups + 1 =
      omega (arith, push_all-wake_ups cos p) in
    (
      ap (λ k. woken k (push_all cos p)) once ∙ ap (woken (p.wake_ups + 1)) (sym e),
      ap (λ q. q.wake_ups) e,
    )
