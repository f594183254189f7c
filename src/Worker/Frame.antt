-- ===== src/Worker/Frame.antt =====
-- What the parts of a step do to the places of a coroutine (src/processor.cc).
use net_lib.Prelude.{
  ℕ, ◌+◌, ◌≡◌, refl, sym, ap, ◌∙◌, inl, inr, Bool, true, false, not, Option, none, some, List, [],
  ◌∷◌, ◌++◌, member, leb, ◌==◌, if◌then◌else◌, Bool-cases, arith,
}
use net_lib.Prelude.Int.{ℤ}
use mathlib.Core.Option
use net_lib.Processor.{
  Processor, queue, set_queue, push_new, push_all, wake_up_epoller, go_co, go_co_batch, go_each,
  insert, erase, pop_new, delete_all,
}
use net_lib.Processor.Ended.{count, count-append}
use net_lib.Timer.{
  Timer, Entry, push, wake_up, reset_timefd, run_after, run_at, top_is, before, pop_due, drain,
  rearm, when_drained, get_expired,
}
use net_lib.Worker.{Watch, unwatch, wake_each}
use net_lib.Worker.Places.{queued, entry_cos, watch_cos}

-- The queues.
set_queue-queued :
    (r : Bool) (c : ℕ) (cos : List ℕ) (p : Processor)
    → queued c (set_queue r cos p) + count c (queue r p) ≡ queued c p + count c cos
set_queue-queued true c cos p = omega arith
set_queue-queued false c cos p = omega arith

-- From `p` to `q`, which keeps its coroutine set and its log, the coroutines `cos` were queued.
pub record Queues (cos : List ℕ) (p q : Processor) : Type 0 where
  pub added : (c : ℕ) → queued c q ≡ queued c p + count c cos
  pub co_set : q.co_set ≡ p.co_set
  pub ran : q.ran ≡ p.ran

push_new-Queues : (co : ℕ) (p : Processor) → Queues (co ∷ []) p (push_new co p)
unfolding push_new
push_new-Queues co p = kept (not p.running_que)
  where
    kept :
        (r : Bool)
        → Queues
            (co ∷ [])
            p
            (set_queue r (queue r p ++ co ∷ []) (record p { pushed = p.pushed ++ co ∷ [] }))
    kept true = record {
      added = λ c. omega (arith, count-append c p.que_1 (co ∷ []));
      co_set = refl;
      ran = refl;
    }
    kept false = record {
      added = λ c. omega (arith, count-append c p.que_0 (co ∷ []));
      co_set = refl;
      ran = refl;
    }

Queues-trans :
    (co : ℕ) (cos : List ℕ) (p q s : Processor)
    → Queues (co ∷ []) p q
    → Queues cos q s
    → Queues (co ∷ cos) p s
Queues-trans co cos p q s a b = record {
  added = λ c. omega (arith, a.added c, b.added c);
  co_set = b.co_set ∙ a.co_set;
  ran = b.ran ∙ a.ran;
}

push_all-Queues : (cos : List ℕ) (p : Processor) → Queues cos p (push_all cos p)
unfolding push_all
push_all-Queues [] p = record { added = λ c. omega arith; co_set = refl; ran = refl }
push_all-Queues (co ∷ cos) p =
    Queues-trans co cos p _ _ (push_new-Queues co p) (push_all-Queues cos (push_new co p))

pub go_co_batch-Queues : (cos : List ℕ) (p : Processor) → Queues cos p (go_co_batch cos p)
unfolding go_co_batch wake_up_epoller
go_co_batch-Queues cos p =
    let v = push_all-Queues cos p in record { added = v.added; co_set = v.co_set; ran = v.ran }

pub go_each-Queues : (cos : List ℕ) (p : Processor) → Queues cos p (go_each cos p)
unfolding go_each go_co wake_up_epoller
go_each-Queues [] p = record { added = λ c. omega arith; co_set = refl; ran = refl }
go_each-Queues (co ∷ cos) p =
    let v = push_new-Queues co p in
    Queues-trans co cos p (go_co co p) _
      (record { added = v.added; co_set = v.co_set; ran = v.ran }) (go_each-Queues cos (go_co co p))

pub pop_new-queued :
    (r : Bool) (c co : ℕ) (rest : List ℕ) (p : Processor)
    → queue r p ≡ co ∷ rest
    → queued c (pop_new r co rest p) + count c (co ∷ []) ≡ queued c p
pop_new-queued true c co rest p e = omega (arith, ap (count c) e)
pop_new-queued false c co rest p e = omega (arith, ap (count c) e)

-- `coSet_`
pub member-insert :
    (c co : ℕ) (cos : List ℕ) → member c cos ≡ true → member c (insert co cos) ≡ true
member-insert c co cos h = ground arith

pub member-insert_self : (co : ℕ) (cos : List ℕ) → member co (insert co cos) ≡ true
member-insert_self co cos = ground arith

member-erase :
    (c co : ℕ) (cos : List ℕ) → (c == co) ≡ false → member c (erase co cos) ≡ member c cos
member-erase c co [] ne = refl
member-erase c co (x ∷ xs) ne = ground (arith, member-erase c co xs ne)

pub delete_all-member :
    (c : ℕ) (cos : List ℕ) (p : Processor)
    → count c cos ≡ 0
    → member c (delete_all cos p).co_set ≡ member c p.co_set
unfolding delete_all
delete_all-member c [] p h = refl
delete_all-member c (co ∷ cos) p h =
    delete_all-member c cos
      (record p { co_set = erase co p.co_set; deleted = p.deleted ++ co ∷ [] }) (omega (arith, h))
    ∙ member-erase c co p.co_set (ground (arith, h))

pub delete_all-queued :
    (c : ℕ) (cos : List ℕ) (p : Processor) → queued c (delete_all cos p) ≡ queued c p
unfolding delete_all
delete_all-queued c [] p = refl
delete_all-queued c (co ∷ cos) p =
    delete_all-queued c cos
      (record p { co_set = erase co p.co_set; deleted = p.deleted ++ co ∷ [] })

-- The timer's queue.
push-count :
    (c : ℕ) (e : Entry) (es : List Entry)
    → count c (entry_cos (push e es)) ≡ count c (entry_cos es) + count c (e.co ∷ [])
unfolding push
push-count c e [] = omega arith
push-count c e (x ∷ xs) = elim (Bool-cases (before e x)) [
  | inl first ↦ rw first (omega arith)
  | inr after ↦ rw after (omega (arith, push-count c e xs))
]

pub run_after-count :
    (c time co start present : ℕ) (t : Timer)
    → count c (entry_cos (run_after time co start present t).heap)
      ≡ count c (entry_cos t.heap) + count c (co ∷ [])
unfolding run_after run_at reset_timefd
run_after-count c time co start present t =
    let e : Entry = record { time = start + time; co = co } in
    elim (Bool-cases (top_is (start + time) (push e t.heap))) [
      | inl top ↦ rw top (push-count c e t.heap)
      | inr other ↦ rw other (push-count c e t.heap)
    ]

pub wake_each-heap :
    (clock : ℕ → ℕ) (k : ℕ) (cos : List ℕ) (t : Timer) → (wake_each clock k cos t).heap ≡ t.heap
unfolding wake_each wake_up reset_timefd
wake_each-heap clock k [] t = refl
wake_each-heap clock k (co ∷ cos) t =
    wake_each-heap clock (k + 2) cos (wake_up (clock k) (clock (k + 1)) t)

pop_due-count :
    (c present : ℕ) (es : List Entry)
    → count c (pop_due present es).0 + count c (entry_cos (pop_due present es).1)
      ≡ count c (entry_cos es)
unfolding pop_due
pop_due-count c present [] = omega arith
pop_due-count c present (x ∷ xs) = elim (Bool-cases (leb x.time present)) [
  | inl is_due ↦ rw is_due (omega (arith, pop_due-count c present xs))
  | inr waits ↦ rw waits (omega arith)
]

rearm-heap : (xs : List Entry) (later : ℕ) (t : Timer) → (rearm xs later t).heap ≡ t.heap
unfolding reset_timefd
rearm-heap [] later t = refl
rearm-heap (x ∷ xs) later t = refl

when_drained-some :
    (later : ℕ) (t u : Timer) (cos due : List ℕ) (left : Option (List ℤ))
    → when_drained later t cos left ≡ some (due, u)
    → (due ≡ cos) × (u.heap ≡ t.heap)
when_drained-some later t u cos due none e = cc
when_drained-some later t u cos due (some rs) e =
    let pair : (cos, rearm t.heap later t) ≡ (due, u) = ap (λ o. Option.get_or o (due, u)) e in
    (sym (ap (λ x. x.0) pair), sym (ap (λ x. x.1.heap) pair) ∙ rearm-heap t.heap later t)

-- What is handed out leaves the queue.
pub get_expired-count :
    (c present later : ℕ) (reads : List ℤ) (t u : Timer) (due : List ℕ)
    → get_expired present later reads t ≡ some (due, u)
    → count c due + count c (entry_cos u.heap) ≡ count c (entry_cos t.heap)
unfolding get_expired
get_expired-count c present later reads t u due e =
    let rest : Timer = record t { heap = (pop_due present t.heap).1 } in
    let (a, b) = when_drained-some later rest u (pop_due present t.heap).0 due (drain reads) e in
    omega (arith, pop_due-count c present t.heap, ap (count c) a, ap (λ h. count c (entry_cos h)) b)

-- What is watched.
pub unwatch-count :
    (c co : ℕ) (ws : List Watch)
    → count c (watch_cos (unwatch co ws)) ≡ (if co == c then 0 else count c (watch_cos ws))
unfolding unwatch
unwatch-count c co [] = ground arith
unwatch-count c co (w ∷ ws) = ground (arith, unwatch-count c co ws)
