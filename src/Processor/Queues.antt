-- ===== src/Processor/Queues.antt =====
-- What a round does to the double queue of new coroutines (src/processor.cc).
use net_lib.Prelude.{
  ℕ, suc, ◌≡◌, refl, sym, ap, ◌∙◌, inl, inr, Bool, true, false, not, Option, none, some, List, [],
  ◌∷◌, ◌++◌, append-nil, append_assoc, member, Bool-cases, arith,
}
use net_lib.Prelude.Family.{update}
use net_lib.Coroutine.{resume}
use net_lib.Processor.{
  Slice, Ending, yields, finishes, sleeps, waits_event, Processor, queue, set_queue, go_co,
  push_new, push_all, wake_up_epoller, go_each, go_co_batch, end_slice, insert, erase, run_slice,
  switch_to, resume_co, resume_all, take_new, run_new, delete_all,
}

-- From `p` to `q` coroutines were only pushed: `new`, in this order, to the queue that is not run.
pub record Pushes (r : Bool) (p q : Processor) : Type 0 where
  pub new : List ℕ
  pub que : q.running_que ≡ p.running_que
  pub running : queue r q ≡ queue r p
  pub adding : queue (not r) q ≡ queue (not r) p ++ new
  pub popped : q.popped ≡ p.popped
  pub pushed : q.pushed ≡ p.pushed ++ new

pub Pushes-refl : (r : Bool) (p : Processor) → Pushes r p p
Pushes-refl r p = record {
  new = [];
  que = refl;
  running = refl;
  adding = sym (append-nil _);
  popped = refl;
  pushed = sym (append-nil _);
}

pub Pushes-trans : (r : Bool) (p q s : Processor) → Pushes r p q → Pushes r q s → Pushes r p s
Pushes-trans r p q s a b = record {
  new = a.new ++ b.new;
  que = b.que ∙ a.que;
  running = b.running ∙ a.running;
  adding = b.adding ∙ ap (λ l. l ++ b.new) a.adding ∙ append_assoc (queue (not r) p) a.new b.new;
  popped = b.popped ∙ a.popped;
  pushed = b.pushed ∙ ap (λ l. l ++ b.new) a.pushed ∙ append_assoc p.pushed a.new b.new;
}

push_new-Pushes :
    (r : Bool) (co : ℕ) (p : Processor) → p.running_que ≡ r → Pushes r p (push_new co p)
unfolding push_new
push_new-Pushes r co p e = record {
  new = co ∷ [];
  que = ground arith;
  running = ground arith;
  adding = ground arith;
  popped = ground arith;
  pushed = ground arith;
}

push_all-Pushes :
    (r : Bool) (cos : List ℕ) (p : Processor) → p.running_que ≡ r → Pushes r p (push_all cos p)
unfolding push_all
push_all-Pushes r [] p e = Pushes-refl r p
push_all-Pushes r (co ∷ cos) p e =
    let first = push_new-Pushes r co p e in
    Pushes-trans r p (push_new co p) _ first (push_all-Pushes r cos (push_new co p) (first.que ∙ e))

-- What the queues do not depend on.
pub queue-same :
    (r : Bool) (p q : Processor) → q.que_0 ≡ p.que_0 → q.que_1 ≡ p.que_1 → queue r q ≡ queue r p
queue-same true p q a b = b
queue-same false p q a b = a

Same-Pushes :
    (r : Bool) (p q : Processor)
    → q.running_que ≡ p.running_que
    → q.que_0 ≡ p.que_0
    → q.que_1 ≡ p.que_1
    → q.popped ≡ p.popped
    → q.pushed ≡ p.pushed
    → Pushes r p q
Same-Pushes r p q e a b c d = record {
  new = [];
  que = e;
  running = queue-same r p q a b;
  adding = queue-same (not r) p q a b ∙ sym (append-nil _);
  popped = c;
  pushed = d ∙ sym (append-nil _);
}

end_slice-Pushes : (r : Bool) (p : Processor) (e : Ending) (co : ℕ) → Pushes r p (end_slice e co p)
end_slice-Pushes r p yields co = Same-Pushes r p _ refl refl refl refl refl
end_slice-Pushes r p (sleeps time) co = Same-Pushes r p _ refl refl refl refl refl
end_slice-Pushes r p (waits_event fd ev added) co = Same-Pushes r p _ refl refl refl refl refl
end_slice-Pushes r p finishes co = Same-Pushes r p _ refl refl refl refl refl

wake_up_epoller-Pushes :
    (r : Bool) (p q : Processor) → Pushes r p q → Pushes r p (wake_up_epoller q)
unfolding wake_up_epoller
wake_up_epoller-Pushes r p q v =
    Pushes-trans r p q _ v
      (Same-Pushes r q (record q { wake_ups = suc q.wake_ups }) refl refl refl refl refl)

pub go_co_batch-Pushes :
    (r : Bool) (cos : List ℕ) (p : Processor) → p.running_que ≡ r → Pushes r p (go_co_batch cos p)
unfolding go_co_batch
go_co_batch-Pushes r cos p e = wake_up_epoller-Pushes r p _ (push_all-Pushes r cos p e)

go_each-Pushes :
    (r : Bool) (cos : List ℕ) (p : Processor) → p.running_que ≡ r → Pushes r p (go_each cos p)
unfolding go_each go_co
go_each-Pushes r [] p e = Pushes-refl r p
go_each-Pushes r (co ∷ cos) p e =
    let first = wake_up_epoller-Pushes r p (push_new co p) (push_new-Pushes r co p e) in
    Pushes-trans r p (go_co co p) _ first (go_each-Pushes r cos (go_co co p) (first.que ∙ e))

module _ (behaviour : ℕ → Slice) (r : Bool) where
  run_slice-Pushes :
      (co : ℕ) (p : Processor) → p.running_que ≡ r → Pushes r p (run_slice behaviour co p)
  unfolding run_slice
  run_slice-Pushes co p e =
      let s = behaviour p.slices in
      let q : Processor = record p { slices = suc p.slices; ran = p.ran ++ co ∷ [] } in
      let batch = go_each-Pushes r s.goes q e in
      Pushes-trans r p q _ (Same-Pushes r p q refl refl refl refl refl)
        (Pushes-trans r q _ _ batch (end_slice-Pushes r (go_each s.goes q) s.ending co))

  switch_to-Pushes :
      (co : ℕ) (p : Processor) → p.running_que ≡ r → Pushes r p (switch_to behaviour co p)
  unfolding switch_to
  switch_to-Pushes co p e =
      let started : Processor = record p {
        cur = some co;
        co_status = update p.co_status co (resume (p.co_status co)).0;
      } in
      let start = Same-Pushes r p started refl refl refl refl refl in
      elim (Bool-cases (resume (p.co_status co)).1) [
        | inl switched ↦
            rw switched (Pushes-trans r p started _ start (run_slice-Pushes co started e))
        | inr not_switched ↦ rw not_switched start
      ]

  resume_co-Pushes :
      (co : Option ℕ) (p : Processor) → p.running_que ≡ r → Pushes r p (resume_co behaviour co p)
  unfolding resume_co
  resume_co-Pushes none p e = Pushes-refl r p
  resume_co-Pushes (some co) p e = elim (Bool-cases (member co p.co_set)) [
    | inl present ↦ elim (Bool-cases (member co p.deleted)) [
      | inl gone ↦ rw (present, gone) (Same-Pushes r p _ refl refl refl refl refl)
      | inr kept ↦ rw (present, kept) (switch_to-Pushes co p e)
    ]
    | inr absent ↦ rw absent (Pushes-refl r p)
  ]

  pub resume_all-Pushes :
      (cos : List (Option ℕ)) (p : Processor)
      → p.running_que ≡ r
      → Pushes r p (resume_all behaviour cos p)
  unfolding resume_all
  resume_all-Pushes [] p e = Pushes-refl r p
  resume_all-Pushes (co ∷ cos) p e =
      let first = resume_co-Pushes co p e in
      Pushes-trans r p _ _ first (resume_all-Pushes cos _ (first.que ∙ e))

-- The loop over the running queue ran `cos`, which were all that it held.
pub record Runs (r : Bool) (cos : List ℕ) (p q : Processor) : Type 0 where
  pub new : List ℕ
  pub que : q.running_que ≡ p.running_que
  pub running : queue r q ≡ []
  pub adding : queue (not r) q ≡ queue (not r) p ++ new
  pub popped : q.popped ≡ p.popped ++ cos
  pub pushed : q.pushed ≡ p.pushed ++ new

queue-set_queue : (r : Bool) (cos : List ℕ) (p : Processor) → queue r (set_queue r cos p) ≡ cos
queue-set_queue true cos p = refl
queue-set_queue false cos p = refl

queue-other :
    (r : Bool) (cos : List ℕ) (p : Processor) → queue (not r) (set_queue r cos p) ≡ queue (not r) p
queue-other true cos p = refl
queue-other false cos p = refl

set_queue-rest :
    (r : Bool) (cos : List ℕ) (p : Processor)
    → ((set_queue r cos p).running_que ≡ p.running_que)
      × ((set_queue r cos p).popped ≡ p.popped)
      × ((set_queue r cos p).pushed ≡ p.pushed)
set_queue-rest true cos p = (refl, refl, refl)
set_queue-rest false cos p = (refl, refl, refl)

module _ (behaviour : ℕ → Slice) (r : Bool) where
  take_new-Runs :
      (co : ℕ) (rest : List ℕ) (p : Processor)
      → p.running_que ≡ r
      → let q = take_new behaviour r co rest p in
        (queue r q ≡ rest)
        × (q.popped ≡ p.popped ++ co ∷ [])
        × (new : List ℕ) × (queue (not r) q ≡ queue (not r) p ++ new)
        × (q.pushed ≡ p.pushed ++ new)
        × (q.running_que ≡ p.running_que)
  unfolding take_new
  take_new-Runs co rest p e =
      let taken : Processor = record p {
        co_set = insert co p.co_set;
        popped = p.popped ++ co ∷ [];
      } in
      let started = set_queue r rest taken in
      let (same_que, same_popped, same_pushed) = set_queue-rest r rest taken in
      let v = resume_co-Pushes behaviour r (some co) started (same_que ∙ e) in
      (
        v.running ∙ queue-set_queue r rest taken,
        v.popped ∙ same_popped,
        v.new,
        v.adding
            ∙ ap (λ l. l ++ v.new)
                (queue-other r rest taken ∙ queue-same (not r) p taken refl refl),
        v.pushed ∙ ap (λ l. l ++ v.new) same_pushed,
        v.que ∙ same_que,
      )

  pub run_new-Runs :
      (cos : List ℕ) (p : Processor)
      → p.running_que ≡ r
      → queue r p ≡ cos
      → Runs r cos p (run_new behaviour r cos p)
  unfolding run_new
  run_new-Runs [] p e whole = record {
    new = [];
    que = refl;
    running = whole;
    adding = sym (append-nil _);
    popped = sym (append-nil _);
    pushed = sym (append-nil _);
  }
  run_new-Runs (co ∷ cos) p e whole =
      let (left, popped, new, adding, pushed, que) = take_new-Runs co cos p e in
      let v = run_new-Runs cos (take_new behaviour r co cos p) (que ∙ e) left in
      record {
        new = new ++ v.new;
        que = v.que ∙ que;
        running = v.running;
        adding = v.adding ∙ ap (λ l. l ++ v.new) adding ∙ append_assoc (queue (not r) p) new v.new;
        popped = v.popped ∙ ap (λ l. l ++ cos) popped ∙ append_assoc p.popped (co ∷ []) cos;
        pushed = v.pushed ∙ ap (λ l. l ++ v.new) pushed ∙ append_assoc p.pushed new v.new;
      }

pub delete_all-Pushes : (r : Bool) (cos : List ℕ) (p : Processor) → Pushes r p (delete_all cos p)
unfolding delete_all
delete_all-Pushes r [] p = Pushes-refl r p
delete_all-Pushes r (co ∷ cos) p =
    let q : Processor = record p { co_set = erase co p.co_set; deleted = p.deleted ++ co ∷ [] } in
    Pushes-trans r p q _ (Same-Pushes r p q refl refl refl refl refl) (delete_all-Pushes r cos q)

pub not-not : (r : Bool) → not (not r) ≡ r
not-not true = refl
not-not false = refl
