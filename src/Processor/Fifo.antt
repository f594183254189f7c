-- ===== src/Processor/Fifo.antt =====
-- In which order, and when: what a processor does with the coroutines handed to it (src/processor.cc).
use mathlib.Core.Path.{subst}
use net_lib.Prelude.{
  ℕ, ◌≡◌, refl, sym, ap, ◌∙◌, Bool, not, Option, List, [], ◌∷◌, ◌++◌, append_assoc,
}
use net_lib.Processor.{
  Slice, Processor, new_processor, queue, go_co_batch, resume_all, run_new, delete_all, flip,
  clear_removed, round,
}
use net_lib.Processor.Queues.{
  Pushes, Pushes-trans, go_co_batch-Pushes, queue-same, resume_all-Pushes, run_new-Runs,
  delete_all-Pushes, not-not,
}

-- What a round does, and what its part from the loop over the running queue on does.
record Turns (r : Bool) (p q : Processor) : Type 0 where
  before : List ℕ
  after : List ℕ
  que : q.running_que ≡ not r
  popped : q.popped ≡ p.popped ++ queue r p
  adding : queue (not r) q ≡ queue (not r) p ++ before
  running : queue r q ≡ after
  pushed : q.pushed ≡ p.pushed ++ (before ++ after)

turn-Turns :
    (behaviour : ℕ → Slice) (active : List (Option ℕ)) (p : Processor)
    → let p2 = run_new behaviour p.running_que (queue p.running_que p) p in
      let p3 = resume_all behaviour active (flip p2) in
      Turns p.running_que p (clear_removed (delete_all p3.removed p3))
unfolding flip clear_removed
turn-Turns behaviour active p =
    let r = p.running_que in
    let p2 = run_new behaviour r (queue r p) p in
    let p3 = resume_all behaviour active (flip p2) in
    let p4 = delete_all p3.removed p3 in
    let b = run_new-Runs behaviour r (queue r p) p refl refl in
    let c = resume_all-Pushes behaviour (not r) active (flip p2) (ap not b.que) in
    let d = Pushes-trans (not r) (flip p2) p3 p4 c (delete_all-Pushes (not r) p3.removed p3) in
    let other : queue r p4 ≡ queue r p2 ++ d.new =
      subst (λ s. queue s p4 ≡ queue s p2 ++ d.new) (not-not r)
        (d.adding ∙ ap (λ l. l ++ d.new) (queue-same (not (not r)) p2 (flip p2) refl refl)) in
    record {
      before = b.new;
      after = d.new;
      que = d.que ∙ ap not b.que;
      popped = d.popped ∙ b.popped;
      adding =
          queue-same (not r) p4 (clear_removed p4) refl refl
          ∙ d.running
          ∙ queue-same (not r) p2 (flip p2) refl refl
          ∙ b.adding;
      running =
          queue-same r p4 (clear_removed p4) refl refl ∙ other ∙ ap (λ l. l ++ d.new) b.running;
      pushed = d.pushed ∙ ap (λ l. l ++ d.new) b.pushed ∙ append_assoc p.pushed b.new d.new;
    }

Pushes-Turns : (r : Bool) (p q s : Processor) → Pushes r p q → Turns r q s → Turns r p s
Pushes-Turns r p q s a b = record {
  before = a.new ++ b.before;
  after = b.after;
  que = b.que;
  popped = b.popped ∙ ap (λ l. l ++ queue r q) a.popped ∙ ap (λ l. p.popped ++ l) a.running;
  adding =
      b.adding ∙ ap (λ l. l ++ b.before) a.adding ∙ append_assoc (queue (not r) p) a.new b.before;
  running = b.running;
  pushed =
      b.pushed
      ∙ ap (λ l. l ++ (b.before ++ b.after)) a.pushed
      ∙ append_assoc p.pushed a.new (b.before ++ b.after)
      ∙ ap (λ l. p.pushed ++ l) (sym (append_assoc a.new b.before b.after));
}

round-Turns :
    (behaviour : ℕ → Slice) (expired active : List (Option ℕ)) (p : Processor)
    → Turns p.running_que p (round behaviour expired active p)
unfolding round
round-Turns behaviour expired active p =
    let p1 = resume_all behaviour expired p in
    let a = resume_all-Pushes behaviour p.running_que expired p refl in
    let turned = turn-Turns behaviour active p1 in
    Pushes-Turns p.running_que p p1 _ a
      (subst (λ r. Turns r p1 (round behaviour expired active p)) a.que turned)

-- One round of the processor's thread takes every coroutine of the running queue, in order. What is
-- handed to `goCo` meanwhile, by the coroutines that run, goes behind the other queue before the
-- exchange, and to the emptied queue after it. The round ends with the queues exchanged.
pub round_fifo :
    (behaviour : ℕ → Slice) (expired active : List (Option ℕ)) (p : Processor)
    → let r = p.running_que in
      let p' = round behaviour expired active p in
      (before after : List ℕ) × (p'.running_que ≡ not r)
      × (p'.popped ≡ p.popped ++ queue r p)
      × (queue (not r) p' ≡ queue (not r) p ++ before)
      × (queue r p' ≡ after)
      × (p'.pushed ≡ p.pushed ++ (before ++ after))
round_fifo behaviour expired active p =
    let t = round-Turns behaviour expired active p in
    (t.before, t.after, t.que, t.popped, t.adding, t.running, t.pushed)

-- No coroutine waits for longer than two rounds of the processor's thread: after two rounds, whatever
-- runs in them, all that waited in the two queues has been taken, the running queue first, each in
-- its order.
pub taken_in_two_rounds :
    (behaviour : ℕ → Slice) (expired active expired' active' : List (Option ℕ)) (p : Processor)
    → let r = p.running_que in
      let p' = round behaviour expired' active' (round behaviour expired active p) in
      (more : List ℕ) × (p'.popped ≡ p.popped ++ (queue r p ++ (queue (not r) p ++ more)))
taken_in_two_rounds behaviour expired active expired' active' p =
    let r = p.running_que in
    let q = round behaviour expired active p in
    let a = round-Turns behaviour expired active p in
    let b = round-Turns behaviour expired' active' q in
    (
      a.before,
      b.popped
          ∙ ap (λ s. q.popped ++ queue s q) a.que
          ∙ ap (λ l. q.popped ++ l) a.adding
          ∙ ap (λ l. l ++ (queue (not r) p ++ a.before)) a.popped
          ∙ append_assoc p.popped (queue r p) (queue (not r) p ++ a.before),
    )

-- What happens to a processor: another thread hands it coroutines, or its thread does a round.
pub data Event : Type 0 where
  goes : List ℕ → Event
  rounds : (expired active : List (Option ℕ)) → Event

unfoldable pub happen : (ℕ → Slice) → Event → Processor → Processor
happen behaviour (goes cos) p = go_co_batch cos p
happen behaviour (rounds expired active) p = round behaviour expired active p

unfoldable pub history : (ℕ → Slice) → List Event → Processor → Processor
history behaviour [] p = p
history behaviour (e ∷ es) p = history behaviour es (happen behaviour e p)

abbrev FifoAt : Bool → Processor → Type 0
FifoAt r p = p.pushed ≡ p.popped ++ (queue r p ++ queue (not r) p)

abbrev IsFifo : Processor → Type 0
IsFifo p = FifoAt p.running_que p

regroup : (a b c d : List ℕ) → (a ++ (b ++ c)) ++ d ≡ a ++ (b ++ (c ++ d))
regroup a b c d = append_assoc a (b ++ c) d ∙ ap (λ l. a ++ l) (append_assoc b c d)

turned : (a b c d e : List ℕ) → (a ++ (b ++ c)) ++ (d ++ e) ≡ (a ++ b) ++ ((c ++ d) ++ e)
turned a b c d e =
    regroup a b c (d ++ e)
    ∙ sym (append_assoc a b (c ++ (d ++ e)))
    ∙ ap (λ l. (a ++ b) ++ l) (sym (append_assoc c d e))

Pushes-IsFifo : (p q : Processor) → Pushes p.running_que p q → IsFifo p → IsFifo q
Pushes-IsFifo p q a h =
    let r = p.running_que in
    subst (λ s. FifoAt s q) (sym a.que)
      (rw (a.running, a.adding, a.pushed, a.popped)
        (ap (λ l. l ++ a.new) h ∙ regroup p.popped (queue r p) (queue (not r) p) a.new))

Turns-IsFifo : (p q : Processor) → Turns p.running_que p q → IsFifo p → IsFifo q
Turns-IsFifo p q a h =
    let r = p.running_que in
    subst (λ s. FifoAt s q) (sym a.que)
      (rw (not-not r, a.running, a.adding, a.pushed, a.popped)
        (ap (λ l. l ++ (a.before ++ a.after)) h
          ∙ turned p.popped (queue r p) (queue (not r) p) a.before a.after))

happen-IsFifo :
    (behaviour : ℕ → Slice) (e : Event) (p : Processor) → IsFifo p → IsFifo (happen behaviour e p)
unfolding happen
happen-IsFifo behaviour (goes cos) p h =
    Pushes-IsFifo p _ (go_co_batch-Pushes p.running_que cos p refl) h
happen-IsFifo behaviour (rounds expired active) p h =
    Turns-IsFifo p _ (round-Turns behaviour expired active p) h

history-IsFifo :
    (behaviour : ℕ → Slice) (es : List Event) (p : Processor)
    → IsFifo p
    → IsFifo (history behaviour es p)
unfolding history
history-IsFifo behaviour [] p h = h
history-IsFifo behaviour (e ∷ es) p h =
    history-IsFifo behaviour es _ (happen-IsFifo behaviour e p h)

-- After any sequence of calls of `goCoBatch` and rounds of the processor's thread, from a new
-- processor: the coroutines that were handed to it are, in order, those that were taken from its
-- queues and those that wait, the running queue before the other. No one is lost, doubled or
-- overtaken.
pub history_fifo :
    (behaviour : ℕ → Slice) (es : List Event)
    → let p = history behaviour es new_processor in
      p.pushed ≡ p.popped ++ (queue p.running_que p ++ queue (not p.running_que) p)
history_fifo behaviour es = history-IsFifo behaviour es new_processor refl
