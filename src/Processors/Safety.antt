-- ===== src/Processors/Safety.antt =====
-- What holds of the processors and their lock in every state that they reach.
use mathlib.Core.Path.{subst}
use net_lib.Prelude.{
  ℕ, ◌+◌, ◌≤◌, ◌<◌, ◌≡◌, ◌⊎◌, sym, ◌∙◌, inl, inr, false, List, arith, Bool-cases, ◌==◌, ==_iff,
}
use net_lib.Prelude.Int.{ℤ}
use net_lib.Processor.Ended.{count}
use net_lib.RwMutex.System
use net_lib.RwMutex.System.{
  System, call_rlock, call_wlock, enter_rlock, enter_wlock, call_runlock, call_wunlock, wants_read,
  wants_write, reading, writing,
}
use net_lib.RwMutex.Invariant.{Reach-Inv}
use net_lib.RwMutex.Safety.{holder}
use net_lib.Worker.Steps
use net_lib.Processors.{
  Slot, looping, running, Processors, Step, works, takes, creates, calls_rlock, calls_wlock,
  enters_rlock, enters_wlock, runlocks, wunlocks, yields_refused, ends_slice, Reach, start, later,
  at_rest, go_all,
}
use net_lib.Processors.Invariant.{held, ready, SlotReach}
use net_lib.Processors.Handing.{create-Inv}
use net_lib.Processors.Moves.{works-Inv, takes-Inv, yields-Inv, ends-Inv}
use net_lib.Processors.LockMoves.{IsInv, runner-lt, moved-Inv, enter_rlock-IsInv, enter_wlock-IsInv}
use net_lib.Processors.Unlocks.{runlock-IsInv, wunlock-IsInv, go_all-lock}

record Kept (n : ℕ) (fd : ℕ → ℤ) (f : Processors) : Type 0 where
  places : IsInv n fd f
  lock : System.Reach n f.lock

-- A lock that is left alone, or makes a step.
unlocked-Reach :
    {n : ℕ} (clock : ℕ → ℕ) (woken : List ℕ) (f : Processors)
    → System.Reach n f.lock
    → System.Reach n (go_all clock 0 woken f).lock
unlocked-Reach {n} clock woken f r = subst (System.Reach n) (sym (go_all-lock clock 0 woken f)) r

Step-Kept : {n : ℕ} {fd : ℕ → ℤ} {f g : Processors} → Kept n fd f → Step n f g → Kept n fd g
Step-Kept v (works k e s a) = record { places = works-Inv v.places k e s a; lock = v.lock }
Step-Kept v (takes k e up) = record { places = takes-Inv v.places k e up; lock = v.lock }
Step-Kept v (creates c k begun present lt fresh) = record {
  places = create-Inv c k begun present lt fresh v.places;
  lock = v.lock;
}
Step-Kept v (calls_rlock k {co} e p) = record {
  places = moved-Inv v.places k e wants_read _;
  lock = System.later v.lock (call_rlock co (runner-lt v.places k e) p);
}
Step-Kept v (calls_wlock k {co} e p) = record {
  places = moved-Inv v.places k e wants_write _;
  lock = System.later v.lock (call_wlock co (runner-lt v.places k e) p);
}
Step-Kept v (enters_rlock k {co} e p) = record {
  places = enter_rlock-IsInv v.places k e;
  lock = System.later v.lock (enter_rlock co (runner-lt v.places k e) p);
}
Step-Kept v (enters_wlock k {co} e p) = record {
  places = enter_wlock-IsInv v.places k e;
  lock = System.later v.lock (enter_wlock co (runner-lt v.places k e) p);
}
Step-Kept v (runlocks k {co} clock e p) = record {
  places = runlock-IsInv v.places k e clock;
  lock =
      unlocked-Reach clock _ _ (System.later v.lock (call_runlock co (runner-lt v.places k e) p));
}
Step-Kept v (wunlocks k {co} clock e p) = record {
  places = wunlock-IsInv v.places k e clock;
  lock =
      unlocked-Reach clock _ _ (System.later v.lock (call_wunlock co (runner-lt v.places k e) p));
}
Step-Kept v (yields_refused k x e g) = record {
  places = yields-Inv v.places k x e g;
  lock = v.lock;
}
Step-Kept v (ends_slice k x e g ne rests) = record {
  places = ends-Inv v.places k x e g rests;
  lock = v.lock;
}

Reach-Kept : {n : ℕ} {fd : ℕ → ℤ} {f : Processors} → Reach n fd f → Kept n fd f
Reach-Kept start = record {
  places = record {
    settled = λ c k h. absurd (omega (arith, h));
    once = λ c. omega arith;
    known = λ c b. cc;
    queue_born = λ c h. absurd (omega (arith, h));
    kept = λ c b. cc;
    reach = λ k. Steps.start;
  };
  lock = System.start;
}
Reach-Kept (later r s) = Step-Kept (Reach-Kept r) s

-- The steps of the processors are those that Worker describes, and the steps on the lock those of
-- RwMutex: in every state that processors and lock reach together, the thread of each processor, up
-- to the slice that it may be in, has only taken steps of Worker, and the lock those of its system.
-- So what Worker asks of those that hand coroutines over holds, where they are `goNewCo` and the lock.
pub components_reached :
    {n : ℕ} {fd : ℕ → ℤ} {f : Processors}
    → Reach n fd f
    → ((k : ℕ) → SlotReach (fd k) (f.slots k)) × System.Reach n f.lock
components_reached r = ((Reach-Kept r).places.reach, (Reach-Kept r).lock)

-- In every state that processors and lock reach together, each coroutine is at one at most of these,
-- over all processors: a place of a processor where a coroutine stands, `waitingCo_`, and to run in a
-- slice in which the lock has not refused it. A coroutine that the lock refused in this slice runs on
-- until it yields, and then counts only by where it stands, as it may stand in `waitingCo_` or, if it
-- was woken meanwhile, in a queue.
pub one_processor :
    {n : ℕ} {fd : ℕ → ℤ} {f : Processors}
    → Reach n fd f
    → (c k j : ℕ)
    → (held c (f.slots k) + count c f.lock.mutex.waiting ≤ 1)
      × (1 ≤ held c (f.slots k) → 1 ≤ held c (f.slots j) → k ≡ j)
one_processor {f} r c k j =
    let v = (Reach-Kept r).places in
    (
      elim (Bool-cases (held c (f.slots k) == 0)) [
        | inl nowhere ↦ omega (arith, (==_iff (held c (f.slots k)) 0).0 nowhere, v.once c)
        | inr somewhere ↦
            let (b, h) = v.settled c k (ground (arith, somewhere)) in
            subst (λ i. held c (f.slots i) + count c f.lock.mutex.waiting ≤ 1) h (v.once c)
      ],
      λ at_k at_j. sym (v.settled c k at_k).1 ∙ (v.settled c j at_j).1,
    )

ready-le-held : (c : ℕ) (s : Slot) → ready c s ≤ held c s
ready-le-held c (looping w) = omega arith
ready-le-held c (running w u co goes y) = omega arith

-- No coroutine is forgotten at the lock: in every state that processors and lock reach together, a
-- coroutine that has called `rlock` or `wlock` and has not got the lock either stands in `waitingCo_`
-- once, while some coroutine holds the lock; or it does not stand there. Then either it is in the
-- queues of new coroutines of its processor, with those that the slice that runs there hands over, or
-- it runs there in a slice in which the lock has not refused it: exactly one of both, and neither while
-- it stands in `waitingCo_`. A coroutine that the lock refused in this slice and that has not yet
-- yielded counts only by where it stands: in `waitingCo_` or, if it was woken already, in the queues.
pub waiter_kept :
    {n : ℕ} {fd : ℕ → ℤ} {f : Processors}
    → Reach n fd f
    → (c : ℕ) → at_rest (f.lock.pc c) ≡ false
    → ((count c f.lock.mutex.waiting ≡ 1)
        × (ready c (f.slots (f.home c)) ≡ 0)
        × ((j : ℕ) × (j < n) × ((f.lock.pc j ≡ reading) ⊎ (f.lock.pc j ≡ writing))))
      ⊎ ((count c f.lock.mutex.waiting ≡ 0) × (ready c (f.slots (f.home c)) ≡ 1))
waiter_kept {n} {fd} {f} r c b =
    let v = (Reach-Kept r).places in
    let le = ready-le-held c (f.slots (f.home c)) in
    elim (Bool-cases (count c f.lock.mutex.waiting == 0)) [
      | inl gone ↦
          let none_left = (==_iff (count c f.lock.mutex.waiting) 0).0 gone in
          inr (none_left, omega (arith, none_left, le, v.once c, v.kept c b))
      | inr waits ↦ inl (
        ground (arith, waits, v.once c),
        ground (arith, waits, le, v.once c),
        holder n f.lock (Reach-Inv (Reach-Kept r).lock)
            (λ e. ground (arith, waits, (Reach-Inv (Reach-Kept r).lock).agrees, e)),
      )
    ]
