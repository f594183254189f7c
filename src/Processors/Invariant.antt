-- ===== src/Processors/Invariant.antt =====
-- Where the coroutines of all processors stand.
use mathlib.Core.Path.{subst}
use net_lib.Prelude.{
  ℕ, ◌+◌, ◌≤◌, ◌<◌, ◌≡◌, ◌≢◌, sym, inl, inr, true, false, List, ◌==◌, if◌then◌else◌, arith,
  Bool-cases, ==_iff,
}
use net_lib.Prelude.Int.{ℤ}
use net_lib.Prelude.Family.{update}
use net_lib.Processor.Ended.{count}
use net_lib.RwMutex.System.{Pc}
use net_lib.Worker.Places.{queued, places, loose}
use net_lib.Worker.Steps
use net_lib.Worker.Steps.{NextUp, hands_over}
use net_lib.Processors.{Slot, looping, running, Processors, at_rest}

-- At how many places of the processor the coroutine stands, with those that its slice has in hand.
-- A coroutine that runs stands at none of them for it.
abbrev pub standing : ℕ → Slot → ℕ
standing c (looping w) = places c w
standing c (running w u co goes y) = places c (loose co u) + count c goes

-- Whether the coroutine runs and the lock has not refused it in this slice. One that was refused runs
-- until it yields too, but it counts here no more: it stands in `waitingCo_`, or was woken already and
-- is in the queue of new coroutines.
abbrev pub runs_unrefused : ℕ → Slot → ℕ
runs_unrefused c (looping w) = 0
runs_unrefused c (running w u co goes y) = if c == co then (if y then 0 else 1) else 0

abbrev pub held : ℕ → Slot → ℕ
held c s = standing c s + runs_unrefused c s

-- In the queues of new coroutines.
abbrev pub in_queue : ℕ → Slot → ℕ
in_queue c (looping w) = queued c w.pro
in_queue c (running w u co goes y) = queued c u.pro + count c goes

-- The thread will come to the coroutine, or is at it and the lock has not refused it in this slice.
abbrev pub ready : ℕ → Slot → ℕ
ready c s = in_queue c s + runs_unrefused c s

-- The worker of a slot was reached by steps of Worker.
abbrev pub SlotReach : ℤ → Slot → Type 0
SlotReach fd (looping w) = Steps.Reach fd w
SlotReach fd (running w u co goes y) = Steps.Reach fd w × NextUp w co u

-- `q` are the coroutines that wait for the lock or were taken from its queue and are not yet handed
-- over.
pub record Inv (n : ℕ) (fd : ℕ → ℤ) (q : List ℕ) (pc : ℕ → Pc) (f : Processors) : Type 0 where
  pub settled : (c k : ℕ) → 1 ≤ held c (f.slots k) → (f.born c ≡ true) × (f.home c ≡ k)
  pub once : (c : ℕ) → held c (f.slots (f.home c)) + count c q ≤ 1
  pub known : (c : ℕ) → f.born c ≡ true → c < n
  pub queue_born : (c : ℕ) → 1 ≤ count c q → f.born c ≡ true
  pub kept : (c : ℕ) → at_rest (pc c) ≡ false → 1 ≤ ready c (f.slots (f.home c)) + count c q
  pub reach : (k : ℕ) → SlotReach (fd k) (f.slots k)

pub update-elim :
    (P : Slot → Type 0) (g : ℕ → Slot) (k : ℕ) (s : Slot) (j : ℕ)
    → (k ≡ j → P s)
    → (k ≢ j → P (g j))
    → P (update g k s j)
update-elim P g k s j new old = elim (Bool-cases (k == j)) [
  | inl same ↦ rw same (new ((==_iff k j).0 same))
  | inr other ↦ rw other (old (λ e. ground (arith, other, e)))
]

module _ {n : ℕ} {fd : ℕ → ℤ} {pc : ℕ → Pc} where
  pub held-le : {q : List ℕ} {f : Processors} → Inv n fd q pc f → (c k : ℕ) → held c (f.slots k) ≤ 1
  held-le {q} {f} v c k = elim (Bool-cases (held c (f.slots k) == 0)) [
    | inl nowhere ↦ omega (arith, (==_iff (held c (f.slots k)) 0).0 nowhere)
    | inr somewhere ↦
        let (b, h) = v.settled c k (ground (arith, somewhere)) in
        subst (λ j. held c (f.slots j) ≤ 1) h (omega (arith, v.once c))
  ]

  -- The slot `k` becomes `s`.
  pub slot-Inv :
      {q : List ℕ} {f : Processors} (k : ℕ) (s : Slot)
      → ((c : ℕ) → held c s ≤ held c (f.slots k))
      → ((c : ℕ)
          → at_rest (pc c) ≡ false
          → f.home c ≡ k
          → 1 ≤ ready c (f.slots k) + count c q
          → 1 ≤ ready c s + count c q)
      → SlotReach (fd k) s
      → Inv n fd q pc f
      → Inv n fd q pc (record f { slots = update f.slots k s })
  slot-Inv {q} {f} k s less keeps r v = record {
    settled = λ c j h. elim (Bool-cases (k == j)) [
      | inl same ↦ v.settled c j (ground (arith, less c, h))
      | inr other ↦ v.settled c j (ground (arith, h))
    ];
    once = λ c. ground (arith, less c, v.once c);
    known = v.known;
    queue_born = v.queue_born;
    kept = λ c b.
        update-elim (λ x. 1 ≤ ready c x + count c q) f.slots k s (f.home c)
          (λ e.
            keeps c b (sym e)
              (subst (λ j. 1 ≤ ready c (f.slots j) + count c q) (sym e) (v.kept c b)))
          (λ ne. v.kept c b);
    reach = λ j.
        update-elim (SlotReach (fd j)) f.slots k s j (λ e. subst (λ i. SlotReach (fd i) s) e r)
          (λ ne. v.reach j);
  }
