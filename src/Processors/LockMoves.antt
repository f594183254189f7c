-- ===== src/Processors/LockMoves.antt =====
-- What the coroutines of the processors do with the lock keeps them in their places.
use mathlib.Core.Path.{subst}
use net_lib.Prelude.{
  ℕ, ◌+◌, ◌≤◌, ◌<◌, ◌≡◌, sym, ap, ◌∙◌, inl, inr, true, false, List, [], ◌∷◌, ◌++◌, ◌==◌,
  if◌then◌else◌, arith, Bool-cases, ==_iff,
}
use net_lib.Prelude.Int.{ℤ}
use net_lib.Prelude.Family.{update, update_self}
use net_lib.Processor.Ended.{count, count-append}
use net_lib.RwMutex.{readable, writable, try_rlock, try_wlock}
use net_lib.RwMutex.System.{
  System, Pc, parked_read, parked_write, reading, writing, after_rlock, after_wlock,
}
use net_lib.Worker.{Worker}
use net_lib.Processors.{Slot, running, Processors, at_rest, enter}
use net_lib.Processors.Invariant.{
  runs_unrefused, held, ready, SlotReach, Inv, slot-Inv, update-elim,
}

-- The lock and the mode of each coroutine change, where a coroutine that is at the lock then has its
-- place.
pub pc-Inv :
    {n : ℕ} {fd : ℕ → ℤ} {q : List ℕ} {pc : ℕ → Pc} {f : Processors} (pc' : ℕ → Pc) (l : System)
    → ((c : ℕ) → at_rest (pc' c) ≡ false → 1 ≤ ready c (f.slots (f.home c)) + count c q)
    → Inv n fd q pc f
    → Inv n fd q pc' (record f { lock = l })
pc-Inv pc' l keeps v = record {
  settled = v.settled;
  once = v.once;
  known = v.known;
  queue_born = v.queue_born;
  kept = keeps;
  reach = v.reach;
}

-- The coroutine `co` runs on processor `k`, and the lock has not refused it in this slice.
module _ {n : ℕ} {fd : ℕ → ℤ} {q : List ℕ} {pc : ℕ → Pc} {f : Processors} (v : Inv n fd q pc f)
    (k : ℕ) {w u : Worker} {co : ℕ} {goes : List ℕ}
    (e : f.slots k ≡ running w u co goes false) where
  runs : runs_unrefused co (f.slots k) ≡ 1
  runs = ap (runs_unrefused co) e ∙ ground arith

  own : (f.born co ≡ true) × (f.home co ≡ k)
  own = v.settled co k (omega (arith, runs))

  pub runner-lt : co < n
  runner-lt = v.known co own.0

  at_home : 1 ≤ ready co (f.slots (f.home co))
  at_home = subst (λ j. 1 ≤ ready co (f.slots j)) (sym own.1) (omega (arith, runs))

  pub moved-Inv : (p : Pc) (l : System) → Inv n fd q (update pc co p) (record f { lock = l })
  moved-Inv p l =
      pc-Inv (update pc co p) l
        (λ c b. elim (Bool-cases (co == c)) [
          | inl same ↦
              subst (λ t. 1 ≤ ready t (f.slots (f.home t)) + count t q) ((==_iff co c).0 same)
                (omega (arith, at_home))
          | inr other ↦ v.kept c (ground (arith, other, b))
        ])
        v

  -- The slot is written as it stands.
  kept-Inv : Inv n fd q pc (record f { slots = update f.slots k (running w u co goes false) })
  kept-Inv =
      slot-Inv k (running w u co goes false) (λ c. omega (arith, ap (held c) e))
        (λ c b h z. omega (arith, z, ap (ready c) e)) (subst (SlotReach (fd k)) e (v.reach k)) v

  abbrev refused_slots : ℕ → Slot
  refused_slots = update f.slots k (running w u co goes true)

  drop :
      (c : ℕ) → held c (running w u co goes true) + (if c == co then 1 else 0) ≡ held c (f.slots k)
  drop c = ground (arith, ap (held c) e)

  keep : (c : ℕ) → (c == co) ≡ false → ready c (running w u co goes true) ≡ ready c (f.slots k)
  keep c ne = ground (arith, ne, ap (ready c) e)

  -- The lock is refused, and the coroutine waits for it.
  refused-Inv :
      (p : Pc) (l : System)
      → Inv n fd
          (q ++ co ∷ [])
          (update pc co p)
          (record f { slots = update f.slots k (running w u co goes true); lock = l })
  refused-Inv p l = record {
    settled = λ c j h. elim (Bool-cases (k == j)) [
      | inl same ↦ v.settled c j (ground (arith, same, drop c, h))
      | inr other ↦ v.settled c j (ground (arith, other, h))
    ];
    once = λ c. elim (Bool-cases (c == co)) [
      | inl same ↦
          subst (λ t. held t (refused_slots (f.home t)) + count t (q ++ co ∷ []) ≤ 1)
            (sym ((==_iff c co).0 same))
            (ground (arith, drop co, count-append co q (co ∷ []), v.once co, own))
      | inr other ↦ ground (arith, other, drop c, count-append c q (co ∷ []), v.once c)
    ];
    known = v.known;
    queue_born = λ c h. elim (Bool-cases (c == co)) [
      | inl same ↦ ap f.born ((==_iff c co).0 same) ∙ own.0
      | inr other ↦ v.queue_born c (ground (arith, other, count-append c q (co ∷ []), h))
    ];
    kept = λ c b. elim (Bool-cases (c == co)) [
      | inl same ↦ ground (arith, same, count-append c q (co ∷ []))
      | inr other ↦ ground (
        arith,
        other,
        keep c other,
        count-append c q (co ∷ []),
        v.kept c (ground (arith, other, b)),
      )
    ];
    reach = λ j.
        update-elim (SlotReach (fd j)) f.slots k (running w u co goes true) j
          (λ h.
            subst (λ i. SlotReach (fd i) (running w u co goes true)) h
              (subst (SlotReach (fd k)) e (v.reach k)))
          (λ ne. v.reach j);
  }

-- The lock is granted.
granted-Inv :
    {n : ℕ} {fd : ℕ → ℤ} {q : List ℕ} {pc : ℕ → Pc} {f : Processors} (v : Inv n fd q pc f) (k : ℕ)
    {w u : Worker} {co : ℕ} {goes : List ℕ} (e : f.slots k ≡ running w u co goes false) (p : Pc)
    (l : System)
    → Inv n fd q
        (update pc co p)
        (record f { slots = update f.slots k (running w u co goes false); lock = l })
granted-Inv {f} v k {w} {u} {co} {goes} e p l =
    moved-Inv (kept-Inv v k e) k (update_self f.slots k (running w u co goes false)) p l

abbrev pub IsInv : ℕ → (ℕ → ℤ) → Processors → Type 0
IsInv n fd f = Inv n fd f.lock.mutex.waiting f.lock.pc f

itself : (c : ℕ) → (c == c) ≡ true
itself c = ground arith

module _ {n : ℕ} {fd : ℕ → ℤ} {f : Processors} (v : IsInv n fd f) (k : ℕ) {w u : Worker} {co : ℕ}
    {goes : List ℕ} (e : f.slots k ≡ running w u co goes false) where
  pub enter_rlock-IsInv : IsInv n fd (enter k w u co goes (after_rlock f.lock co) f)
  unfolding after_rlock try_rlock
  enter_rlock-IsInv = elim (Bool-cases (readable f.lock.mutex.state)) [
    | inl free ↦ rw (free, itself co) (granted-Inv v k e reading _)
    | inr busy ↦ rw (busy, itself co) (refused-Inv v k e parked_read _)
  ]

  pub enter_wlock-IsInv : IsInv n fd (enter k w u co goes (after_wlock f.lock co) f)
  unfolding after_wlock try_wlock
  enter_wlock-IsInv = elim (Bool-cases (writable f.lock.mutex.state)) [
    | inl free ↦ rw (free, itself co) (granted-Inv v k e writing _)
    | inr busy ↦ rw (busy, itself co) (refused-Inv v k e parked_write _)
  ]
