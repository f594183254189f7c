-- ===== src/Processors/Moves.antt =====
-- What the threads of the processors do without the lock keeps the coroutines in their places.
use mathlib.Core.Path.{subst}
use net_lib.Prelude.{
  ℕ, ◌+◌, ◌≤◌, ◌≡◌, ◌≢◌, refl, sym, ap, ◌∙◌, inl, inr, Bool, true, false, List, [], ◌==◌,
  if◌then◌else◌, arith, Bool-cases, ==_iff,
}
use net_lib.Prelude.Int.{ℤ}
use net_lib.Prelude.Family.{update}
use net_lib.Processor.{yields}
use net_lib.Processor.Ended.{count}
use net_lib.RwMutex.System.{Pc}
use net_lib.Worker.{Worker, Visit, visit}
use net_lib.Worker.Places.{loose, MayRun}
use net_lib.Worker.Steps
use net_lib.Worker.Steps.{NextUp, resumes}
use net_lib.Worker.Effects.{asleep_behind, ended_behind}
use net_lib.Worker.Ready.{NextUp-Ready}
use net_lib.Worker.Safety.{Reach-IsSound, Reach-expired}
use net_lib.Processors.{looping, running, Processors, at_rest, Alone}
use net_lib.Processors.Places.{Alone-Stays, visit-places, behind_le, NextUp-Taken}
use net_lib.Processors.Invariant.{runs_unrefused, held, ready, SlotReach, Inv, slot-Inv, held-le}

module _ {n : ℕ} {fd : ℕ → ℤ} {q : List ℕ} {pc : ℕ → Pc} {f : Processors}
    (v : Inv n fd q pc f) where
  pub works-Inv :
      (k : ℕ) {w u : Worker}
      → f.slots k ≡ looping w
      → (s : Steps.Step w u) → Alone s
      → Inv n fd q pc (record f { slots = update f.slots k (looping u) })
  works-Inv k {w} {u} e s a =
      let r : Steps.Reach (fd k) w = subst (SlotReach (fd k)) e (v.reach k) in
      let stays = Alone-Stays s (Reach-expired r) a in
      slot-Inv k (looping u) (λ c. omega (arith, ap (held c) e, stays.places_same c))
        (λ c b h g. omega (arith, g, ap (ready c) e, stays.queued_same c)) (Steps.later r s) v

  pub takes-Inv :
      (k : ℕ) {w u : Worker} {co : ℕ}
      → f.slots k ≡ looping w
      → NextUp w co u
      → Inv n fd q pc (record f { slots = update f.slots k (running w u co [] false) })
  takes-Inv k {w} {u} {co} e up =
      let r : Steps.Reach (fd k) w = subst (SlotReach (fd k)) e (v.reach k) in
      let t = NextUp-Taken up (Reach-IsSound r) in
      slot-Inv k (running w u co [] false)
        (λ c. elim (Bool-cases (c == co)) [
          | inl same ↦
              subst (λ x. held x (running w u co [] false) ≤ held x (f.slots k))
                (sym ((==_iff c co).0 same)) (ground (arith, ap (held co) e, t.stood, t.none_left))
          | inr other ↦ ground (arith, other, ap (held c) e, t.places_le c)
        ])
        (λ c b h g. ground (arith, g, ap (ready c) e, t.queued_le c)) (r, up) v

  -- Nothing stands in the way of the slice that a coroutine has run.
  may_run :
      (k : ℕ) {w u : Worker} {co : ℕ} {goes : List ℕ} {y : Bool} (x : Visit)
      → f.slots k ≡ running w u co goes y
      → x.slice.goes ≡ goes
      → (x.slice.ending ≢ yields → y ≡ false)
      → MayRun x co (loose co u)
  may_run k {w} {u} {co} {goes} {y} x e g own = record {
    others = λ c. omega (arith, held-le v c k, ap (held c) e, ap (count c) g);
    own = λ ne. ground (arith, own ne, held-le v co k, ap (held co) e, ap (count co) g);
  }

  -- A coroutine that is at the lock ends no slice but by its `yield`.
  busy_off :
      (c co : ℕ) (goes : List ℕ) (w u : Worker) (y : Bool)
      → at_rest (pc c) ≡ false
      → (y ≡ false → at_rest (pc co) ≡ true)
      → runs_unrefused c (running w u co goes y) ≡ 0
  busy_off c co goes w u true b rests = ground arith
  busy_off c co goes w u false b rests = elim (Bool-cases (c == co)) [
    | inl same ↦
        let clash : at_rest (pc c) ≡ true =
          ap (λ t. at_rest (pc t)) ((==_iff c co).0 same) ∙ rests refl in
        cc
    | inr other ↦ ground (arith, other)
  ]

  -- The end of a slice.
  slice-Inv :
      (k : ℕ) {w u : Worker} {co : ℕ} {goes : List ℕ} {y : Bool} (x : Visit)
      → f.slots k ≡ running w u co goes y
      → x.slice.goes ≡ goes
      → (x.slice.ending ≢ yields → y ≡ false)
      → asleep_behind x.slice.ending co u.epoller + ended_behind x.slice.ending
        ≤ (if y then 0 else 1)
      → (y ≡ false → at_rest (pc co) ≡ true)
      → Inv n fd q pc (record f { slots = update f.slots k (looping (visit x co u)) })
  slice-Inv k {w} {u} {co} {goes} {y} x e g own le rests =
      let (r, up) = subst (SlotReach (fd k)) e (v.reach k) in
      let ready_co = NextUp-Ready up (Reach-IsSound r) in
      let places_of = λ (c : ℕ). visit-places c co x u ready_co.runs in
      slot-Inv k (looping (visit x co u))
        (λ c. ground (arith, (places_of c).0, ap (held c) e, ap (count c) g, le))
        (λ c b h z. omega (
          arith,
          z,
          ap (ready c) e,
          ap (count c) g,
          (places_of c).1,
          busy_off c co goes w u y b rests,
        ))
        (Steps.later r (resumes x up (may_run k x e g own))) v

  pub yields-Inv :
      (k : ℕ) {w u : Worker} {co : ℕ} {goes : List ℕ} (x : Visit)
      → f.slots k ≡ running w u co goes true
      → x.slice ≡ record { goes = goes; ending = yields }
      → Inv n fd q pc (record f { slots = update f.slots k (looping (visit x co u)) })
  yields-Inv k {w} {u} {co} {goes} x e g =
      let end : x.slice.ending ≡ yields = ap (λ s. s.ending) g in
      slice-Inv k x e (ap (λ s. s.goes) g) (λ ne. absurd (ne end)) (rw end (omega arith)) (λ p. cc)

  pub ends-Inv :
      (k : ℕ) {w u : Worker} {co : ℕ} {goes : List ℕ} (x : Visit)
      → f.slots k ≡ running w u co goes false
      → x.slice.goes ≡ goes
      → at_rest (pc co) ≡ true
      → Inv n fd q pc (record f { slots = update f.slots k (looping (visit x co u)) })
  ends-Inv k {w} {u} {co} {goes} x e g rests =
      slice-Inv k x e g (λ ne. refl) (behind_le x.slice.ending co u.epoller) (λ p. rests)
