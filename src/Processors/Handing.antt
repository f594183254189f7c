-- ===== src/Processors/Handing.antt =====
-- What `goCo` and `goNewCo` do to the places of the coroutines.
use mathlib.Core.Path.{subst}
use net_lib.Prelude.{
  ℕ, ◌+◌, ◌≤◌, ◌<◌, ◌≡◌, ◌≢◌, sym, ap, ◌∙◌, inl, inr, true, false, List, [], ◌∷◌, ◌==◌, arith,
  Bool-cases, ==_iff,
}
use net_lib.Prelude.Int.{ℤ}
use net_lib.Prelude.Family.{update}
use net_lib.Processor.Ended.{count, count-append}
use net_lib.RwMutex.System.{Pc}
use net_lib.Worker.Places.{places, MayGo}
use net_lib.Worker.Steps
use net_lib.Worker.Steps.{NextUp, hands_over}
use net_lib.Worker.Safety.{Reach-IsSound}
use net_lib.Processors.{Slot, looping, running, Processors, give, go, go_all, create, at_rest}
use net_lib.Processors.Places.{hand_over-places}
use net_lib.Processors.Invariant.{held, ready, SlotReach, Inv, update-elim}

give-held :
    (t c begun present : ℕ) (s : Slot)
    → (held t (give c begun present s) ≡ held t s + count t (c ∷ []))
      × (ready t (give c begun present s) ≡ ready t s + count t (c ∷ []))
give-held t c begun present (looping w) =
    let (p, q) = hand_over-places t c begun present w in (omega (arith, p), omega (arith, q))
give-held t c begun present (running w u co goes y) =
    let e = count-append t goes (c ∷ []) in (omega (arith, e), omega (arith, e))

give-SlotReach :
    (fd : ℤ) (c begun present : ℕ) (s : Slot)
    → held c s ≡ 0
    → SlotReach fd s
    → SlotReach fd (give c begun present s)
give-SlotReach fd c begun present (looping w) z r =
    Steps.later r (hands_over (c ∷ []) begun present may)
  where
    may : MayGo (c ∷ []) w
    may t = elim (Bool-cases (t == c)) [
      | inl same ↦
          subst (λ k. count k (c ∷ []) + places k w ≤ 1) (sym ((==_iff t c).0 same))
            (ground (arith, z))
      | inr other ↦ ground (arith, other, (Reach-IsSound r t).once)
    ]
give-SlotReach fd c begun present (running w u co goes y) z r = r

module _ {n : ℕ} {fd : ℕ → ℤ} {pc : ℕ → Pc} where
  -- A coroutine in hand is given to its processor.
  pub go-Inv :
      {q : List ℕ} {f : Processors} (c begun present : ℕ)
      → Inv n fd (c ∷ q) pc f
      → Inv n fd q pc (go c begun present f)
  go-Inv {q} {f} c begun present v =
      let k = f.home c in
      let given = give c begun present (f.slots k) in
      record {
        settled = λ t j h.
            update-elim (λ x. 1 ≤ held t x → (f.born t ≡ true) × (f.home t ≡ j)) f.slots k given j
              (λ e g. given_settled t j e g) (λ ne g. v.settled t j g) h;
        once = λ t.
            update-elim (λ x. held t x + count t q ≤ 1) f.slots k given (f.home t)
              (λ e. omega (
                arith,
                (give-held t c begun present (f.slots k)).0,
                subst (λ i. held t (f.slots i) + count t (c ∷ q) ≤ 1) (sym e) (v.once t),
              ))
              (λ ne. omega (arith, v.once t));
        known = v.known;
        queue_born = λ t h. v.queue_born t (omega (arith, h));
        kept = λ t b.
            update-elim (λ x. 1 ≤ ready t x + count t q) f.slots k given (f.home t)
              (λ e. omega (
                arith,
                (give-held t c begun present (f.slots k)).1,
                subst (λ i. 1 ≤ ready t (f.slots i) + count t (c ∷ q)) (sym e) (v.kept t b),
              ))
              (λ ne. other_kept t b ne);
        reach = λ j.
            update-elim (SlotReach (fd j)) f.slots k given j
              (λ e.
                subst (λ i. SlotReach (fd i) given) e
                  (give-SlotReach (fd k) c begun present (f.slots k) (ground (arith, v.once c))
                    (v.reach k)))
              (λ ne. v.reach j);
      }
    where
      given_settled :
          (t j : ℕ)
          → f.home c ≡ j
          → 1 ≤ held t (give c begun present (f.slots (f.home c)))
          → (f.born t ≡ true) × (f.home t ≡ j)
      given_settled t j e g = elim (Bool-cases (t == c)) [
        | inl same ↦
            let one : t ≡ c = (==_iff t c).0 same in
            (v.queue_born t (ground (arith, same)), ap f.home one ∙ e)
        | inr other ↦
            let (b, h) =
              v.settled t (f.home c)
                (ground (arith, other, g, (give-held t c begun present (f.slots (f.home c))).0)) in
            (b, h ∙ e)
      ]

      other_kept :
          (t : ℕ)
          → at_rest (pc t) ≡ false
          → f.home c ≢ f.home t
          → 1 ≤ ready t (f.slots (f.home t)) + count t q
      other_kept t b ne = elim (Bool-cases (t == c)) [
        | inl same ↦ absurd (ne (ap f.home (sym ((==_iff t c).0 same))))
        | inr other ↦ ground (arith, other, v.kept t b)
      ]

  pub go_all-Inv :
      (clock : ℕ → ℕ) (k : ℕ) (q : List ℕ) {f : Processors}
      → Inv n fd q pc f
      → Inv n fd [] pc (go_all clock k q f)
  unfolding go_all
  go_all-Inv clock k [] v = v
  go_all-Inv clock k (c ∷ q) v = go_all-Inv clock (k + 2) q (go-Inv c (clock k) (clock (k + 1)) v)

  pub create-Inv :
      {q : List ℕ} {f : Processors} (c k begun present : ℕ)
      → c < n
      → f.born c ≡ false
      → Inv n fd q pc f
      → Inv n fd q pc (create c k begun present f)
  create-Inv {q} {f} c k begun present lt fresh v =
      let marked : Processors = record f {
        born = update f.born c true;
        home = update f.home c k;
      } in
      go-Inv {f = marked} c begun present (record {
        settled = λ t j h. ground (arith, v.settled t j h, fresh);
        once = λ t. ground (arith, v.settled c k, v.queue_born c, fresh, v.once t);
        known = λ t b. ground (arith, lt, v.known t);
        queue_born = λ t h. ground (arith, v.queue_born t);
        kept = λ t b. ground (arith, v.kept t b);
        reach = v.reach;
      })
