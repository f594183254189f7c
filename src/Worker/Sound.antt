-- ===== src/Worker/Sound.antt =====
-- The number of places of a coroutine, and the status that fits its place (src/processor.cc).
use mathlib.Core.Path.{subst}
use net_lib.Prelude.{
  ℕ, ◌+◌, ◌≤◌, ◌≡◌, ◌≢◌, refl, sym, ap, ◌∙◌, inl, inr, Bool, true, false, some, member, ◌==◌,
  ==_iff, Bool-cases, arith,
}
use net_lib.Coroutine.{CoStatus, co_ready, co_waiting, co_running, co_dead, resume}
use net_lib.Processor.{Processor, Ending, yields, finishes, sleeps, waits_event, resume_co}
use net_lib.Processor.Ended.{count-absent, count, ended}
use net_lib.Epoller.{Epoller, add_ev}
use net_lib.Worker.{Worker, Visit, end_watch, unwatch, visited, visit, will_run}
use net_lib.Worker.Places.{watch_cos, asleep, places, reported, loose, MayRun}
use net_lib.Worker.Effects.{
  status_behind, ended_behind, asleep_behind, resume_co-Ran, visited-asleep, watch-append-count,
}

-- The status of a coroutine that stands at `a` places asleep and `e` places of ended ones, and
-- whether it is in `coSet_`.
abbrev pub Fits : CoStatus → ℕ → ℕ → Bool → Type 0
Fits co_ready a e present = (a ≡ 0) × (e ≡ 0)
Fits co_waiting a e present = (e ≡ 0) × (present ≡ true)
Fits co_running a e present = e ≡ 1
Fits co_dead a e present = ⊥

pub record Sound (c : ℕ) (w : Worker) : Type 0 where
  pub once : places c w ≤ 1
  pub fits : Fits (w.pro.co_status c) (asleep c w) (ended c w.pro) (member c w.pro.co_set)
  pub reports : reported c w.active ≤ count c (watch_cos w.watched)

abbrev pub IsSound : Worker → Type 0
IsSound w = (c : ℕ) → Sound c w

-- A coroutine that has not ended and is in `coSet_` is switched to when it is resumed.
Fits-switched :
    (st : CoStatus) (a e : ℕ) (present : Bool) → Fits st a e present → e ≡ 0 → (resume st).1 ≡ true
Fits-switched co_ready a e present v z = refl
Fits-switched co_waiting a e present v z = refl
Fits-switched co_running a e present v z = absurd (omega (arith, v, z))
Fits-switched co_dead a e present v z = absurd v

-- A coroutine that sleeps is in `coSet_`.
Fits-present :
    (st : CoStatus) (a e : ℕ) (present : Bool)
    → Fits st a e present
    → 1 ≤ a
    → e ≡ 0
    → present ≡ true
Fits-present co_ready a e present v h z = absurd (omega (arith, v.0, h))
Fits-present co_waiting a e present v h z = v.1
Fits-present co_running a e present v h z = absurd (omega (arith, v, z))
Fits-present co_dead a e present v h z = absurd v

pub Sound-will_run :
    (co : ℕ) (w : Worker)
    → Sound co w
    → ended co w.pro ≡ 0
    → member co w.pro.co_set ≡ true
    → will_run co w.pro ≡ true
Sound-will_run co w v z present =
    rw (present, count-absent co w.pro.deleted (omega (arith, z)), Fits-switched _ _ _ _ v.fits z)
      refl

pub Sound-present :
    (co : ℕ) (w : Worker) → Sound co w → 1 ≤ asleep co w → member co w.pro.co_set ≡ true
Sound-present co w v h = Fits-present _ _ _ _ v.fits h (omega (arith, v.once, h))

pub Fits-change :
    (st st' : CoStatus) (a e a' e' : ℕ) (present present' : Bool)
    → st' ≡ st
    → a' ≡ a
    → e' ≡ e
    → present' ≡ present
    → Fits st a e present
    → Fits st' a' e' present'
Fits-change st st' a e a' e' present present' s p q r v = rw (s, p, q, r) v

-- The places and the status that a slice leaves its coroutine, which had no place before.
Fits-behind :
    (n : Ending) (g co : ℕ) (e : Epoller)
    → g ≤ 1
    → (n ≢ yields → g ≡ 0)
    → ((g + asleep_behind n co e) + ended_behind n ≤ 1)
      × Fits (status_behind n) (asleep_behind n co e) (ended_behind n) true
Fits-behind yields g co e h own = (omega (arith, h), (refl, refl))
Fits-behind finishes g co e h own = (omega (arith, own (λ p. ground arith)), refl)
Fits-behind (sleeps time) g co e h own = (omega (arith, own (λ p. ground arith)), (refl, refl))
Fits-behind (waits_event fd ev added) g co e h own =
    elim (Bool-cases (add_ev added (some co) fd ev e).1) [
      | inl ok ↦ rw ok (omega (arith, own (λ p. ground arith)), (refl, refl))
      | inr refused ↦ rw refused (omega (arith, h), (refl, refl))
    ]

module _ (v : Visit) (co : ℕ) (w : Worker) where
  abbrev behind : Processor
  behind = resume_co (λ _. v.slice) (some co) w.pro

  own-Sound :
      will_run co w.pro ≡ true
      → MayRun v co (loose co w)
      → places co (loose co w) ≡ 0
      → Sound co (loose co w)
      → Sound co (visited v co behind w)
  own-Sound h may z s =
      let r = resume_co-Ran v.slice co w.pro h in
      let g = count co v.slice.goes in
      let (sum, fits) =
        Fits-behind v.slice.ending g co w.epoller (omega (arith, may.others co)) may.own in
      let a : asleep co (visited v co behind w) ≡ asleep_behind v.slice.ending co w.epoller =
        ground (arith, visited-asleep v co co behind w, z) in
      let e : ended co behind ≡ ended_behind v.slice.ending = ground (arith, r.end_sum co, z) in
      let present : member co w.pro.co_set ≡ true = ground (arith, h) in
      record {
        once = omega (arith, a, e, r.queue_sum co, sum, z);
        fits = Fits-change _ _ _ _ _ _ _ _ r.own a e (ap (member co) r.co_set ∙ present) fits;
        reports = omega (
          arith,
          s.reports,
          watch-append-count co (end_watch v.slice.ending co w.epoller).0 (unwatch co w.watched),
        );
      }

  other-Sound :
      (c : ℕ)
      → (c == co) ≡ false
      → will_run co w.pro ≡ true
      → MayRun v co (loose co w)
      → Sound c (loose co w)
      → Sound c (visited v co behind w)
  other-Sound c ne h may s =
      let r = resume_co-Ran v.slice co w.pro h in
      let a : asleep c (visited v co behind w) ≡ asleep c (loose co w) =
        ground (arith, visited-asleep v c co behind w) in
      let e : ended c behind ≡ ended c w.pro = ground (arith, r.end_sum c) in
      record {
        once = omega (arith, a, e, r.queue_sum c, may.others c);
        fits = Fits-change _ _ _ _ _ _ _ _ (r.others c ne) a e (ap (member c) r.co_set) s.fits;
        reports = omega (
          arith,
          s.reports,
          watch-append-count c (end_watch v.slice.ending co w.epoller).0 (unwatch co w.watched),
        );
      }

-- A slice of a coroutine that was taken from its place.
pub visit-Sound :
    (v : Visit) (co : ℕ) (w : Worker)
    → will_run co w.pro ≡ true
    → MayRun v co (loose co w)
    → places co (loose co w) ≡ 0
    → IsSound (loose co w)
    → IsSound (visit v co w)
unfolding visit
visit-Sound v co w h may z s c = rw h (elim (Bool-cases (c == co)) [
  | inl same ↦
      subst (λ k. Sound k (visited v co (behind v co w) w)) (sym ((==_iff c co).0 same))
        (own-Sound v co w h may z (s co))
  | inr other ↦ other-Sound v co w c other h may (s c)
])

-- Where the slice leaves its coroutine.
pub visit-own :
    (v : Visit) (co : ℕ) (w : Worker)
    → will_run co w.pro ≡ true
    → places co (loose co w) ≡ 0
    → let n = v.slice.ending in
      (places co (visit v co w)
        ≡ (count co v.slice.goes + asleep_behind n co w.epoller) + ended_behind n)
      × ((visit v co w).pro.co_status co ≡ status_behind n)
unfolding visit
visit-own v co w h z =
    let r = resume_co-Ran v.slice co w.pro h in
    rw h (
      ground (arith, visited-asleep v co co (behind v co w) w, r.queue_sum co, r.end_sum co, z),
      r.own,
    )
