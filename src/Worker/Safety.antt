-- ===== src/Worker/Safety.antt =====
-- Where the coroutines of a processor stand, which one its thread resumes, and one that `waitEvent`
-- leaves at no place (src/processor.cc).
use mathlib.Core.Path.{subst}
use net_lib.Prelude.{
  ℕ, ◌+◌, ◌≤◌, ◌≡◌, ◌⊎◌, refl, sym, ap, ◌∙◌, inl, inr, Bool, true, List, [], ◌∷◌, ◌++◌, member,
  Bool-cases, arith,
}
use net_lib.Prelude.Int.{ℤ, negsuc}
use net_lib.Coroutine.{CoStatus, co_ready, co_waiting, co_running, co_dead}
use net_lib.Processor.{waits_event}
use net_lib.Processor.Ended.{count}
use net_lib.Epoller.{Epoller, ctl, is_epoll_fd_useful}
use net_lib.Worker.{
  Worker, expiring, polling, timing, taking, acting, Visit, Phase, visit, hand_over, will_run,
}
use net_lib.Worker.Places.{asleep, places, reported, loose, MayRun}
use net_lib.Worker.Steps.{
  poll, expire, exchange, clean, Step, hands_over, polls, expires, ends_expired, exchanges,
  skips_null, cleans, resumes, NextUp, from_timer, from_queue, from_epoll, Reach, start, later,
}
use net_lib.Worker.Effects.{resume_co-Ran, status_behind, ended_behind, asleep_behind}
use net_lib.Worker.Sound.{Fits, IsSound, visit-Sound, visit-own}
use net_lib.Worker.Moves.{
  hand_over-Sound, same-Sound, expire-Sound, exchange-Sound, poll-Sound, clean-Sound,
}
use net_lib.Worker.Ready.{Ready, NextUp-Ready, pop_new-ran}

-- What the timer handed out is used up before the thread goes on.
abbrev Calm : Phase → List ℕ → Type 0
Calm expiring cos = Unit {0}
Calm polling cos = cos ≡ []
Calm timing cos = cos ≡ []
Calm taking cos = cos ≡ []
Calm acting cos = cos ≡ []

record Inv (w : Worker) : Type 0 where
  sound : IsSound w
  calm : Calm w.phase w.expired

visit-kept :
    (v : Visit) (co : ℕ) (w : Worker)
    → ((visit v co w).phase ≡ w.phase) × ((visit v co w).expired ≡ w.expired)
unfolding visit
visit-kept v co w = elim (Bool-cases (will_run co w.pro)) [
  | inl runs ↦ rw runs (refl, refl)
  | inr rests ↦ rw rests (refl, refl)
]

Ready-Inv :
    (v : Visit) (co : ℕ) (w : Worker)
    → MayRun v co (loose co w)
    → Ready co w
    → Calm w.phase w.expired
    → Inv (visit v co w)
Ready-Inv v co w may r calm =
    let (ph, ex) = visit-kept v co w in
    record {
      sound = visit-Sound v co w r.runs may r.free r.sound;
      calm =
          subst (λ k. Calm k (visit v co w).expired) (sym ph) (subst (Calm w.phase) (sym ex) calm);
    }

-- Which coroutine was taken does not change what the thread is at.
NextUp-Calm :
    {w u : Worker} {co : ℕ} → NextUp w co u → Calm w.phase w.expired → Calm u.phase u.expired
NextUp-Calm (from_timer k rest ph e) calm = subst (λ p. Calm p rest) (sym ph) tt
NextUp-Calm (from_queue k rest ph e) calm = calm
NextUp-Calm (from_epoll k rest ph e) calm = calm

Step-Inv : (w u : Worker) → Inv w → Step w u → Inv u
unfolding hand_over poll expire exchange clean
Step-Inv w u i (hands_over cos begun present may) = record {
  sound = hand_over-Sound cos begun present w may i.sound;
  calm = i.calm;
}
Step-Inv w u i (polls r ph h) = record {
  sound = poll-Sound r w h i.sound;
  calm = subst (λ k. Calm k w.expired) ph i.calm;
}
Step-Inv w u i (expires present after reads cos t ph e) = record {
  sound =
      expire-Sound present after reads cos t w (subst (λ k. Calm k w.expired) ph i.calm) e i.sound;
  calm = tt;
}
Step-Inv w u i (ends_expired ph e) = record {
  sound = λ c.
      same-Sound w (record w { phase = taking }) c (i.sound c) refl refl refl refl refl
        (i.sound c).reports;
  calm = e;
}
Step-Inv w u i (exchanges ph e) = record {
  sound = exchange-Sound w i.sound;
  calm = subst (λ k. Calm k w.expired) ph i.calm;
}
Step-Inv w u i (skips_null rest ph e) = record {
  sound = λ c.
      same-Sound w (record w { active = rest }) c (i.sound c) refl refl refl refl refl
        (omega (arith, (i.sound c).reports, ap (reported c) e));
  calm = i.calm;
}
Step-Inv w u i (cleans ph e) = record {
  sound = clean-Sound w i.sound;
  calm = subst (λ k. Calm k w.expired) ph i.calm;
}
Step-Inv w u i (resumes v {co} {u = taken} up may) =
    Ready-Inv v co taken may (NextUp-Ready up i.sound) (NextUp-Calm up i.calm)

Reach-Inv : {fd : ℤ} {w : Worker} → Reach fd w → Inv w
Reach-Inv {fd} start = record {
  sound = λ c. record { once = omega arith; fits = (refl, refl); reports = omega arith };
  calm = refl;
}
Reach-Inv {fd} (later {w} {u} r step) = Step-Inv w u (Reach-Inv r) step

pub Reach-IsSound : {fd : ℤ} {w : Worker} → Reach fd w → IsSound w
Reach-IsSound r = (Reach-Inv r).sound

-- When the thread asks the timer, it has resumed all that the timer gave before.
pub Reach-expired : {fd : ℤ} {w : Worker} → Reach fd w → w.phase ≡ timing → w.expired ≡ []
Reach-expired {fd} {w} r ph = subst (λ k. Calm k w.expired) ph (Reach-Inv r).calm

Fits-asleep :
    (st : CoStatus) (a e : ℕ) (present : Bool)
    → Fits st a e present
    → a + e ≤ 1
    → (a ≡ 0) ⊎ ((st ≡ co_waiting) × (present ≡ true))
Fits-asleep co_ready a e present v h = inl v.0
Fits-asleep co_waiting a e present v h = inr (refl, v.1)
Fits-asleep co_running a e present v h = inl (omega (arith, v, h))
Fits-asleep co_dead a e present v h = absurd v

-- No coroutine is doubled, as long as nobody hands one over that stands somewhere, has ended or is
-- handed over twice, and as epoll reports what it watches once: in every state that a processor's
-- thread reaches, a coroutine stands at one place at most, of the queues of new coroutines, the
-- timer's queue, those that the timer handed out, what epoll watches and the ended ones. If it sleeps
-- at one of them then its status is CO_WAITING and it is in `coSet_`.
pub one_place :
    {fd : ℤ} {w : Worker}
    → Reach fd w
    → (co : ℕ)
    → (places co w ≤ 1)
      × ((asleep co w ≡ 0) ⊎ ((w.pro.co_status co ≡ co_waiting) × (member co w.pro.co_set ≡ true)))
one_place r co =
    let s = (Reach-Inv r).sound co in (s.once, Fits-asleep _ _ _ _ s.fits (omega (arith, s.once)))

NextUp-ran : {w u : Worker} {co : ℕ} → NextUp w co u → u.pro.ran ≡ w.pro.ran
NextUp-ran (from_timer k rest ph e) = refl
NextUp-ran {w} (from_queue k rest ph e) = pop_new-ran w.pro.running_que k rest w.pro
NextUp-ran (from_epoll k rest ph e) = refl

-- No coroutine is resumed in vain, as long as nobody hands one over that stands somewhere, has ended
-- or is handed over twice, and as epoll reports what it watches once: in every state that a
-- processor's thread reaches, whichever coroutine it resumes next, one whose time has come, a new one
-- or one of which epoll reported an event, is switched to.
pub resumed_runs :
    {fd : ℤ} {w u : Worker} {co : ℕ}
    → Reach fd w
    → NextUp w co u
    → (v : Visit) → (visit v co u).pro.ran ≡ w.pro.ran ++ co ∷ []
unfolding visit
resumed_runs {fd} {w} {u} {co} r up v =
    let ready = NextUp-Ready up (Reach-Inv r).sound in
    rw ready.runs
      ((resume_co-Ran v.slice co u.pro ready.runs).ran ∙ ap (λ l. l ++ co ∷ []) (NextUp-ran up))

refused-asleep :
    (sock : ℤ) (ev n co : ℕ) (e : Epoller) → asleep_behind (waits_event sock ev (negsuc n)) co e ≡ 0
unfolding ctl
refused-asleep sock ev n co e = elim (Bool-cases (is_epoll_fd_useful e)) [
  | inl useful ↦ rw useful refl
  | inr closed ↦ rw closed refl
]

-- `waitEvent` does not test the result of `addEv`: where `epoll_ctl` refuses the descriptor, for
-- example because another coroutine waits for it, the coroutine is left at no place, waiting; neither
-- the timer nor epoll will have it resumed.
pub wait_event_lost :
    {fd : ℤ} {w u : Worker} {co : ℕ}
    → Reach fd w
    → NextUp w co u
    → (v : Visit) (sock : ℤ) (ev n : ℕ)
    → v.slice ≡ record { goes = []; ending = waits_event sock ev (negsuc n) }
    → (places co (visit v co u) ≡ 0) × ((visit v co u).pro.co_status co ≡ co_waiting)
wait_event_lost {fd} {w} {u} {co} r up v sock ev n e =
    let ready = NextUp-Ready up (Reach-Inv r).sound in
    let (sum, st) = visit-own v co u ready.runs ready.free in
    (
      omega (
        arith,
        sum,
        ap (λ s. count co s.goes) e,
        ap (λ s. asleep_behind s.ending co u.epoller) e,
        ap (λ s. ended_behind s.ending) e,
        refused-asleep sock ev n co u.epoller,
      ),
      st ∙ ap (λ s. status_behind s.ending) e,
    )
