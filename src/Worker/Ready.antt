-- ===== src/Worker/Ready.antt =====
-- The coroutine that is resumed next (src/processor.cc).
use net_lib.Prelude.{
  ℕ, ◌+◌, ◌≤◌, ◌≡◌, refl, ap, ◌∙◌, Bool, true, false, Option, some, List, ◌∷◌, member, arith,
}
use net_lib.Coroutine.{CoStatus, co_ready, co_waiting, co_running, co_dead}
use net_lib.Processor.{Processor, queue, pop_new, insert}
use net_lib.Processor.Ended.{count, ended}
use net_lib.Worker.{Worker, pop_front, will_run, unwatch}
use net_lib.Worker.Places.{queued, watch_cos, asleep, places, reported, loose}
use net_lib.Worker.Steps.{NextUp, from_timer, from_queue, from_epoll}
use net_lib.Worker.Frame.{pop_new-queued, member-insert, member-insert_self, unwatch-count}
use net_lib.Worker.Sound.{Fits, Fits-change, Sound, IsSound, Sound-will_run, Sound-present}

Fits-less :
    (st : CoStatus) (a a' e : ℕ) (m m' : Bool)
    → a' ≤ a
    → (m ≡ true → m' ≡ true)
    → Fits st a e m
    → Fits st a' e m'
Fits-less co_ready a a' e m m' h k v = (omega (arith, v.0), v.1)
Fits-less co_waiting a a' e m m' h k v = (v.0, k v.1)
Fits-less co_running a a' e m m' h k v = v
Fits-less co_dead a a' e m m' h k v = v

-- A coroutine was taken from its place, and put into `coSet_`.
less-Sound :
    (w u : Worker) (c : ℕ)
    → Sound c w
    → queued c u.pro ≤ queued c w.pro
    → asleep c u ≤ asleep c w
    → ended c u.pro ≡ ended c w.pro
    → u.pro.co_status c ≡ w.pro.co_status c
    → (member c w.pro.co_set ≡ true → member c u.pro.co_set ≡ true)
    → reported c u.active ≤ count c (watch_cos u.watched)
    → Sound c u
less-Sound w u c v q a e st m r = record {
  once = omega (arith, q, a, e, v.once);
  fits =
      Fits-change (w.pro.co_status c) _ (asleep c u) (ended c w.pro) _ _ (member c u.pro.co_set) _
        st refl e refl (Fits-less _ _ _ _ _ _ a m v.fits);
  reports = r;
}

-- What holds of the coroutine that is resumed next.
pub record Ready (co : ℕ) (w : Worker) : Type 0 where
  pub sound : IsSound (loose co w)
  pub free : places co (loose co w) ≡ 0
  pub runs : will_run co w.pro ≡ true

taken-Ready :
    (co : ℕ) (w u : Worker)
    → IsSound w
    → ((c : ℕ) → queued c u.pro ≤ queued c w.pro)
    → ((c : ℕ) → asleep c (loose co u) ≤ asleep c w)
    → (queued co u.pro + asleep co (loose co u)) + 1 ≤ queued co w.pro + asleep co w
    → ((c : ℕ) → ended c u.pro ≡ ended c w.pro)
    → ((c : ℕ) → u.pro.co_status c ≡ w.pro.co_status c)
    → ((c : ℕ) → member c w.pro.co_set ≡ true → member c u.pro.co_set ≡ true)
    → member co u.pro.co_set ≡ true
    → ((c : ℕ) → reported c u.active ≤ count c (watch_cos (unwatch co u.watched)))
    → Ready co u
taken-Ready co w u v q a one e st m mine r =
    let s : IsSound (loose co u) =
      λ c. less-Sound w (loose co u) c (v c) (q c) (a c) (e c) (st c) (m c) (r c) in
    let none_left : ended co u.pro ≡ 0 = omega (arith, e co, one, (v co).once) in
    record {
      sound = s;
      free = omega (arith, none_left, one, (v co).once);
      runs = Sound-will_run co (loose co u) (s co) none_left mine;
    }

expired-Ready :
    (co : ℕ) (rest : List ℕ) (w : Worker)
    → w.expired ≡ co ∷ rest
    → IsSound w
    → Ready co (record w { expired = rest })
expired-Ready co rest w e v =
    taken-Ready co w (record w { expired = rest }) v (λ c. omega arith)
      (λ c. ground (arith, ap (count c) e, unwatch-count c co w.watched))
      (ground (arith, ap (count co) e, unwatch-count co co w.watched, (v co).once)) (λ c. refl)
      (λ c. refl) (λ c h. h) (Sound-present co w (v co) (ground (arith, ap (count co) e)))
      (λ c. ground (arith, ap (count c) e, unwatch-count c co w.watched, (v c).once, (v c).reports))

active-Ready :
    (co : ℕ) (rest : List (Option ℕ)) (w : Worker)
    → w.active ≡ some co ∷ rest
    → IsSound w
    → Ready co (record w { active = rest })
active-Ready co rest w e v =
    taken-Ready co w (record w { active = rest }) v (λ c. omega arith)
      (λ c. ground (arith, unwatch-count c co w.watched))
      (ground (arith, ap (reported co) e, unwatch-count co co w.watched, (v co).reports))
      (λ c. refl) (λ c. refl) (λ c h. h)
      (Sound-present co w (v co) (ground (arith, ap (reported co) e, (v co).reports)))
      (λ c.
        ground (arith, ap (reported c) e, unwatch-count c co w.watched, (v c).once, (v c).reports))

pub pop_new-ran :
    (r : Bool) (co : ℕ) (rest : List ℕ) (p : Processor) → (pop_new r co rest p).ran ≡ p.ran
pop_new-ran true co rest p = refl
pop_new-ran false co rest p = refl

pub pop_new-rest :
    (r : Bool) (co : ℕ) (rest : List ℕ) (p : Processor)
    → ((pop_new r co rest p).co_set ≡ insert co p.co_set)
      × ((pop_new r co rest p).co_status ≡ p.co_status)
      × ((pop_new r co rest p).removed ≡ p.removed)
      × ((pop_new r co rest p).deleted ≡ p.deleted)
pop_new-rest true co rest p = (refl, refl, refl, refl)
pop_new-rest false co rest p = (refl, refl, refl, refl)

queue-Ready :
    (co : ℕ) (rest : List ℕ) (w : Worker)
    → queue w.pro.running_que w.pro ≡ co ∷ rest
    → IsSound w
    → Ready co (pop_front co rest w)
queue-Ready co rest w e v =
    let p = pop_new w.pro.running_que co rest w.pro in
    let (cs, st, re, de) = pop_new-rest w.pro.running_que co rest w.pro in
    taken-Ready co w (pop_front co rest w) v
      (λ c. omega (arith, pop_new-queued w.pro.running_que c co rest w.pro e))
      (λ c. ground (arith, unwatch-count c co w.watched))
      (ground
        (arith, pop_new-queued w.pro.running_que co co rest w.pro e, unwatch-count co co w.watched))
      (λ c. omega (arith, ap (count c) re, ap (count c) de)) (λ c. ap (λ f. f c) st)
      (λ c h. ap (member c) cs ∙ member-insert c co w.pro.co_set h)
      (ap (member co) cs ∙ member-insert_self co w.pro.co_set)
      (λ c. ground (
        arith,
        pop_new-queued w.pro.running_que c co rest w.pro e,
        unwatch-count c co w.watched,
        (v c).once,
        (v c).reports,
      ))

pub NextUp-Ready : {w u : Worker} {co : ℕ} → NextUp w co u → IsSound w → Ready co u
NextUp-Ready {w} {u} {co} (from_timer k rest ph e) v = expired-Ready k rest w e v
NextUp-Ready {w} {u} {co} (from_queue k rest ph e) v = queue-Ready k rest w e v
NextUp-Ready {w} {u} {co} (from_epoll k rest ph e) v = active-Ready k rest w e v
