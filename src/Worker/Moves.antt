-- ===== src/Worker/Moves.antt =====
-- The steps that resume no coroutine keep every one in its place (src/processor.cc).
use net_lib.Prelude.{
  ℕ, ◌≤◌, ◌≡◌, refl, ap, inl, inr, Bool, some, List, [], member, ◌==◌, ==_iff, Bool-cases, arith,
}
use net_lib.Prelude.Int.{ℤ}
use net_lib.Coroutine.{CoStatus, co_ready, co_waiting, co_running, co_dead}
use net_lib.Processor.{go_co_batch, flip, delete_all, clear_removed}
use net_lib.Processor.Ended.{delete_all-deleted}
use net_lib.Processor.Ended.{count, count-append, ended, go_co_batch-Same}
use net_lib.Timer.{Timer, wake_up, reset_timefd, get_expired}
use net_lib.Epoller.{Report}
use net_lib.Worker.{Worker, hand_over}
use net_lib.Worker.Places.{queued, watch_cos, asleep, reported, MayGo}
use net_lib.Worker.Steps.{poll, expire, exchange, clean}
use net_lib.Worker.Frame.{
  go_co_batch-Queues, delete_all-member, delete_all-queued, get_expired-count,
}
use net_lib.Worker.Sound.{Fits, Fits-change, Sound, IsSound}

pub hand_over-Sound :
    (cos : List ℕ) (begun present : ℕ) (w : Worker)
    → MayGo cos w
    → IsSound w
    → IsSound (hand_over cos begun present w)
unfolding hand_over wake_up reset_timefd
hand_over-Sound cos begun present w may v c =
    let q = go_co_batch-Queues cos w.pro in
    let (a, b, d) = go_co_batch-Same cos w.pro in
    let e : ended c (go_co_batch cos w.pro) ≡ ended c w.pro =
      omega (arith, ap (count c) b, ap (count c) d) in
    record {
      once = omega (arith, q.added c, e, may c);
      fits =
          Fits-change _ _ _ _ _ _ _ _ (ap (λ f. f c) a) refl e (ap (member c) q.co_set) (v c).fits;
      reports = (v c).reports;
    }

-- A step to a worker with the same places and at most the same reports.
pub same-Sound :
    (w u : Worker) (c : ℕ)
    → Sound c w
    → queued c u.pro ≡ queued c w.pro
    → asleep c u ≡ asleep c w
    → ended c u.pro ≡ ended c w.pro
    → u.pro.co_status c ≡ w.pro.co_status c
    → member c u.pro.co_set ≡ member c w.pro.co_set
    → reported c u.active ≤ count c (watch_cos u.watched)
    → Sound c u
same-Sound w u c v q a e st m r = record {
  once = omega (arith, q, a, e, v.once);
  fits = Fits-change _ _ _ _ _ _ _ _ st a e m v.fits;
  reports = r;
}

pub expire-Sound :
    (present after : ℕ) (reads : List ℤ) (cos : List ℕ) (t : Timer) (w : Worker)
    → w.expired ≡ []
    → get_expired present after reads w.timer ≡ some (cos, t)
    → IsSound w
    → IsSound (expire cos t w)
unfolding expire
expire-Sound present after reads cos t w none_left e v c =
    same-Sound w _ c (v c) refl
      (omega
        (arith, get_expired-count c present after reads w.timer t cos e, ap (count c) none_left))
      refl refl refl (v c).reports

pub exchange-Sound : (w : Worker) → IsSound w → IsSound (exchange w)
unfolding exchange flip
exchange-Sound w v c = same-Sound w _ c (v c) refl refl refl refl refl (v c).reports

pub poll-Sound :
    (r : Report) (w : Worker)
    → ((c : ℕ) → reported c (poll r w).active ≤ count c (watch_cos w.watched))
    → IsSound w
    → IsSound (poll r w)
unfolding poll
poll-Sound r w h v c = record { once = (v c).once; fits = (v c).fits; reports = h c }

Fits-gone : (st : CoStatus) (a e : ℕ) (m m' : Bool) → Fits st a e m → e ≡ 1 → Fits st a e m'
Fits-gone co_ready a e m m' v h = absurd (omega (arith, v.1, h))
Fits-gone co_waiting a e m m' v h = absurd (omega (arith, v.0, h))
Fits-gone co_running a e m m' v h = v
Fits-gone co_dead a e m m' v h = v

pub clean-Sound : (w : Worker) → IsSound w → IsSound (clean w)
unfolding clean clear_removed
clean-Sound w v c =
    let p = w.pro in
    let (d, st) = delete_all-deleted p.removed p in
    let e : count c (delete_all p.removed p).deleted ≡ ended c p =
      omega (arith, ap (count c) d, count-append c p.deleted p.removed) in
    let e' : ended c (clean w).pro ≡ ended c p = omega (arith, e) in
    elim (Bool-cases (count c p.removed == 0)) [
      | inl none_left ↦
          same-Sound w (clean w) c (v c) (delete_all-queued c p.removed p) refl e'
            (ap (λ f. f c) st) (delete_all-member c p.removed p ((==_iff _ 0).0 none_left))
            (v c).reports
      | inr some_left ↦ record {
        once = omega (arith, delete_all-queued c p.removed p, e', (v c).once);
        fits =
            Fits-change (p.co_status c) _ (asleep c w) (ended c p) _ _
              (member c (clean w).pro.co_set) _ (ap (λ f. f c) st) refl e' refl
              (Fits-gone _ _ _ _ _ (v c).fits (ground (arith, some_left, (v c).once)));
        reports = (v c).reports;
      }
    ]
