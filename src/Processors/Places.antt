-- ===== src/Processors/Places.antt =====
-- What the steps of one processor's thread do to the number of places of a coroutine.
use net_lib.Prelude.{
  ℕ, ◌+◌, ◌≤◌, ◌≡◌, refl, ap, true, false, some, List, [], ◌∷◌, ◌==◌, if◌then◌else◌, arith,
}
use net_lib.Prelude.Int.{ℤ}
use net_lib.Processor.{
  Ending, yields, finishes, sleeps, waits_event, flip, clear_removed, resume_co,
}
use net_lib.Processor.Ended.{count, count-append, go_co_batch-Same}
use net_lib.Processor.Ended.{delete_all-deleted}
use net_lib.Epoller.{Epoller}
use net_lib.Timer.{Timer, wake_up, reset_timefd, get_expired}
use net_lib.Worker.{timing, Worker, Visit, hand_over, visit, will_run}
use net_lib.Worker.Places.{queued, places, loose, reported}
use net_lib.Worker.Steps.{
  poll, expire, exchange, clean, NextUp, from_timer, from_queue, from_epoll, hands_over, polls,
  expires, ends_expired, exchanges, skips_null, cleans, resumes,
}
use net_lib.Worker.Steps
use net_lib.Worker.Frame.{
  go_co_batch-Queues, pop_new-queued, delete_all-queued, get_expired-count, unwatch-count,
}
use net_lib.Worker.Effects.{resume_co-Ran, visited-asleep, asleep_behind, ended_behind}
use net_lib.Worker.Sound.{IsSound}
use net_lib.Worker.Ready.{NextUp-Ready, pop_new-rest}
use net_lib.Processors.{Alone}

-- A thread that works alone moves nobody from a place, and takes nobody from a queue.
pub record Stays (w u : Worker) : Type 0 where
  pub places_same : (c : ℕ) → places c u ≡ places c w
  pub queued_same : (c : ℕ) → queued c u.pro ≡ queued c w.pro

clean-Stays : (w : Worker) → Stays w (clean w)
unfolding clean clear_removed
clean-Stays w =
    let (d, st) = delete_all-deleted w.pro.removed w.pro in
    record {
      places_same = λ c. omega (
        arith,
        ap (count c) d,
        count-append c w.pro.deleted w.pro.removed,
        delete_all-queued c w.pro.removed w.pro,
      );
      queued_same = λ c. delete_all-queued c w.pro.removed w.pro;
    }

expire-Stays :
    (present after : ℕ) (reads : List ℤ) (cos : List ℕ) (t : Timer) (w : Worker)
    → w.expired ≡ []
    → get_expired present after reads w.timer ≡ some (cos, t)
    → Stays w (expire cos t w)
unfolding expire
expire-Stays present after reads cos t w none_left e = record {
  places_same = λ c.
      omega
        (arith, get_expired-count c present after reads w.timer t cos e, ap (count c) none_left);
  queued_same = λ c. refl;
}

pub Alone-Stays :
    {w u : Worker} (s : Steps.Step w u) → (w.phase ≡ timing → w.expired ≡ []) → Alone s → Stays w u
unfolding poll exchange flip
Alone-Stays (hands_over cos begun present may) h a = elim a [ ]
Alone-Stays (resumes v up may) h a = elim a [ ]
Alone-Stays (polls r ph m) h a = record { places_same = λ c. refl; queued_same = λ c. refl }
Alone-Stays {w} (expires present after reads cos t ph e) h a =
    expire-Stays present after reads cos t w (h ph) e
Alone-Stays (ends_expired ph e) h a = record { places_same = λ c. refl; queued_same = λ c. refl }
Alone-Stays (exchanges ph e) h a = record { places_same = λ c. refl; queued_same = λ c. refl }
Alone-Stays (skips_null rest ph e) h a = record { places_same = λ c. refl; queued_same = λ c. refl }
Alone-Stays {w} (cleans ph e) h a = clean-Stays w

pub hand_over-places :
    (c k begun present : ℕ) (w : Worker)
    → (places c (hand_over (k ∷ []) begun present w) ≡ places c w + count c (k ∷ []))
      × (queued c (hand_over (k ∷ []) begun present w).pro ≡ queued c w.pro + count c (k ∷ []))
unfolding hand_over wake_up reset_timefd
hand_over-places c k begun present w =
    let q = (go_co_batch-Queues (k ∷ []) w.pro).added c in
    let (a, b, d) = go_co_batch-Same (k ∷ []) w.pro in
    (omega (arith, q, ap (count c) b, ap (count c) d), q)

pub visit-places :
    (c co : ℕ) (v : Visit) (w : Worker)
    → will_run co w.pro ≡ true
    → (places c (visit v co w)
        ≡ (places c (loose co w) + count c v.slice.goes)
          + (if c == co
              then asleep_behind v.slice.ending co w.epoller + ended_behind v.slice.ending
              else 0))
      × (queued c (visit v co w).pro ≡ queued c w.pro + count c v.slice.goes)
unfolding visit
visit-places c co v w h =
    let p = resume_co (λ _. v.slice) (some co) w.pro in
    let r = resume_co-Ran v.slice co w.pro h in
    rw h (ground (arith, visited-asleep v c co p w, r.queue_sum c, r.end_sum c), r.queue_sum c)

-- A slice leaves its coroutine at one place more at most, and one that yields at none.
pub behind_le : (n : Ending) (co : ℕ) (e : Epoller) → asleep_behind n co e + ended_behind n ≤ 1
behind_le yields co e = omega arith
behind_le finishes co e = omega arith
behind_le (sleeps time) co e = omega arith
behind_le (waits_event fd ev added) co e = ground arith

-- The coroutine that is resumed next, which is taken from its place.
pub record Taken (co : ℕ) (w u : Worker) : Type 0 where
  pub stood : 1 ≤ places co w
  pub none_left : places co (loose co u) ≡ 0
  pub places_le : (c : ℕ) → places c (loose co u) ≤ places c w
  pub queued_le : (c : ℕ) → (c == co) ≡ false → queued c w.pro ≤ queued c u.pro

pub NextUp-Taken : {w u : Worker} {co : ℕ} → NextUp w co u → IsSound w → Taken co w u
NextUp-Taken {w} {u} {co} (from_timer k rest ph e) v = record {
  stood = ground (arith, ap (count co) e);
  none_left = (NextUp-Ready (from_timer k rest ph e) v).free;
  places_le = λ c. ground (arith, ap (count c) e, unwatch-count c co w.watched);
  queued_le = λ c ne. omega arith;
}
NextUp-Taken {w} {u} {co} (from_queue k rest ph e) v =
    let (cs, st, re, de) = pop_new-rest w.pro.running_que k rest w.pro in
    record {
      stood = ground (arith, pop_new-queued w.pro.running_que co co rest w.pro e);
      none_left = (NextUp-Ready (from_queue k rest ph e) v).free;
      places_le = λ c. ground (
        arith,
        pop_new-queued w.pro.running_que c co rest w.pro e,
        unwatch-count c co w.watched,
        ap (count c) re,
        ap (count c) de,
      );
      queued_le = λ c ne. ground (arith, pop_new-queued w.pro.running_que c co rest w.pro e);
    }
NextUp-Taken {w} {u} {co} (from_epoll k rest ph e) v = record {
  stood = ground (arith, ap (reported co) e, (v co).reports);
  none_left = (NextUp-Ready (from_epoll k rest ph e) v).free;
  places_le = λ c. ground (arith, unwatch-count c co w.watched);
  queued_le = λ c ne. omega arith;
}
