-- ===== src/Worker/Steps.antt =====
-- The order of the steps of a processor's thread, between which other threads hand over coroutines
-- (src/processor.cc).
use net_lib.Prelude.{ℕ, ◌≡◌, ◌≤◌, Option, none, some, List, [], ◌∷◌}
use net_lib.Prelude.Int.{ℤ}
use net_lib.Processor.{queue, flip, delete_all, clear_removed}
use net_lib.Timer.{Timer, get_expired}
use net_lib.Epoller.{Report, get_act_ev_serv}
use net_lib.Processor.Ended.{count}
use net_lib.Worker.{
  Worker, Visit, polling, timing, expiring, taking, acting, new_worker, visit, hand_over, pop_front,
}
use net_lib.Worker.Places.{MayGo, MayRun, loose, reported, watch_cos}

-- `epoller_.getActEvServ`
unfoldable pub poll : Report → Worker → Worker
poll r w =
    let a = get_act_ev_serv r [] w.epoller in
    record w { active = a.act_ev_servs; epoller = a.epoller; phase = timing }

-- What `timer_.getExpiredCoroutines` gave.
unfoldable pub expire : List ℕ → Timer → Worker → Worker
expire cos t w = record w { expired = cos; timer = t; phase = expiring }

-- `runningNewQue_ = !runningQue;`
unfoldable pub exchange : Worker → Worker
exchange w = record w { pro = flip w.pro; phase = acting }

-- The loop over `removedCo_`, at the end of a round.
unfoldable pub clean : Worker → Worker
clean w = record w { pro = clear_removed (delete_all w.pro.removed w.pro); phase = polling }

-- The coroutine that the thread resumes next, and the worker with it taken from there.
pub data NextUp (w : Worker) : ℕ → Worker → Type 0 where
  from_timer :
      (co : ℕ) (rest : List ℕ)
      → w.phase ≡ expiring
      → w.expired ≡ co ∷ rest
      → NextUp w co (record w { expired = rest })
  from_queue :
      (co : ℕ) (rest : List ℕ)
      → w.phase ≡ taking
      → queue w.pro.running_que w.pro ≡ co ∷ rest
      → NextUp w co (pop_front co rest w)
  from_epoll :
      (co : ℕ) (rest : List (Option ℕ))
      → w.phase ≡ acting
      → w.active ≡ some co ∷ rest
      → NextUp w co (record w { active = rest })

-- One step. A call of `epoll_wait` reports a watch at most once.
pub data Step (w : Worker) : Worker → Type 0 where
  hands_over :
      (cos : List ℕ) (start present : ℕ) → MayGo cos w → Step w (hand_over cos start present w)
  polls :
      (r : Report)
      → w.phase ≡ polling
      → ((c : ℕ) → reported c (poll r w).active ≤ count c (watch_cos w.watched))
      → Step w (poll r w)
  expires :
      (present later : ℕ) (reads : List ℤ) (cos : List ℕ) (t : Timer)
      → w.phase ≡ timing
      → get_expired present later reads w.timer ≡ some (cos, t)
      → Step w (expire cos t w)
  ends_expired : w.phase ≡ expiring → w.expired ≡ [] → Step w (record w { phase = taking })
  exchanges : w.phase ≡ taking → queue w.pro.running_que w.pro ≡ [] → Step w (exchange w)
  skips_null :
      (rest : List (Option ℕ))
      → w.phase ≡ acting
      → w.active ≡ none ∷ rest
      → Step w (record w { active = rest })
  cleans : w.phase ≡ acting → w.active ≡ [] → Step w (clean w)
  resumes :
      (v : Visit) {co : ℕ} {u : Worker}
      → NextUp w co u
      → MayRun v co (loose co u)
      → Step w (visit v co u)

pub data Reach (fd : ℤ) : Worker → Type 0 where
  start : Reach fd (new_worker fd)
  later : {w u : Worker} → Reach fd w → Step w u → Reach fd u
