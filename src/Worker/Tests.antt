-- ===== src/Worker/Tests.antt =====
-- A worker that is handed the coroutine 10 and reaches it in its second round.
use net_lib.Prelude.{◌≤◌, ◌≡◌, ◌⊎◌, refl, true, [], ◌∷◌, ◌++◌, member, arith}
use net_lib.Prelude.Int.{pos, negsuc}
use net_lib.Coroutine.{co_waiting}
use net_lib.Processor.{
  finishes, sleeps, waits_event, go_co_batch, push_all, push_new, wake_up_epoller, flip, delete_all,
  clear_removed, resume_co, switch_to, run_slice, go_each,
}
use net_lib.Timer.{wake_up, reset_timefd, get_expired, pop_due, drain}
use net_lib.Epoller.{Report, get_act_ev_serv}
use net_lib.Worker.{
  Worker, new_worker, Visit, visit, hand_over, pop_front, taking, wake_each, unwatch,
}
use net_lib.Worker.Places.{asleep, places}
use net_lib.Worker.Steps.{
  poll, expire, exchange, clean, hands_over, polls, expires, ends_expired, exchanges, cleans,
  NextUp, from_queue, Reach, start, later,
}
use net_lib.Worker.Safety.{one_place, resumed_runs, wait_event_lost}

abbrev nothing : Report
nothing = record { act_ev_num = pos 0; errno = pos 0; stored = [] }

abbrev handed : Worker
handed = hand_over (10 ∷ []) 1000 1000 (new_worker (pos 5))

-- What `getExpiredCoroutines` makes of the timer, when no one sleeps: it stays as it is.
abbrev round_start : Worker → Worker
round_start w = record (expire [] w.timer (poll nothing w)) { phase = taking }

abbrev first_round : Worker
first_round = clean (exchange (round_start handed))

abbrev second_round : Worker
second_round = round_start first_round

second_round-Reach : Reach (pos 5) second_round
unfolding hand_over go_co_batch push_all push_new wake_up_epoller wake_up reset_timefd poll
    get_act_ev_serv expire exchange clean flip delete_all clear_removed get_expired pop_due drain
second_round-Reach =
    let r0 = later start (hands_over (10 ∷ []) 1000 1000 (λ t. ground arith)) in
    let r1 = later r0 (polls nothing refl (λ c. ground arith)) in
    let r2 = later r1 (expires 1000 1000 (pos 8 ∷ []) [] handed.timer refl refl) in
    let r3 =
      later (later (later r2 (ends_expired refl refl)) (exchanges refl refl)) (cleans refl refl) in
    let r4 = later r3 (polls nothing refl (λ c. ground arith)) in
    later (later r4 (expires 1000 1000 (pos 8 ∷ []) [] handed.timer refl refl))
      (ends_expired refl refl)

-- 10 sleeps for a second.
abbrev sleepy : Visit
sleepy = record {
  slice = record { goes = []; ending = sleeps 1000 };
  clock = λ _. 2000;
  removed = pos 0;
}

-- 10 waits for a socket that epoll refuses.
abbrev refused : Visit
refused = record sleepy { slice = record { goes = []; ending = waits_event (pos 7) 1 (negsuc 0) } }

abbrev popped : Worker
popped = pop_front 10 [] second_round

next_up : NextUp second_round 10 popped
unfolding hand_over go_co_batch push_all push_new wake_up_epoller wake_up reset_timefd poll
    get_act_ev_serv expire exchange clean flip delete_all clear_removed get_expired pop_due drain
next_up = from_queue 10 [] refl refl

one_place_example :
    (places 10 second_round ≤ 1)
    × ((asleep 10 second_round ≡ 0)
        ⊎ ((second_round.pro.co_status 10 ≡ co_waiting)
            × (member 10 second_round.pro.co_set ≡ true)))
one_place_example = one_place second_round-Reach 10

resumed_runs_example : (visit sleepy 10 popped).pro.ran ≡ second_round.pro.ran ++ 10 ∷ []
resumed_runs_example = resumed_runs second_round-Reach next_up sleepy

wait_event_lost_example :
    (places 10 (visit refused 10 popped) ≡ 0)
    × ((visit refused 10 popped).pro.co_status 10 ≡ co_waiting)
wait_event_lost_example = wait_event_lost second_round-Reach next_up refused (pos 7) 1 0 refl

-- 10 finishes, and the end of the round gives it back to the pool.
abbrev finishing : Visit
finishing = record sleepy { slice = record { goes = []; ending = finishes } }

abbrev deleted_round : Worker
deleted_round = clean (exchange (visit finishing 10 popped))

given_back : deleted_round.pro.deleted ≡ 10 ∷ []
unfolding hand_over go_co_batch push_all push_new wake_up_epoller wake_up reset_timefd poll
    get_act_ev_serv expire exchange clean flip delete_all clear_removed get_expired pop_due drain
    visit resume_co switch_to run_slice go_each wake_each unwatch
given_back = refl
