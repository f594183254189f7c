-- ===== src/Processors/Tests.antt =====
-- Two processors: the first is given the coroutine 10, which asks for the lock in its first slice.
use net_lib.Prelude.{ℕ, ◌+◌, ◌≤◌, ◌<◌, ◌≡◌, ◌⊎◌, refl, false, [], ◌∷◌, arith}
use net_lib.Prelude.Int.{pos}
use net_lib.Prelude.Family.{update}
use net_lib.Processor.{
  go_co_batch, push_all, push_new, wake_up_epoller, flip, delete_all, clear_removed,
}
use net_lib.Processor.Ended.{count}
use net_lib.RwMutex.System
use net_lib.RwMutex.System.{reading, writing}
use net_lib.Timer.{wake_up, reset_timefd, get_expired, pop_due, drain}
use net_lib.Epoller.{Report, get_act_ev_serv}
use net_lib.Worker.{Worker, new_worker, hand_over, taking, pop_front}
use net_lib.Worker.Steps.{
  poll, expire, exchange, clean, polls, expires, ends_expired, exchanges, cleans, from_queue,
}
use net_lib.Processors.{
  Processors, Reach, start, later, works, takes, creates, calls_wlock, start_processors, create,
  looping, running,
}
use net_lib.Processors.Invariant.{held, ready, SlotReach}
use net_lib.Processors.Safety.{components_reached, one_processor, waiter_kept}

abbrev nothing : Report
nothing = record { act_ev_num = pos 0; errno = pos 0; stored = [] }

abbrev handed : Worker
handed = hand_over (10 ∷ []) 1000 1000 (new_worker (pos 5))

abbrev round_start : Worker → Worker
round_start w = record (expire [] w.timer (poll nothing w)) { phase = taking }

abbrev second_round : Worker
second_round = round_start (clean (exchange (round_start handed)))

abbrev puts : Worker → Processors → Processors
puts w f = record f { slots = update f.slots 0 (looping w) }

abbrev created : Processors
created = create 10 0 1000 1000 (start_processors (λ _. pos 5))

abbrev round : Worker → Processors → Processors
round w f =
    puts (round_start w) (puts (expire [] w.timer (poll nothing w)) (puts (poll nothing w) f))

abbrev at_work : Processors
at_work = round (clean (exchange (round_start handed))) (
    puts (clean (exchange (round_start handed)))
      (puts (exchange (round_start handed)) (round handed created)))

abbrev taken : Processors
taken = record at_work {
  slots = update at_work.slots 0 (running second_round (pop_front 10 [] second_round) 10 [] false);
}

abbrev asks : Processors
asks = record taken { lock = record taken.lock { pc = update taken.lock.pc 10 System.wants_write } }

asks-Reach : Reach 11 (λ _. pos 5) asks
unfolding hand_over go_co_batch push_all push_new wake_up_epoller wake_up reset_timefd poll
    get_act_ev_serv expire exchange clean flip delete_all clear_removed get_expired pop_due drain
asks-Reach =
    let r0 = later start (creates 10 0 1000 1000 (omega arith) refl) in
    let r1 = later r0 (works 0 refl (polls nothing refl (λ c. ground arith)) tt) in
    let r2 =
      later r1 (works 0 refl (expires 1000 1000 (pos 8 ∷ []) [] handed.timer refl refl) tt) in
    let r3 = later r2 (works 0 refl (ends_expired refl refl) tt) in
    let r4 = later r3 (works 0 refl (exchanges refl refl) tt) in
    let r5 = later r4 (works 0 refl (cleans refl refl) tt) in
    let r6 = later r5 (works 0 refl (polls nothing refl (λ c. ground arith)) tt) in
    let r7 =
      later r6 (works 0 refl (expires 1000 1000 (pos 8 ∷ []) [] handed.timer refl refl) tt) in
    let r8 = later r7 (works 0 refl (ends_expired refl refl) tt) in
    let r9 = later r8 (takes 0 refl (from_queue 10 [] refl refl)) in
    later r9 (calls_wlock 0 refl refl)

components_reached_example :
    ((k : ℕ) → SlotReach (pos 5) (asks.slots k)) × System.Reach 11 asks.lock
components_reached_example = components_reached asks-Reach

one_processor_example :
    (held 10 (asks.slots 0) + count 10 asks.lock.mutex.waiting ≤ 1)
    × (1 ≤ held 10 (asks.slots 0) → 1 ≤ held 10 (asks.slots 1) → ◌≡◌ {A = ℕ} 0 1)
one_processor_example = one_processor asks-Reach 10 0 1

waiter_kept_example :
    ((count 10 asks.lock.mutex.waiting ≡ 1)
      × (ready 10 (asks.slots (asks.home 10)) ≡ 0)
      × ((j : ℕ) × (j < 11) × ((asks.lock.pc j ≡ reading) ⊎ (asks.lock.pc j ≡ writing))))
    ⊎ ((count 10 asks.lock.mutex.waiting ≡ 0) × (ready 10 (asks.slots (asks.home 10)) ≡ 1))
waiter_kept_example = waiter_kept asks-Reach 10 refl
