-- ===== src/Processor/Tests.antt =====
-- A processor whose first coroutine hands over a second one: a run, and the theorems at it.
use net_lib.Prelude.{ℕ, zero, suc, ◌≡◌, refl, not, none, some, List, [], ◌∷◌, ◌++◌, ◌+◌, length}
use net_lib.Processor.{
  Slice, yields, finishes, new_processor, queue, go_co, go_co_batch, push_all, push_new,
  wake_up_epoller, go_each, run_slice, switch_to, resume_co, resume_all, take_new, run_new,
  delete_all, flip, clear_removed, round,
}
use net_lib.Processor.Fifo.{taken_in_two_rounds, Event, goes, rounds, happen, history, history_fifo}
use net_lib.Processor.Batch.{go_co_batch-go_each}

-- Slice 0 hands over 20 and yields; the others end.
abbrev hands_over : ℕ → Slice
hands_over zero = record { goes = 20 ∷ []; ending = yields }
hands_over (suc n) = record { goes = []; ending = finishes }

-- 10 is handed to the processor; three rounds, in the last of which epoll reports an event of 10.
abbrev events : List Event
events =
    goes (10 ∷ [])
    ∷ rounds [] []
    ∷ rounds [] []
    ∷ rounds [] []
    ∷ rounds [] (some 10 ∷ none ∷ [])
    ∷ []

after_events :
    let p = history hands_over events new_processor in
    (p.popped ≡ 10 ∷ 20 ∷ [])
    × (p.ran ≡ 10 ∷ 20 ∷ 10 ∷ [])
    × (p.deleted ≡ 20 ∷ 10 ∷ [])
    × (p.co_set ≡ [])
    × (p.removed ≡ [])
unfolding history happen go_co_batch push_all push_new wake_up_epoller go_each go_co round
    resume_all resume_co switch_to run_slice run_new take_new delete_all flip clear_removed
after_events = (refl, refl, refl, refl, refl)

history_fifo_example :
    let p = history hands_over events new_processor in
    p.pushed ≡ p.popped ++ (queue p.running_que p ++ queue (not p.running_que) p)
history_fifo_example = history_fifo hands_over events

taken_in_two_rounds_example :
    let p = go_co 10 new_processor in
    let r = p.running_que in
    let p' = round hands_over [] [] (round hands_over [] [] p) in
    (more : List ℕ) × (p'.popped ≡ p.popped ++ (queue r p ++ (queue (not r) p ++ more)))
taken_in_two_rounds_example = taken_in_two_rounds hands_over [] [] [] [] (go_co 10 new_processor)

go_co_batch-go_each_example :
    (go_co_batch (10 ∷ 20 ∷ []) new_processor
      ≡ record (go_each (10 ∷ 20 ∷ []) new_processor) { wake_ups = 0 + 1 })
    × ((go_each (10 ∷ 20 ∷ []) new_processor).wake_ups ≡ 0 + length {A = ℕ} (10 ∷ 20 ∷ []))
go_co_batch-go_each_example = go_co_batch-go_each (10 ∷ 20 ∷ []) new_processor
