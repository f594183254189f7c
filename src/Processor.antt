-- ===== src/Processor.antt =====
-- src/processor.h and src/processor.cc: a thread that runs coroutines.
-- A coroutine is a number; a number is not used again for a later object at the same address. What a
-- coroutine does between a switch to it and the switch back is not the library's: `Slice` is what
-- comes of it for the processor, and `behaviour` gives the slices in the order of the switches.
-- `wake_ups` counts the calls of `Timer::wakeUp`; the logs `pushed`, `popped`, `ran` and `deleted` are for the
-- statements.
-- `faults` counts the calls of `resume` that would go on with a coroutine that was deleted; what they
-- do to its memory is left out.
pub mod Queues
pub mod Fifo
pub mod Batch
pub mod Ended
pub mod Create
mod Tests
use net_lib.Prelude.{
  ℕ, zero, suc, ◌+◌, Bool, true, false, not, Option, none, some, List, [], ◌∷◌, ◌++◌, member, ◌==◌,
  if◌then◌else◌,
}
use net_lib.Prelude.Family.{update}
use net_lib.Prelude.Int.{ℤ}
use net_lib.Coroutine.{CoStatus, co_waiting, new_status, resume, yield}

-- `processerStatus`
pub data ProStatus : Type 0 where
  pro_running pro_stopping pro_stopped : ProStatus

-- How a slice ends: by `yield`, by `wait(time)`, by `waitEvent(fd, ev)` where `epoll_ctl` returned
-- `added`, or with the coroutine's function.
pub data Ending : Type 0 where
  yields finishes : Ending
  sleeps : (time : ℕ) → Ending
  waits_event : (fd : ℤ) (ev : ℕ) (added : ℤ) → Ending

-- The coroutines that this coroutine, or another thread meanwhile, hands to `goCo`, and the end.
pub record Slice : Type 0 where
  pub goes : List ℕ
  pub ending : Ending

-- `co_set` is `coSet_`, without order; `que_0` and `que_1` are `newCoroutines_`, and `running_que`
-- tells whether `runningNewQue_` is 1.
pub record Processor : Type 0 where
  pub status : ProStatus
  pub que_0 : List ℕ
  pub que_1 : List ℕ
  pub running_que : Bool
  pub co_set : List ℕ
  pub removed : List ℕ
  pub cur : Option ℕ
  pub co_status : ℕ → CoStatus
  pub slices : ℕ
  pub wake_ups : ℕ
  pub pushed : List ℕ
  pub popped : List ℕ
  pub ran : List ℕ
  pub deleted : List ℕ
  pub faults : ℕ

abbrev pub new_processor : Processor
new_processor = record {
  status = pro_stopped;
  que_0 = [];
  que_1 = [];
  running_que = false;
  co_set = [];
  removed = [];
  cur = none;
  co_status = λ _. new_status;
  slices = 0;
  wake_ups = 0;
  pushed = [];
  popped = [];
  ran = [];
  deleted = [];
  faults = 0;
}

-- `newCoroutines_[que]`
abbrev pub queue : Bool → Processor → List ℕ
queue true p = p.que_1
queue false p = p.que_0

abbrev pub set_queue : Bool → List ℕ → Processor → Processor
set_queue true q p = record p { que_1 = q }
set_queue false q p = record p { que_0 = q }

-- `newCoroutines_[!runningNewQue_].push(pCo)`
unfoldable pub push_new : ℕ → Processor → Processor
push_new co p =
    let q = queue (not p.running_que) p in
    set_queue (not p.running_que) (q ++ co ∷ []) (record p { pushed = p.pushed ++ co ∷ [] })

unfoldable pub push_all : List ℕ → Processor → Processor
push_all [] p = p
push_all (co ∷ cos) p = push_all cos (push_new co p)

-- `wakeUpEpoller`, a call of `Timer::wakeUp`.
unfoldable pub wake_up_epoller : Processor → Processor
wake_up_epoller p = record p { wake_ups = suc p.wake_ups }

-- `goCo`
unfoldable pub go_co : ℕ → Processor → Processor
go_co co p = wake_up_epoller (push_new co p)

-- `goCoBatch`
unfoldable pub go_co_batch : List ℕ → Processor → Processor
go_co_batch cos p = wake_up_epoller (push_all cos p)

-- A call of `goCo` for each.
unfoldable pub go_each : List ℕ → Processor → Processor
go_each [] p = p
go_each (co ∷ cos) p = go_each cos (go_co co p)

-- The end of a slice of `co`, which is `pCurCoroutine_`: `yield` sets the status, `coWrapFunc` calls
-- `killCurCo`.
abbrev pub end_slice : Ending → ℕ → Processor → Processor
end_slice finishes co p = record p { removed = p.removed ++ co ∷ [] }
end_slice yields co p = record p { co_status = update p.co_status co (yield (p.co_status co)) }
end_slice (sleeps time) co p = record p {
  co_status = update p.co_status co (yield (p.co_status co));
}
end_slice (waits_event fd ev added) co p = record p {
  co_status = update p.co_status co (yield (p.co_status co));
}

-- `std::set::insert` and `erase`
abbrev pub insert : ℕ → List ℕ → List ℕ
insert co cos = if member co cos then cos else co ∷ cos

abbrev pub erase : ℕ → List ℕ → List ℕ
erase co [] = []
erase co (c ∷ cos) = let rest = erase co cos in if co == c then rest else c ∷ rest

-- The loop over `removedCo_`.
unfoldable pub delete_all : List ℕ → Processor → Processor
delete_all [] p = p
delete_all (co ∷ cos) p =
    delete_all cos (record p { co_set = erase co p.co_set; deleted = p.deleted ++ co ∷ [] })

unfoldable pub flip : Processor → Processor
flip p = record p { running_que = not p.running_que }

unfoldable pub clear_removed : Processor → Processor
clear_removed p = record p { removed = [] }

-- The front of the queue `que`, whose rest is `rest`, is taken and put into `coSet_`.
abbrev pub pop_new : Bool → ℕ → List ℕ → Processor → Processor
pop_new que co rest p =
    set_queue que rest (record p { co_set = insert co p.co_set; popped = p.popped ++ co ∷ [] })

module _ (behaviour : ℕ → Slice) where
  -- The switch to `co`, up to the switch back.
  unfoldable pub run_slice : ℕ → Processor → Processor
  run_slice co p =
      let s = behaviour p.slices in
      end_slice s.ending co
        (go_each s.goes (record p { slices = suc p.slices; ran = p.ran ++ co ∷ [] }))

  -- `pCurCoroutine_ = pCo; pCo->resume();`
  unfoldable pub switch_to : ℕ → Processor → Processor
  switch_to co p =
      let (st, switched) = resume (p.co_status co) in
      let started = record p { cur = some co; co_status = update p.co_status co st } in
      if switched then run_slice co started else started

  -- `Processor::resume`, which passes a null pointer and a coroutine that is not in `coSet_` over. To
  -- go on with a coroutine whose memory was given back is a fault.
  unfoldable pub resume_co : Option ℕ → Processor → Processor
  resume_co none p = p
  resume_co (some co) p =
      if member co p.co_set
      then (if member co p.deleted then record p { faults = suc p.faults } else switch_to co p)
      else p

  unfoldable pub resume_all : List (Option ℕ) → Processor → Processor
  resume_all [] p = p
  resume_all (co ∷ cos) p = resume_all cos (resume_co co p)

  -- One round of the loop over the running queue, whose rest is `rest`.
  unfoldable pub take_new : Bool → ℕ → List ℕ → Processor → Processor
  take_new que co rest p = resume_co (some co) (pop_new que co rest p)

  -- The loop over the queue `que`. What is pushed meanwhile goes to the other queue.
  unfoldable pub run_new : Bool → List ℕ → Processor → Processor
  run_new que [] p = p
  run_new que (co ∷ cos) p = run_new que cos (take_new que co cos p)

  -- One round of the loop of the processor's thread: `expired` are the coroutines whose time has
  -- come, `active` those of which epoll reported an event.
  unfoldable pub round : List (Option ℕ) → List (Option ℕ) → Processor → Processor
  round expired active p =
      let p1 = resume_all expired p in
      let p2 = run_new p1.running_que (queue p1.running_que p1) p1 in
      let p3 = resume_all active (flip p2) in clear_removed (delete_all p3.removed p3)
