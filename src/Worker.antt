-- ===== src/Worker.antt =====
-- The thread of a processor with the timer and the epoll descriptor that it owns (src/processor.h and
-- src/processor.cc): `Processor::loop`, `wait`, `waitEvent` and `goCo`, one step at a time. `Steps`
-- has the order of the steps. Processor has the queues and the statuses, Timer and Epoller the rest.
pub mod Steps
pub mod Places
pub mod Frame
pub mod Effects
pub mod Sound
pub mod Moves
pub mod Ready
pub mod Safety
pub mod Faults
mod Tests
use net_lib.Prelude.{
  ℕ, suc, ◌+◌, ◌*◌, Bool, true, false, ◌&&◌, not, Option, none, some, List, [], ◌∷◌, ◌++◌, map,
  member, length, ◌==◌, if◌then◌else◌,
}
use net_lib.Prelude.Int.{ℤ}
use net_lib.Coroutine.{resume}
use net_lib.Processor.{
  Processor, new_processor, Slice, Ending, yields, finishes, sleeps, waits_event, go_co_batch,
  resume_co, pop_new,
}
use net_lib.Timer.{Timer, new_timer, wake_up, run_after}
use net_lib.Epoller.{Epoller, new_epoller, Ctl, add_ev, remove_ev}

-- What a coroutine waits for in `waitEvent`: the kernel has it from a successful `addEv` on.
pub record Watch : Type 0 where
  pub fd : ℤ
  pub ev : ℕ
  pub co : ℕ

-- The parts of one round of the loop.
pub data Phase : Type 0 where
  polling timing expiring taking acting : Phase

-- `expired` and `active` are what is left of `timerExpiredCo_` and `actCoroutines_`; `calls` are the
-- calls of `epoll_ctl` that were made.
pub record Worker : Type 0 where
  pub pro : Processor
  pub timer : Timer
  pub epoller : Epoller
  pub watched : List Watch
  pub calls : List Ctl
  pub phase : Phase
  pub expired : List ℕ
  pub active : List (Option ℕ)

-- Behind `Epoller::init`, which gave the descriptor `fd`.
abbrev pub new_worker : ℤ → Worker
new_worker fd = record {
  pro = new_processor;
  timer = new_timer;
  epoller = record new_epoller { epoll_fd = fd };
  watched = [];
  calls = [];
  phase = polling;
  expired = [];
  active = [];
}

-- One slice of a coroutine, the readings of the clock in it, and what `epoll_ctl` returns for the
-- `removeEv` at its beginning.
pub record Visit : Type 0 where
  pub slice : Slice
  pub clock : ℕ → ℕ
  pub removed : ℤ

-- The calls of `Timer::wakeUp` by `goCo`, from reading `k` of the clock on.
unfoldable pub wake_each : (ℕ → ℕ) → ℕ → List ℕ → Timer → Timer
wake_each clock k [] t = t
wake_each clock k (co ∷ cos) t = wake_each clock (k + 2) cos (wake_up (clock k) (clock (k + 1)) t)

-- `timer_.runAfter(time, pCurCoroutine_)` in `wait`.
abbrev pub end_timer : Ending → ℕ → (ℕ → ℕ) → ℕ → Timer → Timer
end_timer (sleeps time) co clock k t = run_after time co (clock k) (clock (k + 1)) t
end_timer yields co clock k t = t
end_timer finishes co clock k t = t
end_timer (waits_event fd ev added) co clock k t = t

abbrev pub visit_timer : Visit → ℕ → Timer → Timer
visit_timer v co t =
    end_timer v.slice.ending co v.clock (2 * length v.slice.goes)
      (wake_each v.clock 0 v.slice.goes t)

abbrev pub made : Option Ctl → List Ctl
made none = []
made (some c) = c ∷ []

-- `epoller_.addEv(pCurCoroutine_, fd, ev)` in `waitEvent`, whose result the code does not test: what
-- is watched from then on, and the call.
abbrev pub end_watch : Ending → ℕ → Epoller → List Watch × List Ctl
end_watch (waits_event fd ev added) co e =
    let (call, ok) = add_ev added (some co) fd ev e in
    (if ok then record { fd = fd; ev = ev; co = co } ∷ [] else [], made call)
end_watch yields co e = ([], [])
end_watch finishes co e = ([], [])
end_watch (sleeps time) co e = ([], [])

-- `epoller_.removeEv` of `waitEvent`, when the coroutine is resumed in it: the kernel does not have
-- the descriptor any more, nor if it was closed meanwhile and the call fails.
unfoldable pub unwatch : ℕ → List Watch → List Watch
unwatch co [] = []
unwatch co (w ∷ ws) = let rest = unwatch co ws in if co == w.co then rest else w ∷ rest

unfoldable pub remove_calls : ℤ → ℕ → Epoller → List Watch → List Ctl
remove_calls ret co e [] = []
remove_calls ret co e (w ∷ ws) =
    let rest = remove_calls ret co e ws in
    if co == w.co then made (remove_ev ret (some co) w.fd w.ev e).0 ++ rest else rest

-- Whether `Processor::resume(co)` switches to the coroutine.
abbrev pub will_run : ℕ → Processor → Bool
will_run co p = member co p.co_set && (not (member co p.deleted) && (resume (p.co_status co)).1)

-- What a slice of `co` leaves of the timer, the epoll descriptor and the calls.
abbrev pub visited : Visit → ℕ → Processor → Worker → Worker
visited v co p w =
    let (watch, add) = end_watch v.slice.ending co w.epoller in
    record w {
      pro = p;
      timer = visit_timer v co w.timer;
      watched = watch ++ unwatch co w.watched;
      calls = w.calls ++ (remove_calls v.removed co w.epoller w.watched ++ add);
    }

-- `Processor::resume(co)`, with the slice up to the switch back.
unfoldable pub visit : Visit → ℕ → Worker → Worker
visit v co w =
    let p = resume_co (λ _. v.slice) (some co) w.pro in
    if will_run co w.pro then visited v co p w else record w { pro = p }

-- `goCoBatch` by another thread, which reads the clock at `start` and at `present`.
unfoldable pub hand_over : List ℕ → ℕ → ℕ → Worker → Worker
hand_over cos start present w = record w {
  pro = go_co_batch cos w.pro;
  timer = wake_up start present w.timer;
}

-- The front of the queue that is run, as the loop takes it.
abbrev pub pop_front : ℕ → List ℕ → Worker → Worker
pop_front co rest w = record w { pro = pop_new w.pro.running_que co rest w.pro }
