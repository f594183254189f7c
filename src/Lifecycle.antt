-- ===== src/Lifecycle.antt =====
-- The life of a processor's thread (src/processor.cc) and of the scheduler's (src/scheduler.cc): start,
-- stop, join and destruction. What the thread does in a round of its loop is in Worker; here a round
-- is a test of `status_`. What `Epoller::init` and `Timer::init` return is an argument.
pub mod Ends
pub mod Startup
mod Tests
use net_lib.Prelude.{
  ℕ, zero, suc, Bool, true, false, ◌&&◌, Option, none, some, List, [], ◌∷◌, if◌then◌else◌,
}
use net_lib.Processor.{ProStatus, pro_running, pro_stopping, pro_stopped}

-- Where the thread of `pLoop_` stands: there is none, it has not come to the loop, it is in the loop,
-- it has returned.
pub data Point : Type 0 where
  absent launched looping returned : Point

-- `joined` tells whether the `std::thread` was joined; `co_set` is what stands in `coSet_` when the
-- destructor comes to it, the coroutines that have not ended.
pub record Host : Type 0 where
  pub status : ProStatus
  pub point : Point
  pub joined : Bool
  pub co_set : List ℕ

abbrev pub new_host : Host
new_host = record { status = pro_stopped; point = absent; joined = false; co_set = [] }

-- `loop`, which makes the thread.
unfoldable pub loop : Host → Host
loop h = record h { point = launched }

-- `while (PRO_RUNNING == status_)`, and what comes behind the loop.
abbrev pub test : ProStatus → Host → Host
test pro_running h = h
test pro_stopping h = record h { status = pro_stopped; point = returned }
test pro_stopped h = record h { status = pro_stopped; point = returned }

-- One step of the thread: its beginning, or one test of the loop.
abbrev pub thread_at : Point → Bool → Bool → Host → Host
thread_at launched epoller_init timer_init h =
    if epoller_init && timer_init
    then record h { status = pro_running; point = looping }
    else record h { point = returned }
thread_at looping epoller_init timer_init h = test h.status h
thread_at absent epoller_init timer_init h = h
thread_at returned epoller_init timer_init h = h

unfoldable pub thread_step : Bool → Bool → Host → Host
thread_step epoller_init timer_init h = thread_at h.point epoller_init timer_init h

unfoldable pub thread_steps : ℕ → Bool → Bool → Host → Host
thread_steps zero epoller_init timer_init h = h
thread_steps (suc n) epoller_init timer_init h =
    thread_steps n epoller_init timer_init (thread_step epoller_init timer_init h)

-- `stop`
unfoldable pub stop : Host → Host
stop h = record h { status = pro_stopping }

-- How a call of the owner ends: it comes back, it waits for a thread that does not return, the
-- program is ended, by `std::terminate` or an exception that nobody catches, or it calls `delete` for
-- memory that `new` did not give, of which C++ says nothing more.
pub data Fate : Type 0 where
  done : Host → Fate
  waits_on aborts bad_delete : Fate

-- `join`, which throws if there is nothing to join.
abbrev pub join_at : Point → Bool → Host → Fate
join_at returned false h = done (record h { joined = true })
join_at launched false h = waits_on
join_at looping false h = waits_on
join_at absent joined h = aborts
join_at launched true h = aborts
join_at looping true h = aborts
join_at returned true h = aborts

unfoldable pub join : Host → Fate
join h = join_at h.point h.joined h

-- `delete pLoop_`: the destructor of a `std::thread` that was not joined ends the program.
abbrev pub delete_loop : Point → Bool → Host → Fate
delete_loop absent joined h = done h
delete_loop launched joined h = if joined then done h else aborts
delete_loop looping joined h = if joined then done h else aborts
delete_loop returned joined h = if joined then done h else aborts

abbrev pub and_then : Fate → (Host → Fate) → Fate
and_then (done h) k = k h
and_then waits_on k = waits_on
and_then aborts k = aborts
and_then bad_delete k = bad_delete

abbrev pub is_running : ProStatus → Bool
is_running pro_running = true
is_running _ = false

abbrev pub is_stopping : ProStatus → Bool
is_stopping pro_stopping = true
is_stopping _ = false

-- The loop over `coSet_`: `goNewCo` made the coroutines in the memory of a pool, and not by `new`.
unfoldable pub delete_cos : List ℕ → Host → Fate
delete_cos [] h = done h
delete_cos (co ∷ cos) h = bad_delete

-- `~Processor` from the join on, `finish`, and from the second test of `status_` on, `end_thread`:
-- `join` waits while the thread takes `n` steps.
unfoldable pub finish : Host → Fate
finish h = and_then (delete_loop h.point h.joined h) (λ h2. delete_cos h2.co_set h2)

unfoldable pub end_thread : Bool → Bool → ℕ → Host → Fate
end_thread epoller_init timer_init n h =
    and_then
      (if is_stopping h.status then join (thread_steps n epoller_init timer_init h) else done h)
      finish

-- `~Processor`; between its two tests of `status_` the thread takes `m` steps.
unfoldable pub destroy : Bool → Bool → ℕ → ℕ → Host → Fate
destroy epoller_init timer_init m n h =
    let stopped = if is_running h.status then stop h else h in
    end_thread epoller_init timer_init n (thread_steps m epoller_init timer_init stopped)

-- `startScheduler(thread_cnt)`
unfoldable pub start_scheduler : ℕ → List Host
start_scheduler zero = []
start_scheduler (suc n) = loop new_host ∷ start_scheduler n

unfoldable pub stop_all : List Host → List Host
stop_all [] = []
stop_all (h ∷ hs) = stop h ∷ stop_all hs

-- The first call that does not come back, or none.
abbrev pub stuck : Fate → Option Fate → Option Fate
stuck (done h) rest = rest
stuck waits_on rest = some waits_on
stuck aborts rest = some aborts
stuck bad_delete rest = some bad_delete

-- The second loop of `~Scheduler`: each thread takes `n` steps while it is joined, and then `n` in each
-- part of the destructor of its processor, if it has not returned.
unfoldable pub join_all : ℕ → List Host → Option Fate
join_all n [] = none
join_all n (h ∷ hs) =
    let rest = join_all n hs in
    stuck (and_then (join (thread_steps n true true h)) (destroy true true n n)) rest

-- `~Scheduler`
unfoldable pub destroy_scheduler : ℕ → List Host → Option Fate
destroy_scheduler n hs = join_all n (stop_all hs)

-- `Scheduler::join`: as `~Scheduler`, without a stop before.
unfoldable pub scheduler_join : ℕ → List Host → Option Fate
scheduler_join n [] = none
scheduler_join n (h ∷ hs) =
    let rest = scheduler_join n hs in stuck (join (thread_steps n true true h)) rest
