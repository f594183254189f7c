-- ===== src/Scheduler.antt =====
-- src/scheduler.h, src/scheduler.cc and src/copnet.cc: the one scheduler, and where a coroutine goes.
-- `getScheduler` is its steps, in any order of the threads that call it; a thread is a number. A
-- scheduler is the number of those made before it. `std::mutex` is the thread that holds it.
pub mod Single
pub mod Target
mod Tests
use net_lib.Prelude.{
  ℕ, suc, ◌+◌, ◌-◌, ◌^◌, ◌%◌, Bool, true, false, Option, none, some, List, [], ◌∷◌, length, ltb,
  ◌==◌, if◌then◌else◌,
}
use net_lib.Prelude.Int.{ℤ, pos, negsuc}
use net_lib.Prelude.Family.{update}
use net_lib.Selector.{Selector, Pick, at, out_of_range, next, read_at}

-- Where a thread stands in `getScheduler`: at the first test, at the lock, at the second test, at the
-- construction, in `startScheduler` with the processors made so far, at the unlock, behind the call.
pub data Point : Type 0 where
  away testing locking testing_again creating unlocking : Point
  starting : ℕ → Point
  got : Option ℕ → Point

-- `processors` is how many processors each scheduler has.
pub record Global : Type 0 where
  pub p_scher : Option ℕ
  pub scher_mtx : Option ℕ
  pub made : ℕ
  pub processors : ℕ → ℕ
  pub point : ℕ → Point

abbrev pub start_global : Global
start_global = record {
  p_scher = none;
  scher_mtx = none;
  made = 0;
  processors = λ _. 0;
  point = λ _. away;
}

abbrev pub go_to : ℕ → Point → Global → Global
go_to i p g = record g { point = update g.point i p }

-- `if (nullptr == pScher_)`, with the points for a pointer that is null and one that is not.
abbrev pub test : ℕ → Point → Point → Option ℕ → Global → Global
test i null set none g = go_to i null g
test i null set (some k) g = go_to i set g

-- A thread that finds the mutex held waits.
abbrev pub lock : ℕ → Option ℕ → Global → Global
lock i none g = go_to i testing_again (record g { scher_mtx = some i })
lock i (some j) g = g

-- `pScher_ = new Scheduler();`
abbrev pub create : ℕ → Global → Global
create i g = go_to i (starting 0) (record g { p_scher = some g.made; made = suc g.made })

-- `processors_.emplace_back(new Processor(i))` to the scheduler of `pScher_`.
abbrev pub emplace : Option ℕ → (ℕ → ℕ) → ℕ → ℕ
emplace none ps = ps
emplace (some k) ps = update ps k (suc (ps k))

-- One round of `startScheduler(thread_num)` at `n` processors, or its end.
abbrev pub start_round : ℕ → ℕ → ℕ → Global → Global
start_round thread_num i n g =
    if ltb n thread_num
    then go_to i (starting (suc n)) (record g { processors = emplace g.p_scher g.processors })
    else go_to i unlocking g

-- One step of thread `i`, with `thread_num` for `parameter::threadNums`.
abbrev pub step_at : ℕ → ℕ → Point → Global → Global
step_at thread_num i away g = go_to i testing g
step_at thread_num i testing g = test i locking (got g.p_scher) g.p_scher g
step_at thread_num i locking g = lock i g.scher_mtx g
step_at thread_num i testing_again g = test i creating unlocking g.p_scher g
step_at thread_num i creating g = create i g
step_at thread_num i (starting n) g = start_round thread_num i n g
step_at thread_num i unlocking g = go_to i (got g.p_scher) (record g { scher_mtx = none })
step_at thread_num i (got k) g = g

unfoldable pub get_scheduler_step : ℕ → ℕ → Global → Global
get_scheduler_step thread_num i g = step_at thread_num i (g.point i) g

-- The steps of the threads, in the order of the list.
unfoldable pub get_scheduler : ℕ → List ℕ → Global → Global
get_scheduler thread_num [] g = g
get_scheduler thread_num (i ∷ is) g =
    get_scheduler thread_num is (get_scheduler_step thread_num i g)

-- `getProcessor(id)`: a negative `id` is converted to the vector's 64-bit index.
abbrev pub get_processor : List ℕ → ℤ → Pick
get_processor counts (pos id) = read_at (length counts) id
get_processor counts (negsuc n) = out_of_range (2 ^ 64 - 1 - n)

-- `getProCnt`
abbrev pub get_pro_cnt : List ℕ → ℕ
get_pro_cnt counts = length counts

-- `createNewCo`: the processor that `goNewCo` is called of.
abbrev pub create_new_co : Selector → List ℕ → Pick × Selector
create_new_co s counts = next s counts

-- `co_go(func, stackSize, tid)`: the processor that `goNewCo` is called of, and the selector after
-- it, where `counts` are the numbers of coroutines of the processors.
unfoldable pub co_go : ℤ → Selector → List ℕ → Pick × Selector
co_go (negsuc n) s counts = create_new_co s counts
co_go (pos tid) s counts = (get_processor counts (pos (tid % get_pro_cnt counts)), s)
