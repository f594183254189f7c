-- ===== src/Worker/Places.antt =====
-- Where a coroutine of a processor stands (src/processor.cc).
use net_lib.Prelude.{
  ℕ, ◌+◌, ◌≤◌, ◌≡◌, ◌≢◌, Option, none, some, List, [], ◌∷◌, map, ◌==◌, if◌then◌else◌,
}
use net_lib.Processor.{Processor, yields}
use net_lib.Processor.Ended.{count, ended}
use net_lib.Timer.{Entry}
use net_lib.Worker.{Watch, Worker, Visit, unwatch}

abbrev pub entry_cos : List Entry → List ℕ
entry_cos es = map (λ e. e.co) es

abbrev pub watch_cos : List Watch → List ℕ
watch_cos ws = map (λ w. w.co) ws

-- In the two queues of new coroutines.
abbrev pub queued : ℕ → Processor → ℕ
queued c p = count c p.que_0 + count c p.que_1

-- In the timer's queue, among those that it has handed out, or watched by epoll.
abbrev pub asleep : ℕ → Worker → ℕ
asleep c w = (count c (entry_cos w.timer.heap) + count c w.expired) + count c (watch_cos w.watched)

-- With the coroutines that have ended, all places.
abbrev pub places : ℕ → Worker → ℕ
places c w = (queued c w.pro + asleep c w) + ended c w.pro

-- How often `c` stands among the active ones.
abbrev pub reported : ℕ → List (Option ℕ) → ℕ
reported c [] = 0
reported c (none ∷ cos) = reported c cos
reported c (some co ∷ cos) = (if c == co then 1 else 0) + reported c cos

-- What is asked of those who call `goCo`: nobody hands over a coroutine that stands somewhere, has
-- ended or is handed over twice. This is what the lock and `goNewCo` do.
abbrev pub MayGo : List ℕ → Worker → Type 0
MayGo cos w = (t : ℕ) → count t cos + places t w ≤ 1

-- A coroutine that runs is not watched any more.
abbrev pub loose : ℕ → Worker → Worker
loose co w = record w { watched = unwatch co w.watched }

-- The same for a slice of `co`; others may hand over `co` itself only if its slice ends in `yield`.
pub record MayRun (v : Visit) (co : ℕ) (w : Worker) : Type 0 where
  pub others : MayGo v.slice.goes w
  pub own : v.slice.ending ≢ yields → count co v.slice.goes ≡ 0
