-- ===== src/Selector.antt =====
-- src/processor_selector.h and src/processor_selector.cc: which processor takes the next coroutine.
-- A processor is seen through `getCoCnt`, the size of its coroutine set; the vector of processors is
-- the list of these counts. The result is the index that `processors_[curPro_]` is read at: the
-- vector's `operator[]` does not check it, so an index out of range is `out_of_range`.
pub mod Laws
mod Tests
use net_lib.Prelude.{
  ℕ, zero, suc, ◌+◌, ◌≤◌, ◌<◌, Bool, Option, none, some, List, [], ◌∷◌, ltb, leb, length,
  if◌then◌else◌,
}

-- `scheduleStrategy`; any other number is dispatched like ROUND_ROBIN (`default`).
pub data Strategy : Type 0 where
  min_event_first round_robin : Strategy

-- `curPro_` starts at -1: `next_pro` is `curPro_ + 1`.
pub record Selector : Type 0 where
  pub next_pro : ℕ
  pub strategy : Strategy

pub new_selector : Strategy → Selector
new_selector s = record { next_pro = 0; strategy = s }

pub set_strategy : Selector → Strategy → Selector
set_strategy s st = record s { strategy = st }

-- What the caller receives: a null pointer, a processor, or undefined behaviour.
pub data Pick : Type 0 where
  null : Pick
  at : ℕ → Pick
  out_of_range : ℕ → Pick

-- The loop of MIN_EVENT_FIRST from index `i` on, over the counts that are left.
unfoldable pub min_loop : List ℕ → ℕ → ℕ → ℕ → ℕ
min_loop [] i best best_idx = best_idx
min_loop (c ∷ cs) i best best_idx =
    min_loop cs (i + 1) (if ltb c best then c else best) (if ltb c best then i else best_idx)

-- `minCoCnt` starts at the count of processor 0, `minCoProIdx` at 1.
unfoldable pub min_index : ℕ → List ℕ → ℕ
min_index front rest = min_loop rest 1 front 1

-- `++curPro_; if (curPro_ >= n) curPro_ = 1;`
unfoldable pub round_index : ℕ → ℕ → ℕ
round_index n next_pro = if leb n next_pro then 1 else next_pro

unfoldable pub index_of : Strategy → ℕ → ℕ → List ℕ → ℕ
index_of min_event_first next_pro front rest = min_index front rest
index_of round_robin next_pro front rest = round_index (suc (length rest)) next_pro

unfoldable pub read_at : ℕ → ℕ → Pick
read_at n i = if ltb i n then at i else out_of_range i

unfoldable pub next : Selector → List ℕ → Pick × Selector
unfolding index_of read_at
next s [] = (null, s)
next s (front ∷ rest) =
    let i = index_of s.strategy s.next_pro front rest in
    (read_at (suc (length rest)) i, record s { next_pro = i + 1 })
