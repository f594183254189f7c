-- ===== src/Scheduler/Target.antt =====
-- The processor that `co_go` hands a coroutine to (src/copnet.cc).
use net_lib.Prelude.{ℕ, suc, ◌+◌, ◌%◌, ◌≤◌, ◌<◌, ◌≡◌, List, [], ◌∷◌, length, arith}
use net_lib.Prelude.Int.{ℤ, pos, negsuc}
use net_lib.Selector.{
  Selector, Strategy, min_event_first, round_robin, at, next, index_of, min_index, min_loop,
  round_index, read_at,
}
use net_lib.Scheduler.{co_go}

min_loop-lt :
    (n : ℕ) (cs : List ℕ) (i best best_idx : ℕ)
    → best_idx < n
    → i + length cs ≤ n
    → min_loop cs i best best_idx < n
unfolding min_loop
min_loop-lt n [] i best best_idx h k = h
min_loop-lt n (c ∷ cs) i best best_idx h k =
    min_loop-lt n cs (i + 1) _ _ (ground arith) (omega arith)

index_of-lt :
    (st : Strategy) (next_pro front c : ℕ) (cs : List ℕ)
    → index_of st next_pro front (c ∷ cs) < suc (length (c ∷ cs))
unfolding index_of min_index round_index
index_of-lt min_event_first next_pro front c cs =
    min_loop-lt (suc (length (c ∷ cs))) (c ∷ cs) 1 front 1 (omega arith) (omega arith)
index_of-lt round_robin next_pro front c cs = ground arith

pub read_at-at : (n i : ℕ) → i < n → read_at n i ≡ at i
unfolding read_at
read_at-at n i h = ground arith

-- With two processors or more, `co_go` reaches one of them and reads nothing out of range, whatever
-- thread number it is given, negative or not, and whatever the state of the selector and the counts.
pub co_go_target :
    (tid : ℤ) (s : Selector) (front c : ℕ) (cs : List ℕ)
    → let counts = front ∷ c ∷ cs in (k : ℕ) × (k < length counts) × ((co_go tid s counts).0 ≡ at k)
unfolding co_go next
co_go_target (pos tid) s front c cs =
    (tid % length (front ∷ c ∷ cs), omega arith, read_at-at _ _ (omega arith))
co_go_target (negsuc n) s front c cs =
    let lt = index_of-lt s.strategy s.next_pro front c cs in
    (index_of s.strategy s.next_pro front (c ∷ cs), lt, read_at-at _ _ lt)
