-- ===== src/MemPool/Layout.antt =====
-- Lists linked through memory, and blocks that do not overlap (src/mempool.h).
use net_lib.Prelude.{ℕ, ◌+◌, ◌≤◌, ◌<◌, ◌≡◌, ◌≢◌, ◌⊎◌, List, [], ◌∷◌, All, arith, All-mono}
use net_lib.Prelude.Family.{update}
use net_lib.MemPool.{Memory}

-- The nodes of the list that begins at `head`.
abbrev pub Chain : Memory → ℕ → List ℕ → Type 0
Chain mem head [] = head ≡ 0
Chain mem head (a ∷ ns) = (head ≡ a) × (0 < a) × Chain mem (mem a) ns

abbrev pub Distinct : List ℕ → Type 0
Distinct [] = Unit {0}
Distinct (a ∷ ns) = All (λ b. a ≢ b) ns × Distinct ns

-- Memory that agrees on the nodes has the same list.
pub Chain-agree :
    (mem mem' : Memory) (ns : List ℕ) (head : ℕ)
    → All (λ a. mem' a ≡ mem a) ns
    → Chain mem head ns
    → Chain mem' head ns
Chain-agree mem mem' [] head h c = c
Chain-agree mem mem' (a ∷ ns) head h c =
    (c.0, c.1, rw h.0 (Chain-agree mem mem' ns (mem a) h.1 c.2))

-- A write beside the list leaves it alone.
pub Chain-update :
    (mem : Memory) (ns : List ℕ) (head p v : ℕ)
    → All (λ a. p ≢ a) ns
    → Chain mem head ns
    → Chain (update mem p v) head ns
Chain-update mem ns head p v h c =
    Chain-agree mem (update mem p v) ns head (All-mono _ _ ns (λ a ne. ground arith) h) c

-- Blocks of `size` bytes at `a` and `b` do not overlap.
abbrev pub Apart : ℕ → ℕ → ℕ → Type 0
Apart size a b = (a + size ≤ b) ⊎ (b + size ≤ a)
