-- ===== src/MemPool/World.antt =====
-- A memory pool between its clients and `malloc` (src/mempool.h): every order of their calls.
use net_lib.Prelude.{
  ℕ, ◌+◌, ◌*◌, ◌≤◌, ◌<◌, ◌≡◌, ◌≢◌, ◌⊎◌, Bool, true, false, Option, none, some, List, [], ◌∷◌,
}
use net_lib.Prelude.Family.{update}
use net_lib.MemPool.{Memory, MemPool, node_size, new_pool, malloc_count, alloc_block, free_block}

-- `used` are the blocks that the clients hold, and `given` the regions that `malloc` gave.
pub record World : Type 0 where
  pub pool : MemPool
  pub used : ℕ → Bool
  pub given : List (ℕ × ℕ)

-- The region from `c` to `e` meets none of the regions.
abbrev pub OffAll : ℕ → ℕ → List (ℕ × ℕ) → Type 0
OffAll c e [] = Unit {0}
OffAll c e ((s, t) ∷ rs) = ((e ≤ s) ⊎ (t ≤ c)) × OffAll c e rs

-- The end of what the next `malloc` is asked for at `c`.
abbrev pub chunk_end : ℕ → MemPool → ℕ
chunk_end c pool = c + node_size + malloc_count pool * pool.obj_size

-- A client holds the block that an allocation gave.
abbrev pub holds : World → Option (ℕ × MemPool) → World
holds w none = w
holds w (some (b, pool)) = record w { pool = pool; used = update w.used b true }

-- One call. `malloc` gives regions that do not meet; a client frees what it holds, and writes there.
pub data Step (w : World) : World → Type 0 where
  reuses :
      (malloc : Option ℕ) → w.pool.free_list_head ≢ 0 → Step w (holds w (alloc_block malloc w.pool))
  grows :
      (c : ℕ)
      → w.pool.free_list_head ≡ 0
      → 0 < c
      → OffAll c (chunk_end c w.pool) w.given
      → Step w (record (holds w (alloc_block (some c) w.pool)) {
        given = (c, chunk_end c w.pool) ∷ w.given;
      })
  frees :
      (b : ℕ)
      → w.used b ≡ true
      → Step w (record w { pool = free_block b w.pool; used = update w.used b false })
  writes :
      (mem : Memory)
      → ((x : ℕ)
          → ((u : ℕ) → w.used u ≡ true → (x + node_size ≤ u) ⊎ (u + w.pool.obj_size ≤ x))
          → mem x ≡ w.pool.mem x)
      → Step w (record w { pool = record w.pool { mem = mem } })

abbrev pub new_world : Memory → ℕ → World
new_world mem size = record { pool = new_pool mem size; used = λ _. false; given = [] }

pub data Reach (mem : Memory) (size : ℕ) : World → Type 0 where
  start : Reach mem size (new_world mem size)
  later : {w u : World} → Reach mem size w → Step w u → Reach mem size u
