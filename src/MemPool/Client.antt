-- ===== src/MemPool/Client.antt =====
-- FreeAMemBlock, a client's writes into its blocks, and the pool's destructor (src/mempool.h).
use mathlib.Core.Path.{subst}
use net_lib.Prelude.{
  ℕ, zero, suc, ◌+◌, ◌≤◌, ◌≡◌, ◌≢◌, refl, sym, ap, ◌⊎◌, inl, inr, Bool, true, false, Option, some,
  List, [], ◌∷◌, All, All-intro, member, ◌==◌, arith, Bool-cases, ==_iff, length,
}
use net_lib.Prelude.Family.{update, update_self}
use net_lib.MemPool.{Memory, MemPool, node_size, pop_free, alloc_block, free_block, destroy}
use net_lib.MemPool.Layout.{Chain, Distinct, Chain-agree, Chain-update}
use net_lib.MemPool.Invariant.{IsPool, InUse}

module _ {free chunks : List ℕ} {block : ℕ → Bool} {pool : MemPool}
    (v : IsPool free chunks block pool) (b : ℕ) (u : InUse free block b) where
  apart_free : All (λ a. b ≢ a) free
  apart_free = All-intro _ free (λ a m e. ground (arith, ap (λ x. member x free) e, u))

  apart_chunks : All (λ c. b ≢ c) chunks
  apart_chunks = All-intro _ chunks (λ c m e. omega (arith, v.beside c b m u.0, v.big))

  linked : Memory
  linked = update pool.mem b pool.free_list_head

  -- The pool with `b` at the head of its free list.
  pushed : MemPool
  unfolding linked
  pushed = record pool { mem = linked; free_list_head = b }

  nonzero : (b == 0) ≡ false
  nonzero = ground (arith, v.nonnull b u.0)

  free_block-pushed : free_block b pool ≡ pushed
  unfolding free_block pushed
  free_block-pushed = rw nonzero

  pushed-IsPool : IsPool (b ∷ free) chunks block pushed
  unfolding pushed
  pushed-IsPool = record {
    big = v.big;
    chain = (
      refl,
      v.nonnull b u.0,
      subst (λ h. Chain linked h free) (sym (update_self pool.mem b pool.free_list_head))
          (Chain-update pool.mem free pool.free_list_head b pool.free_list_head apart_free v.chain),
    );
    chunk_chain =
        Chain-update pool.mem chunks pool.malloc_list_head b pool.free_list_head apart_chunks
          v.chunk_chain;
    distinct = (apart_free, v.distinct);
    distinct_chunks = v.distinct_chunks;
    counted = v.counted;
    owned = λ a m. elim (Bool-cases (a == b)) [
      | inl same ↦ rw ((==_iff a b).0 same) u.0
      | inr other ↦ v.owned a (ground arith)
    ];
    nonnull = v.nonnull;
    apart = v.apart;
    beside = v.beside;
  }

  -- FreeAMemBlock keeps the invariant: a block that was in use becomes the head of the free list, and
  -- the next AllocAMemBlock, whatever `malloc` would give, returns that block and restores the list.
  pub alloc_block-free_block :
      (malloc : Option ℕ)
      → IsPool (b ∷ free) chunks block (free_block b pool)
        × (alloc_block malloc (free_block b pool)
            ≡ some (b, record pool { mem = update pool.mem b pool.free_list_head }))
  unfolding alloc_block pop_free pushed
  alloc_block-free_block malloc = rw free_block-pushed (
    pushed-IsPool,
    rw nonzero (
        ap (λ h. some (b, record pool { mem = linked; free_list_head = h }))
          (update_self pool.mem b pool.free_list_head)),
  )

-- Memory after its owners wrote into the blocks in use: a word keeps its value if none of its bytes
-- lies in such a block.
abbrev pub Writes : ℕ → List ℕ → (ℕ → Bool) → Memory → Memory → Type 0
Writes size free block mem mem' =
    (x : ℕ) → ((u : ℕ) → InUse free block u → (x + node_size ≤ u) ⊎ (u + size ≤ x)) → mem' x ≡ mem x

different :
    (free : List ℕ) (block : ℕ → Bool) (a u : ℕ) → member a free ≡ true → InUse free block u → a ≢ u
different free block a u m i e = ground (arith, ap (λ x. member x free) e, i)

-- What the owners of the blocks in use write there does not disturb the pool: both its lists are as
-- before, and the invariant holds.
pub Writes-IsPool :
    (free chunks : List ℕ) (block : ℕ → Bool) (pool : MemPool) (mem' : Memory)
    → IsPool free chunks block pool
    → Writes pool.obj_size free block pool.mem mem'
    → IsPool free chunks block (record pool { mem = mem' })
Writes-IsPool free chunks block pool mem' v w = record {
  big = v.big;
  chain =
      Chain-agree pool.mem mem' free pool.free_list_head
        (All-intro _ free (λ a m. w a (λ u i.
          ground (arith, v.big, v.owned a m, v.apart a u, i, different free block a u m i))))
        v.chain;
  chunk_chain =
      Chain-agree pool.mem mem' chunks pool.malloc_list_head
        (All-intro _ chunks (λ c m. w c (λ u i. v.beside c u m i.0))) v.chunk_chain;
  distinct = v.distinct;
  distinct_chunks = v.distinct_chunks;
  counted = v.counted;
  owned = v.owned;
  nonnull = v.nonnull;
  apart = v.apart;
  beside = v.beside;
}

destroy_lem :
    (mem : Memory) (chunks : List ℕ) (head : ℕ) (n : ℕ)
    → Chain mem head chunks
    → length chunks ≤ n
    → destroy n mem head ≡ some chunks
unfolding destroy
destroy_lem mem [] head zero c h = ground (arith, c)
destroy_lem mem [] head (suc n) c h = ground (arith, c)
destroy_lem mem (a ∷ chunks) head zero c h = absurd (omega arith)
destroy_lem mem (a ∷ chunks) head (suc n) c h =
    ground (arith, c, ap (λ x. mem x) c.0, destroy_lem mem chunks (mem a) n c.2)

-- The destructor's loop ends within as many rounds as there were calls of `malloc`, and it frees
-- every chunk that `malloc` gave, each once.
pub destroy_frees :
    (free chunks : List ℕ) (block : ℕ → Bool) (pool : MemPool)
    → IsPool free chunks block pool
    → (destroy pool.malloc_times pool.mem pool.malloc_list_head ≡ some chunks)
      × Distinct chunks
      × (length chunks ≡ pool.malloc_times)
destroy_frees free chunks block pool v = (
  destroy_lem pool.mem chunks pool.malloc_list_head pool.malloc_times v.chunk_chain
      (omega (arith, v.counted)),
  v.distinct_chunks,
  sym v.counted,
)
