-- ===== src/MemPool/Invariant.antt =====
-- The memory pool's invariant, and that allocation and release keep it (src/mempool.h).
use mathlib.Core.Path.{subst}
use net_lib.Prelude.{
  ℕ, ◌+◌, ◌*◌, ◌≤◌, ◌<◌, ◌≡◌, ◌≢◌, refl, sym, ◌∙◌, ◌⊎◌, inl, Bool, true, false, ◌||◌, List, [], ◌∷◌,
  All-intro, member, arith, length,
}
use net_lib.Prelude.Family.{update, update_self, update_ne}
use net_lib.MemPool.{Memory, MemPool, node_size, malloc_count, refill}
use net_lib.MemPool.Layout.{Chain, Distinct, Chain-agree, Apart}
use net_lib.MemPool.Carve.{
  carved, in_chunk, Off, carve-Chain, carve-beside, carved-Distinct, member-carved, in_chunk_range,
  in_chunk-Apart,
}

-- The free list is `free`, the chunks that `malloc` gave are `chunks`, and `block` tells which
-- addresses are those of blocks, handed out or free.
pub record IsPool (free chunks : List ℕ) (block : ℕ → Bool) (pool : MemPool) : Type 0 where
  pub big : node_size ≤ pool.obj_size
  pub chain : Chain pool.mem pool.free_list_head free
  pub chunk_chain : Chain pool.mem pool.malloc_list_head chunks
  pub distinct : Distinct free
  pub distinct_chunks : Distinct chunks
  pub counted : pool.malloc_times ≡ length chunks
  pub owned : (a : ℕ) → member a free ≡ true → block a ≡ true
  pub nonnull : (a : ℕ) → block a ≡ true → 0 < a
  pub apart : (a b : ℕ) → block a ≡ true → block b ≡ true → a ≢ b → Apart pool.obj_size a b
  pub beside :
      (c a : ℕ)
      → member c chunks ≡ true
      → block a ≡ true
      → (c + node_size ≤ a) ⊎ (a + pool.obj_size ≤ c)

-- A block that is handed out.
abbrev pub InUse : List ℕ → (ℕ → Bool) → ℕ → Type 0
InUse free block a = (block a ≡ true) × (member a free ≡ false)

-- What `malloc` promises of the chunk at `c`: it is not null, and none of its bytes, up to the end
-- `e`, belongs to a block or to the header of another chunk.
pub record IsFresh (chunks : List ℕ) (block : ℕ → Bool) (pool : MemPool) (c e : ℕ) : Type 0 where
  pub nonnull : 0 < c
  pub sized : c + node_size + malloc_count pool * pool.obj_size ≡ e
  pub off_blocks : (a : ℕ) → block a ≡ true → (a + pool.obj_size ≤ c) ⊎ (e ≤ a)
  pub off_chunks : (d : ℕ) → member d chunks ≡ true → (d + node_size ≤ c) ⊎ (e ≤ d)

module _ {chunks : List ℕ} {block : ℕ → Bool} {pool : MemPool} (v : IsPool [] chunks block pool)
    {c e : ℕ} (fresh : IsFresh chunks block pool c e) where
  abbrev size : ℕ
  size = pool.obj_size

  abbrev count : ℕ
  count = malloc_count pool

  abbrev pub refilled : List ℕ
  refilled = carved size count (c + node_size) []

  abbrev pub blocks : ℕ → Bool
  blocks a = in_chunk size count (c + node_size) a || block a

  abbrev start : Memory
  start = update pool.mem c pool.malloc_list_head

  pub positive : 0 < size
  positive = omega (arith, v.big)

  pub within :
      (a : ℕ) → in_chunk size count (c + node_size) a ≡ true → (c + node_size ≤ a) × (a + size ≤ e)
  within a i = in_chunk_range size positive count (c + node_size) e a fresh.sized i

  kept : (a : ℕ) → Off (c + node_size) e a → (refill c pool).mem a ≡ start a
  unfolding refill
  kept a off =
      carve-beside size positive count (c + node_size) e start pool.free_list_head fresh.sized a off

  link_kept : (d : ℕ) → member d chunks ≡ true → (refill c pool).mem d ≡ pool.mem d
  link_kept d m =
      kept d (omega (arith, fresh.off_chunks d m))
      ∙ update_ne pool.mem c d pool.malloc_list_head
          (omega (arith, fresh.off_chunks d m, fresh.sized))

  refill-heads : Chain (refill c pool).mem c (c ∷ chunks)
  unfolding refill
  refill-heads = (
    refl,
    fresh.nonnull,
    subst (λ h. Chain (refill c pool).mem h chunks)
        (sym (kept c (inl (omega arith)) ∙ update_self pool.mem c pool.malloc_list_head))
        (Chain-agree pool.mem (refill c pool).mem chunks pool.malloc_list_head
          (All-intro _ chunks link_kept) v.chunk_chain),
  )

  pub refill-IsPool : IsPool refilled (c ∷ chunks) blocks (refill c pool)
  unfolding refill
  refill-IsPool = record {
    big = v.big;
    chain =
        carve-Chain size positive count (c + node_size) e start pool.free_list_head [] fresh.sized
          (omega arith) tt v.chain;
    chunk_chain = refill-heads;
    distinct = carved-Distinct size positive count (c + node_size) e [] fresh.sized tt tt;
    distinct_chunks = (
      All-intro _ chunks (λ d m. omega (arith, fresh.off_chunks d m, fresh.sized)),
      v.distinct_chunks,
    );
    counted = omega (arith, v.counted);
    owned = λ a m. ground (arith, member-carved size positive count (c + node_size) [] a);
    nonnull = λ a m. ground (arith, within a, v.nonnull a, fresh.nonnull);
    apart = λ a b i j ne. ground (
      arith,
      within a,
      within b,
      in_chunk-Apart size positive count (c + node_size) e a b fresh.sized,
      v.apart a b,
      fresh.off_blocks a,
      fresh.off_blocks b,
    );
    beside = λ d a m i.
        ground (arith, within a, fresh.off_blocks a, fresh.off_chunks d, v.beside d a, fresh.sized);
  }
