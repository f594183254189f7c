-- ===== src/MemPool/Alloc.antt =====
-- What AllocAMemBlock and FreeAMemBlock give and keep (src/mempool.h).
use net_lib.Prelude.{
  ℕ, ◌+◌, ◌≡◌, ap, inl, inr, Bool, true, false, Option, some, List, [], ◌∷◌, member, arith,
  not_member, List-cases, length,
}
use net_lib.MemPool.{
  MemPool, node_size, malloc_count, refill, pop_free, alloc_refilled, alloc_block,
}
use net_lib.MemPool.Layout.{Apart}
use net_lib.MemPool.Carve.{member-carved, length-carved}
use net_lib.MemPool.Invariant.{
  IsPool, InUse, IsFresh, refilled, blocks, refill-IsPool, within, positive,
}

-- The pool after an allocation that gave `b`: it keeps the invariant, `b` was not in use and is, and
-- what was in use still is and does not overlap `b`.
pub record Given (free chunks : List ℕ) (block : ℕ → Bool) (b : ℕ) (free' chunks' : List ℕ)
    (block' : ℕ → Bool) (pool' : MemPool) : Type 0 where
  pub sound : IsPool free' chunks' block' pool'
  pub in_use : InUse free' block' b
  pub was_free : ¬ InUse free block b
  pub kept : (a : ℕ) → InUse free block a → InUse free' block' a × Apart pool'.obj_size a b

pub pop_free-Given :
    (free chunks chunks' : List ℕ) (block block' : ℕ → Bool) (b : ℕ) (rest : List ℕ)
    (pool : MemPool)
    → IsPool (b ∷ rest) chunks' block' pool
    → ¬ InUse free block b
    → ((a : ℕ) → InUse free block a → InUse (b ∷ rest) block' a)
    → Given free chunks block b rest chunks' block' (pop_free pool).1
unfolding pop_free
pop_free-Given free chunks chunks' block block' b rest pool v was kept = record {
  sound = record {
    big = v.big;
    chain = rw v.chain.0 v.chain.2;
    chunk_chain = v.chunk_chain;
    distinct = v.distinct.1;
    distinct_chunks = v.distinct_chunks;
    counted = v.counted;
    owned = λ a m. v.owned a (ground arith);
    nonnull = v.nonnull;
    apart = v.apart;
    beside = v.beside;
  };
  in_use = (v.owned b (ground arith), not_member b rest v.distinct.0);
  was_free = was;
  kept = λ a u. ground (arith, kept a u, v.apart a b, v.owned b);
}

-- Where the free list is not empty, AllocAMemBlock hands out its head, whatever `malloc` would give:
-- the pool's invariant is kept, the block was not in use and is in use after, and every block that
-- was in use is still in use and does not overlap it.
pub alloc_block_free :
    (malloc : Option ℕ) (b : ℕ) (rest chunks : List ℕ) (block : ℕ → Bool) (pool : MemPool)
    → IsPool (b ∷ rest) chunks block pool
    → (pool' : MemPool) × (alloc_block malloc pool ≡ some (b, pool'))
      × Given (b ∷ rest) chunks block b rest chunks block pool'
unfolding alloc_block pop_free
alloc_block_free malloc b rest chunks block pool v = (
  (pop_free pool).1,
  ground (arith, v.chain),
  pop_free-Given (b ∷ rest) chunks chunks block block b rest pool v (λ u. ground arith) (λ a u. u),
)

-- A block that was in use is none of a fresh chunk's.
pub old_not_new :
    {chunks : List ℕ} {block : ℕ → Bool} {pool : MemPool} {c e : ℕ}
    (v : IsPool [] chunks block pool) (fresh : IsFresh chunks block pool c e) (a : ℕ)
    → block a ≡ true
    → member a (refilled v fresh) ≡ false
old_not_new {pool} {c} v fresh a i = ground (
  arith,
  member-carved pool.obj_size (positive v fresh) (malloc_count pool) (c + node_size) [] a,
  within v fresh a,
  fresh.off_blocks a i,
  positive v fresh,
)

-- Where the free list is empty and `malloc` gives a fresh chunk, the invariant holds with the chunk
-- and its 40 + _mallocTimes blocks added, one of which is handed out: it does not overlap any block
-- that was in use, and all of those still are.
pub alloc_block_chunk :
    (chunks : List ℕ) (block : ℕ → Bool) (pool : MemPool) (c e : ℕ)
    → IsPool [] chunks block pool
    → IsFresh chunks block pool c e
    → (b : ℕ) × (rest : List ℕ) × (block' : ℕ → Bool) × (pool' : MemPool) × (alloc_block
          (some c)
          pool
        ≡ some (b, pool'))
      × (length rest + 1 ≡ malloc_count pool)
      × Given [] chunks block b rest (c ∷ chunks) block' pool'
unfolding alloc_block alloc_refilled pop_free
alloc_block_chunk chunks block pool c e v fresh = elim (List-cases (refilled v fresh)) [
  | inl empty ↦ absurd (
      omega (
        arith,
        ap length empty,
        length-carved pool.obj_size (positive v fresh) (malloc_count pool) (c + node_size) [],
      ))
  | inr (b, rest, cut) ↦
      let v' : IsPool (b ∷ rest) (c ∷ chunks) (blocks v fresh) (refill c pool) =
        rw cut at (refill-IsPool v fresh) in
      (
        b,
        rest,
        blocks v fresh,
        (pop_free (refill c pool)).1,
        ground (arith, v.chain, v'.chain),
        omega (
          arith,
          ap length cut,
          length-carved pool.obj_size (positive v fresh) (malloc_count pool) (c + node_size) [],
        ),
        pop_free-Given [] chunks (c ∷ chunks) block (blocks v fresh) b rest (refill c pool) v'
            (λ u. ground (arith, old_not_new v fresh b u.0, ap (member b) cut))
            (λ a u. ground (arith, old_not_new v fresh a u.0, ap (member a) cut)),
      )
]
