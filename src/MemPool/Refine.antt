-- ===== src/MemPool/Refine.antt =====
-- The memory pool against the specification of an allocator (src/mempool.h).
use net_lib.Prelude.{
  ℕ, ◌+◌, ◌≤◌, ◌<◌, ◌≡◌, ◌⊎◌, refl, ap, ◌∙◌, inl, inr, Bool, true, false, not, ◌&&◌, none, some,
  List, [], ◌∷◌, ltb, member, ◌==◌, if◌then◌else◌, Bool-cases, List-cases, arith, length,
}
use net_lib.Prelude.Family.{update}
use net_lib.MemPool.{
  Memory, MemPool, node_size, new_pool, malloc_count, alloc_block, alloc_refilled, pop_free, refill,
  free_block,
}
use net_lib.MemPool.Carve.{member-carved, length-carved}
use net_lib.MemPool.Invariant.{
  IsPool, InUse, IsFresh, refilled, blocks, refill-IsPool, within, positive,
}
use net_lib.MemPool.Alloc.{old_not_new}
use net_lib.MemPool.Client.{alloc_block-free_block, Writes-IsPool}
use net_lib.MemPool.Spec.{take_back, History, unused, after}
use net_lib.MemPool.World.{
  World, OffAll, chunk_end, holds, Step, reuses, grows, frees, writes, new_world, Reach, start,
  later,
}
use net_lib.MemPool.Served.{
  inside, Inv, popped, popped-Inv, popped-Move, Done, reuse-Done, free_list-empty, IsFresh-chunk,
}

-- The same, from the parts of the invariant.
module _ (size : ℕ) (w : World) (c : ℕ) (chunks : List ℕ) (block : ℕ → Bool)
    (v : IsPool [] chunks block w.pool) (fresh : IsFresh chunks block w.pool c (chunk_end c w.pool))
    (sized : w.pool.obj_size ≡ size) (holding : (a : ℕ) → w.used a ≡ block a)
    (home : (a : ℕ) → block a ≡ true → inside a (a + size) w.given ≡ true)
    (chunk_home : (d : ℕ) → member d chunks ≡ true → inside d (d + node_size) w.given ≡ true) where
  abbrev refilled_world : World
  refilled_world = record w { pool = refill c w.pool; given = (c, chunk_end c w.pool) ∷ w.given }

  -- The blocks of the new chunk are those of the free list.
  new_holding : (a : ℕ) → w.used a ≡ (blocks v fresh a && not (member a (refilled v fresh)))
  new_holding a =
      let listed =
        member-carved w.pool.obj_size (positive v fresh) (malloc_count w.pool) (c + node_size) []
          a in
      elim (Bool-cases (block a)) [
        | inl old ↦ ground (arith, holding a, old, old_not_new v fresh a old)
        | inr not_old ↦ ground (arith, holding a, not_old, listed)
      ]

  new_home : (a : ℕ) → blocks v fresh a ≡ true → inside a (a + size) refilled_world.given ≡ true
  new_home a h = ground (arith, within v fresh a, home a, h, sized)

  new_chunk_home :
      (d : ℕ) → member d (c ∷ chunks) ≡ true → inside d (d + node_size) refilled_world.given ≡ true
  new_chunk_home d h = ground (arith, chunk_home d, h)

  grown :
      (w.pool.free_list_head == 0) ≡ true
      → Done size w (record (holds w (alloc_block (some c) w.pool)) {
        given = (c, chunk_end c w.pool) ∷ w.given;
      })
  unfolding alloc_block alloc_refilled popped pop_free refill
  grown z = elim (List-cases (refilled v fresh)) [
    | inl none_new ↦ absurd (
        omega (
          arith,
          ap length none_new,
          length-carved w.pool.obj_size (positive v fresh) (malloc_count w.pool) (c + node_size) [],
        ))
    | inr (b, rest, cut) ↦
        let v' : IsPool (b ∷ rest) (c ∷ chunks) (blocks v fresh) (refill c w.pool) =
          rw cut at (refill-IsPool v fresh) in
        let h : (a : ℕ) → w.used a ≡ (blocks v fresh a && not (member a (b ∷ rest))) =
          λ a. new_holding a ∙ ap (λ l. blocks v fresh a && not (member a l)) cut in
        rw z (
          popped-Inv size b rest (c ∷ chunks) (blocks v fresh) refilled_world v' sized h new_home
              new_chunk_home,
          λ hist. after hist (
              popped-Move size b rest (c ∷ chunks) (blocks v fresh) refilled_world v' sized h
                new_home new_chunk_home),
        )
  ]

grow-Done :
    (size : ℕ) (w : World) (c : ℕ)
    → Inv size w
    → w.pool.free_list_head ≡ 0
    → 0 < c
    → OffAll c (chunk_end c w.pool) w.given
    → Done size w (record (holds w (alloc_block (some c) w.pool)) {
      given = (c, chunk_end c w.pool) ∷ w.given;
    })
grow-Done size w c i zero_head pos off =
    let empty = free_list-empty w.pool.mem w.pool.free_list_head i.free i.sound.chain zero_head in
    grown size w c i.chunks i.block (rw empty at i.sound) (IsFresh-chunk size w c i pos off) i.sized
      (λ a. ground (arith, i.holding a, ap (member a) empty)) i.home i.chunk_home
      (ground (arith, zero_head))

free_block-obj_size : (b : ℕ) (pool : MemPool) → (free_block b pool).obj_size ≡ pool.obj_size
unfolding free_block
free_block-obj_size b pool = elim (Bool-cases (b == 0)) [
  | inl null ↦ rw null refl
  | inr block ↦ rw block refl
]

free-Done :
    (size : ℕ) (w : World) (b : ℕ)
    → Inv size w
    → w.used b ≡ true
    → Done size w (record w { pool = free_block b w.pool; used = update w.used b false })
free-Done size w b i h =
    let u : InUse i.free i.block b =
      (ground (arith, i.holding b, h), ground (arith, i.holding b, h)) in
    (
      record {
        free = b ∷ i.free;
        chunks = i.chunks;
        block = i.block;
        sound = (alloc_block-free_block i.sound b u none).0;
        sized = free_block-obj_size b w.pool ∙ i.sized;
        holding = λ a. ground (arith, i.holding a);
        home = i.home;
        chunk_home = i.chunk_home;
      },
      λ hist. after hist (take_back b h),
    )

write-Done :
    (size : ℕ) (w : World) (mem : Memory)
    → Inv size w
    → ((x : ℕ)
        → ((u : ℕ) → w.used u ≡ true → (x + node_size ≤ u) ⊎ (u + w.pool.obj_size ≤ x))
        → mem x ≡ w.pool.mem x)
    → Done size w (record w { pool = record w.pool { mem = mem } })
write-Done size w mem i h = (
  record {
    free = i.free;
    chunks = i.chunks;
    block = i.block;
    sound = Writes-IsPool i.free i.chunks i.block w.pool mem i.sound (λ x off.
        h x
          (λ u held. off u (ground (arith, i.holding u, held), ground (arith, i.holding u, held))));
    sized = i.sized;
    holding = i.holding;
    home = i.home;
    chunk_home = i.chunk_home;
  },
  λ hist. hist,
)

Step-Done : (size : ℕ) (w u : World) → Inv size w → Step w u → Done size w u
Step-Done size w u i (reuses malloc ne) = reuse-Done size w malloc i ne
Step-Done size w u i (grows c z pos off) = grow-Done size w c i z pos off
Step-Done size w u i (frees b h) = free-Done size w b i h
Step-Done size w u i (writes mem h) = write-Done size w mem i h

-- `sizeof` of the objects, and at least that of a node.
abbrev pub block_size : ℕ → ℕ
block_size size = if ltb size node_size then node_size else size

new_world-Inv : (mem : Memory) (size : ℕ) → Inv (block_size size) (new_world mem size)
unfolding new_pool
new_world-Inv mem size = record {
  free = [];
  chunks = [];
  block = λ _. false;
  sound = record {
    big = ground arith;
    chain = refl;
    chunk_chain = refl;
    distinct = tt;
    distinct_chunks = tt;
    counted = refl;
    owned = λ a m. m;
    nonnull = λ a i. cc;
    apart = λ a b i j ne. cc;
    beside = λ c a m i. cc;
  };
  sized = refl;
  holding = λ a. refl;
  home = λ a h. cc;
  chunk_home = λ d h. cc;
}

Reach-Done :
    {mem : Memory} {size : ℕ} {w : World}
    → Reach mem size w
    → Inv (block_size size) w × History (block_size size) w.used
Reach-Done {mem} {size} start = (new_world-Inv mem size, unused)
Reach-Done {mem} {size} (later {w} {u} r step) =
    let (i, hist) = Reach-Done r in
    let (i', move) = Step-Done (block_size size) w u i step in (i', move hist)

-- The pool refines an allocator: whatever its clients allocate, free and write, each only what it
-- holds, and wherever `malloc` gives its chunks, as long as they do not meet, the addresses in use are
-- a history of an allocator that gives out only what is not null, not in use and apart from all that
-- is in use, by the size of a block.
pub pool_refines :
    {mem : Memory} {size : ℕ} {w : World} → Reach mem size w → History (block_size size) w.used
pool_refines r = (Reach-Done r).1
