-- ===== src/MemPool/Tests.antt =====
-- A small memory pool, and the pool's theorems at it.
use net_lib.Prelude.{
  ℕ, ◌≡◌, refl, Bool, true, false, ◌||◌, Option, none, some, [], ◌∷◌, ◌==◌, arith,
}
use net_lib.MemPool.{MemPool, new_pool, alloc_block, refill, carve, pop_free, alloc_refilled}
use net_lib.MemPool.Invariant.{IsPool, IsFresh}
use net_lib.MemPool.Spec
use net_lib.MemPool.World
use net_lib.MemPool.World.{World, holds, new_world, chunk_end, start, later, grows}
use net_lib.MemPool.Refine.{pool_refines}
use net_lib.MemPool.ObjPool.{ObjPool}
use net_lib.Coroutine.{new_status}
use net_lib.Processor.{Processor, new_processor, queue, erase}
use net_lib.Processor.Create.{delete_dead, go_new_co, go_new_co-delete_dead}

-- One chunk at 8, with the free block 16 and the block 24, which is in use.
abbrev small : MemPool
small = record {
  mem = λ _. 0;
  free_list_head = 16;
  malloc_list_head = 8;
  malloc_times = 1;
  obj_size = 8;
}

abbrev small_block : ℕ → Bool
small_block a = a == 16 || a == 24

small-IsPool : IsPool (16 ∷ []) (8 ∷ []) small_block small
small-IsPool = record {
  big = omega arith;
  chain = (refl, omega arith, refl);
  chunk_chain = (refl, omega arith, refl);
  distinct = (tt, tt);
  distinct_chunks = (tt, tt);
  counted = refl;
  owned = λ a m. ground arith;
  nonnull = λ a i. ground arith;
  apart = λ a b i j ne. ground arith;
  beside = λ c a m i. ground arith;
}

-- A pool with nothing in it yet, for objects of 16 bytes, and a chunk for it at 1000.
abbrev fresh_pool : MemPool
fresh_pool = record {
  mem = λ _. 0;
  free_list_head = 0;
  malloc_list_head = 0;
  malloc_times = 0;
  obj_size = 16;
}

fresh_pool-new : new_pool (λ _. 0) 16 ≡ fresh_pool
unfolding new_pool
fresh_pool-new = refl

fresh_pool-IsPool : IsPool [] [] (λ _. false) fresh_pool
fresh_pool-IsPool = record {
  big = omega arith;
  chain = refl;
  chunk_chain = refl;
  distinct = tt;
  distinct_chunks = tt;
  counted = refl;
  owned = λ a m. m;
  nonnull = λ a i. cc;
  apart = λ a b i j ne. cc;
  beside = λ c a m i. cc;
}

chunk-IsFresh : IsFresh [] (λ _. false) fresh_pool 1000 1648
chunk-IsFresh = record {
  nonnull = omega arith;
  sized = refl;
  off_blocks = λ a i. cc;
  off_chunks = λ d m. cc;
}

abbrev small_objects : ObjPool
small_objects = record { mem_pool = small; constructed = 24 ∷ []; destructed = [] }

-- A processor that deletes the coroutine at 24 and makes another one.
go_new_co-delete_dead_example :
    let (pool, p) = delete_dead 24 small_objects new_processor in
    (q : ObjPool) × (r : Processor) × (go_new_co none pool p ≡ some (q, r))
    × (q.destructed ≡ 24 ∷ [])
    × (q.constructed ≡ 24 ∷ 24 ∷ [])
    × (r.co_status 24 ≡ new_status)
    × (queue true r ≡ 24 ∷ [])
    × (r.co_set ≡ erase 24 [])
go_new_co-delete_dead_example =
    go_new_co-delete_dead none (16 ∷ []) (8 ∷ []) small_block 24 small_objects new_processor
      small-IsPool (refl, refl)

-- The blocks of a chunk are linked from its end: the first one that is handed out is the last.
first_block : Option ℕ
first_block = elim (alloc_block (some 1000) fresh_pool) [ none ↦ none | some (b, p) ↦ some b ]

first_block_is_last : first_block ≡ some 1632
unfolding first_block alloc_block alloc_refilled refill carve pop_free
first_block_is_last = refl

-- A client allocates from a fresh pool, writes there, frees the block and allocates again.
abbrev first_alloc : World
first_alloc =
    record (holds (new_world (λ _. 0) 16) (alloc_block (some 1000) (new_pool (λ _. 0) 16))) {
      given = (1000, chunk_end 1000 (new_pool (λ _. 0) 16)) ∷ [];
    }

first_alloc-Reach : World.Reach (λ _. 0) 16 first_alloc
unfolding new_pool
first_alloc-Reach = later start (grows 1000 refl (omega arith) tt)

pool_refines_example : Spec.History 16 first_alloc.used
pool_refines_example = pool_refines first_alloc-Reach
