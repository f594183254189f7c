-- ===== src/MemPool.antt =====
-- src/mempool.h: the pool of memory blocks of one size.
-- Memory is a function from an address to the pointer that stands there: a `MemBlockNode` at `a` is
-- the word at `a`, a union of `next` with the first byte of the block. The null pointer is 0.
-- What `malloc` returns is an argument of an allocation, none where it returns a null pointer; the
-- source does not test it, and writes through it.
pub mod Layout
pub mod Carve
pub mod Invariant
pub mod Alloc
pub mod Client
pub mod ObjPool
pub mod Spec
pub mod World
pub mod Served
pub mod Refine
mod Tests
use net_lib.Prelude.{
  ℕ, zero, suc, ◌+◌, ◌≡◌, Bool, Option, none, some, List, [], ◌∷◌, ltb, ◌==◌, if◌then◌else◌,
}
use net_lib.Prelude.Family.{update}

abbrev pub Memory : Type 0
Memory = ℕ → ℕ

-- `sizeof(MemBlockNode)`
abbrev pub node_size : ℕ
node_size = 8

-- `parameter::memPoolMallocObjCnt`
abbrev pub first_count : ℕ
first_count = 40

pub record MemPool : Type 0 where
  pub mem : Memory
  pub free_list_head : ℕ
  pub malloc_list_head : ℕ
  pub malloc_times : ℕ
  pub obj_size : ℕ

-- The constructor, over the memory as it is.
pub new_pool : Memory → ℕ → MemPool
new_pool mem size = record {
  mem = mem;
  free_list_head = 0;
  malloc_list_head = 0;
  malloc_times = 0;
  obj_size = if ltb size node_size then node_size else size;
}

-- The loop that puts `n` new blocks from address `p` on into the free list, with the list's head.
unfoldable pub carve : ℕ → ℕ → ℕ → Memory × ℕ → Memory × ℕ
carve size zero p s = s
carve size (suc n) p (mem, head) = carve size n (p + size) (update mem p head, p)

-- How many blocks the next `malloc` is for.
abbrev pub malloc_count : MemPool → ℕ
malloc_count pool = first_count + pool.malloc_times

-- The branch of AllocAMemBlock for an empty free list: a new chunk at `chunk`.
unfoldable pub refill : ℕ → MemPool → MemPool
refill chunk pool =
    let (mem, head) =
      carve pool.obj_size (malloc_count pool) (chunk + node_size)
        (update pool.mem chunk pool.malloc_list_head, pool.free_list_head) in
    record pool {
      mem = mem;
      free_list_head = head;
      malloc_list_head = chunk;
      malloc_times = pool.malloc_times + 1;
    }

-- The end of AllocAMemBlock: the head of the free list is handed out.
unfoldable pub pop_free : MemPool → ℕ × MemPool
pop_free pool = (pool.free_list_head, record pool { free_list_head = pool.mem pool.free_list_head })

unfoldable pub alloc_refilled : Option ℕ → MemPool → Option (ℕ × MemPool)
alloc_refilled none pool = none
alloc_refilled (some chunk) pool = some (pop_free (refill chunk pool))

-- `AllocAMemBlock`; none is a write through a null pointer.
unfoldable pub alloc_block : Option ℕ → MemPool → Option (ℕ × MemPool)
alloc_block malloc pool =
    if pool.free_list_head == 0 then alloc_refilled malloc pool else some (pop_free pool)

-- `FreeAMemBlock`
unfoldable pub free_block : ℕ → MemPool → MemPool
free_block block pool =
    if block == 0
    then pool
    else record pool { mem = update pool.mem block pool.free_list_head; free_list_head = block }

abbrev pub freed : ℕ → Option (List ℕ) → Option (List ℕ)
freed chunk none = none
freed chunk (some chunks) = some (chunk ∷ chunks)

-- The destructor: the chunks that it frees, in order. A chunk's link is read before it is freed. The
-- rounds of the loop are counted down; none means that they did not suffice.
unfoldable pub destroy : ℕ → Memory → ℕ → Option (List ℕ)
destroy zero mem head = if head == 0 then some [] else none
destroy (suc n) mem head =
    let rest = freed head (destroy n mem (mem head)) in if head == 0 then some [] else rest
