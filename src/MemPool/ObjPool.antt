-- ===== src/MemPool/ObjPool.antt =====
-- src/objpool.h: objects of one type in the blocks of a memory pool.
-- Whether the type is trivially constructible or destructible is an argument; `constructed` and
-- `destructed` are the addresses at which the type's constructor and destructor ran, in order.
use net_lib.Prelude.{
  ℕ, ◌≡◌, ◌<◌, refl, Bool, true, false, Option, none, some, List, [], ◌∷◌, ◌++◌, ◌==◌,
  if◌then◌else◌, arith,
}
use net_lib.Prelude.Family.{update}
use net_lib.MemPool.{MemPool, alloc_block, free_block}
use net_lib.MemPool.Invariant.{IsPool, InUse}
use net_lib.MemPool.Client.{alloc_block-free_block}

pub record ObjPool : Type 0 where
  pub mem_pool : MemPool
  pub constructed : List ℕ
  pub destructed : List ℕ

-- `new_aux(std::true_type)` and `new_aux(std::false_type)`, behind the allocation.
abbrev pub new_aux : Bool → ObjPool → ℕ × MemPool → ℕ × ObjPool
new_aux true p (pos, pool) = (pos, record p { mem_pool = pool })
new_aux false p (pos, pool) =
    (pos, record p { mem_pool = pool; constructed = p.constructed ++ pos ∷ [] })

abbrev pub new_from : Bool → ObjPool → Option (ℕ × MemPool) → Option (ℕ × ObjPool)
new_from trivial p none = none
new_from trivial p (some given) = some (new_aux trivial p given)

unfoldable pub new_obj : Bool → Option ℕ → ObjPool → Option (ℕ × ObjPool)
new_obj trivial malloc p = new_from trivial p (alloc_block malloc p.mem_pool)

abbrev pub delete_aux : Bool → ℕ → ObjPool → ObjPool
delete_aux true obj p = record p { mem_pool = free_block obj p.mem_pool }
delete_aux false obj p = record p {
  destructed = p.destructed ++ obj ∷ [];
  mem_pool = free_block obj p.mem_pool;
}

unfoldable pub delete_obj : Bool → ℕ → ObjPool → ObjPool
delete_obj trivial obj p = if obj == 0 then p else delete_aux trivial obj p

nonzero : (a : ℕ) → 0 < a → (a == 0) ≡ false
nonzero a h = ground arith

-- An object is destroyed exactly once, and its memory serves the next object: after `delete_obj` of
-- a block in use, of a type with a destructor, `new_obj` gives that address again, whatever `malloc`
-- would give; the destructor ran once and then the constructor, at that address and no other.
pub new_obj-delete_obj :
    (malloc : Option ℕ) (free chunks : List ℕ) (block : ℕ → Bool) (obj : ℕ) (p : ObjPool)
    → IsPool free chunks block p.mem_pool
    → InUse free block obj
    → (q : ObjPool) × (new_obj false malloc (delete_obj false obj p) ≡ some (obj, q))
      × (q.destructed ≡ p.destructed ++ obj ∷ [])
      × (q.constructed ≡ p.constructed ++ obj ∷ [])
      × (q.mem_pool.free_list_head ≡ p.mem_pool.free_list_head)
unfolding new_obj delete_obj
new_obj-delete_obj malloc free chunks block obj p v u = (
  record {
    mem_pool = record p.mem_pool { mem = update p.mem_pool.mem obj p.mem_pool.free_list_head };
    constructed = p.constructed ++ obj ∷ [];
    destructed = p.destructed ++ obj ∷ [];
  },
  rw (nonzero obj (v.nonnull obj u.0), (alloc_block-free_block v obj u malloc).1),
  refl,
  refl,
  refl,
)
