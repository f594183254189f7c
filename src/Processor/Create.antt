-- ===== src/Processor/Create.antt =====
-- `goNewCo`, and the end of a coroutine in the loop, with the object pool that holds the coroutines
-- (src/processor.cc). Here a coroutine is its address, which a later one may have again.
use net_lib.Prelude.{
  ℕ, ◌≡◌, refl, ap, ◌∙◌, Bool, true, false, not, Option, none, some, List, [], ◌∷◌, ◌++◌, arith,
  Bool-cases, inl, inr,
}
use net_lib.Prelude.Family.{update}
use net_lib.Coroutine.{CoStatus, new_status}
use net_lib.Processor.{Processor, go_co, push_new, wake_up_epoller, erase, queue}
use net_lib.MemPool.Invariant.{IsPool, InUse}
use net_lib.MemPool.ObjPool.{ObjPool, new_obj, delete_obj, new_obj-delete_obj}

-- The constructor of the coroutine sets its status.
abbrev pub go_made : Processor → Option (ℕ × ObjPool) → Option (ObjPool × Processor)
go_made p none = none
go_made p (some (co, pool)) =
    some (pool, go_co co (record p { co_status = update p.co_status co new_status }))

-- `goNewCo`, where a `malloc` of the pool would give `malloc`; none if it gives the null pointer.
unfoldable pub go_new_co : Option ℕ → ObjPool → Processor → Option (ObjPool × Processor)
go_new_co malloc pool p = go_made p (new_obj false malloc pool)

-- `coSet_.erase(deadCo); coPool_.delete_obj(deadCo);`
unfoldable pub delete_dead : ℕ → ObjPool → Processor → ObjPool × Processor
delete_dead co pool p = (delete_obj false co pool, record p { co_set = erase co p.co_set })

go_co-last :
    (co : ℕ) (p : Processor)
    → (queue (not p.running_que) (go_co co p) ≡ queue (not p.running_que) p ++ co ∷ [])
      × ((go_co co p).co_status ≡ p.co_status)
      × ((go_co co p).co_set ≡ p.co_set)
unfolding go_co push_new wake_up_epoller
go_co-last co p = elim (Bool-cases p.running_que) [
  | inl r ↦ rw r (refl, refl, refl)
  | inr r ↦ rw r (refl, refl, refl)
]

queue-statuses :
    (b : Bool) (p : Processor) (cos : List ℕ) (f : ℕ → CoStatus)
    → queue b (record p { co_set = cos; co_status = f }) ≡ queue b p
queue-statuses true p cos f = refl
queue-statuses false p cos f = refl

-- The memory of a coroutine that has ended serves the next one: after its deletion, `goNewCo` makes a
-- coroutine at that address, whatever `malloc` would give. The destructor ran there once and then the
-- constructor, and nowhere else; the new coroutine is ready, and the last one in the queue that `goCo`
-- fills, which is not the one that is being run; and the address is gone from `coSet_`.
pub go_new_co-delete_dead :
    (malloc : Option ℕ) (free chunks : List ℕ) (block : ℕ → Bool) (co : ℕ) (pool : ObjPool)
    (p : Processor)
    → IsPool free chunks block pool.mem_pool
    → InUse free block co
    → let (pool1, p1) = delete_dead co pool p in
      (q : ObjPool) × (r : Processor) × (go_new_co malloc pool1 p1 ≡ some (q, r))
      × (q.destructed ≡ pool.destructed ++ co ∷ [])
      × (q.constructed ≡ pool.constructed ++ co ∷ [])
      × (r.co_status co ≡ new_status)
      × (queue (not p.running_que) r ≡ queue (not p.running_que) p ++ co ∷ [])
      × (r.co_set ≡ erase co p.co_set)
unfolding delete_dead go_new_co
go_new_co-delete_dead malloc free chunks block co pool p v u =
    let (q, made, gone, built, same) = new_obj-delete_obj malloc free chunks block co pool v u in
    let p2 : Processor = record p {
      co_set = erase co p.co_set;
      co_status = update p.co_status co new_status;
    } in
    let (last, statuses, set) = go_co-last co p2 in
    (
      q,
      go_co co p2,
      ap (go_made (record p { co_set = erase co p.co_set })) made,
      gone,
      built,
      ap (λ f. f co) statuses ∙ ground arith,
      last ∙ ap (λ l. l ++ co ∷ []) (queue-statuses (not p.running_que) p _ _),
      set,
    )
