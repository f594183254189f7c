-- ===== src/Processor/Ended.antt =====
-- The coroutines that have ended (src/processor.cc).
-- `killCurCo` puts a coroutine on `removedCo_`; the end of a round deletes what stands there.
use net_lib.Prelude.{
  ℕ, ◌+◌, ◌≡◌, refl, ◌∙◌, inl, inr, Bool, true, false, not, List, member, append-nil, append_assoc,
  sym, [], ◌∷◌, ◌++◌, ◌==◌, if◌then◌else◌, Bool-cases, arith,
}
use net_lib.Processor.{
  Processor, queue, set_queue, go_co, push_new, push_all, wake_up_epoller, go_each, go_co_batch,
  erase, delete_all,
}

-- How often a number stands in a list.
abbrev pub count : ℕ → List ℕ → ℕ
count c [] = 0
count c (x ∷ xs) = (if c == x then 1 else 0) + count c xs

pub count-append : (c : ℕ) (xs ys : List ℕ) → count c (xs ++ ys) ≡ count c xs + count c ys
count-append c [] ys = omega arith
count-append c (x ∷ xs) ys = omega (arith, count-append c xs ys)

pub count-absent : (c : ℕ) (xs : List ℕ) → count c xs ≡ 0 → member c xs ≡ false
count-absent c [] h = refl
count-absent c (x ∷ xs) h = elim (Bool-cases (c == x)) [
  | inl same ↦ absurd (ground (arith, same, h))
  | inr other ↦ rw other (count-absent c xs (ground (arith, other, h)))
]

-- How often `c` was put on `removedCo_`.
abbrev pub ended : ℕ → Processor → ℕ
ended c p = count c p.removed + count c p.deleted

-- The statuses, the ended coroutines and the deleted ones are the same.
abbrev pub Same : Processor → Processor → Type 0
Same p q = (q.co_status ≡ p.co_status) × (q.removed ≡ p.removed) × (q.deleted ≡ p.deleted)

set_queue-Same : (r : Bool) (cos : List ℕ) (p : Processor) → Same p (set_queue r cos p)
set_queue-Same true cos p = (refl, refl, refl)
set_queue-Same false cos p = (refl, refl, refl)

push_all-Same : (cos : List ℕ) (p : Processor) → Same p (push_all cos p)
unfolding push_all push_new
push_all-Same [] p = (refl, refl, refl)
push_all-Same (co ∷ cos) p =
    let (a, b, d) = push_all-Same cos (push_new co p) in
    let r = not p.running_que in
    let (x, y, z) =
      set_queue-Same r (queue r p ++ co ∷ []) (record p { pushed = p.pushed ++ co ∷ [] }) in
    (a ∙ x, b ∙ y, d ∙ z)

pub go_co_batch-Same : (cos : List ℕ) (p : Processor) → Same p (go_co_batch cos p)
unfolding go_co_batch wake_up_epoller
go_co_batch-Same cos p = push_all-Same cos p

pub go_each-Same : (cos : List ℕ) (p : Processor) → Same p (go_each cos p)
unfolding go_each go_co wake_up_epoller push_all
go_each-Same [] p = (refl, refl, refl)
go_each-Same (co ∷ cos) p =
    let (a, b, d) = go_each-Same cos (go_co co p) in
    let (x, y, z) = push_all-Same (co ∷ []) p in (a ∙ x, b ∙ y, d ∙ z)

-- The loop over `removedCo_` moves what is there.
pub delete_all-deleted :
    (cos : List ℕ) (p : Processor)
    → ((delete_all cos p).deleted ≡ p.deleted ++ cos) × ((delete_all cos p).co_status ≡ p.co_status)
unfolding delete_all
delete_all-deleted [] p = (sym (append-nil _), refl)
delete_all-deleted (co ∷ cos) p =
    let (a, b) =
      delete_all-deleted cos
        (record p { co_set = erase co p.co_set; deleted = p.deleted ++ co ∷ [] }) in
    (a ∙ append_assoc p.deleted (co ∷ []) cos, b)
