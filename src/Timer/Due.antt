-- ===== src/Timer/Due.antt =====
-- What is due of a sorted queue, and what is left of it (src/timer.cc).
use net_lib.Prelude.{
  ℕ, ◌<◌, ◌≡◌, refl, sym, ap, inl, inr, Bool, true, false, List, [], ◌∷◌, map, arith, All, All-mono,
  Bool-cases, leb, ltb,
}
use net_lib.Timer.{Entry, before, pop_due}
use net_lib.Timer.Heap.{IsSorted, before-le}
use net_lib.Timer.Spec.{is_due, kept, select}

kept-All :
    (P : Entry → Type 0) (b : Bool) (e : Entry) (xs : List Entry)
    → P e
    → All P xs
    → All P (kept b e xs)
kept-All P true e xs p h = (p, h)
kept-All P false e xs p h = h

kept-IsSorted :
    (b : Bool) (e : Entry) (xs : List Entry)
    → All (λ y. before e y ≡ true) xs
    → IsSorted xs
    → IsSorted (kept b e xs)
kept-IsSorted true e xs h s = (h, s)
kept-IsSorted false e xs h s = s

-- What is handed out and what is left, where the queue is sorted.
module _ (present : ℕ) where
  none_due :
      (xs : List Entry)
      → All (λ e. present < e.time) xs
      → (select true present xs ≡ []) × (select false present xs ≡ xs)
  none_due [] h = (refl, refl)
  none_due (x ∷ xs) (lt, h) =
      let not_due : leb x.time present ≡ false = ground (arith, lt) in
      let later : ltb present x.time ≡ true = ground (arith, lt) in
      let (none_rest, all_rest) = none_due xs h in
      rw (not_due, later) (none_rest, ap (λ ys. x ∷ ys) all_rest)

  pub pop_due-select :
      (xs : List Entry)
      → IsSorted xs
      → ((pop_due present xs).0 ≡ map (λ e. e.co) (select true present xs))
        × ((pop_due present xs).1 ≡ select false present xs)
  unfolding pop_due
  pop_due-select [] s = (refl, refl)
  pop_due-select (x ∷ xs) (h, s) = elim (Bool-cases (leb x.time present)) [
    | inl due ↦
        let not_later : ltb present x.time ≡ false = ground (arith, due) in
        let (handed, left) = pop_due-select xs s in
        rw (due, not_later) (ap (λ cos. x.co ∷ cos) handed, left)
    | inr waits ↦
        let later : ltb present x.time ≡ true = ground (arith, waits) in
        let (none_rest, all_rest) =
          none_due xs (All-mono _ _ xs (λ y b. ground (arith, before-le x y b, later)) h) in
        rw (waits, later) (ap (map (λ e. e.co)) (sym none_rest), ap (λ ys. x ∷ ys) (sym all_rest))
  ]

  select-All :
      (P : Entry → Type 0) (which : Bool) (xs : List Entry)
      → All P xs
      → All P (select which present xs)
  select-All P which [] h = tt
  select-All P which (x ∷ xs) (p, h) =
      kept-All P (is_due which present x) x (select which present xs) p (select-All P which xs h)

  pub select-IsSorted :
      (which : Bool) (xs : List Entry) → IsSorted xs → IsSorted (select which present xs)
  select-IsSorted which [] s = tt
  select-IsSorted which (x ∷ xs) (h, s) =
      kept-IsSorted (is_due which present x) x (select which present xs)
        (select-All (λ y. before x y ≡ true) which xs h) (select-IsSorted which xs s)
