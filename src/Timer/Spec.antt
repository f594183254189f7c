-- ===== src/Timer/Spec.antt =====
-- The timer seen from outside: sleepers without an order (src/timer.h, src/timer.cc).
-- `Sleepers` are lists of entries up to their order. What `runAt` and `getExpiredCoroutines` promise is
-- said of them; `order` is the one list in which the entries stand by their times.
use mathlib.Core.List.Permᴰ
use mathlib.Core.List.{Permᴰ}
use mathlib.Core.Path.{subst}
use mathlib.Core.Quot
use mathlib.Core.Quot.{Quot, Quot-set}
use net_lib.Prelude.{ℕ, ◌≡◌, refl, ap, ◌∙◌, Bool, true, false, List, [], ◌∷◌, leb, ltb}
use net_lib.Timer.{Entry, push}
use net_lib.Timer.Heap.{IsSorted}
use net_lib.Timer.Sort.{sort, sort-Permᴰ, push-first}

abbrev pub Sleepers : Type 0
Sleepers = Quot (Permᴰ {A = Entry})

entries_set : IsSet (List Entry)
entries_set = hlevel

pub order : Sleepers → List Entry
order = Quot.lift entries_set sort (λ xs ys p. sort-Permᴰ p)

-- A list that is sorted is the one of its sleepers.
pub order_self : (xs : List Entry) → IsSorted xs → order (Quot.mk xs) ≡ xs
unfolding order sort
order_self [] s = refl
order_self (x ∷ xs) (h, s) = ap (push x) (order_self xs s) ∙ push-first x xs h

-- One more sleeper.
pub add : Entry → Sleepers → Sleepers
add e = Quot.lift Quot-set (λ xs. Quot.mk (e ∷ xs)) (λ xs ys p. Quot.sound (Permᴰ.cons refl p))

-- The sleepers that are due at a time, or that are not.
abbrev pub is_due : Bool → ℕ → Entry → Bool
is_due true present e = leb e.time present
is_due false present e = ltb present e.time

abbrev pub kept : Bool → Entry → List Entry → List Entry
kept true e xs = e ∷ xs
kept false e xs = xs

abbrev pub select : Bool → ℕ → List Entry → List Entry
select which present [] = []
select which present (e ∷ xs) = kept (is_due which present e) e (select which present xs)

kept-Permᴰ :
    (b : Bool) (e : Entry) {xs ys : List Entry} → Permᴰ xs ys → Permᴰ (kept b e xs) (kept b e ys)
kept-Permᴰ true e p = Permᴰ.cons refl p
kept-Permᴰ false e p = p

kept_swap :
    (b c : Bool) (x y : Entry) (xs : List Entry)
    → Permᴰ (kept b x (kept c y xs)) (kept c y (kept b x xs))
kept_swap true true x y xs = Permᴰ.swap refl refl
kept_swap true false x y xs = Permᴰ.refl _
kept_swap false true x y xs = Permᴰ.refl _
kept_swap false false x y xs = Permᴰ.refl _

select-Permᴰ :
    (which : Bool) (present : ℕ) {xs ys : List Entry}
    → Permᴰ xs ys
    → Permᴰ (select which present xs) (select which present ys)
select-Permᴰ which present Permᴰ.nil = Permᴰ.nil
select-Permᴰ which present (Permᴰ.cons {a = a} {b = b} {l₁ = xs} {l₂ = ys} e p) =
    subst (λ x. Permᴰ (select which present (a ∷ xs)) (select which present (x ∷ ys))) e
      (kept-Permᴰ (is_due which present a) a (select-Permᴰ which present p))
select-Permᴰ which present (Permᴰ.swap {a = a} {b = b} {a' = a'} {b' = b'} {l = l} e e') =
    let front = select which present (a ∷ b ∷ l) in
    subst (λ y. Permᴰ front (select which present (y ∷ b' ∷ l))) e'
      (subst (λ x. Permᴰ front (select which present (b ∷ x ∷ l))) e
        (kept_swap (is_due which present a) (is_due which present b) a b (select which present l)))
select-Permᴰ which present (Permᴰ.trans p q) =
    Permᴰ.trans (select-Permᴰ which present p) (select-Permᴰ which present q)

pub selected : Bool → ℕ → Sleepers → Sleepers
selected which present =
    Quot.lift Quot-set (λ xs. Quot.mk (select which present xs))
      (λ xs ys p. Quot.sound (select-Permᴰ which present p))

pub add-mk : (e : Entry) (xs : List Entry) → add e (Quot.mk xs) ≡ Quot.mk (e ∷ xs)
unfolding add
add-mk e xs = refl

pub selected-mk :
    (which : Bool) (present : ℕ) (xs : List Entry)
    → selected which present (Quot.mk xs) ≡ Quot.mk (select which present xs)
unfolding selected
selected-mk which present xs = refl
