-- ===== src/Timer/Sort.antt =====
-- One order of the entries of a queue, whatever the order of the pushes (src/timer.h).
use mathlib.Core.List.Permᴰ
use mathlib.Core.List.{Permᴰ}
use net_lib.Prelude.{
  ◌≡◌, refl, sym, ap, ◌∙◌, inl, inr, true, false, List, [], ◌∷◌, arith, All, Bool-cases,
  if◌then◌else◌,
}
use net_lib.Timer.{Entry, before, push}
use net_lib.Timer.Heap.{before_total}

unfoldable pub sort : List Entry → List Entry
sort [] = []
sort (x ∷ xs) = push x (sort xs)

before_antisym : (a b : Entry) → before a b ≡ true → before b a ≡ true → a ≡ b
before_antisym a b p q =
    let times : a.time ≡ b.time = ground (arith, p, q) in
    let cos : a.co ≡ b.co = ground (arith, p, q) in
    ap (λ t. record { time = t; co = a.co }) times ∙ ap (λ c. record { time = b.time; co = c }) cos

-- Two entries in front of others stand in their order, whichever of them comes first.
heads_comm :
    (x y : Entry) (zs : List Entry)
    → (if before x y then x ∷ y ∷ zs else y ∷ x ∷ zs)
      ≡ (if before y x then y ∷ x ∷ zs else x ∷ y ∷ zs)
heads_comm x y zs = elim (Bool-cases (before x y)) [
  | inl xy ↦ elim (Bool-cases (before y x)) [
    | inl yx ↦
        let same = before_antisym x y xy yx in
        rw (xy, yx) (ap (λ e. e ∷ y ∷ zs) same ∙ ap (λ e. y ∷ e ∷ zs) (sym same))
    | inr not_yx ↦ rw (xy, not_yx) refl
  ]
  | inr not_xy ↦ rw (not_xy, before_total x y not_xy) refl
]

push_here : (x z : Entry) (zs : List Entry) → before x z ≡ true → push x (z ∷ zs) ≡ x ∷ z ∷ zs
unfolding push
push_here x z zs h = rw h refl

push_on : (x z : Entry) (zs : List Entry) → before x z ≡ false → push x (z ∷ zs) ≡ z ∷ push x zs
unfolding push
push_on x z zs h = rw h refl

-- Both entries stand before the first one.
both_first :
    (x y z : Entry) (zs : List Entry)
    → before x z ≡ true
    → before y z ≡ true
    → push x (y ∷ z ∷ zs) ≡ push y (x ∷ z ∷ zs)
unfolding push
both_first x y z zs xz yz =
    ap (λ l. if before x y then x ∷ y ∷ z ∷ zs else y ∷ l) (push_here x z zs xz)
    ∙ heads_comm x y (z ∷ zs)
    ∙ ap (λ l. if before y x then y ∷ x ∷ z ∷ zs else x ∷ l) (sym (push_here y z zs yz))

-- The first of them does, the second does not.
one_first :
    (x y z : Entry) (zs : List Entry)
    → before x z ≡ true
    → before y z ≡ false
    → push x (z ∷ push y zs) ≡ push y (x ∷ z ∷ zs)
one_first x y z zs xz not_yz =
    let not_yx : before y x ≡ false = ground (arith, xz, not_yz) in
    push_here x z (push y zs) xz
    ∙ ap (λ l. x ∷ l) (sym (push_on y z zs not_yz))
    ∙ sym (push_on y x (z ∷ zs) not_yx)

push_comm : (x y : Entry) (zs : List Entry) → push x (push y zs) ≡ push y (push x zs)
unfolding push
push_comm x y [] = heads_comm x y []
push_comm x y (z ∷ zs) = elim (Bool-cases (before x z)) [
  | inl xz ↦ elim (Bool-cases (before y z)) [
    | inl yz ↦
        ap (push x) (push_here y z zs yz)
        ∙ both_first x y z zs xz yz
        ∙ ap (push y) (sym (push_here x z zs xz))
    | inr not_yz ↦
        ap (push x) (push_on y z zs not_yz)
        ∙ one_first x y z zs xz not_yz
        ∙ ap (push y) (sym (push_here x z zs xz))
  ]
  | inr not_xz ↦ elim (Bool-cases (before y z)) [
    | inl yz ↦
        ap (push x) (push_here y z zs yz)
        ∙ sym (one_first y x z zs yz not_xz)
        ∙ ap (push y) (sym (push_on x z zs not_xz))
    | inr not_yz ↦
        ap (push x) (push_on y z zs not_yz)
        ∙ push_on x z (push y zs) not_xz
        ∙ ap (λ l. z ∷ l) (push_comm x y zs)
        ∙ sym (push_on y z (push x zs) not_yz)
        ∙ ap (push y) (sym (push_on x z zs not_xz))
  ]
]

pub sort-Permᴰ : {xs ys : List Entry} → Permᴰ xs ys → sort xs ≡ sort ys
unfolding sort
sort-Permᴰ Permᴰ.nil = refl
sort-Permᴰ (Permᴰ.cons {b = b} {l₁ = xs} e p) =
    ap (λ x. push x (sort xs)) e ∙ ap (push b) (sort-Permᴰ p)
sort-Permᴰ (Permᴰ.swap {a = a} {b = b} {a' = a'} {l = l} e e') =
    push_comm a b (sort l)
    ∙ ap (λ y. push y (push a (sort l))) e'
    ∙ ap (λ x. push a' (push x (sort l))) e
sort-Permᴰ (Permᴰ.trans p q) = sort-Permᴰ p ∙ sort-Permᴰ q

pub push-first :
    (x : Entry) (xs : List Entry) → All (λ y. before x y ≡ true) xs → push x xs ≡ x ∷ xs
unfolding push
push-first x [] h = refl
push-first x (y ∷ ys) (h, hs) = rw h refl

pub push-Permᴰ : (e : Entry) (xs : List Entry) → Permᴰ (push e xs) (e ∷ xs)
unfolding push
push-Permᴰ e [] = Permᴰ.refl _
push-Permᴰ e (x ∷ xs) = elim (Bool-cases (before e x)) [
  | inl first ↦ rw first (Permᴰ.refl _)
  | inr later ↦ rw later (Permᴰ.trans (Permᴰ.cons refl (push-Permᴰ e xs)) (Permᴰ.swap refl refl))
]
