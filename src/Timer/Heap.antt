-- ===== src/Timer/Heap.antt =====
-- The queue of sleeping coroutines: least entry first (src/timer.cc).
use mathlib.Core.List.{Perm}
use mathlib.Core.List.Perm
use net_lib.Prelude.{
  ◌≤◌, ◌≡◌, inl, inr, true, false, List, [], ◌∷◌, arith, All, All-mono, Bool-cases,
}
use net_lib.Timer.{Entry, before, push}

-- Every entry stands before those behind it.
abbrev pub IsSorted : List Entry → Type 0
IsSorted [] = Unit {0}
IsSorted (x ∷ xs) = All (λ y. before x y ≡ true) xs × IsSorted xs

before_trans : (a b c : Entry) → before a b ≡ true → before b c ≡ true → before a c ≡ true
before_trans a b c p q = ground arith

pub before_total : (a b : Entry) → before a b ≡ false → before b a ≡ true
before_total a b p = ground arith

push-All : (P : Entry → Type 0) (e : Entry) (xs : List Entry) → P e → All P xs → All P (push e xs)
unfolding push
push-All P e [] p h = (p, tt)
push-All P e (x ∷ xs) p h = elim (Bool-cases (before e x)) [
  | inl first ↦ rw first (p, h)
  | inr later ↦ rw later (h.0, push-All P e xs p h.1)
]

pub push-IsSorted : (e : Entry) (xs : List Entry) → IsSorted xs → IsSorted (push e xs)
unfolding push
push-IsSorted e [] s = (tt, tt)
push-IsSorted e (x ∷ xs) s = elim (Bool-cases (before e x)) [
  | inl first ↦ rw first ((first, All-mono _ _ xs (λ y h. before_trans e x y first h) s.0), s)
  | inr later ↦ rw later (push-All _ e xs (before_total e x later) s.0, push-IsSorted e xs s.1)
]

pub push-perm : (e : Entry) (xs : List Entry) → Perm (push e xs) (e ∷ xs)
unfolding push
push-perm e [] = Perm.refl _
push-perm e (x ∷ xs) = elim (Bool-cases (before e x)) [
  | inl first ↦ rw first (Perm.refl _)
  | inr later ↦ rw later (Perm.trans (Perm.cons x (push-perm e xs)) (Perm.swap e x xs))
]

pub before-le : (a b : Entry) → before a b ≡ true → a.time ≤ b.time
before-le a b h = ground arith
