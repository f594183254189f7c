-- ===== src/Prelude/Family.antt =====
-- Families indexed by a thread's or a coroutine's number: update, and the number of members with a
-- property among the first `n`.
use net_lib.Prelude.{
  ℕ, zero, suc, ◌+◌, ◌≤◌, ◌<◌, ◌≡◌, ◌≢◌, refl, inl, inr, Bool, true, false, ◌==◌, if◌then◌else◌,
  arith, Bool-cases,
}

abbrev pub update {ℓ} : {A : Type ℓ} → (ℕ → A) → ℕ → A → ℕ → A
update f i a j = if i == j then a else f j

abbrev pub bit : Bool → ℕ
bit true = 1
bit false = 0

-- How many of `f 0`, …, `f (n - 1)` satisfy the test.
pub number {ℓ} : {A : Type ℓ} → (A → Bool) → ℕ → (ℕ → A) → ℕ
number p zero f = 0
number p (suc n) f = number p n f + bit (p (f n))

module _ {ℓ} {A : Type ℓ} (p : A → Bool) where
  pub number-eq :
      (n : ℕ) (f g : ℕ → A) → ((i : ℕ) → p (f i) ≡ p (g i)) → number p n f ≡ number p n g
  unfolding number
  number-eq zero f g h = refl
  number-eq (suc n) f g h = ground (arith, number-eq n f g h, h n)

  number-update_above :
      (n : ℕ) (f : ℕ → A) (i : ℕ) (a : A) → n ≤ i → number p n (update f i a) ≡ number p n f
  unfolding number
  number-update_above zero f i a h = refl
  number-update_above (suc n) f i a h = ground (arith, number-update_above n f i a)

  pub number-update :
      (n : ℕ) (f : ℕ → A) (i : ℕ) (a : A)
      → i < n
      → number p n (update f i a) + bit (p (f i)) ≡ number p n f + bit (p a)
  unfolding number
  number-update zero f i a h = elim h [ ]
  number-update (suc n) f i a h = elim (Bool-cases (i == n)) [
    | inl last ↦ ground (arith, number-update_above n f i a)
    | inr below ↦ ground (arith, number-update n f i a)
  ]

  pub number_pos : (n : ℕ) (f : ℕ → A) (i : ℕ) → i < n → p (f i) ≡ true → 1 ≤ number p n f
  unfolding number
  number_pos zero f i h e = elim h [ ]
  number_pos (suc n) f i h e = elim (Bool-cases (i == n)) [
    | inl last ↦ ground arith
    | inr below ↦ ground (arith, number_pos n f i)
  ]

  pub number_two :
      (n : ℕ) (f : ℕ → A) (i j : ℕ)
      → i < n
      → j < n
      → p (f i) ≡ true
      → p (f j) ≡ true
      → number p n f ≤ 1
      → i ≡ j
  unfolding number
  number_two zero f i j hi hj pi pj h = elim hi [ ]
  number_two (suc n) f i j hi hj pi pj h = elim (Bool-cases (i == n)) [
    | inl last ↦ ground (arith, number_pos n f j)
    | inr below ↦ ground (arith, number_pos n f i, number_two n f i j)
  ]

  pub number_find : (n : ℕ) (f : ℕ → A) → 1 ≤ number p n f → (i : ℕ) × (i < n) × (p (f i) ≡ true)
  unfolding number
  number_find zero f h = absurd (omega arith)
  number_find (suc n) f h = elim (Bool-cases (p (f n))) [
    | inl here ↦ (n, omega arith, here)
    | inr other ↦ let (i, lt, e) = number_find n f (ground arith) in (i, omega arith, e)
  ]

  pub number_none : (n : ℕ) (f : ℕ → A) → ((i : ℕ) → p (f i) ≡ false) → number p n f ≡ 0
  unfolding number
  number_none zero f h = refl
  number_none (suc n) f h = ground (arith, number_none n f h, h n)

module _ {ℓ} {A : Type ℓ} where
  pub update_self : (f : ℕ → A) (i : ℕ) (a : A) → update f i a i ≡ a
  update_self f i a = ground arith

  pub update_ne : (f : ℕ → A) (i j : ℕ) (a : A) → i ≢ j → update f i a j ≡ f j
  update_ne f i j a h = ground arith
