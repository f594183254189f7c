-- ===== src/Prelude/Bits.antt =====
-- The binary digits of a word, lowest first, and what the operations on bits do to each.
use Prim.Native.Nat.{max, min, bit_and, bit_or, digits, bit_and-bitwise, bit_or-bitwise}
use native.Mathlib.Nat.{pow-suc}
use net_lib.Prelude.{
  ℕ, zero, suc, ◌+◌, ◌-◌, ◌*◌, ◌/◌, ◌%◌, ◌^◌, ◌≤◌, ◌<◌, ◌≡◌, refl, sym, ap, ◌∙◌, ◌==◌, arith,
  if◌then◌else◌,
}

-- Digit `j`.
pub digit : ℕ → ℕ → ℕ
digit zero n = n % 2
digit (suc j) n = digit j (n / 2)

pub digit-le : (j n : ℕ) → digit j n ≤ 1
unfolding digit
digit-le zero n = omega arith
digit-le (suc j) n = digit-le j (n / 2)

digit-zero : (j : ℕ) → digit j 0 ≡ 0
unfolding digit
digit-zero zero = refl
digit-zero (suc j) = digit-zero j

-- Each digit of what the recursion behind the operations gives, where `op` keeps to digits and `rest`
-- is what it makes of a second number alone.
module _ (rest : ℕ → ℕ) (op : ℕ → ℕ → ℕ) (op-le : (x y : ℕ) → x ≤ 1 → y ≤ 1 → op x y ≤ 1)
    (digit-rest : (j b : ℕ) → digit j (rest b) ≡ op 0 (digit j b)) where
  rest_lem : (j b : ℕ) → digit j (rest b) ≡ op (digit j 0) (digit j b)
  rest_lem j b = digit-rest j b ∙ ap (λ x. op x (digit j b)) (sym (digit-zero j))

  digit-digits :
      (size j a b : ℕ) → a ≤ size → digit j (digits rest op size a b) ≡ op (digit j a) (digit j b)
  unfolding digit
  digit-digits zero j zero b le = rest_lem j b
  digit-digits zero j (suc a) b le = absurd (omega arith)
  digit-digits (suc size) j zero b le = rest_lem j b
  digit-digits (suc size) zero (suc a) b le =
      let one = op-le (suc a % 2) (b % 2) (omega arith) (omega arith) in omega (arith, one)
  digit-digits (suc size) (suc j) (suc a) b le =
      let one = op-le (suc a % 2) (b % 2) (omega arith) (omega arith) in
      let above = digits rest op size (suc a / 2) (b / 2) in
      let half : (above * 2 + op (suc a % 2) (b % 2)) / 2 ≡ above = omega (arith, one) in
      ap (digit j) half ∙ digit-digits size j (suc a / 2) (b / 2) (omega arith)

pub digit-bit_and : (j a b : ℕ) → digit j (bit_and a b) ≡ min (digit j a) (digit j b)
digit-bit_and j a b =
    ap (digit j) (bit_and-bitwise a b)
    ∙ digit-digits (λ _. zero) min (λ x y p q. omega arith) (λ k c. omega (arith, digit-zero k)) a j
        a b (omega arith)

pub digit-bit_or : (j a b : ℕ) → digit j (bit_or a b) ≡ max (digit j a) (digit j b)
digit-bit_or j a b =
    ap (digit j) (bit_or-bitwise a b)
    ∙ digit-digits (λ c. c) max (λ x y p q. omega arith) (λ k c. omega arith) a j a b (omega arith)

-- A power of two has one digit.
pub digit-pow : (j k : ℕ) → digit j (2 ^ k) ≡ (if j == k then 1 else 0)
unfolding digit
digit-pow zero zero = refl
digit-pow zero (suc k) = ground (arith, pow-suc 2 k)
digit-pow (suc j) zero = ground (arith, digit-zero j)
digit-pow (suc j) (suc k) =
    let half : 2 ^ suc k / 2 ≡ 2 ^ k = omega (arith, pow-suc 2 k) in
    ap (digit j) half ∙ ground (arith, digit-pow j k)

-- The complement of a word of `w` bits.
pub digit-complement : (w j n : ℕ) → n < 2 ^ w → j < w → digit j (2 ^ w - 1 - n) ≡ 1 - digit j n
unfolding digit
digit-complement zero j n small lt = absurd (omega arith)
digit-complement (suc w) zero n small lt = omega (arith, pow-suc 2 w)
digit-complement (suc w) (suc j) n small lt =
    let half : (2 ^ suc w - 1 - n) / 2 ≡ 2 ^ w - 1 - n / 2 = omega (arith, pow-suc 2 w) in
    ap (digit j) half ∙ digit-complement w j (n / 2) (omega (arith, pow-suc 2 w)) (omega arith)
