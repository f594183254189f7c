-- ===== src/Socket/Info/Decimal.antt =====
-- The decimal digits of a number of 32 bits: ten are enough for every one of them.
use native.Mathlib.Nat.{pow-suc}
use net_lib.Prelude.{
  ℕ, zero, suc, ◌+◌, ◌-◌, ◌*◌, ◌/◌, ◌%◌, ◌^◌, ◌≤◌, ◌<◌, ◌≡◌, refl, ◌∙◌, inl, inr, List, [], ◌∷◌,
  ◌++◌, length, length-append, arith, ltb, Bool-cases,
}
use net_lib.Socket.Info.{decimal}

-- The number that digits stand for, behind `acc`.
unfoldable pub value_from : ℕ → List ℕ → ℕ
value_from acc [] = acc
value_from acc (d ∷ ds) = value_from (acc * 10 + (d - b'0')) ds

value_from-append :
    (acc : ℕ) (ds es : List ℕ) → value_from acc (ds ++ es) ≡ value_from (value_from acc ds) es
unfolding value_from
value_from-append acc [] es = refl
value_from-append acc (d ∷ ds) es = value_from-append (acc * 10 + (d - b'0')) ds es

-- The digits of a number that has no more of them than the fuel stand for it.
pub decimal-value : (fuel n : ℕ) → n < 10 ^ fuel → value_from 0 (decimal fuel n) ≡ n
unfolding decimal value_from
decimal-value zero n small = omega (arith, small)
decimal-value (suc fuel) n small = elim (Bool-cases (ltb n 10)) [
  | inl one ↦ ground (arith, one)
  | inr more ↦ rw more (
      value_from-append 0 (decimal fuel (n / 10)) ((b'0' + n % 10) ∷ [])
      ∙ omega (arith, decimal-value fuel (n / 10) (omega (arith, small, pow-suc 10 fuel))))
]

pub decimal-length : (fuel n : ℕ) → length (decimal fuel n) ≤ fuel
unfolding decimal
decimal-length zero n = omega arith
decimal-length (suc fuel) n = ground (
  arith,
  length-append (decimal fuel (n / 10)) ((b'0' + n % 10) ∷ []),
  decimal-length fuel (n / 10),
)

-- No byte stands before b'0'.
unfoldable pub AllDigits : List ℕ → Type 0
AllDigits [] = Unit {0}
AllDigits (d ∷ ds) = (b'0' ≤ d) × AllDigits ds

AllDigits-append : (ds es : List ℕ) → AllDigits ds → AllDigits es → AllDigits (ds ++ es)
unfolding AllDigits
AllDigits-append [] es p q = q
AllDigits-append (d ∷ ds) es (h, p) q = (h, AllDigits-append ds es p q)

pub decimal-AllDigits : (fuel n : ℕ) → AllDigits (decimal fuel n)
unfolding decimal AllDigits
decimal-AllDigits zero n = tt
decimal-AllDigits (suc fuel) n = elim (Bool-cases (ltb n 10)) [
  | inl one ↦ rw one (omega arith, tt)
  | inr more ↦ rw more (
      AllDigits-append (decimal fuel (n / 10)) ((b'0' + n % 10) ∷ [])
        (decimal-AllDigits fuel (n / 10)) (omega arith, tt))
]
