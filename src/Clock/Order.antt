-- ===== src/Clock/Order.antt =====
-- `Time` and its comparisons (src/mstime.h), and the order of the pairs that Timer keeps
-- (src/timer.h). A Time may be negative here.
use net_lib.Prelude.{ℕ, ◌≡◌, Bool, not, ◌&&◌, ◌||◌, arith, ltb}
use net_lib.Prelude.Int.{ℤ, pos, negsuc, ltb_ℤ, leb_ℤ, ◌==ℤ◌}
use net_lib.Timer.{Entry, before}

pub record Time : Type 0 where
  pub time_val : ℤ

-- The operators <, <=, >, >= and ==.
abbrev pub time_lt : Time → Time → Bool
time_lt lhs rhs = ltb_ℤ lhs.time_val rhs.time_val

abbrev pub time_le : Time → Time → Bool
time_le lhs rhs = leb_ℤ lhs.time_val rhs.time_val

abbrev pub time_gt : Time → Time → Bool
time_gt lhs rhs = ltb_ℤ rhs.time_val lhs.time_val

abbrev pub time_ge : Time → Time → Bool
time_ge lhs rhs = leb_ℤ rhs.time_val lhs.time_val

abbrev pub time_eq : Time → Time → Bool
time_eq lhs rhs = lhs.time_val ==ℤ rhs.time_val

values_agree :
    (x y : ℤ)
    → (leb_ℤ x y ≡ (ltb_ℤ x y || (x ==ℤ y)))
      × (leb_ℤ y x ≡ (ltb_ℤ y x || (x ==ℤ y)))
      × (ltb_ℤ y x ≡ (not (ltb_ℤ x y) && not (x ==ℤ y)))
values_agree (pos m) (pos n) = (ground arith, ground arith, ground arith)
values_agree (pos m) (negsuc n) = (ground arith, ground arith, ground arith)
values_agree (negsuc m) (pos n) = (ground arith, ground arith, ground arith)
values_agree (negsuc m) (negsuc n) = (ground arith, ground arith, ground arith)

-- The five agree: of two times exactly one is less or they are equal, and the others follow.
pub comparisons_agree :
    (a b : Time)
    → (time_le a b ≡ (time_lt a b || time_eq a b))
      × (time_ge a b ≡ (time_gt a b || time_eq a b))
      × (time_gt a b ≡ (not (time_lt a b) && not (time_eq a b)))
comparisons_agree a b = values_agree a.time_val b.time_val

-- `std::greater` of pairs of a Time and an address: the pairs are compared by `<` alone.
abbrev pub pair_lt : Time × ℕ → Time × ℕ → Bool
pair_lt (s, a) (t, b) = time_lt s t || (not (time_lt t s) && ltb a b)

abbrev pub greater : Time × ℕ → Time × ℕ → Bool
greater a b = pair_lt b a

abbrev pub pair_of : Entry → Time × ℕ
pair_of e = (record { time_val = pos e.time }, e.co)

-- The order in which Timer keeps its entries is the one that the priority queue has by `greater`:
-- an entry stands behind another just if it is greater.
pub greater-before : (a b : Entry) → greater (pair_of a) (pair_of b) ≡ not (before a b)
greater-before a b = ground arith
