-- ===== src/Copnet/Numbers.antt =====
-- What the line that `printCoNums` writes tells (src/processor_selector.cc).
use net_lib.Prelude.{
  ℕ, ◌+◌, ◌-◌, ◌*◌, ◌^◌, ◌<◌, ◌≡◌, refl, ap, ◌∙◌, false, List, [], ◌∷◌, ◌++◌, arith, ◌==◌,
  if◌then◌else◌,
}
use net_lib.Socket.Info.{decimal}
use net_lib.Socket.Info.Decimal.{value_from, AllDigits, decimal-value, decimal-AllDigits}
use net_lib.Copnet.{size_digits, print_co_nums}

-- A reader of numbers that are each followed by a comma, up to the end of the line.
pub read_back : (acc : ℕ) → List ℕ → List ℕ
read_back acc [] = []
read_back acc (c ∷ cs) =
    let number = read_back 0 cs in
    let digit = read_back (acc * 10 + (c - b'0')) cs in
    if c == b',' then acc ∷ number else if c == 10 then [] else digit

read_back-digits :
    (acc : ℕ) (ds rest : List ℕ)
    → AllDigits ds
    → read_back acc (ds ++ rest) ≡ read_back (value_from acc ds) rest
unfolding read_back value_from AllDigits
read_back-digits acc [] rest p = refl
read_back-digits acc (d ∷ ds) rest (h, p) =
    let not_comma : (d == b',') ≡ false = ground (arith, h) in
    let not_end : (d == 10) ≡ false = ground (arith, h) in
    rw (not_comma, not_end) (read_back-digits (acc * 10 + (d - b'0')) ds rest p)

pub AllSizes : List ℕ → Type 0
AllSizes [] = Unit {0}
AllSizes (c ∷ cs) = (c < 2 ^ 64) × AllSizes cs

-- What `printCoNums` writes of numbers of 64 bits determines them: a reader of numbers that are each
-- followed by a comma gets them back, all and in their order.
pub read_back-print_co_nums :
    (counts : List ℕ) → AllSizes counts → read_back 0 (print_co_nums counts) ≡ counts
unfolding read_back print_co_nums AllSizes
read_back-print_co_nums [] p = refl
read_back-print_co_nums (c ∷ counts) (h, p) =
    read_back-digits 0 (decimal size_digits c) (b',' ∷ print_co_nums counts)
      (decimal-AllDigits size_digits c)
    ∙ ap (λ n. n ∷ read_back 0 (print_co_nums counts))
        (decimal-value size_digits c (omega (arith, h)))
    ∙ ap (λ ns. c ∷ ns) (read_back-print_co_nums counts p)
