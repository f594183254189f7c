-- ===== src/Socket/Info/Reader.antt =====
-- A reader of the text of a connection (src/socket.cc).
use net_lib.Prelude.{
  ℕ, ◌+◌, ◌-◌, ◌*◌, ◌<◌, ◌≡◌, ◌^◌, refl, ap, ◌∙◌, false, Option, none, some, List, [], ◌∷◌, ◌++◌,
  arith, ◌==◌, if◌then◌else◌,
}
use net_lib.Socket.Info.{decimal, unsigned_digits}
use net_lib.Socket.Info.Decimal.{value_from, AllDigits, decimal-value, decimal-AllDigits}

-- A reader of the text, which gives each name with its number: a name goes up to a '=', and a number
-- from there up to a space or the end. `number` is the number that is being read, none in a name.
unfoldable pub read_fields : (name : List ℕ) → (number : Option ℕ) → List ℕ → List (List ℕ × ℕ)
read_fields name none [] = []
read_fields name none (c ∷ cs) =
    let value = read_fields name (some 0) cs in
    let longer = read_fields (name ++ c ∷ []) none cs in if c == b'=' then value else longer
read_fields name (some n) [] = (name, n) ∷ []
read_fields name (some n) (c ∷ cs) =
    let next = read_fields [] none cs in
    let digit = read_fields name (some (n * 10 + (c - b'0'))) cs in
    if c == b' ' then (name, n) ∷ next else digit

read_fields-digits :
    (name : List ℕ) (acc : ℕ) (ds rest : List ℕ)
    → AllDigits ds
    → read_fields name (some acc) (ds ++ rest) ≡ read_fields name (some (value_from acc ds)) rest
unfolding read_fields value_from AllDigits
read_fields-digits name acc [] rest p = refl
read_fields-digits name acc (d ∷ ds) rest (h, p) =
    let not_space : (d == b' ') ≡ false = ground (arith, h) in
    rw not_space (read_fields-digits name (acc * 10 + (d - b'0')) ds rest p)

-- A number is read back, whatever follows it.
pub read_fields-decimal :
    (name : List ℕ) (x : ℕ) (rest : List ℕ)
    → x < 2 ^ 32
    → read_fields name (some 0) (decimal unsigned_digits x ++ rest) ≡ read_fields name (some x) rest
read_fields-decimal name x rest small =
    read_fields-digits name 0 (decimal unsigned_digits x) rest (decimal-AllDigits unsigned_digits x)
    ∙ ap (λ m. read_fields name (some m) rest)
        (decimal-value unsigned_digits x (omega (arith, small)))
