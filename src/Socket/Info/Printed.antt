-- ===== src/Socket/Info/Printed.antt =====
-- What stands in the text of a connection, and its length (src/socket.cc).
use net_lib.Prelude.{
  ℕ, zero, suc, ◌+◌, ◌-◌, ◌*◌, ◌≤◌, ◌<◌, ◌≡◌, ◌^◌, refl, ap, ◌∙◌, none, some, List, [], ◌∷◌, ◌++◌,
  length, length-append, take, drop, arith, append_assoc,
}
use net_lib.Socket.Info.{
  TcpInfo, Conversion, codes, decimal, unsigned_digits, format, snprintf, opt_format, opt_arguments,
  get_socket_opt_string, opt_string,
}
use net_lib.Socket.Info.Reader.{read_fields, read_fields-decimal}
use net_lib.Socket.Info.Decimal.{decimal-length}

take_all : (n : ℕ) (xs : List ℕ) → length xs ≤ n → take n xs ≡ xs
take_all zero [] h = refl
take_all zero (x ∷ xs) h = absurd (omega arith)
take_all (suc n) [] h = refl
take_all (suc n) (x ∷ xs) h = ap (λ ys. x ∷ ys) (take_all n xs (omega arith))

-- The length of the labels.
abbrev labels : List Conversion → ℕ
labels [] = 0
labels (c ∷ cs) = length c.label + labels cs

length-append3 : (a b c : List ℕ) → length (a ++ b ++ c) ≡ length a + length b + length c
length-append3 a b c = omega (arith, length-append (a ++ b) c, length-append a b)

snprintf_whole :
    (len : ℕ) (cs : List Conversion) (args text : List ℕ)
    → format cs args ≡ some text
    → length text < len
    → snprintf len cs args ≡ some text
unfolding snprintf
snprintf_whole len cs args text e lt =
    rw (e, snprintf) (ap some (take_all (len - 1) text (omega arith)))

opt_string-some :
    (t : TcpInfo) (text : List ℕ)
    → snprintf 1024 opt_format (opt_arguments t) ≡ some text
    → opt_string (some t) ≡ some text
unfolding opt_string get_socket_opt_string
opt_string-some t text e = rw (e, opt_string) refl

-- The labels of the conversions end one number and give the names of the next, in order.
abbrev Names : List Conversion → List (List ℕ) → Type 0
Names [] [] = Unit {0}
Names [] (name ∷ names) = ⊥
Names (c ∷ cs) [] = ⊥
Names (c ∷ cs) (name ∷ names) =
    ((old : List ℕ) (n : ℕ) (rest : List ℕ)
      → read_fields old (some n) (c.label ++ rest) ≡ (old, n) ∷ read_fields name (some 0) rest)
    × Names cs names

abbrev pub AllUnsigned : List ℕ → Type 0
AllUnsigned [] = Unit {0}
AllUnsigned (x ∷ xs) = (x < 2 ^ 32) × AllUnsigned xs

-- The names with the values.
abbrev named : List (List ℕ) → List ℕ → List (List ℕ × ℕ)
named [] args = []
named (name ∷ names) [] = []
named (name ∷ names) (x ∷ args) = (name, x) ∷ named names args

-- What is printed has the labels and ten digits for each number at most, and is read back.
abbrev Printed : List Conversion → List (List ℕ) → List ℕ → List ℕ → Type 0
Printed cs names args text =
    (format cs args ≡ some text)
    × (length text ≤ labels cs + length cs * unsigned_digits)
    × ((old : List ℕ) (n : ℕ) → read_fields old (some n) text ≡ (old, n) ∷ named names args)

format-Printed :
    (cs : List Conversion) (names : List (List ℕ)) (args : List ℕ)
    → Names cs names
    → length args ≡ length cs
    → AllUnsigned args
    → (text : List ℕ) × Printed cs names args text
unfolding format read_fields
format-Printed [] [] args r l u = ([], (refl, omega arith, λ old n. refl))
format-Printed [] (name ∷ names) args r l u = absurd r
format-Printed (c ∷ cs) [] args r l u = absurd r
format-Printed (c ∷ cs) (name ∷ names) [] r l u = absurd (omega (arith, l))
format-Printed (c ∷ cs) (name ∷ names) (x ∷ args) (r, rs) l (small, u) =
    let (rest, (e, le, back)) = format-Printed cs names args rs (omega (arith, l)) u in
    let digits = decimal unsigned_digits x in
    (
      c.label ++ digits ++ rest,
      (
        rw e refl,
        omega (arith, le, length-append3 c.label digits rest, decimal-length unsigned_digits x),
        λ old n.
            ap (read_fields old (some n)) (append_assoc c.label digits rest)
            ∙ r old n (digits ++ rest)
            ∙ ap (λ l. (old, n) ∷ l) (read_fields-decimal name x rest small ∙ back name x),
      ),
    )

abbrev first_label : List ℕ
first_label = codes "unrecovered="

abbrev other_conversions : List Conversion
other_conversions = drop 1 opt_format

abbrev other_names : List (List ℕ)
other_names =
    codes "rto"
    ∷ codes "ato"
    ∷ codes "snd_mss"
    ∷ codes "rcv_mss"
    ∷ codes "lost"
    ∷ codes "retrans"
    ∷ codes "rtt"
    ∷ codes "rttvar"
    ∷ codes "sshthresh"
    ∷ codes "cwnd"
    ∷ codes "total_retrans"
    ∷ []

-- The fields with their names.
abbrev pub fields : TcpInfo → List (List ℕ × ℕ)
fields t =
    (codes "unrecovered", t.tcpi_retransmits)
    ∷ (codes "rto", t.tcpi_rto)
    ∷ (codes "ato", t.tcpi_ato)
    ∷ (codes "snd_mss", t.tcpi_snd_mss)
    ∷ (codes "rcv_mss", t.tcpi_rcv_mss)
    ∷ (codes "lost", t.tcpi_lost)
    ∷ (codes "retrans", t.tcpi_retrans)
    ∷ (codes "rtt", t.tcpi_rtt)
    ∷ (codes "rttvar", t.tcpi_rttvar)
    ∷ (codes "sshthresh", t.tcpi_snd_ssthresh)
    ∷ (codes "cwnd", t.tcpi_snd_cwnd)
    ∷ (codes "total_retrans", t.tcpi_total_retrans)
    ∷ []

abbrev other_arguments : TcpInfo → List ℕ
other_arguments t = drop 1 (opt_arguments t)

other_conversions-Names : Names other_conversions other_names
unfolding read_fields
other_conversions-Names = (
  λ old n rest. refl,
  (
    λ old n rest. refl,
    (
      λ old n rest. refl,
      (
        λ old n rest. refl,
        (
          λ old n rest. refl,
          (
            λ old n rest. refl,
            (
              λ old n rest. refl,
              (
                λ old n rest. refl,
                (λ old n rest. refl, (λ old n rest. refl, (λ old n rest. refl, tt))),
              ),
            ),
          ),
        ),
      ),
    ),
  ),
)

first_name :
    (rest : List ℕ)
    → read_fields [] none (first_label ++ rest) ≡ read_fields (codes "unrecovered") (some 0) rest
unfolding read_fields
first_name rest = refl

-- What is printed of the first field stands before the rest.
opt_format-first :
    (t : TcpInfo) (rest : List ℕ)
    → format other_conversions (other_arguments t) ≡ some rest
    → format opt_format (opt_arguments t)
      ≡ some (first_label ++ decimal unsigned_digits t.tcpi_retransmits ++ rest)
unfolding format
opt_format-first t rest e =
    ap
      (λ o. elim o [
        | none ↦ none
        | some text ↦ some (first_label ++ decimal unsigned_digits t.tcpi_retransmits ++ text)
      ])
      e

opt_format-fields :
    (t : TcpInfo)
    → AllUnsigned (opt_arguments t)
    → (text : List ℕ) × (format opt_format (opt_arguments t) ≡ some text)
      × (length text < 1024)
      × (read_fields [] none text ≡ fields t)
opt_format-fields t (small, u) =
    let (rest, (e, le, back)) =
      format-Printed other_conversions other_names (other_arguments t) other_conversions-Names refl
        u in
    let digits = decimal unsigned_digits t.tcpi_retransmits in
    (
      first_label ++ digits ++ rest,
      opt_format-first t rest e,
      omega (
        arith,
        le,
        length-append3 first_label digits rest,
        decimal-length unsigned_digits t.tcpi_retransmits,
      ),
      ap (read_fields [] none) (append_assoc first_label digits rest)
          ∙ first_name (digits ++ rest)
          ∙ read_fields-decimal (codes "unrecovered") t.tcpi_retransmits rest small
          ∙ back (codes "unrecovered") t.tcpi_retransmits,
    )

-- Where the fields that are printed are below 2 ^ 32, the buffer of `getSocketOptString()` holds the whole text, and a
-- reader that takes it apart at '=' and at the spaces gets every name with the value of its field.
pub opt_string-fields :
    (t : TcpInfo)
    → AllUnsigned (opt_arguments t)
    → (text : List ℕ) × (opt_string (some t) ≡ some text)
      × (length text < 1024)
      × (read_fields [] none text ≡ fields t)
opt_string-fields t u =
    let (text, e, short, back) = opt_format-fields t u in
    (
      text,
      opt_string-some t text (snprintf_whole 1024 opt_format (opt_arguments t) text e short),
      short,
      back,
    )
