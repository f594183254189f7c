-- ===== src/Socket/Info.antt =====
-- `Socket::getSocketOpt` and `getSocketOptString` (src/socket.cc): what the kernel knows of a
-- connection, as text. What `::getsockopt` returned is an argument; of `snprintf` this has the
-- conversion `%u` and the cut at the size of the buffer.
pub mod Decimal
pub mod Reader
pub mod Printed
mod Tests
use Prim.Native.String.{String}
use Prim.Native.Char.{code}
use net_lib.Prelude.{
  ℕ, zero, suc, ◌+◌, ◌-◌, ◌/◌, ◌%◌, Bool, true, false, Option, none, some, List, [], ◌∷◌, ◌++◌, ltb,
  take, if◌then◌else◌,
}

-- The bytes of a literal.
abbrev pub codes : String → List ℕ
codes String.[] = []
codes (String.◌∷◌ c s) = code c ∷ codes s

-- The fields of `struct tcp_info` that are read, which are unsigned.
pub record TcpInfo : Type 0 where
  pub tcpi_retransmits : ℕ
  pub tcpi_rto : ℕ
  pub tcpi_ato : ℕ
  pub tcpi_snd_mss : ℕ
  pub tcpi_rcv_mss : ℕ
  pub tcpi_lost : ℕ
  pub tcpi_retrans : ℕ
  pub tcpi_rtt : ℕ
  pub tcpi_rttvar : ℕ
  pub tcpi_snd_ssthresh : ℕ
  pub tcpi_snd_cwnd : ℕ
  pub tcpi_total_retrans : ℕ

-- The number in decimal, with `fuel` digits at most.
unfoldable pub decimal : (fuel n : ℕ) → List ℕ
decimal zero n = []
decimal (suc fuel) n =
    let front = decimal fuel (n / 10) in
    if ltb n 10 then (b'0' + n) ∷ [] else front ++ (b'0' + n % 10) ∷ []

-- `unsigned` has 32 bits, and so ten digits at most.
abbrev pub unsigned_digits : ℕ
unsigned_digits = 10

-- A piece of a format: `%u`, with the text before it.
pub record Conversion : Type 0 where
  pub label : List ℕ

-- What is printed; none where an argument is missing, which C leaves open. What is over is not read.
pub format : List Conversion → List ℕ → Option (List ℕ)
format [] args = some []
format (c ∷ cs) [] = none
format (c ∷ cs) (x ∷ args) = elim (format cs args) [
  | none ↦ none
  | some rest ↦ some (c.label ++ decimal unsigned_digits x ++ rest)
]

-- `snprintf(buf, len, …)`: what stands in `buf` before the null byte.
unfoldable pub snprintf : ℕ → List Conversion → List ℕ → Option (List ℕ)
snprintf len cs args = elim (format cs args) [
  | none ↦ none
  | some text ↦ some (take (len - 1) text)
]

abbrev pub conversion : String → Conversion
conversion s = record { label = codes s }

abbrev pub opt_format : List Conversion
opt_format =
    conversion "unrecovered="
    ∷ conversion " rto="
    ∷ conversion " ato="
    ∷ conversion " snd_mss="
    ∷ conversion " rcv_mss="
    ∷ conversion " lost="
    ∷ conversion " retrans="
    ∷ conversion " rtt="
    ∷ conversion " rttvar="
    ∷ conversion " sshthresh="
    ∷ conversion " cwnd="
    ∷ conversion " total_retrans="
    ∷ []

abbrev pub opt_arguments : TcpInfo → List ℕ
opt_arguments t =
    t.tcpi_retransmits ∷ t.tcpi_rto ∷ t.tcpi_ato ∷ t.tcpi_snd_mss ∷ t.tcpi_rcv_mss ∷ t.tcpi_lost
    ∷ t.tcpi_retrans ∷ t.tcpi_rtt ∷ t.tcpi_rttvar ∷ t.tcpi_snd_ssthresh ∷ t.tcpi_snd_cwnd
    ∷ t.tcpi_total_retrans ∷ []

-- `getSocketOptString(buf, len)`, where `::getsockopt` gave `answer`, none if it failed: what it
-- returns, and what stands in `buf`, where `before` stood.
unfoldable pub get_socket_opt_string : Option TcpInfo → ℕ → List ℕ → Option (Bool × List ℕ)
unfolding snprintf
get_socket_opt_string none len before = some (false, before)
get_socket_opt_string (some t) len before = elim (snprintf len opt_format (opt_arguments t)) [
  | none ↦ none
  | some text ↦ some (true, text)
]

-- `getSocketOptString()`, with its buffer of 1024 bytes.
unfoldable pub opt_string : Option TcpInfo → Option (List ℕ)
unfolding get_socket_opt_string
opt_string answer = elim (get_socket_opt_string answer 1024 []) [
  | none ↦ none
  | some (ok, text) ↦ some text
]
