-- ===== src/Client.antt =====
-- client/client.cc: the demo client. Two coroutines start connections, one coroutine for each; a
-- connection exchanges a text with the server fifty times; the main thread waits until `times` says
-- that all are through. The coroutines run in any order; a step is what one of them does up to the
-- next call that may wait, and a step that cannot be made changes nothing. Its sockets' counts are
-- left out.
pub mod Exchanges
mod Tests
use net_lib.Prelude.{
  ℕ, zero, suc, ◌+◌, ◌^◌, ◌%◌, Bool, Option, none, some, List, [], ◌∷◌, get_elem?, leb,
}
use net_lib.Prelude.Int.{ℤ, pos, negsuc}
use net_lib.Socket.{ReadResult, read, send, ConnectResult}
use net_lib.Socket.Refs.{Socket}
use net_lib.Socket.Address.{connect}

-- Where a connection stands: in `connect`, in the loop with the exchanges that are left, at its end.
pub data Stage : Type 0 where
  connecting over : Stage
  talking : ℕ → Stage

-- `exchanges` remembers, for the statements, how many there were.
pub record Talker : Type 0 where
  pub stage : Stage
  pub exchanges : ℕ

-- `left` is how many connections each of the two coroutines has still to start.
pub record Client : Type 0 where
  pub times : ℕ
  pub left : List ℕ
  pub talkers : List Talker

abbrev pub connections : ℕ
connections = 10000

abbrev pub rounds : ℕ
rounds = 50

abbrev pub new_client : Client
new_client = record { times = 0; left = connections ∷ connections ∷ []; talkers = [] }

abbrev pub ping : List ℕ
ping = b'p' ∷ b'i' ∷ b'n' ∷ b'g' ∷ []

-- "127.0.0.1"
abbrev pub localhost : List ℕ
localhost = b'1' ∷ b'2' ∷ b'7' ∷ b'.' ∷ b'0' ∷ b'.' ∷ b'0' ∷ b'.' ∷ b'1' ∷ []

abbrev pub port : ℤ
port = pos 7103

-- The object that `Socket s;` makes, where `::socket` returned `fd`.
abbrev pub fresh_socket : ℤ → Socket
fresh_socket fd = record { sockfd = fd; p_ref = 0; port = negsuc 0; ip = [] }

-- An event names the coroutine, by its place, and what its calls returned.
pub data Event : Type 0 where
  starts : ℕ → Event
  connects : ℕ → ℤ → List ConnectResult → Event
  talks : ℕ → List ℤ → List ReadResult → Event
  ends : ℕ → Event

abbrev pub with_head : ℕ → Option (List ℕ) → Option (List ℕ)
with_head n none = none
with_head n (some ns) = some (n ∷ ns)

-- One connection less at place `i`, if there is one left.
unfoldable pub take_one : List ℕ → ℕ → Option (List ℕ)
take_one [] i = none
take_one (n ∷ ns) zero = elim n [ zero ↦ none | suc m ↦ some (m ∷ ns) ]
take_one (n ∷ ns) (suc i) = with_head n (take_one ns i)

abbrev pub set_at {ℓ} : {A : Type ℓ} → List A → ℕ → A → List A
set_at [] i y = []
set_at (x ∷ xs) zero y = y ∷ xs
set_at (x ∷ xs) (suc i) y = x ∷ set_at xs i y

-- One round of the loop: the send, and behind it the read; none where one has not come back. Neither
-- result is tested.
abbrev pub exchange : List ℤ → List ReadResult → ℕ → Talker → Option Talker
exchange ws rs k t = elim (send ping ws) [
  | none ↦ none
  | some sent ↦ elim (read rs) [
    | none ↦ none
    | some back ↦ some (record t { stage = talking k; exchanges = suc t.exchanges })
  ]
]

-- What the coroutine of a connection does at an event, if it can.
abbrev pub act : Event → Stage → Talker → Option Talker
act (connects i fd rs) connecting t = elim (connect rs localhost port (fresh_socket fd)) [
  | none ↦ none
  | some c ↦ some (record t { stage = talking rounds })
]
act (talks i ws rs) (talking (suc k)) t = exchange ws rs k t
act (ends i) (talking zero) t = some (record t { stage = over })
act _ _ t = none

abbrev pub act_at : Event → Option Talker → Option Talker
act_at e none = none
act_at e (some t) = act e t.stage t

abbrev pub put : Client → ℕ → ℕ → Option Talker → Client
put c i times none = c
put c i times (some t) = record c { times = times; talkers = set_at c.talkers i t }

abbrev pub start_one : Client → Option (List ℕ) → Client
start_one c none = c
start_one c (some ns) = record c {
  left = ns;
  talkers = record { stage = connecting; exchanges = 0 } ∷ c.talkers;
}

unfoldable pub step : Client → Event → Client
step c (starts i) = start_one c (take_one c.left i)
step c (connects i fd rs) = put c i c.times (act_at (connects i fd rs) (get_elem? c.talkers i))
step c (talks i ws rs) = put c i c.times (act_at (talks i ws rs) (get_elem? c.talkers i))
step c (ends i) = put c i ((c.times + 1) % 2 ^ 32) (act_at (ends i) (get_elem? c.talkers i))

unfoldable pub run : Client → List Event → Client
run c [] = c
run c (e ∷ es) = run (step c e) es

-- The main thread goes on: `times` is not below 20000.
abbrev pub goes_on : Client → Bool
goes_on c = leb 20000 c.times
