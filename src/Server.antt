-- ===== src/Server.antt =====
-- server/server.cc: the demo server, which answers each connection with a fixed text.
-- Its acceptors, one or one for each processor, do the same, and a connection has a coroutine of its
-- own; they run in any order. A step is what one of them does between two accesses to what they
-- share, which is `times` and the counts of the sockets; a step on what is not there or not at that
-- point changes nothing. `hello` is the text.
pub mod Conns
pub mod Handlers
mod Tests
use net_lib.Prelude.{
  ℕ, zero, suc, ◌+◌, ◌-◌, ◌^◌, ◌%◌, Bool, true, false, Option, none, some, List, [], ◌∷◌, get_elem?,
  if◌then◌else◌,
}
use net_lib.Prelude.Int.{ℤ, pos, negsuc}
use net_lib.Socket.{ReadResult, got, interrupted, failed, read, send, is_useful}
use net_lib.Socket.Refs.{Socket, Store, destroy, remove_at}
use net_lib.Socket.Accept.{Answer, accept}

-- What the acceptor does behind the listener's set-up: nothing, or the loop that accepts.
pub data Acceptor : Type 0 where
  returns loops : Acceptor

-- The set-up, where `::socket` returned `fd` and `::bind` returned `bound`.
unfoldable pub set_up : ℤ → ℤ → Acceptor
set_up fd bound = if is_useful fd then (if is_useful bound then loops else returns) else loops

-- Where a connection stands: accepted and not yet counted, in `read`, in `send`, in `co_sleep`.
pub data Stage : Type 0 where
  arrived reading sending sleeping : Stage

pub record Conn : Type 0 where
  pub stage : Stage
  pub socket : Socket

-- `ended` are the connections that were deleted and are still counted, and `accepted` remembers, for
-- the statements, the objects that `accept` gave.
pub record Server : Type 0 where
  pub times : ℕ
  pub ended : ℕ
  pub store : Store
  pub conns : List Conn
  pub accepted : List Socket

-- `times` has 32 bits.
abbrev pub times_mod : ℕ
times_mod = 2 ^ 32

abbrev pub set_stage : Stage → List Conn → ℕ → List Conn
set_stage stage [] i = []
set_stage stage (c ∷ cs) zero = record c { stage = stage } ∷ cs
set_stage stage (c ∷ cs) (suc i) = c ∷ set_stage stage cs i

pub data Event : Type 0 where
  accepts : List Answer → Event
  counts : ℕ → Event
  reads : ℕ → List ReadResult → Event
  sends : ℕ → List ℤ → Event
  wakes : ℕ → Event
  uncounts : Event

-- `conn->read(…) > 0`
abbrev pub has_request : ReadResult → Bool
has_request (got n) = elim n [ zero ↦ false | suc m ↦ true ]
has_request interrupted = false
has_request failed = false

-- `delete conn;`, none where the count was deleted before.
unfoldable pub close : ℕ → Socket → Server → Option Server
close i x s = elim (destroy x s.store) [
  | none ↦ none
  | some st ↦ some (record s { store = st; conns = remove_at s.conns i; ended = suc s.ended })
]

-- What the coroutine of connection `i`, which stands at the stage that is given, does at an event.
abbrev pub act : List ℕ → Event → Stage → ℕ → Socket → Server → Option Server
act hello (counts j) arrived i x s =
    some (record s { times = (s.times + 1) % times_mod; conns = set_stage reading s.conns i })
act hello (reads j rs) reading i x s = elim (read rs) [
  | none ↦ some s
  | some r ↦
      if has_request r.last
      then some (record s { conns = set_stage sending s.conns i })
      else close i x s
]
act hello (sends j rs) sending i x s = elim (send hello rs) [
  | none ↦ some s
  | some r ↦ some (record s { conns = set_stage sleeping s.conns i })
]
act hello (wakes j) sleeping i x s = close i x s
act hello _ _ i x s = some s

abbrev pub act_at : List ℕ → Event → ℕ → Option Conn → Server → Option Server
act_at hello e i none s = some s
act_at hello e i (some c) s = act hello e c.stage i c.socket s

-- `times.fetch_sub(1)`
abbrev pub uncount : ℕ → Server → Server
uncount zero s = s
uncount (suc n) s = record s { ended = n; times = (s.times + (times_mod - 1)) % times_mod }

unfoldable pub step : List ℕ → Server → Event → Option Server
step hello s (accepts answers) = elim (accept answers s.store) [
  | none ↦ some s
  | some a ↦ some (record s {
    store = a.store;
    conns = record { stage = arrived; socket = a.socket } ∷ s.conns;
    accepted = a.socket ∷ s.accepted;
  })
]
step hello s (counts i) = act_at hello (counts i) i (get_elem? s.conns i) s
step hello s (reads i rs) = act_at hello (reads i rs) i (get_elem? s.conns i) s
step hello s (sends i rs) = act_at hello (sends i rs) i (get_elem? s.conns i) s
step hello s (wakes i) = act_at hello (wakes i) i (get_elem? s.conns i) s
step hello s uncounts = some (uncount s.ended s)

unfoldable pub run : List ℕ → Server → List Event → Option Server
run hello s [] = some s
run hello s (e ∷ es) = elim (step hello s e) [ none ↦ none | some t ↦ run hello t es ]

-- Before the first connection; the listener's own count is not in the store.
abbrev pub new_server : Server
new_server = record {
  times = 0;
  ended = 0;
  store = record { next = 0; count = λ _. pos 0; live = λ _. false; closed = []; nonblocking = [] };
  conns = [];
  accepted = [];
}
