-- ===== src/Socket.antt =====
-- src/socket.h and src/socket.cc: sockets of coroutines.
-- `Refs` is the shared count behind the copies of a Socket object; this file has the transfers. A
-- system call is not part of the program: its results, in the order of the calls, are an argument,
-- and an operation returns none where the results run out, which means that it has not come back.
-- `waits` counts the calls of `Processor::waitEvent`.
pub mod Refs
pub mod Accept
pub mod Address
pub mod Transfer
pub mod Options
pub mod Info
mod Tests
use net_lib.Prelude.{
  ℕ, ◌+◌, ◌-◌, ◌^◌, ◌%◌, Bool, true, false, Option, none, some, List, [], ◌∷◌, ◌++◌, length, take,
  drop, leb, if◌then◌else◌,
}
use net_lib.Prelude.Int.{ℤ, pos, negsuc}

-- The conversion of a signed 64-bit result to `size_t`.
abbrev pub size_t_mod : ℕ
size_t_mod = 2 ^ 64

pub to_size_t : ℤ → ℕ
to_size_t (pos n) = n % size_t_mod
to_size_t (negsuc n) = (size_t_mod - 1) - n % size_t_mod

-- The bytes that the kernel took in a call that returned `r`.
pub taken : ℤ → List ℕ → List ℕ
taken (pos n) buf = take n buf
taken (negsuc n) buf = []

pub record Sent : Type 0 where
  pub result : ℕ
  pub on_wire : List ℕ
  pub waits : ℕ

-- A wait and some bytes before the rest of a send.
pub sent_before : List ℕ → Sent → Sent
sent_before bytes s = record s { on_wire = bytes ++ s.on_wire; waits = s.waits + 1 }

pub map_sent : List ℕ → Option Sent → Option Sent
unfolding sent_before
map_sent bytes none = none
map_sent bytes (some s) = some (sent_before bytes s)

-- `Socket::send(buf, count)` with `count = length buf`.
pub send : List ℕ → List ℤ → Option Sent
send buf [] = none
send buf (r ∷ rs) =
    let rest = map_sent (taken r buf) (send (drop (to_size_t r) buf) rs) in
    if leb (length buf) (to_size_t r)
    then some (record { result = length buf; on_wire = taken r buf; waits = 0 })
    else rest

-- What `::read` returned: the count of bytes, or -1 with EINTR or with another `errno`.
pub data ReadResult : Type 0 where
  got : ℕ → ReadResult
  interrupted failed : ReadResult

pub record Read : Type 0 where
  pub last : ReadResult
  pub waits : ℕ

-- The second `::read` of Socket::read, behind the wait: what it returns is returned.
pub read_again : List ReadResult → Option Read
read_again [] = none
read_again (r ∷ rs) = some (record { last = r; waits = 1 })

pub read : List ReadResult → Option Read
unfolding read_again
read [] = none
read (got n ∷ rs) = some (record { last = got n; waits = 0 })
read (interrupted ∷ rs) = read rs
read (failed ∷ rs) = read_again rs

-- What `::connect` returned: 0, or -1 with EINTR or with another `errno`.
pub data ConnectResult : Type 0 where
  connected interrupted failed : ConnectResult

-- `isUseful`
abbrev pub is_useful : ℤ → Bool
is_useful (pos n) = true
is_useful (negsuc n) = false
