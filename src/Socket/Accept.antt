-- ===== src/Socket/Accept.antt =====
-- `Socket::accept` with the Socket objects that it makes (src/socket.cc). A failed `accept_raw` gives
-- an object too, which lives until the call of `accept` that made it returns. The object that is
-- returned is the local one, whether its copy is elided or it is moved from and destroyed.
pub mod Leak
use net_lib.Prelude.{
  ℕ, zero, suc, ◌+◌, ◌/◌, ◌≤◌, ◌<◌, ◌≡◌, refl, ◌∙◌, Bool, true, false, Option, none, some, List, [],
  ◌∷◌, ◌++◌, length, All, arith, if◌then◌else◌, Bool-cases, inl, inr, ap, ◌==◌,
}
use net_lib.Prelude.Int.{ℤ, pos, negsuc, ◌+ℤ◌, ◌==ℤ◌, ltb_ℤ}
use net_lib.Prelude.Family.{update}
use net_lib.Socket.{is_useful}
use net_lib.Socket.Refs.{Socket, Store, construct_from, new_count, destroy}
use net_lib.Socket.Address.{SockAddr, ntohs, accept_raw}

-- What a call of `::accept` returned.
pub record Answer : Type 0 where
  pub connfd : ℤ
  pub client : SockAddr

pub record Accepted : Type 0 where
  pub socket : Socket
  pub store : Store
  pub waits : ℕ

-- The destruction of a local object behind a call that returned; none is also an access to a count
-- that was deleted.
abbrev pub drop_local : Socket → Option Accepted → Option Accepted
drop_local s none = none
drop_local s (some a) = elim (destroy s a.store) [
  | none ↦ none
  | some st ↦ some (record a { store = st })
]

abbrev pub waits_first : Option Accepted → Option Accepted
waits_first none = none
waits_first (some a) = some (record a { waits = suc a.waits })

-- One attempt and, where it gets none, a wait, one more attempt, and all over again.
mutual
  pub accept : List Answer → Store → Option Accepted
  accept [] st = none
  accept (a ∷ as_left) st =
      let made = accept_raw a.connfd a.client st in
      let rest = drop_local made.0 (waits_first (accept_again as_left made.1)) in
      if is_useful a.connfd
      then some (record { socket = made.0; store = made.1; waits = 0 })
      else rest

  pub accept_again : List Answer → Store → Option Accepted
  accept_again [] st = none
  accept_again (a ∷ as_left) st =
      let made = accept_raw a.connfd a.client st in
      let rest = drop_local made.0 (accept as_left made.1) in
      if is_useful a.connfd
      then some (record { socket = made.0; store = made.1; waits = 0 })
      else rest
