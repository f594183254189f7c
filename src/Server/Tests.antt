-- ===== src/Server/Tests.antt =====
-- A connection from `accept` to its end, and the theorem at it.
use net_lib.Prelude.{ℕ, ◌+◌, ◌%◌, ◌≤◌, ◌≡◌, refl, some, List, [], ◌∷◌}
use net_lib.Prelude.Int.{pos, negsuc}
use net_lib.Socket.{got}
use net_lib.Socket.Refs.Lifetime.{sharing}
use net_lib.Socket.Accept.{Answer}
use net_lib.Server.{
  Server, Event, accepts, counts, reads, sends, wakes, uncounts, times_mod, run, new_server,
  returns, set_up,
}
use net_lib.Server.Conns.{open_at, counted}
use net_lib.Server.Handlers.{connections_closed}

abbrev hello : List ℕ
hello = b'h' ∷ b'i' ∷ []

abbrev browser : Answer
browser = record { connfd = pos 9; client = record { sin_port = 258; host = [] } }

-- The listener finds a connection behind a wait; its coroutine reads, sends and sleeps.
abbrev served : List Event
served =
    accepts (record browser { connfd = negsuc 0 } ∷ browser ∷ [])
    ∷ counts 0
    ∷ reads 0 (got 4 ∷ [])
    ∷ sends 0 (pos 2 ∷ [])
    ∷ wakes 0
    ∷ uncounts
    ∷ []

port_taken : set_up (pos 5) (negsuc 0) ≡ returns
unfolding set_up
port_taken = refl

connections_closed_example :
    (s : Server) × (run hello new_server served ≡ some s)
    × ((k : ℕ)
        → (sharing k s.accepted ≡ sharing k s.store.closed + open_at k s.conns)
          × (sharing k s.accepted ≤ 1))
    × (s.times ≡ (counted s.conns + s.ended) % times_mod)
connections_closed_example = connections_closed hello served
