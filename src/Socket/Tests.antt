-- ===== src/Socket/Tests.antt =====
-- Runs of sockets, and the theorems about them at these.
use net_lib.Prelude.{
  ltb, ℕ, ◌+◌, ◌≡◌, refl, inl, inr, not, ◌&&◌, some, List, [], ◌∷◌, ◌++◌, ◌==◌, length, arith,
}
use net_lib.Prelude.Int.{pos, negsuc}
use net_lib.Prelude.Family.{bit}
use net_lib.Socket.{Sent, send, is_useful}
use net_lib.Socket.Address.{SockAddr, bind, accept_raw, accept_raw-bind}
use net_lib.Socket.Accept.{Answer, Accepted, accept}
use net_lib.Socket.Accept.Leak.{Leaves, accept_leaks}
use net_lib.Socket.Transfer.{send_complete, send_failed, last_part, Short}
use net_lib.Socket.Refs.{Socket, Event, makes, copies_at, drops_at, World, run, new_world}
use net_lib.Socket.Refs.Lifetime.{sharing, descriptor_lifetime}

abbrev ping : List ℕ
ping = b'p' ∷ b'i' ∷ b'n' ∷ b'g' ∷ []

-- The kernel takes three bytes, and the last one after a wait.
send_complete_example :
    (s : Sent) × (send ping (pos 3 ∷ pos 1 ∷ []) ≡ some s)
    × (s.on_wire ≡ ping)
    × (s.result ≡ last_part 4 (pos 3 ∷ pos 1 ∷ []))
    × Short ping s
send_complete_example =
    send_complete ping (pos 3 ∷ pos 1 ∷ []) (omega arith) (inr (omega arith, omega arith, inl refl))

-- The kernel takes three bytes, and then has no room (-1 with EAGAIN).
send_failed_example :
    (s : Sent) × (send ping (pos 3 ∷ negsuc 0 ∷ []) ≡ some s) × (s.result + length s.on_wire ≡ 4)
send_failed_example =
    send_failed ping (pos 3 ∷ negsuc 0 ∷ []) (omega arith) (omega arith, omega arith, omega arith)

abbrev first_socket : Socket
first_socket = record { sockfd = pos 5; p_ref = 0; port = negsuc 0; ip = [] }

abbrev localhost : List ℕ
localhost = b'1' ∷ b'2' ∷ b'7' ∷ b'.' ∷ b'1' ∷ []

-- A port that has more than 16 bits.
accept_raw-bind_example :
    ((accept_raw (pos 9) (bind (pos 70000) first_socket).1 new_world.store).0.port ≡ pos 4464)
    × ((bind (pos 70000) first_socket).0.port ≡ pos 70000)
accept_raw-bind_example = accept_raw-bind (pos 70000) (pos 9) first_socket new_world.store refl

abbrev visitor : SockAddr
visitor = record { sin_port = 258; host = localhost }

abbrev refused_once : List Answer
refused_once = record { connfd = negsuc 0; client = visitor } ∷ []

-- One attempt that is refused, and a wait.
accept_leaks_example :
    (x : Accepted) × (accept
        (refused_once ++ record { connfd = pos 9; client = visitor } ∷ [])
        new_world.store
      ≡ some x)
    × (x.waits ≡ 1)
    × Leaves 1 (pos 9) visitor new_world.store x.socket x.store
accept_leaks_example =
    accept_leaks refused_once (record { connfd = pos 9; client = visitor }) [] new_world.store
      (refl, tt) refl

-- A connection that is copied, and both copies destroyed.
abbrev short_life : List Event
short_life = makes (pos 9) localhost (pos 80) ∷ copies_at 0 ∷ drops_at 0 ∷ drops_at 0 ∷ []

descriptor_lifetime_example :
    (w : World) × (run new_world short_life ≡ some w)
    × ((k : ℕ)
        → let made = ltb k w.store.next in
          let over = is_useful (w.fds k) && (sharing k w.objs == 0) in
          (sharing k w.store.closed ≡ bit (made && over)) × (w.store.live k ≡ (made && not over)))
descriptor_lifetime_example = descriptor_lifetime short_life
