-- ===== src/Socket/Address.antt =====
-- Ports and addresses of sockets (src/socket.cc): `bind`, `accept_raw` and `connect`.
-- A `sockaddr_in` is its port in network order; the address in it is text, which `inet_pton` and
-- `inet_ntop` turn into numbers and back. The machine is little-endian.
use net_lib.Prelude.{
  ℕ, ◌+◌, ◌-◌, ◌*◌, ◌/◌, ◌%◌, ◌^◌, ◌<◌, ◌≡◌, refl, ap, Option, none, some, List, [], ◌∷◌, arith,
  true, if◌then◌else◌, suc, ◌++◌, All, ◌≢◌, replicate, length,
}
use net_lib.Prelude.Int.{ℤ, pos, negsuc}
use net_lib.Socket.{ConnectResult, connected, interrupted, failed, is_useful}
use net_lib.Socket.Refs.{Socket, Store, construct_from}

-- The conversion of an `int` to `uint16_t`.
abbrev pub to_uint16 : ℤ → ℕ
to_uint16 (pos n) = n % 2 ^ 16
to_uint16 (negsuc n) = (2 ^ 16 - 1) - n % 2 ^ 16

-- The bytes of a number of 16 bits, exchanged.
unfoldable pub swap_bytes : ℕ → ℕ
swap_bytes n = (n % 2 ^ 8) * 2 ^ 8 + n / 2 ^ 8

abbrev pub htons : ℤ → ℕ
htons port = swap_bytes (to_uint16 port)

abbrev pub ntohs : ℕ → ℤ
ntohs n = pos (swap_bytes n)

pub record SockAddr : Type 0 where
  pub sin_port : ℕ
  pub host : List ℕ

-- `bind`: the socket, and the address that `::bind` is called with, of any host.
unfoldable pub bind : ℤ → Socket → Socket × SockAddr
bind port s = (record s { port = port }, record { sin_port = htons port; host = [] })

-- `accept_raw`, where `::accept` returned `connfd` and the address of the other side.
unfoldable pub accept_raw : ℤ → SockAddr → Store → Socket × Store
accept_raw connfd client st =
    if is_useful connfd
    then construct_from connfd client.host (ntohs client.sin_port) st
    else construct_from connfd [] (negsuc 0) st

-- `tried` are the addresses of the calls of `::connect`.
pub record Connected : Type 0 where
  pub socket : Socket
  pub tried : List SockAddr
  pub waits : ℕ

-- A call of `::connect`, or a wait, before the rest of a connect.
unfoldable pub tries : SockAddr → Option Connected → Option Connected
tries addr none = none
tries addr (some c) = some (record c { tried = addr ∷ c.tried })

unfoldable pub waits_first : Option Connected → Option Connected
waits_first none = none
waits_first (some c) = some (record c { waits = suc c.waits })

-- `connect(ip, port)`: a call that is interrupted is repeated at once, one that fails behind a wait.
unfoldable pub connect : List ConnectResult → List ℕ → ℤ → Socket → Option Connected
connect [] ip port s = none
connect (r ∷ rs) ip port s =
    let s' : Socket = record s { ip = ip; port = port } in
    let addr : SockAddr = record { sin_port = htons port; host = ip } in
    let rest = connect rs ip port s' in
    elim r [
      | connected ↦ some (record { socket = s'; tried = addr ∷ []; waits = 0 })
      | interrupted ↦ tries addr rest
      | failed ↦ tries addr (waits_first rest)
    ]

to_uint16-lt : (port : ℤ) → to_uint16 port < 2 ^ 16
to_uint16-lt (pos n) = omega arith
to_uint16-lt (negsuc n) = omega arith

pub swap_bytes-swap_bytes : (n : ℕ) → n < 2 ^ 16 → swap_bytes (swap_bytes n) ≡ n
unfolding swap_bytes
swap_bytes-swap_bytes n h = omega (arith, h)

-- Whatever number is passed to `bind`, a connection from the address that it binds is accepted as one
-- from that number modulo 2 ^ 16; `port` of the socket that was bound gives the number as it was
-- passed, also where it is none of 16 bits.
pub accept_raw-bind :
    (port fd : ℤ) (s : Socket) (st : Store)
    → is_useful fd ≡ true
    → ((accept_raw fd (bind port s).1 st).0.port ≡ pos (to_uint16 port))
      × ((bind port s).0.port ≡ port)
unfolding accept_raw bind construct_from
accept_raw-bind port fd s st u =
    rw u (ap pos (swap_bytes-swap_bytes (to_uint16 port) (to_uint16-lt port)), refl)

-- The attempts that fail with another error than EINTR.
abbrev pub failures : List ConnectResult → ℕ
failures [] = 0
failures (failed ∷ rs) = suc (failures rs)
failures (_ ∷ rs) = failures rs

-- `connect` returns at the first attempt that succeeds, behind one wait for each attempt that failed
-- with another error than EINTR; while none succeeds it does not return. Every attempt is made at the
-- address that was passed, which the socket gives as its own.
pub connect_returns :
    (before after : List ConnectResult) (ip : List ℕ) (port : ℤ) (s : Socket)
    → All (λ r. r ≢ connected) before
    → (connect before ip port s ≡ none)
      × (connect (before ++ connected ∷ after) ip port s
          ≡ some (record {
            socket = record s { ip = ip; port = port };
            tried = replicate (suc (length before)) (record { sin_port = htons port; host = ip });
            waits = failures before;
          }))
unfolding connect tries waits_first
connect_returns [] after ip port s h = (refl, refl)
connect_returns (connected ∷ before) after ip port s h = absurd (h.0 refl)
connect_returns (interrupted ∷ before) after ip port s h =
    let addr : SockAddr = record { sin_port = htons port; host = ip } in
    let rest = connect_returns before after ip port (record s { ip = ip; port = port }) h.1 in
    (ap (tries addr) rest.0, ap (tries addr) rest.1)
connect_returns (failed ∷ before) after ip port s h =
    let addr : SockAddr = record { sin_port = htons port; host = ip } in
    let rest = connect_returns before after ip port (record s { ip = ip; port = port }) h.1 in
    (ap (tries addr) (ap waits_first rest.0), ap (tries addr) (ap waits_first rest.1))
