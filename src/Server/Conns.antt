-- ===== src/Server/Conns.antt =====
-- What holds of the connections of the demo server and of their counts (server/server.cc).
use net_lib.Prelude.{
  ℕ, zero, suc, ◌+◌, ◌%◌, ◌≤◌, ◌<◌, ◌≡◌, refl, Bool, true, false, some, List, [], ◌∷◌, ◌++◌, All,
  All-get_elem?, get_elem?, ◌==◌, arith,
}
use net_lib.Prelude.Int.{ℤ, pos, ◌+ℤ◌}
use net_lib.Prelude.Family.{update, bit}
use net_lib.Socket.{is_useful}
use net_lib.Socket.Refs.{Socket, Store, destroy, remove_at}
use net_lib.Socket.Refs.Lifetime.{sharing, sharing-append, All-remove_at}
use net_lib.Server.{Stage, arrived, Conn, Server, times_mod, set_stage, close}

-- How many of the connections that are there share the count `k`.
abbrev pub open_at : ℕ → List Conn → ℕ
open_at k [] = 0
open_at k (c ∷ cs) = bit (c.socket.p_ref == k) + open_at k cs

abbrev pub is_counted : Stage → ℕ
is_counted arrived = 0
is_counted _ = 1

-- How many of the connections that are there are counted in `times`.
abbrev pub counted : List Conn → ℕ
counted [] = 0
counted (c ∷ cs) = is_counted c.stage + counted cs

open_at-set_stage :
    (k : ℕ) (st : Stage) (cs : List Conn) (i : ℕ) → open_at k (set_stage st cs i) ≡ open_at k cs
open_at-set_stage k st [] i = refl
open_at-set_stage k st (c ∷ cs) zero = refl
open_at-set_stage k st (c ∷ cs) (suc i) = omega (arith, open_at-set_stage k st cs i)

counted-set_stage :
    (st : Stage) (cs : List Conn) (i : ℕ) {c : Conn}
    → get_elem? cs i ≡ some c
    → counted (set_stage st cs i) + is_counted c.stage ≡ counted cs + is_counted st
counted-set_stage st [] i e = cc
counted-set_stage st (x ∷ cs) zero e = ground arith
counted-set_stage st (x ∷ cs) (suc i) e = ground (arith, counted-set_stage st cs i e)

open_at-remove_at :
    (k : ℕ) (cs : List Conn) (i : ℕ) {c : Conn}
    → get_elem? cs i ≡ some c
    → open_at k (remove_at cs i) + bit (c.socket.p_ref == k) ≡ open_at k cs
open_at-remove_at k [] i e = cc
open_at-remove_at k (x ∷ cs) zero e = ground arith
open_at-remove_at k (x ∷ cs) (suc i) e = ground (arith, open_at-remove_at k cs i e)

counted-remove_at :
    (cs : List Conn) (i : ℕ) {c : Conn}
    → get_elem? cs i ≡ some c
    → counted (remove_at cs i) + is_counted c.stage ≡ counted cs
counted-remove_at [] i e = cc
counted-remove_at (x ∷ cs) zero e = ground arith
counted-remove_at (x ∷ cs) (suc i) e = ground (arith, counted-remove_at cs i e)

abbrev pub Useful : Conn → Type 0
Useful c = is_useful c.socket.sockfd ≡ true

set_stage-Useful :
    (st : Stage) (cs : List Conn) (i : ℕ) → All Useful cs → All Useful (set_stage st cs i)
set_stage-Useful st [] i h = tt
set_stage-Useful st (c ∷ cs) zero h = h
set_stage-Useful st (c ∷ cs) (suc i) h = (h.0, set_stage-Useful st cs i h.1)

-- What holds of the count `k`, where `given`, `over` and `there` are how many of the accepted, the
-- closed and the present connections share it.
pub record Cell (given over there next k : ℕ) (count : ℤ) (live : Bool) : Type 0 where
  pub sum : given ≡ over + there
  pub once : given ≤ 1
  pub unborn : next ≤ k → given ≡ 0
  pub held : 1 ≤ there → (count ≡ pos 1) × (live ≡ true)

pub record Inv (s : Server) : Type 0 where
  pub cells :
      (k : ℕ)
      → Cell
          (sharing k s.accepted)
          (sharing k s.store.closed)
          (open_at k s.conns)
          s.store.next
          k
          (s.store.count k)
          (s.store.live k)
  pub useful : All Useful s.conns
  pub number : s.times ≡ (counted s.conns + s.ended) % times_mod

pub set-Inv :
    (s : Server) (st : Stage) (i : ℕ) (n : ℕ) {c : Conn}
    → get_elem? s.conns i ≡ some c
    → (n + is_counted c.stage) % times_mod ≡ (s.times + is_counted st) % times_mod
    → n < times_mod
    → Inv s
    → Inv (record s { times = n; conns = set_stage st s.conns i })
set-Inv s st i n e m lt v = record {
  cells = λ k. rw (open_at-set_stage k st s.conns i) (v.cells k);
  useful = set_stage-Useful st s.conns i v.useful;
  number = omega (arith, m, lt, v.number, counted-set_stage st s.conns i e);
}

destroy_useful :
    (s : Socket) (st : Store)
    → st.live s.p_ref ≡ true
    → st.count s.p_ref ≡ pos 1
    → is_useful s.sockfd ≡ true
    → destroy s st
      ≡ some (record st {
        count = update st.count s.p_ref (pos 0);
        closed = st.closed ++ s ∷ [];
        live = update st.live s.p_ref false;
      })
unfolding destroy ◌+ℤ◌
destroy_useful s st l c u = rw (l, c, u) refl

-- A connection that is there and counted.
module _ (s : Server) (v : Inv s) (i : ℕ) (c : Conn) (held : get_elem? s.conns i ≡ some c) where
  pub own : (s.store.count c.socket.p_ref ≡ pos 1) × (s.store.live c.socket.p_ref ≡ true)
  own =
      (v.cells c.socket.p_ref).held
        (ground (arith, open_at-remove_at c.socket.p_ref s.conns i held))

  pub stay-Inv :
      (st : Stage)
      → is_counted c.stage ≡ is_counted st
      → Inv (record s { conns = set_stage st s.conns i })
  stay-Inv st same = set-Inv s st i s.times held (omega (arith, same)) (omega (arith, v.number)) v

  abbrev closed_server : Server
  closed_server = record s {
    store = record s.store {
      count = update s.store.count c.socket.p_ref (pos 0);
      closed = s.store.closed ++ c.socket ∷ [];
      live = update s.store.live c.socket.p_ref false;
    };
    conns = remove_at s.conns i;
    ended = suc s.ended;
  }

  close-closed : close i c.socket s ≡ some closed_server
  unfolding close
  close-closed =
      rw
        (
          close,
          destroy_useful c.socket s.store own.1 own.0
              (All-get_elem? Useful s.conns i v.useful held),
        )
        refl

  closed-Inv : is_counted c.stage ≡ 1 → Inv closed_server
  closed-Inv one = record {
    cells = λ k. record {
      sum = ground (
        arith,
        v.cells k,
        sharing-append k s.store.closed (c.socket ∷ []),
        open_at-remove_at k s.conns i held,
      );
      once = (v.cells k).once;
      unborn = (v.cells k).unborn;
      held = λ h. ground (arith, h, v.cells k, open_at-remove_at k s.conns i held);
    };
    useful = All-remove_at Useful s.conns i v.useful;
    number = omega (arith, one, v.number, counted-remove_at s.conns i held);
  }

  pub close-Inv : is_counted c.stage ≡ 1 → (t : Server) × (close i c.socket s ≡ some t) × Inv t
  close-Inv one = (closed_server, close-closed, closed-Inv one)
