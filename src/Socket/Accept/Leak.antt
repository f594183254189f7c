-- ===== src/Socket/Accept/Leak.antt =====
-- What `Socket::accept` leaves in the store of the counts (src/socket.cc).
use net_lib.Prelude.{
  ◌⊎◌, ℕ, suc, ◌+◌, ◌/◌, ◌≤◌, ◌<◌, ◌≡◌, refl, ◌∙◌, Bool, true, false, Option, none, some, List, [],
  ◌∷◌, ◌++◌, length, All, arith, if◌then◌else◌, Bool-cases, inl, inr, ap,
}
use net_lib.Prelude.Int.{ℤ, pos, negsuc, ◌+ℤ◌, ◌==ℤ◌, ltb_ℤ}
use net_lib.Prelude.Family.{update}
use net_lib.Socket.{is_useful}
use net_lib.Socket.Refs.{Socket, Store, construct_from, new_count, destroy}
use net_lib.Socket.Address.{SockAddr, ntohs, accept_raw}
use net_lib.Socket.Accept.{Answer, Accepted, drop_local, accept, accept_again}

-- The object that is returned, with its count at `r`.
abbrev pub conn : ℤ → SockAddr → ℕ → Socket
conn fd client r = record { sockfd = fd; p_ref = r; port = ntohs client.sin_port; ip = client.host }

-- What is left by an accept of `fd` behind `n` attempts that got none, from the store `st`.
pub record Leaves (n : ℕ) (fd : ℤ) (client : SockAddr) (st : Store) (s : Socket) (t : Store)
    : Type 0 where
  pub returned : s ≡ conn fd client (st.next + n)
  pub next : t.next ≡ suc (st.next + n)
  pub closed : t.closed ≡ st.closed
  pub own : (t.count (st.next + n) ≡ pos 1) × (t.live (st.next + n) ≡ true)
  pub leaked : (k : ℕ) → st.next ≤ k → k < st.next + n → (t.count k ≡ pos 0) × (t.live k ≡ true)
  pub others : (k : ℕ) → k < st.next → (t.count k ≡ st.count k) × (t.live k ≡ st.live k)

refused_raw :
    (fd : ℤ) (client : SockAddr) (st : Store)
    → is_useful fd ≡ false
    → accept_raw fd client st
      ≡ (record { sockfd = fd; p_ref = st.next; port = negsuc 0; ip = [] }, new_count st)
unfolding accept_raw construct_from
refused_raw (pos n) client st u = cc
refused_raw (negsuc n) client st u = ground arith

made_raw :
    (fd : ℤ) (client : SockAddr) (st : Store) (b : Bool)
    → Leaves 0 fd client st (conn fd client st.next) (
        if b
        then record (new_count st) { nonblocking = (new_count st).nonblocking ++ fd ∷ [] }
        else new_count st)
unfolding new_count
made_raw fd client st true = record {
  returned = ap (conn fd client) (omega arith);
  next = omega arith;
  closed = refl;
  own = ground arith;
  leaked = λ k le lt. absurd (omega (arith, le, lt));
  others = λ k lt. ground arith;
}
made_raw fd client st false = record {
  returned = ap (conn fd client) (omega arith);
  next = omega arith;
  closed = refl;
  own = ground arith;
  leaked = λ k le lt. absurd (omega (arith, le, lt));
  others = λ k lt. ground arith;
}

accepted_raw :
    (fd : ℤ) (client : SockAddr) (st : Store)
    → is_useful fd ≡ true
    → let made = accept_raw fd client st in Leaves 0 fd client st made.0 made.1
unfolding accept_raw construct_from
accepted_raw fd client st u = rw u (made_raw fd client st (ltb_ℤ (pos 0) fd))

destroy_useless :
    (s : Socket) (st : Store)
    → st.live s.p_ref ≡ true
    → is_useful s.sockfd ≡ false
    → destroy s st
      ≡ some (record st { count = update st.count s.p_ref (st.count s.p_ref +ℤ negsuc 0) })
unfolding destroy
destroy_useless s st l u =
    rw (l, u)
      (elim (Bool-cases ((st.count s.p_ref +ℤ negsuc 0) ==ℤ pos 0)) [
        | inl z ↦ rw z refl
        | inr z ↦ rw z refl
      ])

-- An attempt before that gets none.
refused_before :
    (n : ℕ) (fd refused : ℤ) (client : SockAddr) (st : Store) (a : Accepted)
    → is_useful refused ≡ false
    → Leaves n fd client (new_count st) a.socket a.store
    → (b : Accepted) × (drop_local
          (record { sockfd = refused; p_ref = st.next; port = negsuc 0; ip = [] })
          (some a)
        ≡ some b)
      × (b.waits ≡ a.waits)
      × Leaves (suc n) fd client st b.socket b.store
unfolding new_count ◌+ℤ◌
refused_before n fd refused client st a u l =
    let old = l.others st.next (omega arith) in
    let old_live : a.store.live st.next ≡ true = old.1 ∙ ground arith in
    let local : Socket = record { sockfd = refused; p_ref = st.next; port = negsuc 0; ip = [] } in
    let left = a.store.count st.next +ℤ negsuc 0 in
    let old_count : a.store.count st.next ≡ pos 1 = old.0 ∙ ground arith in
    let zeroed : left ≡ pos 0 = ap (λ c. c +ℤ negsuc 0) old_count in
    let keep : Option Store → Option Accepted =
      λ o. elim o [ none ↦ none | some st' ↦ some (record a { store = st' }) ] in
    (
      record a { store = record a.store { count = update a.store.count st.next left } },
      ap keep (destroy_useless local a.store old_live u),
      refl,
      record {
        returned = l.returned ∙ ap (conn fd client) (omega arith);
        next = omega (arith, l.next);
        closed = l.closed;
        own = ground (arith, l.own);
        leaked = λ k le lt. ground (arith, zeroed, old_live, l.leaked k);
        others = λ k lt. ground (arith, l.others k);
      },
    )

-- Both calls behind attempts that get none.
accepts :
    (refused : List Answer) (c : Answer) (later : List Answer) (st : Store)
    → All (λ a. is_useful a.connfd ≡ false) refused
    → is_useful c.connfd ≡ true
    → ((x : Accepted) × (accept (refused ++ c ∷ later) st ≡ some x)
        × (x.waits ≡ (length refused + 1) / 2)
        × Leaves (length refused) c.connfd c.client st x.socket x.store)
      × ((x : Accepted) × (accept_again (refused ++ c ∷ later) st ≡ some x)
          × (x.waits ≡ length refused / 2)
          × Leaves (length refused) c.connfd c.client st x.socket x.store)
unfolding accept accept_again
accepts [] c later st h u =
    let made = accept_raw c.connfd c.client st in
    let x : Accepted = record { socket = made.0; store = made.1; waits = 0 } in
    let l = accepted_raw c.connfd c.client st u in
    ((x, rw u refl, omega arith, l), (x, rw u refl, omega arith, l))
accepts (a ∷ refused) c later st h u =
    let raw = refused_raw a.connfd a.client st h.0 in
    let ((x, ex, wx, lx), (y, ey, wy, ly)) = accepts refused c later (new_count st) h.1 u in
    let (b, eb, wb, lb) =
      refused_before (length refused) c.connfd a.connfd c.client st
        (record y { waits = suc y.waits }) h.0 ly in
    let (d, ed, wd, ld) = refused_before (length refused) c.connfd a.connfd c.client st x h.0 lx in
    (
      (b, rw (h.0, raw, ey) eb, omega (arith, wb, wy), lb),
      (d, rw (h.0, raw, ex) ed, omega (arith, wd, wx), ld),
    )

-- `accept` returns the first connection that `accept_raw` gets, with the address of its other side,
-- behind (n + 1) / 2 waits if `n` attempts were refused before it. The store has a new count of 1 for
-- it; and each of the `n` refused attempts has left a count that is 0 and still allocated, which no
-- object shares any more. Nothing was closed, and no other count has changed.
pub accept_leaks :
    (refused : List Answer) (c : Answer) (later : List Answer) (st : Store)
    → All (λ a. is_useful a.connfd ≡ false) refused
    → is_useful c.connfd ≡ true
    → (x : Accepted) × (accept (refused ++ c ∷ later) st ≡ some x)
      × (x.waits ≡ (length refused + 1) / 2)
      × Leaves (length refused) c.connfd c.client st x.socket x.store
accept_leaks refused c later st h u = (accepts refused c later st h u).0

-- While every attempt is refused, `accept` does not return.
pub accept_refused :
    (refused : List Answer) (st : Store)
    → All (λ a. is_useful a.connfd ≡ false) refused
    → (accept refused st ≡ none) × (accept_again refused st ≡ none)
unfolding accept accept_again
accept_refused [] st h = (refl, refl)
accept_refused (a ∷ refused) st h =
    let (r, again) = accept_refused refused (accept_raw a.connfd a.client st).1 h.1 in
    (rw (h.0, again) refl, rw (h.0, r) refl)

-- A useful answer behind some that are not.
pub first_useful :
    (answers : List Answer)
    → All (λ a. is_useful a.connfd ≡ false) answers
      ⊎ ((refused : List Answer) × (c : Answer) × (later : List Answer) × (answers
            ≡ refused ++ c ∷ later)
          × All (λ a. is_useful a.connfd ≡ false) refused
          × (is_useful c.connfd ≡ true))
first_useful [] = inl tt
first_useful (a ∷ answers) = elim (Bool-cases (is_useful a.connfd)) [
  | inl u ↦ inr ([], a, answers, refl, tt, u)
  | inr u ↦ elim (first_useful answers) [
    | inl all ↦ inl (u, all)
    | inr (refused, c, later, e, h, v) ↦ inr (a ∷ refused, c, later, ap (◌∷◌ a) e, (u, h), v)
  ]
]
