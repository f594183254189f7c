-- ===== src/Server/Handlers.antt =====
-- The connections of the demo server and the number of them that it keeps (server/server.cc).
use net_lib.Prelude.{
  ℕ, zero, suc, ◌+◌, ◌%◌, ◌≤◌, ◌≡◌, refl, ap, ◌∙◌, inl, inr, true, some, List, [], ◌∷◌, length,
  get_elem?, arith, Bool-cases, Option-cases,
}
use net_lib.Socket.{read, send, is_useful}
use net_lib.Socket.Refs.{Socket}
use net_lib.Socket.Refs.Lifetime.{sharing}
use net_lib.Socket.Accept.{Answer, Accepted}
use net_lib.Socket.Accept.Leak.{Leaves, accept_leaks, accept_refused, first_useful}
use net_lib.Server.{
  Stage, arrived, reading, sending, sleeping, Server, times_mod, set_stage, Event, accepts, counts,
  reads, sends, wakes, uncounts, has_request, act, act_at, uncount, step, run, new_server,
}
use net_lib.Server.Conns.{open_at, counted, Inv, set-Inv, stay-Inv, close-Inv}

-- Whatever the coroutine of a connection does at an event.
act-Inv :
    (hello : List ℕ) (e : Event) (st : Stage) (i : ℕ) (x : Socket) (s : Server)
    → get_elem? s.conns i ≡ some (record { stage = st; socket = x })
    → Inv s
    → (t : Server) × (act hello e st i x s ≡ some t) × Inv t
act-Inv hello (counts j) arrived i x s h v = (
  record s { times = (s.times + 1) % times_mod; conns = set_stage reading s.conns i },
  refl,
  set-Inv s reading i ((s.times + 1) % times_mod) h (omega arith) (omega arith) v,
)
act-Inv hello (reads j rs) reading i x s h v = elim (Option-cases (read rs)) [
  | inl out ↦ (s, rw (act, out) refl, v)
  | inr (r, back) ↦ elim (Bool-cases (has_request r.last)) [
    | inl req ↦ (
      record s { conns = set_stage sending s.conns i },
      rw (act, back, req) refl,
      stay-Inv s v i _ h sending refl,
    )
    | inr no_req ↦ let (t, e, w) = close-Inv s v i _ h refl in (t, rw (act, back, no_req) e, w)
  ]
]
act-Inv hello (sends j rs) sending i x s h v = elim (Option-cases (send hello rs)) [
  | inl out ↦ (s, rw (act, out) refl, v)
  | inr (r, back) ↦ (
    record s { conns = set_stage sleeping s.conns i },
    rw (act, back) refl,
    stay-Inv s v i _ h sleeping refl,
  )
]
act-Inv hello (wakes j) sleeping i x s h v = close-Inv s v i _ h refl
act-Inv hello e st i x s h v = (s, refl, v)

act_at-Inv :
    (hello : List ℕ) (e : Event) (s : Server) (i : ℕ)
    → Inv s
    → (t : Server) × (act_at hello e i (get_elem? s.conns i) s ≡ some t) × Inv t
act_at-Inv hello e s i v = elim (Option-cases (get_elem? s.conns i)) [
  | inl out ↦ (s, rw out refl, v)
  | inr (c, held) ↦
      let (t, e', w) = act-Inv hello e c.stage i c.socket s held v in (t, rw held e', w)
]

-- A connection that `accept` gave behind `n` attempts that were refused.
accepted-Inv :
    (s : Server) (n : ℕ) (a : Answer) (x : Accepted)
    → is_useful a.connfd ≡ true
    → Leaves n a.connfd a.client s.store x.socket x.store
    → Inv s
    → Inv (record s {
      store = x.store;
      conns = record { stage = arrived; socket = x.socket } ∷ s.conns;
      accepted = x.socket ∷ s.accepted;
    })
accepted-Inv s n a x u l v =
    let ref : x.socket.p_ref ≡ s.store.next + n = ap (λ y. y.p_ref) l.returned in
    record {
      cells = λ k. record {
        sum = rw l.closed (omega (arith, (v.cells k).sum));
        once = ground (arith, ref, v.cells k);
        unborn = λ le. ground (arith, ref, l.next, v.cells k);
        held = λ h. grind (arith, h, ref, l.own, l.others k, v.cells k);
      };
      useful = (ap (λ y. is_useful y.sockfd) l.returned ∙ u, v.useful);
      number = v.number ∙ ap (λ m. (m + s.ended) % times_mod) (omega arith);
    }

uncount-Inv : (n : ℕ) (s : Server) → s.ended ≡ n → Inv s → Inv (uncount n s)
uncount-Inv zero s e v = v
uncount-Inv (suc n) s e v = record {
  cells = λ k. v.cells k;
  useful = v.useful;
  number = omega (arith, e, v.number);
}

step-Inv :
    (hello : List ℕ) (s : Server) (e : Event)
    → Inv s
    → (t : Server) × (step hello s e ≡ some t) × Inv t
unfolding step
step-Inv hello s (accepts answers) v = elim (first_useful answers) [
  | inl all ↦ (s, rw (step, (accept_refused answers s.store all).0) refl, v)
  | inr (refused, c, later, e, h, u) ↦
      let (x, back, w, l) = accept_leaks refused c later s.store h u in
      (_, rw (step, e, back) refl, accepted-Inv s (length refused) c x u l v)
]
step-Inv hello s (counts i) v = act_at-Inv hello (counts i) s i v
step-Inv hello s (reads i rs) v = act_at-Inv hello (reads i rs) s i v
step-Inv hello s (sends i rs) v = act_at-Inv hello (sends i rs) s i v
step-Inv hello s (wakes i) v = act_at-Inv hello (wakes i) s i v
step-Inv hello s uncounts v = (uncount s.ended s, refl, uncount-Inv s.ended s refl v)

run-Inv :
    (hello : List ℕ) (s : Server) (es : List Event)
    → Inv s
    → (t : Server) × (run hello s es ≡ some t) × Inv t
unfolding run
run-Inv hello s [] v = (s, refl, v)
run-Inv hello s (e ∷ es) v =
    let (u, one, w) = step-Inv hello s e v in
    let (t, rest, x) = run-Inv hello u es w in (t, rw (one, run) rest, x)

new_server-Inv : Inv new_server
new_server-Inv = record {
  cells = λ k. record {
    sum = omega arith;
    once = omega arith;
    unborn = λ le. refl;
    held = λ h. absurd (omega (arith, h));
  };
  useful = tt;
  number = omega arith;
}

-- Any order of what the acceptors and the connections' coroutines do runs without an access to a
-- count that was deleted. At its end every connection that was accepted either is still there and has
-- not been closed, or was closed exactly once and is not there; and `times` is, modulo 2 ^ 32, the
-- number of the connections that are there and were counted and of those that were deleted and are
-- not yet subtracted.
pub connections_closed :
    (hello : List ℕ) (es : List Event)
    → (s : Server) × (run hello new_server es ≡ some s)
      × ((k : ℕ)
          → (sharing k s.accepted ≡ sharing k s.store.closed + open_at k s.conns)
            × (sharing k s.accepted ≤ 1))
      × (s.times ≡ (counted s.conns + s.ended) % times_mod)
connections_closed hello es =
    let (s, e, v) = run-Inv hello new_server es new_server-Inv in
    (s, e, λ k. ((v.cells k).sum, (v.cells k).once), v.number)
