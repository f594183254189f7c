-- ===== src/Epoller/Wait.antt =====
-- Which coroutines `getActEvServ` reports, and the growth of its array (src/epoller.cc).
use net_lib.Prelude.{
  ℕ, ◌*◌, ◌≤◌, ◌<◌, ◌≡◌, ◌⊎◌, refl, sym, ap, inl, inr, true, false, Option, List, [], ◌∷◌, ◌++◌,
  append-nil, length, take, ltb, ◌==◌, ==_iff, arith, Bool-cases,
}
use net_lib.Prelude.Int.{pos, negsuc}
use net_lib.Epoller.{
  Epoller, is_epoll_fd_useful, Report, Active, get_act_ev_serv, collect, take_events,
}

-- What `epoll_wait` documents for an array of `size` events: the events that it counts are stored.
pub record IsReport (size : ℕ) (events : List (Option ℕ)) (r : Report) : Type 0 where
  pub counted : r.act_ev_num ≡ pos (length events)
  pub stored : take (length events) r.stored ≡ events
  pub fits : length events ≤ size

-- The effect on an array of `size` events.
abbrev pub Collected : (events servs : List (Option ℕ)) (e : Epoller) → Active → Type 0
Collected events servs e a =
    (a.act_ev_servs ≡ servs ++ events)
    × (a.epoller.epoll_fd ≡ e.epoll_fd)
    × (((length events ≡ e.size) × (a.epoller.size ≡ e.size * 2))
        ⊎ ((length events < e.size) × (a.epoller.size ≡ e.size)))

take_events-Collected :
    (events servs : List (Option ℕ)) (r : Report) (e : Epoller)
    → IsReport e.size events r
    → Collected events servs e (take_events (length events) r servs e)
take_events-Collected events servs r e v =
    let fits : ltb e.size (length events) ≡ false = ground (arith, v.fits) in
    let appended = ap (λ l. servs ++ l) v.stored in
    elim (Bool-cases (length events == e.size)) [
      | inl full ↦
          rw (fits, full) (appended, refl, inl ((==_iff (length events) e.size).0 full, refl))
      | inr partly ↦ rw (fits, partly) (appended, refl, inr (ground (arith, v.fits), refl))
    ]

collect-Collected :
    (events servs : List (Option ℕ)) (r : Report) (e : Epoller)
    → IsReport e.size events r
    → 0 < e.size
    → Collected events servs e (collect (pos (length events)) r servs e)
collect-Collected [] servs r e v h = (sym (append-nil _), refl, inr (h, refl))
collect-Collected (x ∷ xs) servs r e v h =
    let positive : ltb 0 (length (x ∷ xs)) ≡ true = ground arith in
    rw positive (take_events-Collected (x ∷ xs) servs r e v)

-- On a descriptor that is open, every event that `epoll_wait` counts is appended, in order, and
-- nothing else; the array doubles when it was full, and stays as it is otherwise. On a descriptor
-- that is not, -1 is returned and nothing changes.
pub get_act_ev_serv_exact :
    (events servs : List (Option ℕ)) (r : Report) (e : Epoller)
    → IsReport e.size events r
    → 0 < e.size
    → let a = get_act_ev_serv r servs e in
      ((is_epoll_fd_useful e ≡ true) × Collected events servs e a)
      ⊎ ((is_epoll_fd_useful e ≡ false)
          × (a ≡ record { result = negsuc 0; act_ev_servs = servs; epoller = e }))
unfolding get_act_ev_serv
get_act_ev_serv_exact events servs r e v h = elim (Bool-cases (is_epoll_fd_useful e)) [
  | inl useful ↦ rw useful (rw v.counted (inl (refl, collect-Collected events servs r e v h)))
  | inr closed ↦ rw closed (inr (refl, refl))
]
