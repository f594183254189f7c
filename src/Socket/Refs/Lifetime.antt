-- ===== src/Socket/Refs/Lifetime.antt =====
-- When a descriptor is closed, and when its count is deleted (src/socket.cc).
use net_lib.Prelude.{
  ltb, ℕ, zero, suc, ◌+◌, ◌≤◌, ◌<◌, ◌≡◌, refl, inl, inr, Bool, true, false, ◌&&◌, not, none, some,
  List, [], ◌∷◌, ◌++◌, get_elem?, ◌==◌, if◌then◌else◌, arith, Bool-cases, Option-cases, All,
  All-get_elem?,
}
use net_lib.Prelude.Int.{ℤ, pos, negsuc, ◌+ℤ◌, ◌==ℤ◌, ltb_ℤ}
use net_lib.Prelude.Family.{update, bit}
use net_lib.Socket.{is_useful}
use net_lib.Socket.Refs.{
  Socket, construct, construct_from, copy, destroy, World, Event, opens, makes, copies_at, drops_at,
  remove_at, hold, copy_held, drop_held, step, run, new_world,
}

-- How many of the objects share the cell `k`.
abbrev pub sharing : ℕ → List Socket → ℕ
sharing k [] = 0
sharing k (s ∷ ss) = bit (s.p_ref == k) + sharing k ss

pub sharing-append :
    (k : ℕ) (xs ys : List Socket) → sharing k (xs ++ ys) ≡ sharing k xs + sharing k ys
sharing-append k [] ys = omega arith
sharing-append k (x ∷ xs) ys = omega (arith, sharing-append k xs ys)

sharing-remove_at :
    (k : ℕ) (ss : List Socket) (i : ℕ) {s : Socket}
    → get_elem? ss i ≡ some s
    → sharing k (remove_at ss i) + bit (s.p_ref == k) ≡ sharing k ss
sharing-remove_at k [] i e = cc
sharing-remove_at k (x ∷ ss) zero e = ground arith
sharing-remove_at k (x ∷ ss) (suc i) e = ground (arith, sharing-remove_at k ss i e)

-- What holds of the cell `k`, which was made for the descriptor `fd`, while `left` objects share it.
pub record Cell (left closes next k : ℕ) (fd count : ℤ) (live : Bool) : Type 0 where
  pub counted : k < next → count ≡ pos left
  pub unborn : next ≤ k → (left ≡ 0) × (closes ≡ 0) × (live ≡ false)
  pub useful :
      k < next
      → is_useful fd ≡ true
      → (closes ≡ (if left == 0 then 1 else 0)) × (live ≡ (if left == 0 then false else true))
  pub useless : k < next → is_useful fd ≡ false → (closes ≡ 0) × (live ≡ true)

abbrev pub Sound : World → ℕ → Type 0
Sound w k =
    Cell (sharing k w.objs) (sharing k w.store.closed) w.store.next k (w.fds k) (w.store.count k)
      (w.store.live k)

pub record Inv (w : World) : Type 0 where
  pub cells : (k : ℕ) → Sound w k
  pub named : All (λ s. (s.p_ref < w.store.next) × (w.fds s.p_ref ≡ s.sockfd)) w.objs

named_fresh :
    (n : ℕ) (fds : ℕ → ℤ) (fd : ℤ) (ss : List Socket)
    → All (λ s. (s.p_ref < n) × (fds s.p_ref ≡ s.sockfd)) ss
    → All (λ s. (s.p_ref < suc n) × (update fds n fd s.p_ref ≡ s.sockfd)) ss
named_fresh n fds fd [] h = tt
named_fresh n fds fd (s ∷ ss) h = ((omega arith, ground (arith, h.0)), named_fresh n fds fd ss h.1)

hold-Inv : (w : World) (fd : ℤ) → Inv w → Inv (hold w fd (construct fd w.store))
unfolding hold construct
hold-Inv w fd v = record {
  cells = λ k. record {
    counted = λ lt. ground (arith, v.cells k);
    unborn = λ le. ground (arith, v.cells k);
    useful = λ lt u. ground (arith, v.cells k);
    useless = λ lt u. ground (arith, v.cells k);
  };
  named = ((omega arith, ground arith), named_fresh w.store.next w.fds fd w.objs v.named);
}

-- `setNonBolckSocket` touches no count.
hold_from-Inv :
    (w : World) (fd : ℤ) (ip : List ℕ) (port : ℤ)
    → Inv w
    → Inv (hold w fd (construct_from fd ip port w.store))
unfolding construct_from hold construct
hold_from-Inv w fd ip port v =
    let same = hold-Inv w fd v in
    elim (Bool-cases (ltb_ℤ (pos 0) fd)) [
      | inl yes_nb ↦ rw yes_nb (record { cells = λ k. same.cells k; named = same.named })
      | inr no_nb ↦ rw no_nb (record { cells = λ k. same.cells k; named = same.named })
    ]

pub All-remove_at :
    {A : Type 0} (P : A → Type 0) (xs : List A) (i : ℕ) → All P xs → All P (remove_at xs i)
All-remove_at P [] i h = tt
All-remove_at P (x ∷ xs) zero h = h.1
All-remove_at P (x ∷ xs) (suc i) h = (h.0, All-remove_at P xs i h.1)

-- An object that the program holds.
module _ (w : World) (v : Inv w) (i : ℕ) (s : Socket) (held : get_elem? w.objs i ≡ some s) where
  own : (s.p_ref < w.store.next) × (w.fds s.p_ref ≡ s.sockfd)
  own =
      All-get_elem? (λ s. (s.p_ref < w.store.next) × (w.fds s.p_ref ≡ s.sockfd)) w.objs i v.named
        held

  own_cell : (1 ≤ sharing s.p_ref w.objs) × (w.store.live s.p_ref ≡ true)
  own_cell = ground (
    arith,
    own,
    v.cells s.p_ref,
    sharing-remove_at s.p_ref w.objs i held,
    Bool-cases (is_useful (w.fds s.p_ref)),
  )

  -- The world after a copy of the object.
  copied : World
  copied = record w {
    objs = s ∷ w.objs;
    store = record w.store {
      count = update w.store.count s.p_ref (w.store.count s.p_ref +ℤ pos 1);
    };
  }

  copy_held_lem : copy_held w (some s) ≡ some copied
  unfolding copy_held copy copied
  copy_held_lem = rw (own_cell.1, copy_held)

  copied-Inv : Inv copied
  unfolding copied ◌+ℤ◌
  copied-Inv = record {
    cells = λ k. record {
      counted = λ lt. ground (arith, v.cells k);
      unborn = λ le. ground (arith, own, v.cells k);
      useful = λ lt u. ground (arith, own_cell, v.cells k);
      useless = λ lt u. ground (arith, v.cells k);
    };
    named = (own, v.named);
  }

  last_copy : Bool
  last_copy = (w.store.count s.p_ref +ℤ negsuc 0) ==ℤ pos 0 && is_useful s.sockfd

  -- The world after the destruction of the object.
  dropped : World
  dropped = record w {
    objs = remove_at w.objs i;
    store = record w.store {
      count = update w.store.count s.p_ref (w.store.count s.p_ref +ℤ negsuc 0);
      closed = if last_copy then w.store.closed ++ s ∷ [] else w.store.closed;
      live = if last_copy then update w.store.live s.p_ref false else w.store.live;
    };
  }

  drop_held_lem : drop_held w i (some s) ≡ some dropped
  unfolding drop_held destroy dropped last_copy
  drop_held_lem =
      rw (own_cell.1, drop_held) (elim (Bool-cases last_copy) [ inl l ↦ rw l | inr l ↦ rw l ])

  dropped-Inv : Inv dropped
  unfolding dropped last_copy ◌+ℤ◌
  dropped-Inv = record {
    cells = λ k. record {
      counted = λ lt. ground (arith, own_cell, v.cells k, sharing-remove_at k w.objs i held);
      unborn = λ le. ground (
        arith,
        own,
        own_cell,
        v.cells k,
        sharing-remove_at k w.objs i held,
        sharing-append k w.store.closed (s ∷ []),
      );
      useful = λ lt u. ground (
        arith,
        own,
        own_cell,
        v.cells k,
        sharing-remove_at k w.objs i held,
        sharing-append k w.store.closed (s ∷ []),
      );
      useless = λ lt u. ground (
        arith,
        own,
        own_cell,
        v.cells k,
        sharing-remove_at k w.objs i held,
        sharing-append k w.store.closed (s ∷ []),
      );
    };
    named = All-remove_at _ w.objs i v.named;
  }

copy_none : (w : World) → copy_held w none ≡ some w
unfolding copy_held
copy_none w = refl

drop_none : (w : World) (i : ℕ) → drop_held w i none ≡ some w
unfolding drop_held
drop_none w i = refl

step-Inv : (w : World) (e : Event) → Inv w → (w' : World) × (step w e ≡ some w') × Inv w'
unfolding step
step-Inv w (opens fd) v = (hold w fd (construct fd w.store), refl, hold-Inv w fd v)
step-Inv w (makes fd ip port) v =
    (hold w fd (construct_from fd ip port w.store), refl, hold_from-Inv w fd ip port v)
step-Inv w (copies_at i) v = elim (Option-cases (get_elem? w.objs i)) [
  | inl out ↦ (w, rw out (copy_none w), v)
  | inr (s, held) ↦
      (copied w v i s held, rw held (copy_held_lem w v i s held), copied-Inv w v i s held)
]
step-Inv w (drops_at i) v = elim (Option-cases (get_elem? w.objs i)) [
  | inl out ↦ (w, rw out (drop_none w i), v)
  | inr (s, held) ↦
      (dropped w v i s held, rw held (drop_held_lem w v i s held), dropped-Inv w v i s held)
]

run-Inv : (w : World) (es : List Event) → Inv w → (w' : World) × (run w es ≡ some w') × Inv w'
unfolding run
run-Inv w [] v = (w, refl, v)
run-Inv w (e ∷ es) v =
    let (w', st, v') = step-Inv w e v in
    let (w'', rest, v'') = run-Inv w' es v' in (w'', rw (st, run) rest, v'')

new_world-Inv : Inv new_world
new_world-Inv = record {
  cells = λ k. record {
    counted = λ lt. absurd (omega arith);
    unborn = λ le. (refl, refl, refl);
    useful = λ lt u. absurd (omega arith);
    useless = λ lt u. absurd (omega arith);
  };
  named = tt;
}

-- Any order of constructions, copies and destructions runs without an access to a count that was
-- deleted. At its end `::close` was called by exactly one destructor for every cell that was made, if
-- its descriptor is one (not negative) and no object shares the cell any more, and by none for any
-- other; and the counts that are allocated are those of the cells that were made, without these. So
-- the count of a negative descriptor is never deleted, not even when no object is left.
pub descriptor_lifetime :
    (es : List Event)
    → (w : World) × (run new_world es ≡ some w)
      × ((k : ℕ)
          → let made = ltb k w.store.next in
            let over = is_useful (w.fds k) && (sharing k w.objs == 0) in
            (sharing k w.store.closed ≡ bit (made && over)) × (w.store.live k ≡ (made && not over)))
descriptor_lifetime es =
    let (w, e, v) = run-Inv new_world es new_world-Inv in (w, e, λ k. ground (arith, v.cells k))
