-- ===== src/Timer/Expiry.antt =====
-- Which coroutines `getExpiredCoroutines` hands out (src/timer.cc).
use mathlib.Core.List.{Perm}
use net_lib.Prelude.{
  ℕ, ◌+◌, ◌≤◌, ◌<◌, ◌≡◌, refl, ap, inl, inr, false, some, List, [], ◌∷◌, ◌++◌, map, leb, arith, All,
  All-mono, Bool-cases,
}
use net_lib.Prelude.Int.{ℤ}
use net_lib.Timer.{
  Entry, Timer, push, pop_due, run_at, run_after, reset_timefd, top_is, drain, fills_buffer, rearm,
  get_expired,
}
use net_lib.Timer.Heap.{IsSorted, push-IsSorted, push-perm, before-le}

-- `runAfter` at the clock `start` adds one entry, for the time `start + time`, to the queue, and
-- nothing else; the queue stays sorted.
pub run_after-perm :
    (time co start present : ℕ) (t : Timer)
    → IsSorted t.heap
    → let t' = run_after time co start present t in
      Perm t'.heap (record { time = start + time; co = co } ∷ t.heap) × IsSorted t'.heap
unfolding run_after run_at reset_timefd
run_after-perm time co start present t s =
    let e : Entry = record { time = start + time; co = co } in
    elim (Bool-cases (top_is (start + time) (push e t.heap))) [
      | inl top ↦ rw top (push-perm e t.heap, push-IsSorted e t.heap s)
      | inr other ↦ rw other (push-perm e t.heap, push-IsSorted e t.heap s)
    ]

-- The entries that are due at `present`, and those that are not.
record Split (present : ℕ) (heap : List Entry) (cos : List ℕ) (rest : List Entry) : Type 0 where
  due : List Entry
  whole : due ++ rest ≡ heap
  handed : cos ≡ map (λ e. e.co) due
  over : All (λ e. e.time ≤ present) due
  still : All (λ e. present < e.time) rest
  sorted : IsSorted rest

not_due : (a b : ℕ) → leb a b ≡ false → b < a
not_due a b h = ground arith

pop_due-Split :
    (present : ℕ) (heap : List Entry)
    → IsSorted heap
    → Split present heap (pop_due present heap).0 (pop_due present heap).1
unfolding pop_due
pop_due-Split present [] s = record {
  due = [];
  whole = refl;
  handed = refl;
  over = tt;
  still = tt;
  sorted = tt;
}
pop_due-Split present (x ∷ xs) s = elim (Bool-cases (leb x.time present)) [
  | inl is_due ↦
      let p = pop_due-Split present xs s.1 in
      rw is_due (record {
        due = x ∷ p.due;
        whole = ap (◌∷◌ x) p.whole;
        handed = ap (◌∷◌ x.co) p.handed;
        over = (ground arith, p.over);
        still = p.still;
        sorted = p.sorted;
      })
  | inr waits ↦ rw waits (record {
    due = [];
    whole = refl;
    handed = refl;
    over = tt;
    still = (
      not_due x.time present waits,
      All-mono _ _ xs (λ y h. omega (arith, before-le x y h, not_due x.time present waits)) s.0,
    );
    sorted = s;
  })
]

pub rearm-heap : (xs : List Entry) (later : ℕ) (t : Timer) → (rearm xs later t).heap ≡ t.heap
unfolding reset_timefd
rearm-heap [] later t = refl
rearm-heap (x ∷ xs) later t = refl

-- A read of a timer descriptor returns eight bytes or fails, so that one read ends the loop.
drain-once : (r : ℤ) (reads : List ℤ) → fills_buffer r ≡ false → drain (r ∷ reads) ≡ some reads
unfolding drain
drain-once r reads h = rw h

-- With a sorted queue, and a first read that does not fill the buffer, `getExpiredCoroutines` returns.
-- It hands out, in the order of their times, the coroutines of exactly the entries that are due at
-- the clock `present`: the queue was these entries followed by the queue that is left, which is
-- sorted and has only entries for later times.
pub get_expired_exact :
    (present later : ℕ) (r : ℤ) (reads : List ℤ) (t : Timer)
    → IsSorted t.heap
    → fills_buffer r ≡ false
    → (due : List Entry) × (t' : Timer) × (get_expired present later (r ∷ reads) t
        ≡ some (map (λ e. e.co) due, t'))
      × (due ++ t'.heap ≡ t.heap)
      × All (λ e. e.time ≤ present) due
      × All (λ e. present < e.time) t'.heap
      × IsSorted t'.heap
unfolding get_expired
get_expired_exact present later r reads t s short =
    let p = pop_due-Split present t.heap s in
    let rest : List Entry = (pop_due present t.heap).1 in
    let t' : Timer = rearm rest later (record t { heap = rest }) in
    let same = rearm-heap rest later (record t { heap = rest }) in
    (
      p.due,
      t',
      rw (drain-once r reads short) (ap (λ cos. some (cos, t')) p.handed),
      rw same p.whole,
      p.over,
      rw same p.still,
      rw same p.sorted,
    )
