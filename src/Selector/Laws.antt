-- ===== src/Selector/Laws.antt =====
-- What ProcessorSelector::next picks (src/processor_selector.cc).
use native.Mathlib.Nat.{mod-eq_of_lt, add-mod-mod, mod_self, mod-lt}
use net_lib.Prelude.{
  ℕ, zero, suc, ◌+◌, ◌-◌, ◌%◌, ◌≤◌, ◌<◌, ◌≡◌, refl, ◌∙◌, ap, List, [], ◌∷◌, ltb, leb, length, arith,
  some, ◌⊎◌, inl, inr, All, take, get_elem?, Bool-cases, ltb→lt, lt-get_elem?,
}
use net_lib.Selector.{
  Strategy, min_event_first, round_robin, Selector, at, out_of_range, min_loop, min_index,
  round_index, index_of, next, new_selector,
}

-- The loop has found no count below `best`, or returns the first index of the least count.
abbrev Best : List ℕ → ℕ → ℕ → ℕ → ℕ → Type 0
Best cs i best idx r =
    ((r ≡ idx) × All (λ c. best ≤ c) cs)
    ⊎ ((k m : ℕ) × (r ≡ i + k)
        × (get_elem? cs k ≡ some m)
        × (m < best)
        × All (λ c. m ≤ c) cs
        × All (λ c. m < c) (take k cs))

min_loop-Best : (cs : List ℕ) (i best idx : ℕ) → Best cs i best idx (min_loop cs i best idx)
unfolding min_loop
min_loop-Best [] i best idx = inl (refl, tt)
min_loop-Best (c ∷ cs) i best idx = elim (Bool-cases (ltb c best)) [
  | inl below ↦ rw below (elim (min_loop-Best cs (i + 1) c i) [
    | inl (e, least) ↦
        inr (0, c, omega (arith, e), refl, ltb→lt c best below, (omega arith, least), tt)
    | inr (k, m, e, found, lt, least, first) ↦ inr (
      suc k,
      m,
      omega (arith, e),
      found,
      omega (arith, ltb→lt c best below, lt),
      (omega (arith, lt), least),
      (lt, first),
    )
  ])
  | inr above ↦ rw above (elim (min_loop-Best cs (i + 1) best idx) [
    | inl (e, least) ↦ inl (e, (ground arith, least))
    | inr (k, m, e, found, lt, least, first) ↦ inr (
      suc k,
      m,
      omega (arith, e),
      found,
      lt,
      (ground (arith, lt), least),
      (ground (arith, lt), first),
    )
  ])
]

next-at :
    (s : Selector) (front : ℕ) (rest : List ℕ) (i : ℕ)
    → index_of s.strategy s.next_pro front rest ≡ i
    → i < suc (length rest)
    → (next s (front ∷ rest)).0 ≡ at i
unfolding next
next-at s front rest i e h = rw e (ground arith)

-- Under MIN_EVENT_FIRST, with at least one processor besides processor 0, `next` returns a processor
-- other than 0. If a processor besides 0 has fewer coroutines than processor 0, it is the first of
-- those with the fewest; if none has, it is processor 1, whatever its count.
pub next_min_event_first :
    (s : Selector) (front c : ℕ) (cs : List ℕ)
    → s.strategy ≡ min_event_first
    → (k m : ℕ) × ((next s (front ∷ c ∷ cs)).0 ≡ at (k + 1))
      × (get_elem? (c ∷ cs) k ≡ some m)
      × (((k ≡ 0) × All (λ x. front ≤ x) (c ∷ cs))
          ⊎ ((m < front) × All (λ x. m ≤ x) (c ∷ cs) × All (λ x. m < x) (take k (c ∷ cs))))
unfolding next min_index
next_min_event_first s front c cs e = elim (min_loop-Best (c ∷ cs) 1 front 1) [
  | inl (r, least) ↦
      (0, c, next-at s front (c ∷ cs) 1 (rw (e, index_of) r) (omega arith), refl, inl (refl, least))
  | inr (k, m, r, found, lt, least, first) ↦ (
    k,
    m,
    next-at s front (c ∷ cs) (k + 1) (rw (e, index_of) (omega (arith, r)))
        (omega (arith, lt-get_elem? (c ∷ cs) k found)),
    found,
    inr (lt, least, first),
  )
]

-- `curPro_ + 1` is within the range that ROUND_ROBIN keeps after its first call.
abbrev pub Turn : ℕ → ℕ → Type 0
Turn n p = (1 ≤ p) × (p ≤ n)

round_index-mod :
    (n p : ℕ) → Turn (suc (suc n)) p → round_index (suc (suc n)) p ≡ 1 + (p - 1) % suc n
unfolding round_index
round_index-mod n p h = elim (Bool-cases (leb (suc (suc n)) p)) [
  | inl wrap ↦ rw wrap (ground (arith, mod_self (suc n)))
  | inr on ↦ rw on (ground (arith, mod-eq_of_lt {n = p - 1} {m = suc n}))
]

-- The state after `k` calls, the counts being free to change between calls.
abbrev pub run : (ℕ → List ℕ) → ℕ → Selector → Selector
run counts zero s = s
run counts (suc k) s = (next (run counts k s) (counts k)).1

-- Where ROUND_ROBIN stands after `k` calls from `p`.
record InTurn (m p k : ℕ) (s : Selector) : Type 0 where
  rotating : s.strategy ≡ round_robin
  turn : Turn (suc (suc m)) s.next_pro
  place : (s.next_pro - 1) % suc m ≡ (p + k) % suc m

next-InTurn :
    (m p k : ℕ) (s : Selector) (cs : List ℕ)
    → length cs ≡ suc (suc m)
    → InTurn m p k s
    → ((next s cs).0 ≡ at (1 + (p + k) % suc m)) × InTurn m p (suc k) (next s cs).1
unfolding next
next-InTurn m p k s [] e v = absurd (omega (arith, e))
next-InTurn m p k s (front ∷ rest) e v = (
  next-at s front rest _ at_place (omega (arith, e, mod-lt (p + k) {m = suc m} (omega arith))),
  record {
    rotating = v.rotating;
    turn = rw at_place (omega (arith, mod-lt (p + k) {m = suc m} (omega arith)));
    place = rw at_place (drop_one ∙ add-mod-mod 1 (p + k) (suc m) ∙ shift);
  },
)
  where
    drop_one : (1 + (p + k) % suc m + 1 - 1) % suc m ≡ (1 + (p + k) % suc m) % suc m
    drop_one = ap (λ (t : ℕ). t % suc m) (omega arith)

    shift : (1 + (p + k)) % suc m ≡ (p + suc k) % suc m
    shift = ap (λ (t : ℕ). t % suc m) (omega arith)

    at_place : index_of s.strategy s.next_pro front rest ≡ 1 + (p + k) % suc m
    at_place =
        rw (v.rotating, index_of, e)
          (round_index-mod m s.next_pro v.turn ∙ ap (λ (t : ℕ). 1 + t) v.place)

run-InTurn :
    (m p : ℕ) (counts : ℕ → List ℕ) (s : Selector)
    → ((k : ℕ) → length (counts k) ≡ suc (suc m))
    → InTurn m p 0 s
    → (k : ℕ) → InTurn m p k (run counts k s)
run-InTurn m p counts s e v zero = v
run-InTurn m p counts s e v (suc k) =
    (next-InTurn m p k (run counts k s) (counts k) (e k) (run-InTurn m p counts s e v k)).1

-- Under ROUND_ROBIN over `m + 2` processors, once `curPro_` has left -1 the calls go round the
-- processors 1 to m + 1 in order, for ever and whatever the counts: the `k`-th call from a state
-- with `curPro_ + 1 = p` returns processor `1 + (p - 1 + k) % (m + 1)`.
pub next_round_robin :
    (m : ℕ) (counts : ℕ → List ℕ) (s : Selector)
    → ((k : ℕ) → length (counts k) ≡ suc (suc m))
    → s.strategy ≡ round_robin
    → Turn (suc (suc m)) s.next_pro
    → (k : ℕ) → (next (run counts k s) (counts k)).0 ≡ at (1 + (s.next_pro - 1 + k) % suc m)
next_round_robin m counts s e rotating turn k =
    (next-InTurn m (s.next_pro - 1) k (run counts k s) (counts k) (e k) (
      run-InTurn m (s.next_pro - 1) counts s e
        (record {
          rotating = rotating;
          turn = turn;
          place = ap (λ (t : ℕ). t % suc m) (omega arith);
        })
        k)).0

next_alone :
    (s : Selector) (c : ℕ)
    → (s.strategy ≡ round_robin → 1 ≤ s.next_pro)
    → (next s (c ∷ [])).0 ≡ out_of_range 1
unfolding next round_index min_index min_loop index_of
next_alone s c h = ground arith

run-next_pro :
    (counts : ℕ → List ℕ) (s : Selector) (k : ℕ)
    → ((i : ℕ) → length (counts i) ≡ 1)
    → 1 ≤ (run counts (suc k) s).next_pro
unfolding next
run-next_pro counts s k h = go (run counts k s) (counts k) (h k)
  where
    go : (s : Selector) (cs : List ℕ) → length cs ≡ 1 → 1 ≤ (next s cs).1.next_pro
    go s [] e = absurd (omega (arith, e))
    go s (c ∷ cs) e = omega arith

-- With a single processor `next` reads `processors_[1]`, past the vector's end: at every call under
-- MIN_EVENT_FIRST, and at every call but a new selector's first under ROUND_ROBIN.
pub next_single_processor :
    (counts : ℕ → ℕ) (strategy : Strategy) (k : ℕ)
    → (strategy ≡ round_robin → 0 < k)
    → (next (run (λ i. counts i ∷ []) k (new_selector strategy)) (counts k ∷ [])).0 ≡ out_of_range 1
unfolding new_selector
next_single_processor counts st zero h = next_alone _ (counts 0) (λ e. absurd (omega (arith, h e)))
next_single_processor counts st (suc k) h =
    next_alone _ (counts (suc k)) (λ e. run-next_pro (λ i. counts i ∷ []) _ k (λ i. refl))
