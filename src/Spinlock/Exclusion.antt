-- ===== src/Spinlock/Exclusion.antt =====
-- How many threads hold a spinlock (src/spinlock.h).
use net_lib.Prelude.{
  ℕ, ◌+◌, ◌<◌, ◌≡◌, ◌⊎◌, refl, inl, inr, Bool, true, false, ◌==◌, arith, Bool-cases,
}
use net_lib.Prelude.Family.{
  number, number-update, number_two, number_find, number_none, update_self,
}
use net_lib.Spinlock.{
  try_lock, unlock, Place, outside, spinning, inside, Threads, after_try, after_unlock, Step,
  calls_lock, tries, unlocks, Reach, start, later,
}

abbrev pub is_inside : Place → Bool
is_inside inside = true
is_inside _ = false

-- The number in the atomic and the threads inside are one, together.
abbrev IsBalanced : ℕ → Threads → Type 0
IsBalanced n s = number is_inside n s.place + s.spinlock.sem ≡ 1

after_try-IsBalanced :
    (n : ℕ) (s : Threads) (i : ℕ)
    → i < n
    → s.place i ≡ spinning
    → IsBalanced n s
    → IsBalanced n (after_try s i)
unfolding after_try try_lock
after_try-IsBalanced n s i lt e v = elim (Bool-cases (s.spinlock.sem == 1)) [
  | inl free ↦ rw free (ground (arith, number-update is_inside n s.place i inside lt))
  | inr taken ↦ rw taken (ground (arith, number-update is_inside n s.place i spinning lt))
]

Step-IsBalanced : (n : ℕ) (s t : Threads) → IsBalanced n s → Step n s t → IsBalanced n t
unfolding after_unlock unlock
Step-IsBalanced n s t v (calls_lock i lt e) =
    ground (arith, number-update is_inside n s.place i spinning lt)
Step-IsBalanced n s t v (tries i lt e) = after_try-IsBalanced n s i lt e v
Step-IsBalanced n s t v (unlocks i lt e) =
    ground (arith, number-update is_inside n s.place i outside lt)

Reach-IsBalanced : {n : ℕ} {s : Threads} → Reach n s → IsBalanced n s
Reach-IsBalanced {n} start = ground (arith, number_none is_inside n (λ _. outside) (λ i. refl))
Reach-IsBalanced {n} (later {s} {t} r step) = Step-IsBalanced n s t (Reach-IsBalanced r) step

-- Mutual exclusion: in a reachable state of `n` threads, at most one is between `lock` and `unlock`.
pub spinlock_exclusion :
    {n : ℕ} {s : Threads}
    → Reach n s
    → (i j : ℕ) → i < n
    → j < n
    → s.place i ≡ inside
    → s.place j ≡ inside
    → i ≡ j
spinlock_exclusion {n} {s} r i j hi hj pi pj =
    number_two is_inside n s.place i j hi hj (rw pi refl) (rw pj refl)
      (omega (arith, Reach-IsBalanced r))

is_inside-inside : (p : Place) → is_inside p ≡ true → p ≡ inside
is_inside-inside inside e = refl
is_inside-inside spinning e = ground arith
is_inside-inside outside e = ground arith

holder :
    {n : ℕ} {s : Threads}
    → Reach n s
    → (s.spinlock.sem == 1) ≡ false
    → (j : ℕ) × (j < n) × (s.place j ≡ inside)
holder {n} {s} r taken =
    let (j, lt, e) = number_find is_inside n s.place (ground (arith, Reach-IsBalanced r)) in
    (j, lt, is_inside-inside (s.place j) e)

-- No lock stays closed: in a reachable state of `n` threads, the next round of a thread that spins
-- lets it in, unless another thread is inside; then the round leaves the lock as it is.
pub spinlock_progress :
    {n : ℕ} {s : Threads}
    → Reach n s
    → (i : ℕ) → s.place i ≡ spinning
    → ((after_try s i).place i ≡ inside)
      ⊎ (((after_try s i).spinlock ≡ s.spinlock) × ((j : ℕ) × (j < n) × (s.place j ≡ inside)))
unfolding after_try try_lock
spinlock_progress {n} {s} r i e = elim (Bool-cases (s.spinlock.sem == 1)) [
  | inl free ↦ rw free (inl (update_self s.place i inside))
  | inr taken ↦ rw taken (inr (refl, holder r taken))
]
