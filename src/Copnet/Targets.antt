-- ===== src/Copnet/Targets.antt =====
-- Which processors the calls of a program reach (src/copnet.cc).
use native.Mathlib.Nat.{mod-eq_of_lt}
use net_lib.Prelude.{
  ℕ, zero, suc, ◌+◌, ◌-◌, ◌^◌, ◌%◌, ◌≤◌, ◌<◌, ◌≡◌, refl, ap, ◌∙◌, List, [], ◌∷◌, length, arith,
}
use net_lib.Prelude.Int.{ℤ}
use net_lib.Selector.{Pick, Selector, at, out_of_range, read_at}
use net_lib.Scheduler.{co_go}
use net_lib.Scheduler.Target.{read_at-at, co_go_target}
use net_lib.Copnet.{program, coroutine_of, co_sleep, co_go_each}

-- With two processors or more: `co_go` reaches one of them, whatever number it is given and whatever
-- the state of the selector and the counts; `co_sleep` of a coroutine reaches the processor that runs
-- the coroutine; and `co_sleep` of a thread of the program reads far out of range.
pub calls_reach :
    (tid : ℤ) (s : Selector) (front c : ℕ) (cs : List ℕ) (k : ℕ)
    → k < length (front ∷ c ∷ cs)
    → let counts = front ∷ c ∷ cs in
      ((j : ℕ) × (j < length counts) × ((co_go tid s counts).0 ≡ at j))
      × (co_sleep (coroutine_of k) counts ≡ at k)
      × (co_sleep program counts ≡ out_of_range (2 ^ 64 - 1))
unfolding co_sleep
calls_reach tid s front c cs k h =
    (co_go_target tid s front c cs, read_at-at (length (front ∷ c ∷ cs)) k h, refl)

abbrev pub ats : (first n : ℕ) → List Pick
ats first zero = []
ats first (suc n) = at first ∷ ats (suc first) n

-- A loop of `co_go` with the numbers from `first` on, which stays below the number of processors,
-- starts one coroutine on each of the processors of these numbers, in their order, whatever the
-- processors do meanwhile.
pub co_go_each-ats :
    (first rounds : ℕ) (s : Selector) (counts : ℕ → List ℕ)
    → ((i : ℕ) → first + rounds ≤ length (counts i))
    → co_go_each first rounds s counts ≡ ats first rounds
unfolding co_go_each co_go
co_go_each-ats first zero s counts h = refl
co_go_each-ats first (suc rounds) s counts h =
    let n = length (counts first) in
    let small : first < n = omega (arith, h first) in
    let same : first % n ≡ first = mod-eq_of_lt {n = first} {m = n} small in
    let here : read_at n (first % n) ≡ at first = ap (read_at n) same ∙ read_at-at n first small in
    ap (λ x. x ∷ co_go_each (suc first) rounds s counts) here
    ∙ ap (λ xs. at first ∷ xs)
        (co_go_each-ats (suc first) rounds s counts (λ i. omega (arith, h i)))
