-- ===== src/Selector/Tests.antt =====
-- Runs of the processor selector, and its theorems at them.
use net_lib.Prelude.{
  ℕ, ◌+◌, ◌≤◌, ◌<◌, ◌≡◌, ◌⊎◌, refl, List, [], ◌∷◌, some, All, take, get_elem?, arith,
}
use net_lib.Selector.{
  Selector, min_event_first, round_robin, new_selector, at, out_of_range, next, index_of, read_at,
  min_index, min_loop, round_index,
}
use net_lib.Selector.Laws.{run, next_min_event_first, next_single_processor}

abbrev fewest : Selector
fewest = record { next_pro = 0; strategy = min_event_first }

abbrev rotating : Selector
rotating = record { next_pro = 1; strategy = round_robin }

abbrev three : ℕ → List ℕ
three k = 5 ∷ k ∷ 7 ∷ []

next_min_event_first_example :
    (k m : ℕ) × ((next fewest (5 ∷ 4 ∷ 3 ∷ [])).0 ≡ at (k + 1))
    × (get_elem? (4 ∷ 3 ∷ []) k ≡ some m)
    × (((k ≡ 0) × All (λ x. 5 ≤ x) (4 ∷ 3 ∷ []))
        ⊎ ((m < 5) × All (λ x. m ≤ x) (4 ∷ 3 ∷ []) × All (λ x. m < x) (take k (4 ∷ 3 ∷ []))))
next_min_event_first_example = next_min_event_first fewest 5 4 (3 ∷ []) refl

next_single_processor_example :
    (next (run (λ i. 3 ∷ []) 1 (new_selector round_robin)) (3 ∷ [])).0 ≡ out_of_range 1
next_single_processor_example = next_single_processor (λ i. 3) round_robin 1 (λ e. omega arith)

-- The first call under ROUND_ROBIN gives processor 0; the later ones never do.
first_call : (next (new_selector round_robin) (three 0)).0 ≡ at 0
unfolding next new_selector index_of round_index read_at
first_call = refl

-- Processor 0 has the fewest coroutines, processor 2 fewer than processor 1, and 1 is picked.
fewest_is_zero : (next fewest (1 ∷ 9 ∷ 2 ∷ [])).0 ≡ at 1
unfolding next index_of min_index min_loop read_at
fewest_is_zero = refl
