-- ===== src/Worker/Faults.antt =====
-- What a processor does with coroutines that were deleted (src/processor.cc).
use net_lib.Prelude.{ℕ, ◌≤◌, ◌≡◌, false, member}
use net_lib.Processor.{Processor}
use net_lib.Processor.Ended.{count}
use net_lib.Worker.{Worker}

-- What stays as it is while coroutines are handed over and run.
abbrev Kept : Processor → Processor → Type 0
Kept p q = (q.faults ≡ p.faults) × (q.co_set ≡ p.co_set) × (q.deleted ≡ p.deleted)

-- No access to a coroutine was after its deletion, and none that was deleted is in `coSet_`.
record Clear (p : Processor) : Type 0 where
  no_faults : p.faults ≡ 0
  erased : (c : ℕ) → 1 ≤ count c p.deleted → member c p.co_set ≡ false
