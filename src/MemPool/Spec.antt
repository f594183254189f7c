-- ===== src/MemPool/Spec.antt =====
-- What an allocator of blocks of one size promises, without memory, lists or chunks: which addresses
-- are in use.
use net_lib.Prelude.{ℕ, ◌<◌, ◌≡◌, Bool, true, false}
use net_lib.Prelude.Family.{update}
use net_lib.MemPool.Layout.{Apart}

-- A step of an allocator of blocks of `size` bytes, from the addresses in use `used`.
pub data Move (size : ℕ) (used : ℕ → Bool) : (ℕ → Bool) → Type 0 where
  give :
      (b : ℕ)
      → 0 < b
      → used b ≡ false
      → ((a : ℕ) → used a ≡ true → Apart size a b)
      → Move size used (update used b true)
  take_back : (b : ℕ) → used b ≡ true → Move size used (update used b false)

pub data History (size : ℕ) : (ℕ → Bool) → Type 0 where
  unused : History size (λ _. false)
  after : {u v : ℕ → Bool} → History size u → Move size u v → History size v
