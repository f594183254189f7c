-- ===== src/RwMutex/Spec.antt =====
-- What a read-write lock promises, without queue, count or status: who holds it, and in which mode.
use net_lib.Prelude.{ℕ, ◌<◌, ◌≡◌, ◌≢◌}
use net_lib.Prelude.Family.{update}

pub data Mode : Type 0 where
  no_hold hold_read hold_write : Mode

-- A step of one of `n` users of the lock, from the holders `h`.
pub data Move (n : ℕ) (h : ℕ → Mode) : (ℕ → Mode) → Type 0 where
  take_read :
      (i : ℕ)
      → i < n
      → h i ≡ no_hold
      → ((j : ℕ) → j < n → h j ≢ hold_write)
      → Move n h (update h i hold_read)
  take_write :
      (i : ℕ) → i < n → ((j : ℕ) → j < n → h j ≡ no_hold) → Move n h (update h i hold_write)
  release : (i : ℕ) → i < n → h i ≢ no_hold → Move n h (update h i no_hold)

pub data History (n : ℕ) : (ℕ → Mode) → Type 0 where
  unused : History n (λ _. no_hold)
  after : {h k : ℕ → Mode} → History n h → Move n h k → History n k
