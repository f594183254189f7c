-- ===== src/Socket/Options/Modes.antt =====
-- Which flags of a descriptor the modes change (src/socket.h, src/socket.cc).
use native.Mathlib.Nat.{pow-suc}
use net_lib.Prelude.{
  ℕ, zero, suc, ◌-◌, ◌^◌, ◌<◌, ◌≡◌, ap, ◌∙◌, refl, inl, inr, Bool, true, arith, ◌==◌, Bool-cases,
  ==_iff, ◌&&◌, if◌then◌else◌,
}
use net_lib.Prelude.Int.{ℤ, pos, ltb_ℤ}
use net_lib.Prelude.Bits.{digit, digit-le, digit-bit_and, digit-bit_or, digit-pow, digit-complement}
use net_lib.Socket.Options.{
  Kernel, non_block, not_non_block, set_non_bolck_socket, set_block_socket, construct_mode,
}

-- fcntl(2): where F_SETFL returns 0, the flags that it may set are those that it was given, and the
-- others are as before.
pub record IsFcntl {ℓ} {S : Type ℓ} (kernel : Kernel S) (settable : ℕ → Bool) : Type ℓ where
  pub set :
      (fd : ℤ) (flags j : ℕ) (s : S)
      → (kernel.setfl fd flags s).0 ≡ pos 0
      → j < 32
      → digit j (kernel.getfl fd (kernel.setfl fd flags s).1)
        ≡ (if settable j then digit j flags else digit j (kernel.getfl fd s))

digit-non_block :
    (nonblock flags j : ℕ)
    → digit j (non_block nonblock flags) ≡ (if j == nonblock then 1 else digit j flags)
digit-non_block nonblock flags j =
    ground (arith, digit-bit_or j flags (2 ^ nonblock), digit-pow j nonblock, digit-le j flags)

pow-lt-zero : (w : ℕ) → 0 < 2 ^ w
pow-lt-zero zero = omega arith
pow-lt-zero (suc w) = omega (arith, pow-suc 2 w, pow-lt-zero w)

pow-lt : (k w : ℕ) → k < w → 2 ^ k < 2 ^ w
pow-lt k zero h = absurd (omega arith)
pow-lt zero (suc w) h = omega (arith, pow-suc 2 w, pow-lt-zero w)
pow-lt (suc k) (suc w) h = omega (arith, pow-suc 2 k, pow-suc 2 w, pow-lt k w (omega arith))

digit-not_non_block :
    (nonblock flags j : ℕ)
    → nonblock < 32
    → j < 32
    → digit j (not_non_block nonblock flags) ≡ (if j == nonblock then 0 else digit j flags)
digit-not_non_block nonblock flags j h lt = ground (
  arith,
  digit-bit_and j flags (2 ^ 32 - 1 - 2 ^ nonblock),
  digit-complement 32 j (2 ^ nonblock) (pow-lt nonblock 32 h) lt,
  digit-pow j nonblock,
  digit-le j flags,
)

module _ {ℓ} {S : Type ℓ} (kernel : Kernel S) (settable : ℕ → Bool) (laws : IsFcntl kernel settable)
    (nonblock : ℕ) (small : nonblock < 32) (may : settable nonblock ≡ true) (fd : ℤ) where
  -- A call of F_SETFL with the flags as they are, but for O_NONBLOCK.
  kept_or_set :
      (s : S) (j flags b : ℕ)
      → (kernel.setfl fd flags s).0 ≡ pos 0
      → j < 32
      → digit j flags ≡ (if j == nonblock then b else digit j (kernel.getfl fd s))
      → digit j (kernel.getfl fd (kernel.setfl fd flags s).1)
        ≡ (if j == nonblock then b else digit j (kernel.getfl fd s))
  kept_or_set s j flags b e lt word = elim (Bool-cases (j == nonblock)) [
    | inl same ↦
        let able : settable j ≡ true = ap settable ((==_iff j nonblock).0 same) ∙ may in
        ground (arith, laws.set fd flags j s e lt, able, same, word)
    | inr other ↦ elim (Bool-cases (settable j)) [
      | inl able ↦ ground (arith, laws.set fd flags j s e lt, able, other, word)
      | inr unable ↦ ground (arith, laws.set fd flags j s e lt, unable, other, word)
    ]
  ]

  non_block-flag :
      (s : S) (j : ℕ)
      → (set_non_bolck_socket kernel nonblock fd s).0 ≡ pos 0
      → j < 32
      → digit j (kernel.getfl fd (set_non_bolck_socket kernel nonblock fd s).1)
        ≡ (if j == nonblock then 1 else digit j (kernel.getfl fd s))
  unfolding set_non_bolck_socket
  non_block-flag s j e lt =
      let flags = kernel.getfl fd s in
      kept_or_set s j (non_block nonblock flags) 1 e lt (digit-non_block nonblock flags j)

  block-flag :
      (s : S) (j : ℕ)
      → (set_block_socket kernel nonblock fd s).0 ≡ pos 0
      → j < 32
      → digit j (kernel.getfl fd (set_block_socket kernel nonblock fd s).1)
        ≡ (if j == nonblock then 0 else digit j (kernel.getfl fd s))
  unfolding set_block_socket
  block-flag s j e lt =
      let flags = kernel.getfl fd s in
      kept_or_set s j (not_non_block nonblock flags) 0 e lt
        (digit-not_non_block nonblock flags j small lt)

  -- Where fcntl succeeds, `setNonBolckSocket` sets O_NONBLOCK and `setBlockSocket` behind it clears it;
  -- every other flag of the descriptor is behind both as it was before them, whether the kernel
  -- lets F_SETFL change it or not.
  pub modes_toggle :
      (s : S) (j : ℕ)
      → j < 32
      → (set_non_bolck_socket kernel nonblock fd s).0 ≡ pos 0
      → (set_block_socket kernel nonblock fd (set_non_bolck_socket kernel nonblock fd s).1).0
        ≡ pos 0
      → let during = (set_non_bolck_socket kernel nonblock fd s).1 in
        let behind = (set_block_socket kernel nonblock fd during).1 in
        (digit j (kernel.getfl fd during)
          ≡ (if j == nonblock then 1 else digit j (kernel.getfl fd s)))
        × (digit j (kernel.getfl fd behind)
            ≡ (if j == nonblock then 0 else digit j (kernel.getfl fd s)))
  modes_toggle s j lt e e' =
      let during = (set_non_bolck_socket kernel nonblock fd s).1 in
      let on = non_block-flag s j e lt in (on, ground (arith, on, block-flag during j e' lt))

  -- A Socket made of a descriptor, where fcntl succeeds, leaves the descriptor non-blocking if it is
  -- above 0; if it is 0 or negative, the descriptor blocks or not as before. No other flag is changed.
  pub construct_default :
      (s : S) (j : ℕ)
      → j < 32
      → (ltb_ℤ (pos 0) fd ≡ true → (set_non_bolck_socket kernel nonblock fd s).0 ≡ pos 0)
      → digit j (kernel.getfl fd (construct_mode kernel nonblock fd s))
        ≡ (if ltb_ℤ (pos 0) fd && (j == nonblock) then 1 else digit j (kernel.getfl fd s))
  unfolding construct_mode
  construct_default s j lt e = elim (Bool-cases (ltb_ℤ (pos 0) fd)) [
    | inl above ↦ rw above (non_block-flag s j (e above) lt)
    | inr not_above ↦ rw not_above refl
  ]
