-- ===== src/MemPool/Carve.antt =====
-- The loop of AllocAMemBlock that links a new chunk's blocks (src/mempool.h).
use native.Mathlib.Nat.{suc-mul}
use mathlib.Core.Path.{subst}
use net_lib.Prelude.{
  ℕ, zero, suc, ◌+◌, ◌*◌, ◌≤◌, ◌<◌, ◌≡◌, ◌≢◌, refl, sym, ◌∙◌, ◌⊎◌, inl, inr, Bool, true, false,
  ◌||◌, List, ◌∷◌, All, member, ◌==◌, arith, All-mono, Bool-cases, length, ==_iff,
}
use net_lib.Prelude.Family.{update, update_self, update_ne}
use net_lib.MemPool.{Memory, carve}
use net_lib.MemPool.Layout.{Chain, Distinct, Chain-update, Apart}

-- The free list after the loop.
pub carved : ℕ → ℕ → ℕ → List ℕ → List ℕ
carved size zero p free = free
carved size (suc n) p free = carved size n (p + size) (p ∷ free)

-- Whether `a` is one of the `n` blocks from `p` on.
pub in_chunk : ℕ → ℕ → ℕ → ℕ → Bool
in_chunk size zero p a = false
in_chunk size (suc n) p a = p == a || in_chunk size n (p + size) a

-- Off the chunk that is being carved, from `p` to its end `e`.
abbrev pub Off : ℕ → ℕ → ℕ → Type 0
Off p e a = (a < p) ⊎ (e ≤ a)

next_end : (size n p e : ℕ) → p + suc n * size ≡ e → p + size + n * size ≡ e
next_end size n p e h = omega (arith, h, suc-mul n size)

module _ (size : ℕ) (big : 0 < size) where
  Off-next :
      (n p e : ℕ) (free : List ℕ)
      → p + suc n * size ≡ e
      → All (Off p e) free
      → All (Off (p + size) e) (p ∷ free)
  Off-next n p e free h off =
      (inl (omega arith), All-mono (Off p e) _ free (λ a o. omega arith) off)

  head_apart :
      (n p e : ℕ) (free : List ℕ)
      → p + suc n * size ≡ e
      → All (Off p e) free
      → All (λ a. p ≢ a) free
  head_apart n p e free h off =
      All-mono (Off p e) _ free (λ a o. omega (arith, o, h, suc-mul n size)) off

  pub carve-Chain :
      (n p e : ℕ) (mem : Memory) (head : ℕ) (free : List ℕ)
      → p + n * size ≡ e
      → 0 < p
      → All (Off p e) free
      → Chain mem head free
      → let (mem', head') = carve size n p (mem, head) in Chain mem' head' (carved size n p free)
  unfolding carve carved
  carve-Chain zero p e mem head free h pos off c = c
  carve-Chain (suc n) p e mem head free h pos off c =
      carve-Chain n (p + size) e (update mem p head) p (p ∷ free) (next_end size n p e h)
        (omega arith) (Off-next n p e free h off)
        (
          refl,
          pos,
          subst (λ h'. Chain (update mem p head) h' free) (sym (update_self mem p head))
              (Chain-update mem free head p head (head_apart n p e free h off) c),
        )

  pub carve-beside :
      (n p e : ℕ) (mem : Memory) (head : ℕ)
      → p + n * size ≡ e
      → (a : ℕ) → Off p e a
      → (carve size n p (mem, head)).0 a ≡ mem a
  unfolding carve
  carve-beside zero p e mem head h a off = refl
  carve-beside (suc n) p e mem head h a off =
      carve-beside n (p + size) e (update mem p head) p (next_end size n p e h) a
        (omega (arith, suc-mul n size))
      ∙ update_ne mem p a head (omega (arith, suc-mul n size))

  pub carved-Distinct :
      (n p e : ℕ) (free : List ℕ)
      → p + n * size ≡ e
      → All (Off p e) free
      → Distinct free
      → Distinct (carved size n p free)
  unfolding carved
  carved-Distinct zero p e free h off d = d
  carved-Distinct (suc n) p e free h off d =
      carved-Distinct n (p + size) e (p ∷ free) (next_end size n p e h) (Off-next n p e free h off)
        (head_apart n p e free h off, d)

  pub member-carved :
      (n p : ℕ) (free : List ℕ) (a : ℕ)
      → member a (carved size n p free) ≡ (in_chunk size n p a || member a free)
  unfolding carved in_chunk
  member-carved zero p free a = refl
  member-carved (suc n) p free a = ground (arith, member-carved n (p + size) (p ∷ free) a)

  -- A block lies within its chunk.
  pub in_chunk_range :
      (n p e a : ℕ) → p + n * size ≡ e → in_chunk size n p a ≡ true → (p ≤ a) × (a + size ≤ e)
  unfolding in_chunk
  in_chunk_range zero p e a h i = cc
  in_chunk_range (suc n) p e a h i = elim (Bool-cases (p == a)) [
    | inl first ↦ omega (arith, (==_iff p a).0 first, suc-mul n size)
    | inr later ↦ ground (arith, in_chunk_range n (p + size) e a (next_end size n p e h))
  ]

  pub in_chunk-Apart :
      (n p e a b : ℕ)
      → p + n * size ≡ e
      → in_chunk size n p a ≡ true
      → in_chunk size n p b ≡ true
      → a ≢ b
      → Apart size a b
  unfolding in_chunk
  in_chunk-Apart zero p e a b h i j ne = cc
  in_chunk-Apart (suc n) p e a b h i j ne =
      let next = next_end size n p e h in
      ground (
        arith,
        in_chunk_range n (p + size) e a next,
        in_chunk_range n (p + size) e b next,
        in_chunk-Apart n (p + size) e a b next,
      )

  pub length-carved : (n p : ℕ) (free : List ℕ) → length (carved size n p free) ≡ n + length free
  unfolding carved
  length-carved zero p free = omega arith
  length-carved (suc n) p free = omega (arith, length-carved n (p + size) (p ∷ free))
