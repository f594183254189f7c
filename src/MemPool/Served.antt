-- ===== src/MemPool/Served.antt =====
-- The pool behind any calls of its clients, and the allocations (src/mempool.h).
use mathlib.Core.Path.{subst}
use net_lib.Prelude.{
  ℕ, ◌+◌, ◌≤◌, ◌<◌, ◌≡◌, ◌≢◌, ◌⊎◌, refl, sym, ap, ◌∙◌, inl, inr, Bool, true, false, not, ◌&&◌, ◌||◌,
  Option, List, [], ◌∷◌, leb, member, ◌==◌, List-cases, arith, not_member,
}
use net_lib.Prelude.Family.{update}
use net_lib.MemPool.{Memory, node_size, alloc_block, pop_free}
use net_lib.MemPool.Layout.{Chain}
use net_lib.MemPool.Invariant.{IsPool, IsFresh}
use net_lib.MemPool.Alloc.{pop_free-Given}
use net_lib.MemPool.Spec.{Move, give, History, after}
use net_lib.MemPool.World.{World, OffAll, chunk_end, holds}

-- Whether the bytes from `lo` to `hi` lie in one of the regions.
abbrev pub inside : ℕ → ℕ → List (ℕ × ℕ) → Bool
inside lo hi [] = false
inside lo hi ((s, t) ∷ rs) = (leb s lo && leb hi t) || inside lo hi rs

pub inside-off :
    (lo hi c e : ℕ) (rs : List (ℕ × ℕ))
    → inside lo hi rs ≡ true
    → OffAll c e rs
    → (hi ≤ c) ⊎ (e ≤ lo)
inside-off lo hi c e [] h off = cc
inside-off lo hi c e ((s, t) ∷ rs) h off = ground (arith, inside-off lo hi c e rs, off)

-- The lists and the blocks of the pool, with the regions in which they lie.
pub record Inv (size : ℕ) (w : World) : Type 0 where
  pub free : List ℕ
  pub chunks : List ℕ
  pub block : ℕ → Bool
  pub sound : IsPool free chunks block w.pool
  pub sized : w.pool.obj_size ≡ size
  pub holding : (a : ℕ) → w.used a ≡ (block a && not (member a free))
  pub home : (a : ℕ) → block a ≡ true → inside a (a + size) w.given ≡ true
  pub chunk_home : (d : ℕ) → member d chunks ≡ true → inside d (d + node_size) w.given ≡ true

-- The head of the free list is handed out.
module _ (size b : ℕ) (rest chunks : List ℕ) (block : ℕ → Bool) (w : World)
    (v : IsPool (b ∷ rest) chunks block w.pool) (sized : w.pool.obj_size ≡ size)
    (holding : (a : ℕ) → w.used a ≡ (block a && not (member a (b ∷ rest))))
    (home : (a : ℕ) → block a ≡ true → inside a (a + size) w.given ≡ true)
    (chunk_home : (d : ℕ) → member d chunks ≡ true → inside d (d + node_size) w.given ≡ true) where
  unfoldable pub popped : World
  popped = record w { pool = (pop_free w.pool).1; used = update w.used w.pool.free_list_head true }

  pub popped-Inv : Inv size popped
  unfolding popped pop_free
  popped-Inv =
      let g =
        pop_free-Given (b ∷ rest) chunks chunks block block b rest w.pool v (λ u. ground arith)
          (λ a u. u) in
      record {
        free = rest;
        chunks = chunks;
        block = block;
        sound = g.sound;
        sized = sized;
        holding =
            λ a. ground (arith, holding a, v.owned b, not_member b rest v.distinct.0, v.chain.0);
        home = home;
        chunk_home = chunk_home;
      }

  pub popped-Move : Move size w.used popped.used
  unfolding popped
  popped-Move =
      subst (λ k. Move size w.used (update w.used k true)) (sym v.chain.0)
        (give b (v.nonnull b (v.owned b (ground arith))) (ground (arith, holding b))
          (λ a u. ground (arith, holding a, u, sized, v.owned b, v.apart a b)))

-- A call keeps the invariant and is a move of the allocator, or none.
abbrev pub Done : ℕ → World → World → Type 0
Done size w u = Inv size u × (History size w.used → History size u.used)

pub reuse-Done :
    (size : ℕ) (w : World) (malloc : Option ℕ)
    → Inv size w
    → w.pool.free_list_head ≢ 0
    → Done size w (holds w (alloc_block malloc w.pool))
unfolding alloc_block popped pop_free
reuse-Done size w malloc i ne = elim (List-cases i.free) [
  | inl empty ↦
      let c : Chain w.pool.mem w.pool.free_list_head [] = rw empty at i.sound.chain in absurd (ne c)
  | inr (b, rest, cut) ↦
      let v : IsPool (b ∷ rest) i.chunks i.block w.pool = rw cut at i.sound in
      let h : (a : ℕ) → w.used a ≡ (i.block a && not (member a (b ∷ rest))) =
        λ a. i.holding a ∙ ap (λ l. i.block a && not (member a l)) cut in
      let nonzero : (w.pool.free_list_head == 0) ≡ false = ground (arith, ne) in
      rw nonzero (
        popped-Inv size b rest i.chunks i.block w v i.sized h i.home i.chunk_home,
        λ hist.
            after hist (popped-Move size b rest i.chunks i.block w v i.sized h i.home i.chunk_home),
      )
]

pub free_list-empty :
    (mem : Memory) (head : ℕ) (free : List ℕ) → Chain mem head free → head ≡ 0 → free ≡ []
free_list-empty mem head [] c e = refl
free_list-empty mem head (a ∷ ns) c e = absurd (omega (arith, c.0, c.1, e))

pub IsFresh-chunk :
    (size : ℕ) (w : World) (c : ℕ)
    → (i : Inv size w) → 0 < c
    → OffAll c (chunk_end c w.pool) w.given
    → IsFresh i.chunks i.block w.pool c (chunk_end c w.pool)
IsFresh-chunk size w c i pos off = record {
  nonnull = pos;
  sized = refl;
  off_blocks = λ a h.
      ground
        (arith, i.sized, inside-off a (a + size) c (chunk_end c w.pool) w.given (i.home a h) off);
  off_chunks =
      λ d h. inside-off d (d + node_size) c (chunk_end c w.pool) w.given (i.chunk_home d h) off;
}
