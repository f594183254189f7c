-- ===== src/Context/Stack.antt =====
-- The life of a coroutine's stack (src/context.cc).
use net_lib.Prelude.{ℕ, ◌+◌, ◌≤◌, ◌≡◌, ◌↔◌, refl, Option, none, some, [], ◌∷◌, arith}
use net_lib.Context.{new_context, make_context, freed_stack, coroutine_stack_size, own_stack}

-- A new context's first `makeContext` asks for `stackSize` bytes, and whatever number of further ones
-- keep that stack, which the destructor frees; but the context is told that the stack has 32 * 1024
-- bytes, so that its stack lies in the memory that was asked for just if `stackSize` is no less.
pub make_context_stack :
    (p stack_size : ℕ) (again : Option ℕ)
    → let (c, asked) = make_context (some p) (new_context stack_size) in
      let (c', asked') = make_context again c in
      (asked ≡ some stack_size)
      × (c' ≡ c)
      × (asked' ≡ none)
      × (c'.ss_sp ≡ some p)
      × (freed_stack c' ≡ p ∷ [])
      × ((p + c'.ss_size ≤ p + stack_size) ↔ (coroutine_stack_size ≤ stack_size))
unfolding make_context freed_stack own_stack
make_context_stack p stack_size again =
    (refl, refl, refl, refl, refl, ((λ h. omega (arith, h)), (λ h. omega (arith, h))))
