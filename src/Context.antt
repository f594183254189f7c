-- ===== src/Context.antt =====
-- src/context.h and src/context.cc: the stack of a coroutine's context.
-- What `malloc` returns is an argument. Of the `ucontext_t` the model keeps the stack that it is
-- given; the switch of contexts itself is the system's.
pub mod Stack
use net_lib.Prelude.{ℕ, ◌*◌, Option, none, some, List, [], ◌∷◌, Bool, true, false}

-- `parameter::coroutineStackSize`
abbrev pub coroutine_stack_size : ℕ
coroutine_stack_size = 32 * 1024

-- `uc_stack`, and `p_stack` for `pStack_`, where none is the null pointer.
pub record Context : Type 0 where
  pub p_stack : Option ℕ
  pub stack_size : ℕ
  pub ss_sp : Option ℕ
  pub ss_size : ℕ

abbrev pub new_context : ℕ → Context
new_context stack_size = record {
  p_stack = none;
  stack_size = stack_size;
  ss_sp = none;
  ss_size = 0;
}

-- The stack behind the test of `makeContext`, with the size of the `malloc` that was made, if any.
unfoldable pub own_stack : Option ℕ → Context → Option ℕ × Option ℕ
own_stack given c = elim c.p_stack [ none ↦ (given, some c.stack_size) | some p ↦ (some p, none) ]

-- `makeContext`, with the size of the `malloc` that it made.
unfoldable pub make_context : Option ℕ → Context → Context × Option ℕ
unfolding own_stack
make_context given c =
    let (stack, asked) = own_stack given c in
    (record c { p_stack = stack; ss_sp = stack; ss_size = coroutine_stack_size }, asked)

-- The destructor: what it frees.
unfoldable pub freed_stack : Context → List ℕ
freed_stack c = elim c.p_stack [ none ↦ [] | some p ↦ p ∷ [] ]

-- The copy and the move constructor do the same: `stackSize_` of the new object is not set, and holds
-- whatever number its memory does.
abbrev pub copy_context : ℕ → Context → Context
copy_context unset c = record c { stack_size = unset }
