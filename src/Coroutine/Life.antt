-- ===== src/Coroutine/Life.antt =====
-- The stack of a coroutine from its first slice to its destructor (src/coroutine.cc, src/context.cc).
use net_lib.Prelude.{ℕ, ◌≡◌, refl, ap, ◌∙◌, Bool, true, false, Option, none, some, List, [], ◌∷◌}
use net_lib.Coroutine.{CoStatus, co_ready, co_running, co_waiting, co_dead, resume}
use net_lib.Coroutine.Object.{
  Coroutine, construct, Switch, stays, enters, resume_at, resume_object, yield_object, Event,
  resumes, yields, Life, live,
}
use net_lib.Context.{new_context, make_context, own_stack, freed_stack, coroutine_stack_size}

-- Not CO_READY.
abbrev Begun : CoStatus → Type 0
Begun co_ready = ⊥
Begun _ = Unit {0}

abbrev is_enters : Switch → Bool
is_enters (enters f p) = true
is_enters _ = false

abbrev pub is_switch : Switch → Bool
is_switch stays = false
is_switch _ = true

abbrev pub NoneEnters : List Switch → Type 0
NoneEnters [] = Unit {0}
NoneEnters (x ∷ xs) = (is_enters x ≡ false) × NoneEnters xs

-- A coroutine that was begun keeps its context, asks for nothing and is not begun again.
record Kept (co : Coroutine) (life : Life) : Type 0 where
  same_ctx : life.co.ctx ≡ co.ctx
  same_func : life.co.co_func ≡ co.co_func
  same_processor : life.co.my_processor ≡ co.my_processor
  nothing_asked : life.asked ≡ []
  none_enters : NoneEnters life.switches

resume_at-Begun :
    (s : CoStatus) (given : Option ℕ) (co : Coroutine)
    → Begun s
    → Begun co.status
    → let r = resume_at s given co in
      Begun r.co.status
      × (r.co.ctx ≡ co.ctx)
      × (r.co.co_func ≡ co.co_func)
      × (r.co.my_processor ≡ co.my_processor)
      × (r.asked ≡ none)
      × (is_enters r.switch ≡ false)
resume_at-Begun co_ready given co b c = elim b [ ]
resume_at-Begun co_running given co b c = (c, refl, refl, refl, refl, refl)
resume_at-Begun co_waiting given co b c = (tt, refl, refl, refl, refl, refl)
resume_at-Begun co_dead given co b c = (c, refl, refl, refl, refl, refl)

live-Kept : (co : Coroutine) (events : List Event) → Begun co.status → Kept co (live co events)
unfolding live resume_object yield_object
live-Kept co [] b = record {
  same_ctx = refl;
  same_func = refl;
  same_processor = refl;
  nothing_asked = refl;
  none_enters = tt;
}
live-Kept co (resumes given ∷ events) b =
    let r = resume_at co.status given co in
    let (begun, ctx, func, processor, asked, goes) = resume_at-Begun co.status given co b b in
    let v = live-Kept r.co events begun in
    record {
      same_ctx = v.same_ctx ∙ ctx;
      same_func = v.same_func ∙ func;
      same_processor = v.same_processor ∙ processor;
      nothing_asked = rw asked v.nothing_asked;
      none_enters = (goes, v.none_enters);
    }
live-Kept co (yields ∷ events) b =
    let v = live-Kept (yield_object co) events tt in
    record {
      same_ctx = v.same_ctx;
      same_func = v.same_func;
      same_processor = v.same_processor;
      nothing_asked = v.nothing_asked;
      none_enters = v.none_enters;
    }

abbrev pub to_list : Option ℕ → List ℕ
to_list none = []
to_list (some p) = p ∷ []

freed_first :
    (given : Option ℕ) (stack_size : ℕ)
    → freed_stack (make_context given (new_context stack_size)).0 ≡ to_list given
unfolding make_context own_stack freed_stack
freed_first none stack_size = refl
freed_first (some p) stack_size = refl

-- From its first `resume` on, in whatever order it is resumed and yields: `malloc` is asked once, for
-- the bytes of `stackSize`; the coroutine's function is entered once, at the first `resume`, and never
-- from its beginning again; it has the stack that `malloc` gave then, null or not, which is declared
-- to the context with 32 * 1024 bytes whatever `stackSize` is; and the destructor frees that stack
-- alone, or nothing if it is null.
pub stack_once :
    (my_processor stack_size func : ℕ) (given : Option ℕ) (events : List Event)
    → let life = live (construct my_processor stack_size func) (resumes given ∷ events) in
      (life.asked ≡ stack_size ∷ [])
      × ((rest : List Switch) × (life.switches ≡ enters func my_processor ∷ rest) × NoneEnters rest)
      × (life.co.ctx.ss_sp ≡ given)
      × (life.co.ctx.ss_size ≡ coroutine_stack_size)
      × (freed_stack life.co.ctx ≡ to_list given)
unfolding live resume_object make_context own_stack freed_stack
stack_once my_processor stack_size func given events =
    let begun = (resume_at co_ready given (construct my_processor stack_size func)).co in
    let v = live-Kept begun events tt in
    (
      ap (λ xs. stack_size ∷ xs) v.nothing_asked,
      (_, refl, v.none_enters),
      ap (λ c. c.ss_sp) v.same_ctx,
      ap (λ c. c.ss_size) v.same_ctx,
      ap freed_stack v.same_ctx ∙ freed_first given stack_size,
    )

resume_at-resume :
    (s : CoStatus) (given : Option ℕ) (co : Coroutine)
    → co.status ≡ s
    → let r = resume_at s given co in
      (r.co.status ≡ (resume s).0) × (is_switch r.switch ≡ (resume s).1)
resume_at-resume co_ready given co e = (refl, refl)
resume_at-resume co_running given co e = (e, refl)
resume_at-resume co_waiting given co e = (refl, refl)
resume_at-resume co_dead given co e = (e, refl)

-- The object's `resume` and the one on a status alone, which the processors use, do the same.
pub resume_object-resume :
    (given : Option ℕ) (co : Coroutine)
    → let r = resume_object given co in
      (r.co.status ≡ (resume co.status).0) × (is_switch r.switch ≡ (resume co.status).1)
unfolding resume_object
resume_object-resume given co = resume_at-resume co.status given co refl
