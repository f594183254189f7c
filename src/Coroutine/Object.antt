-- ===== src/Coroutine/Object.antt =====
-- A Coroutine object with its context (src/coroutine.h, src/coroutine.cc, src/context.cc).
-- Its function and its processor are numbers; what `malloc` would give is an argument.
use net_lib.Prelude.{ℕ, Option, none, some, List, [], ◌∷◌}
use net_lib.Coroutine.{CoStatus, co_ready, co_running, co_waiting, co_dead, new_status, yield}
use net_lib.Context.{Context, new_context, make_context}

pub record Coroutine : Type 0 where
  pub co_func : ℕ
  pub my_processor : ℕ
  pub status : CoStatus
  pub ctx : Context

-- Both constructors.
abbrev pub construct : (my_processor stack_size func : ℕ) → Coroutine
construct my_processor stack_size func = record {
  co_func = func;
  my_processor = my_processor;
  status = new_status;
  ctx = new_context stack_size;
}

-- What `resume` switches to: nothing, the function of the coroutine from its beginning
-- (`coWrapFunc`), or the point where the coroutine left off.
pub data Switch : Type 0 where
  stays : Switch
  enters : (co_func my_processor : ℕ) → Switch
  goes_on : Switch

-- What a `resume` does: the object behind it, the size that `malloc` was asked for, and the switch.
pub record Resumed : Type 0 where
  pub co : Coroutine
  pub asked : Option ℕ
  pub switch : Switch

abbrev pub resume_at : CoStatus → Option ℕ → Coroutine → Resumed
resume_at co_ready given co =
    let (ctx, asked) = make_context given co.ctx in
    record {
      co = record co { status = co_running; ctx = ctx };
      asked = asked;
      switch = enters co.co_func co.my_processor;
    }
resume_at co_waiting given co = record {
  co = record co { status = co_running };
  asked = none;
  switch = goes_on;
}
resume_at co_running given co = record { co = co; asked = none; switch = stays }
resume_at co_dead given co = record { co = co; asked = none; switch = stays }

-- `Coroutine::resume`
unfoldable pub resume_object : Option ℕ → Coroutine → Resumed
resume_object given co = resume_at co.status given co

-- `Coroutine::yield`
unfoldable pub yield_object : Coroutine → Coroutine
yield_object co = record co { status = yield co.status }

-- What a processor does with a coroutine.
pub data Event : Type 0 where
  resumes : (given : Option ℕ) → Event
  yields : Event

-- The object, the sizes that `malloc` was asked for, and the switches, in order.
pub record Life : Type 0 where
  pub co : Coroutine
  pub asked : List ℕ
  pub switches : List Switch

abbrev pub with_asked : Option ℕ → List ℕ → List ℕ
with_asked none sizes = sizes
with_asked (some n) sizes = n ∷ sizes

unfoldable pub live : Coroutine → List Event → Life
unfolding resume_object yield_object
live co [] = record { co = co; asked = []; switches = [] }
live co (resumes given ∷ events) =
    let r = resume_object given co in
    let rest = live r.co events in
    record {
      co = rest.co;
      asked = with_asked r.asked rest.asked;
      switches = r.switch ∷ rest.switches;
    }
live co (yields ∷ events) = live (yield_object co) events
