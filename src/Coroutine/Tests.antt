-- ===== src/Coroutine/Tests.antt =====
-- A coroutine of 16 KB of stack that yields twice.
use net_lib.Prelude.{◌*◌, ◌≡◌, none, some, List, [], ◌∷◌}
use net_lib.Coroutine.Object.{construct, Switch, enters, Event, resumes, yields, live}
use net_lib.Coroutine.Life.{NoneEnters, stack_once}
use net_lib.Context.{coroutine_stack_size, freed_stack}

abbrev slices : List Event
slices = yields ∷ resumes none ∷ yields ∷ resumes (some 8192) ∷ []

stack_once_example :
    let life = live (construct 2 (16 * 1024) 7) (resumes (some 4096) ∷ slices) in
    (life.asked ≡ 16 * 1024 ∷ [])
    × ((rest : List Switch) × (life.switches ≡ enters 7 2 ∷ rest) × NoneEnters rest)
    × (life.co.ctx.ss_sp ≡ some 4096)
    × (life.co.ctx.ss_size ≡ coroutine_stack_size)
    × (freed_stack life.co.ctx ≡ 4096 ∷ [])
stack_once_example = stack_once 2 (16 * 1024) 7 (some 4096) slices
