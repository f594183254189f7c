-- ===== src/Coroutine.antt =====
-- src/coroutine.h and src/coroutine.cc: the status of a coroutine.
-- The switch of contexts itself is the system's: `resume` tells whether it is made.
pub mod Object
pub mod Life
mod Tests
use net_lib.Prelude.{Bool, true, false}

-- `coStatus`
pub data CoStatus : Type 0 where
  co_ready co_running co_waiting co_dead : CoStatus

-- The constructors leave CO_READY.
abbrev pub new_status : CoStatus
new_status = co_ready

-- `Coroutine::resume`: the status after it, and whether the context is switched to the coroutine.
abbrev pub resume : CoStatus → CoStatus × Bool
resume co_ready = (co_running, true)
resume co_waiting = (co_running, true)
resume co_running = (co_running, false)
resume co_dead = (co_dead, false)

-- `Coroutine::yield`
abbrev pub yield : CoStatus → CoStatus
yield s = co_waiting
