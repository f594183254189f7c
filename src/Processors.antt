-- ===== src/Processors.antt =====
-- The processors of a scheduler together, with a read-write lock that their coroutines share
-- (src/scheduler.cc, src/processor.cc, src/mutex.cc): who calls `goCo`, and with which coroutines.
-- Worker has the thread of one processor, which assumes something of those that hand coroutines over
-- to it; here they are `goNewCo` and the lock. A coroutine belongs to one processor for good
-- (`pMyProcessor_`).
pub mod Places
pub mod Invariant
pub mod Handing
pub mod Moves
pub mod LockMoves
pub mod Unlocks
pub mod Safety
mod Tests
use net_lib.Prelude.{ℕ, ◌+◌, ◌<◌, ◌≡◌, ◌≢◌, Bool, true, false, List, [], ◌∷◌, ◌++◌}
use net_lib.Prelude.Int.{ℤ}
use net_lib.Prelude.Family.{update}
use net_lib.Processor.{yields}
use net_lib.RwMutex.{runlock, wunlock}
use net_lib.RwMutex.System
use net_lib.RwMutex.System.{
  System, Pc, idle, wants_read, wants_write, parked_read, parked_write, reading, writing,
  start_system, is_parked, after_rlock, after_wlock, after_runlock, after_wunlock,
}
use net_lib.Worker.{Worker, Visit, new_worker, hand_over, visit}
use net_lib.Worker.Steps.{
  NextUp, hands_over, polls, expires, ends_expired, exchanges, skips_null, cleans, resumes,
}
use net_lib.Worker.Steps

-- A processor in its loop, or in the slice of a coroutine `co` that was taken from `base`: `goes` are
-- the coroutines that were handed to it in the slice, and `yielding` tells whether the lock has
-- refused `co`, so that `yield` is the next call it makes.
pub data Slot : Type 0 where
  looping : Worker → Slot
  running : (base taken : Worker) (co : ℕ) (goes : List ℕ) (yielding : Bool) → Slot

pub record Processors : Type 0 where
  pub slots : ℕ → Slot
  pub home : ℕ → ℕ
  pub born : ℕ → Bool
  pub lock : System

-- `goCo`, at the readings `start` and `present` of the clock. In a slice the thread comes to the
-- queue only later; the readings are then those of the slice.
abbrev pub give : ℕ → ℕ → ℕ → Slot → Slot
give c begun present (looping w) = looping (hand_over (c ∷ []) begun present w)
give c begun present (running base taken co goes y) = running base taken co (goes ++ c ∷ []) y

-- `co->getMyProcessor()->goCo(co)`
abbrev pub go : ℕ → ℕ → ℕ → Processors → Processors
go c begun present f = record f {
  slots = update f.slots (f.home c) (give c begun present (f.slots (f.home c)));
}

-- The calls of `goCo` in `freeLock`, from reading `k` of the clock on.
unfoldable pub go_all : (ℕ → ℕ) → ℕ → List ℕ → Processors → Processors
go_all clock k [] f = f
go_all clock k (c ∷ cs) f = go_all clock (k + 2) cs (go c (clock k) (clock (k + 1)) f)

-- `goNewCo` of processor `k`, by a coroutine or by a thread of the program.
abbrev pub create : ℕ → ℕ → ℕ → ℕ → Processors → Processors
create c k begun present f =
    go c begun present (record f { born = update f.born c true; home = update f.home c k })

-- The steps of a thread in which nobody is handed over and nobody resumed.
abbrev pub Alone : {w u : Worker} → Steps.Step w u → Type 0
Alone (hands_over cos begun present may) = ⊥
Alone (resumes v up may) = ⊥
Alone _ = Unit {0}

-- A coroutine that is not in `rlock` or `wlock`.
abbrev pub at_rest : Pc → Bool
at_rest idle = true
at_rest reading = true
at_rest writing = true
at_rest _ = false

-- What an attempt of `co` at the lock leaves, which is then in the state `lock`.
abbrev pub enter : ℕ → Worker → Worker → ℕ → List ℕ → System → Processors → Processors
enter k w u co goes lock f = record f {
  slots = update f.slots k (running w u co goes (is_parked (lock.pc co)));
  lock = lock;
}

-- One step of one of the threads, or of `goNewCo`, with `n` coroutines at most.
pub data Step (n : ℕ) (f : Processors) : Processors → Type 0 where
  works :
      (k : ℕ) {w u : Worker}
      → f.slots k ≡ looping w
      → (s : Steps.Step w u) → Alone s
      → Step n f (record f { slots = update f.slots k (looping u) })
  takes :
      (k : ℕ) {w u : Worker} {co : ℕ}
      → f.slots k ≡ looping w
      → NextUp w co u
      → Step n f (record f { slots = update f.slots k (running w u co [] false) })
  creates :
      (c k begun present : ℕ) → c < n → f.born c ≡ false → Step n f (create c k begun present f)
  calls_rlock :
      (k : ℕ) {w u : Worker} {co : ℕ} {goes : List ℕ}
      → f.slots k ≡ running w u co goes false
      → f.lock.pc co ≡ idle
      → Step n f (record f { lock = record f.lock { pc = update f.lock.pc co wants_read } })
  calls_wlock :
      (k : ℕ) {w u : Worker} {co : ℕ} {goes : List ℕ}
      → f.slots k ≡ running w u co goes false
      → f.lock.pc co ≡ idle
      → Step n f (record f { lock = record f.lock { pc = update f.lock.pc co wants_write } })
  enters_rlock :
      (k : ℕ) {w u : Worker} {co : ℕ} {goes : List ℕ}
      → f.slots k ≡ running w u co goes false
      → f.lock.pc co ≡ wants_read
      → Step n f (enter k w u co goes (after_rlock f.lock co) f)
  enters_wlock :
      (k : ℕ) {w u : Worker} {co : ℕ} {goes : List ℕ}
      → f.slots k ≡ running w u co goes false
      → f.lock.pc co ≡ wants_write
      → Step n f (enter k w u co goes (after_wlock f.lock co) f)
  runlocks :
      (k : ℕ) {w u : Worker} {co : ℕ} {goes : List ℕ} (clock : ℕ → ℕ)
      → f.slots k ≡ running w u co goes false
      → f.lock.pc co ≡ reading
      → Step n f
          (go_all clock 0 (runlock f.lock.mutex).1 (record f { lock = after_runlock f.lock co }))
  wunlocks :
      (k : ℕ) {w u : Worker} {co : ℕ} {goes : List ℕ} (clock : ℕ → ℕ)
      → f.slots k ≡ running w u co goes false
      → f.lock.pc co ≡ writing
      → Step n f
          (go_all clock 0 (wunlock f.lock.mutex).1 (record f { lock = after_wunlock f.lock co }))
  yields_refused :
      (k : ℕ) {w u : Worker} {co : ℕ} {goes : List ℕ} (v : Visit)
      → f.slots k ≡ running w u co goes true
      → v.slice ≡ record { goes = goes; ending = yields }
      → Step n f (record f { slots = update f.slots k (looping (visit v co u)) })
  ends_slice :
      (k : ℕ) {w u : Worker} {co : ℕ} {goes : List ℕ} (v : Visit)
      → f.slots k ≡ running w u co goes false
      → v.slice.goes ≡ goes
      → v.slice.ending ≢ yields
      → at_rest (f.lock.pc co) ≡ true
      → Step n f (record f { slots = update f.slots k (looping (visit v co u)) })

-- `fd k` is the epoll descriptor of processor `k`.
abbrev pub start_processors : (ℕ → ℤ) → Processors
start_processors fd = record {
  slots = λ k. looping (new_worker (fd k));
  home = λ _. 0;
  born = λ _. false;
  lock = start_system;
}

pub data Reach (n : ℕ) (fd : ℕ → ℤ) : Processors → Type 0 where
  start : Reach n fd (start_processors fd)
  later : {f g : Processors} → Reach n fd f → Step n f g → Reach n fd g
