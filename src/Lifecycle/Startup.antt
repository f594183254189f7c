-- ===== src/Lifecycle/Startup.antt =====
-- The descriptors of a processor: what its thread makes before the loop (src/processor.cc,
-- Timer::init in src/timer.cc and Epoller::init in src/epoller.cc), and what the destructors close.
use net_lib.Prelude.{ℕ, Bool, true, false, List, [], ◌∷◌, ◌++◌, none, if◌then◌else◌}
use net_lib.Prelude.Int.{ℤ, negsuc}
use net_lib.Socket.{is_useful}
use net_lib.Epoller.{Epoller, new_epoller, init, add_ev, is_epoll_fd_useful}

-- `closed` are the descriptors that were passed to `::close`, in order.
pub record Fds : Type 0 where
  pub epoller : Epoller
  pub time_fd : ℤ
  pub closed : List ℤ

abbrev pub new_fds : Fds
new_fds = record { epoller = new_epoller; time_fd = negsuc 0; closed = [] }

-- EPOLLIN | EPOLLPRI | EPOLLRDHUP
abbrev pub time_fd_events : ℕ
time_fd_events = 8195

-- `Timer::init`, where `timerfd_create` returned `fd` and `epoll_ctl` returned `added`.
unfoldable pub timer_init : ℤ → ℤ → Fds → Bool × Fds
timer_init fd added f = (
  if is_useful fd then (add_ev added none fd time_fd_events f.epoller).1 else false,
  record f { time_fd = fd },
)

-- `Epoller::init`, where `epoll_create1` returned `fd`.
unfoldable pub epoller_init : ℤ → Fds → Bool × Fds
epoller_init fd f = let (ok, e) = init fd f.epoller in (ok, record f { epoller = e })

-- The results of both, where the second is not called if the first fails, and the descriptors.
unfoldable pub inits : ℤ → ℤ → ℤ → Fds → (Bool × Bool) × Fds
inits epoll_fd time_fd added f =
    let (ok, f1) = epoller_init epoll_fd f in
    let (timed, f2) = timer_init time_fd added f1 in
    if ok then ((true, timed), f2) else ((false, false), f1)

-- `~Timer`
unfoldable pub close_timer : Fds → Fds
close_timer f = if is_useful f.time_fd then record f { closed = f.closed ++ f.time_fd ∷ [] } else f

-- `~Epoller`
unfoldable pub close_epoller : Fds → Fds
close_epoller f =
    if is_epoll_fd_useful f.epoller
    then record f { closed = f.closed ++ f.epoller.epoll_fd ∷ [] }
    else f

-- The members of a processor, the last declared first.
unfoldable pub close_members : Fds → Fds
close_members f = close_epoller (close_timer f)

abbrev pub made_fd : ℤ → List ℤ
made_fd fd = if is_useful fd then fd ∷ [] else []
