-- ===== src/Epoller.antt =====
-- src/epoller.h and src/epoller.cc: a processor's epoll descriptor.
-- The system's calls are arguments: what `epoll_create1`, `epoll_ctl` and `epoll_wait` return, the
-- events that `epoll_wait` stores and `errno` behind it. An event is seen through its `data.ptr`, a
-- coroutine or the null pointer, none. The length of the array of events stays below 2 ^ 31 here.
pub mod Wait
mod Tests
use net_lib.Prelude.{
  ℕ, ◌*◌, Bool, true, false, not, ◌&&◌, Option, none, some, List, [], ◌∷◌, ◌++◌, take, leb, ltb,
  ◌==◌, if◌then◌else◌,
}
use net_lib.Prelude.Int.{ℤ, pos, negsuc}

-- `first_size` is `parameter::epollerListFirstSize`.
abbrev pub first_size : ℕ
first_size = 16

-- `size` is the length of `activeEpollEvents_`.
pub record Epoller : Type 0 where
  pub epoll_fd : ℤ
  pub size : ℕ

abbrev pub new_epoller : Epoller
new_epoller = record { epoll_fd = negsuc 0; size = first_size }

-- `isEpollFdUseful`
abbrev pub is_epoll_fd_useful : Epoller → Bool
is_epoll_fd_useful e = elim e.epoll_fd [ pos n ↦ true | negsuc n ↦ false ]

-- `init`, where `epoll_create1` returned `fd`.
unfoldable pub init : ℤ → Epoller → Bool × Epoller
init fd e = let e' : Epoller = record e { epoll_fd = fd } in (is_epoll_fd_useful e', e')

-- A call of `epoll_ctl`.
pub data Op : Type 0 where
  op_add op_mod op_del : Op

pub record Ctl : Type 0 where
  pub op : Op
  pub fd : ℤ
  pub events : ℕ
  pub ptr : Option ℕ

abbrev pub fails : ℤ → Bool
fails (pos n) = false
fails (negsuc n) = true

-- The body that `addEv`, `modifyEv` and `removeEv` share: the call that is made, if any, and the
-- result, where the call returns `ret`.
unfoldable pub ctl : Op → ℤ → Option ℕ → ℤ → ℕ → Epoller → Option Ctl × Bool
ctl op ret co fd ev e =
    if is_epoll_fd_useful e
    then (some (record { op = op; fd = fd; events = ev; ptr = co }), not (fails ret))
    else (none, false)

abbrev pub add_ev : ℤ → Option ℕ → ℤ → ℕ → Epoller → Option Ctl × Bool
add_ev = ctl op_add

abbrev pub modify_ev : ℤ → Option ℕ → ℤ → ℕ → Epoller → Option Ctl × Bool
modify_ev = ctl op_mod

abbrev pub remove_ev : ℤ → Option ℕ → ℤ → ℕ → Epoller → Option Ctl × Bool
remove_ev = ctl op_del

-- What a call of `epoll_wait` brings: its result, `errno` behind it, and the array's contents.
pub record Report : Type 0 where
  pub act_ev_num : ℤ
  pub errno : ℤ
  pub stored : List (Option ℕ)

pub record Active : Type 0 where
  pub result : ℤ
  pub act_ev_servs : List (Option ℕ)
  pub epoller : Epoller

-- A positive result `n`, in the branch that takes the events.
abbrev pub take_events : ℕ → Report → List (Option ℕ) → Epoller → Active
take_events n r servs e = record {
  result = r.errno;
  act_ev_servs = if ltb e.size n then servs else servs ++ take n r.stored;
  epoller = if n == e.size then record e { size = e.size * 2 } else e;
}

abbrev pub nothing_active : Report → List (Option ℕ) → Epoller → Active
nothing_active r servs e = record { result = r.errno; act_ev_servs = servs; epoller = e }

-- What is done with the result of `epoll_wait`.
abbrev pub collect : ℤ → Report → List (Option ℕ) → Epoller → Active
collect (pos n) r servs e = if ltb 0 n then take_events n r servs e else nothing_active r servs e
collect (negsuc n) r servs e = nothing_active r servs e

-- `getActEvServ`, which appends to `servs`.
unfoldable pub get_act_ev_serv : Report → List (Option ℕ) → Epoller → Active
get_act_ev_serv r servs e =
    if is_epoll_fd_useful e
    then collect r.act_ev_num r servs e
    else record { result = negsuc 0; act_ev_servs = servs; epoller = e }
