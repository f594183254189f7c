-- ===== src/Socket/Refs.antt =====
-- The reference count behind the copies of a Socket object (src/socket.h, src/socket.cc).
-- The count behind `_pRef` is a cell of a store; an access to a cell that was deleted is a fault,
-- none. A program is any order of constructions, copies and destructions.
pub mod Lifetime
use net_lib.Prelude.{
  ℕ, zero, suc, ◌+◌, ◌≡◌, Bool, true, false, ◌&&◌, Option, none, some, List, [], ◌∷◌, ◌++◌,
  get_elem?, ◌==◌, if◌then◌else◌,
}
use net_lib.Prelude.Int.{ℤ, pos, negsuc, ◌+ℤ◌, ◌==ℤ◌, ltb_ℤ}
use net_lib.Prelude.Family.{update}
use net_lib.Socket.{is_useful}

pub record Socket : Type 0 where
  pub sockfd : ℤ
  pub p_ref : ℕ
  pub port : ℤ
  pub ip : List ℕ

-- `closed` are the objects whose destructor called `::close`, `nonblocking` the descriptors that a
-- constructor passed to `setNonBolckSocket`, in order.
pub record Store : Type 0 where
  pub next : ℕ
  pub count : ℕ → ℤ
  pub live : ℕ → Bool
  pub closed : List Socket
  pub nonblocking : List ℤ

-- `new int(1)`
unfoldable pub new_count : Store → Store
new_count st = record st {
  next = suc st.next;
  count = update st.count st.next (pos 1);
  live = update st.live st.next true;
}

-- `Socket()`, where `::socket` returned `fd`.
unfoldable pub construct : ℤ → Store → Socket × Store
unfolding new_count
construct fd st = (record { sockfd = fd; p_ref = st.next; port = negsuc 0; ip = [] }, new_count st)

-- `Socket(int sockfd, std::string ip, int port)`
unfoldable pub construct_from : ℤ → List ℕ → ℤ → Store → Socket × Store
unfolding new_count
construct_from fd ip port st =
    let st' = new_count st in
    (
      record { sockfd = fd; p_ref = st.next; port = port; ip = ip },
      if ltb_ℤ (pos 0) fd then record st' { nonblocking = st'.nonblocking ++ fd ∷ [] } else st',
    )

-- The copy and the move constructor do the same.
unfoldable pub copy : Socket → Store → Option (Socket × Store)
copy s st =
    if st.live s.p_ref
    then some (s, record st { count = update st.count s.p_ref (st.count s.p_ref +ℤ pos 1) })
    else none

-- `~Socket`
unfoldable pub destroy : Socket → Store → Option Store
destroy s st =
    let left = st.count s.p_ref +ℤ negsuc 0 in
    let dropped : Store = record st { count = update st.count s.p_ref left } in
    if st.live s.p_ref
    then some (
        if left ==ℤ pos 0 && is_useful s.sockfd
        then record dropped { closed = st.closed ++ s ∷ []; live = update st.live s.p_ref false }
        else dropped)
    else none

-- A program: the objects that it has, and the store. `fds` remembers, for the statements, which
-- descriptor each cell was made for.
pub record World : Type 0 where
  pub objs : List Socket
  pub store : Store
  pub fds : ℕ → ℤ

pub data Event : Type 0 where
  opens : ℤ → Event
  makes : ℤ → List ℕ → ℤ → Event
  copies_at drops_at : ℕ → Event

abbrev pub remove_at {ℓ} : {A : Type ℓ} → List A → ℕ → List A
remove_at [] i = []
remove_at (x ∷ xs) zero = xs
remove_at (x ∷ xs) (suc i) = x ∷ remove_at xs i

-- The new object is held beside the others.
pub hold : World → ℤ → Socket × Store → World
hold w fd (s, st) = record { objs = s ∷ w.objs; store = st; fds = update w.fds w.store.next fd }

pub copy_held : World → Option Socket → Option World
copy_held w none = some w
copy_held w (some s) = elim (copy s w.store) [
  | none ↦ none
  | some (s', st) ↦ some (record w { objs = s' ∷ w.objs; store = st })
]

pub drop_held : World → ℕ → Option Socket → Option World
drop_held w i none = some w
drop_held w i (some s) = elim (destroy s w.store) [
  | none ↦ none
  | some st ↦ some (record w { objs = remove_at w.objs i; store = st })
]

-- A copy or a destruction of an object that is not there is not a step of the program.
pub step : World → Event → Option World
step w (opens fd) = some (hold w fd (construct fd w.store))
step w (makes fd ip port) = some (hold w fd (construct_from fd ip port w.store))
step w (copies_at i) = copy_held w (get_elem? w.objs i)
step w (drops_at i) = drop_held w i (get_elem? w.objs i)

pub run : World → List Event → Option World
run w [] = some w
run w (e ∷ es) = elim (step w e) [ none ↦ none | some w' ↦ run w' es ]

abbrev pub new_world : World
new_world = record {
  objs = [];
  store = record { next = 0; count = λ _. pos 0; live = λ _. false; closed = []; nonblocking = [] };
  fds = λ _. negsuc 0;
}
