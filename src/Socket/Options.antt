-- ===== src/Socket/Options.antt =====
-- What a Socket sets on its descriptor (src/socket.h, src/socket.cc): the mode of `fcntl` and the
-- options of `setsockopt`. Both are the kernel's, an interface on a state `S` of the kernel.
-- The flags of `fcntl`, an `int`, are a word of 32 bits, in which -1 is 2 ^ 32 - 1; O_NONBLOCK is a
-- flag of one bit, the bit `nonblock`.
pub mod Modes
pub mod Settings
mod Tests
use Prim.Native.Nat.{bit_and, bit_or}
use net_lib.Prelude.{ℕ, ◌-◌, ◌^◌, Bool, true, false, List, [], ◌∷◌, if◌then◌else◌}
use net_lib.Prelude.Int.{ℤ, pos, negsuc, ltb_ℤ}

-- The names of the options that the program sets, with their levels.
pub data SockOpt : Type 0 where
  tcp_nodelay so_reuseaddr so_reuseport so_keepalive : SockOpt

-- `fcntl(fd, F_GETFL, 0)`, `fcntl(fd, F_SETFL, flags)` and `::setsockopt`, with what they return.
pub record Kernel {ℓ} (S : Type ℓ) : Type ℓ where
  pub getfl : ℤ → S → ℕ
  pub setfl : ℤ → ℕ → S → ℤ × S
  pub setsockopt : ℤ → SockOpt → ℤ → S → ℤ × S

-- The words that a call of F_SETFL is given.
abbrev pub non_block : ℕ → ℕ → ℕ
non_block nonblock flags = bit_or flags (2 ^ nonblock)

abbrev pub not_non_block : ℕ → ℕ → ℕ
not_non_block nonblock flags = bit_and flags (2 ^ 32 - 1 - 2 ^ nonblock)

-- `int optval = on ? 1 : 0;`
abbrev pub optval : Bool → ℤ
optval on = if on then pos 1 else pos 0

module _ {ℓ} {S : Type ℓ} (kernel : Kernel S) where
  -- `setNonBolckSocket`
  unfoldable pub set_non_bolck_socket : ℕ → ℤ → S → ℤ × S
  set_non_bolck_socket nonblock fd s = kernel.setfl fd (non_block nonblock (kernel.getfl fd s)) s

  -- `setBlockSocket`
  unfoldable pub set_block_socket : ℕ → ℤ → S → ℤ × S
  set_block_socket nonblock fd s = kernel.setfl fd (not_non_block nonblock (kernel.getfl fd s)) s

  -- The body of `Socket(int sockfd, std::string ip, int port)`.
  unfoldable pub construct_mode : ℕ → ℤ → S → S
  unfolding set_non_bolck_socket
  construct_mode nonblock fd s =
      if ltb_ℤ (pos 0) fd then (set_non_bolck_socket nonblock fd s).1 else s

  unfoldable pub set_tcp_no_delay : ℤ → Bool → S → ℤ × S
  set_tcp_no_delay fd on s = kernel.setsockopt fd tcp_nodelay (optval on) s

  unfoldable pub set_reuse_addr : ℤ → Bool → S → ℤ × S
  set_reuse_addr fd on s = kernel.setsockopt fd so_reuseaddr (optval on) s

  -- `defined` tells whether SO_REUSEPORT is.
  unfoldable pub set_reuse_port : Bool → ℤ → Bool → S → ℤ × S
  set_reuse_port defined fd on s =
      if defined then kernel.setsockopt fd so_reuseport (optval on) s else (negsuc 0, s)

  unfoldable pub set_keep_alive : ℤ → Bool → S → ℤ × S
  set_keep_alive fd on s = kernel.setsockopt fd so_keepalive (optval on) s

  -- The call for an option.
  unfoldable pub set_option : Bool → SockOpt → ℤ → Bool → S → ℤ × S
  unfolding set_tcp_no_delay set_reuse_addr set_reuse_port set_keep_alive
  set_option defined tcp_nodelay = set_tcp_no_delay
  set_option defined so_reuseaddr = set_reuse_addr
  set_option defined so_reuseport = set_reuse_port defined
  set_option defined so_keepalive = set_keep_alive

  -- Calls one after the other, with what they returned.
  unfoldable pub set_options : Bool → ℤ → List (SockOpt × Bool) → S → List ℤ × S
  set_options defined fd [] s = ([], s)
  set_options defined fd ((o, on) ∷ calls) s =
      let (r, s') = set_option defined o fd on s in
      let (rs, s'') = set_options defined fd calls s' in (r ∷ rs, s'')
