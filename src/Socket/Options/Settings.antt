-- ===== src/Socket/Options/Settings.antt =====
-- What the calls that set options leave (src/socket.cc).
use net_lib.Prelude.{◌≡◌, refl, ap, ◌∙◌, Bool, true, false, not, List, [], ◌∷◌, if◌then◌else◌}
use net_lib.Prelude.Int.{ℤ, pos, ◌==ℤ◌}
use net_lib.Socket.Options.{
  SockOpt, tcp_nodelay, so_reuseaddr, so_reuseport, so_keepalive, Kernel, optval, set_option,
  set_options, set_tcp_no_delay, set_reuse_addr, set_reuse_port, set_keep_alive,
}

abbrev pub same_option : SockOpt → SockOpt → Bool
same_option tcp_nodelay tcp_nodelay = true
same_option so_reuseaddr so_reuseaddr = true
same_option so_reuseport so_reuseport = true
same_option so_keepalive so_keepalive = true
same_option _ _ = false

-- socket(7), tcp(7): these options are on or off. Where `::setsockopt` returns 0, the option is on if
-- the number was not 0, and the other options are as before.
pub record IsSockopt {ℓ} {S : Type ℓ} (kernel : Kernel S) (is_on : ℤ → SockOpt → S → Bool)
    : Type ℓ where
  pub set :
      (fd : ℤ) (o p : SockOpt) (v : ℤ) (s : S)
      → (kernel.setsockopt fd o v s).0 ≡ pos 0
      → is_on fd p (kernel.setsockopt fd o v s).1
        ≡ (if same_option p o then not (v ==ℤ pos 0) else is_on fd p s)

-- What the last call for the option asked for, `before` if there is none.
unfoldable pub last_asked : SockOpt → Bool → List (SockOpt × Bool) → Bool
last_asked p before [] = before
last_asked p before ((o, on) ∷ calls) = last_asked p (if same_option p o then on else before) calls

abbrev pub AllZero : List ℤ → Type 0
AllZero [] = Unit {0}
AllZero (r ∷ rs) = (r ≡ pos 0) × AllZero rs

optval-on : (on : Bool) → not (optval on ==ℤ pos 0) ≡ on
optval-on true = refl
optval-on false = refl

module _ {ℓ} {S : Type ℓ} (kernel : Kernel S) (is_on : ℤ → SockOpt → S → Bool)
    (laws : IsSockopt kernel is_on) (defined : Bool) (fd : ℤ) where
  asked_on :
      (o p : SockOpt) (on : Bool) (s : S)
      → (kernel.setsockopt fd o (optval on) s).0 ≡ pos 0
      → is_on fd p (kernel.setsockopt fd o (optval on) s).1
        ≡ (if same_option p o then on else is_on fd p s)
  asked_on o p on s e =
      laws.set fd o p (optval on) s e
      ∙ ap (λ b. if same_option p o then b else is_on fd p s) (optval-on on)

  reuse_port_on :
      (there : Bool) (p : SockOpt) (on : Bool) (s : S)
      → (set_reuse_port kernel there fd on s).0 ≡ pos 0
      → is_on fd p (set_reuse_port kernel there fd on s).1
        ≡ (if same_option p so_reuseport then on else is_on fd p s)
  unfolding set_reuse_port
  reuse_port_on true p on s e = asked_on so_reuseport p on s e
  reuse_port_on false p on s e = cc

  set_option_on :
      (o p : SockOpt) (on : Bool) (s : S)
      → (set_option kernel defined o fd on s).0 ≡ pos 0
      → is_on fd p (set_option kernel defined o fd on s).1
        ≡ (if same_option p o then on else is_on fd p s)
  unfolding set_option set_tcp_no_delay set_reuse_addr set_keep_alive
  set_option_on tcp_nodelay p on s e = asked_on tcp_nodelay p on s e
  set_option_on so_reuseaddr p on s e = asked_on so_reuseaddr p on s e
  set_option_on so_reuseport p on s e = reuse_port_on defined p on s e
  set_option_on so_keepalive p on s e = asked_on so_keepalive p on s e

  -- Where every call that sets an option returns 0, each option is as the last call for it asked, and
  -- as before if there was none: `setTcpNoDelay(true)` turns TCP_NODELAY on, and so Nagle's algorithm
  -- off, whatever is set before and behind it.
  pub set_options_last :
      (calls : List (SockOpt × Bool)) (s : S) (p : SockOpt)
      → AllZero (set_options kernel defined fd calls s).0
      → is_on fd p (set_options kernel defined fd calls s).1 ≡ last_asked p (is_on fd p s) calls
  unfolding set_options last_asked
  set_options_last [] s p zeros = refl
  set_options_last ((o, on) ∷ calls) s p (z, zeros) =
      set_options_last calls (set_option kernel defined o fd on s).1 p zeros
      ∙ ap (λ b. last_asked p b calls) (set_option_on o p on s z)
