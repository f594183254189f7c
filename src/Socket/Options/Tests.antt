-- ===== src/Socket/Options/Tests.antt =====
-- A kernel with flags and options of one descriptor, and what is set on it.
use net_lib.Prelude.{ℕ, ◌≡◌, refl, Bool, true, false, not, if◌then◌else◌, arith}
use net_lib.Prelude.Int.{pos, ◌==ℤ◌}
use net_lib.Prelude.Bits.{digit}
use net_lib.Socket.Options.{SockOpt, Kernel, set_non_bolck_socket, set_block_socket, construct_mode}
use net_lib.Socket.Options.Modes.{IsFcntl, modes_toggle, construct_default}
use net_lib.Socket.Options.Settings.{IsSockopt, same_option}

record OneFd : Type 0 where
  flags : ℕ
  option : SockOpt → Bool

abbrev kernel : Kernel OneFd
kernel = record {
  getfl = λ fd s. s.flags;
  setfl = λ fd flags s. (pos 0, record s { flags = flags });
  setsockopt = λ fd o v s.
      (pos 0, record s { option = λ p. if same_option p o then not (v ==ℤ pos 0) else s.option p });
}

kernel-IsFcntl : IsFcntl kernel (λ j. true)
kernel-IsFcntl = record { set = λ fd flags j s e lt. refl }

kernel-IsSockopt : IsSockopt kernel (λ fd p s. s.option p)
kernel-IsSockopt = record { set = λ fd o p v s e. refl }

-- O_RDWR, and no option is on.
abbrev fresh : OneFd
fresh = record { flags = 2; option = λ p. false }

modes_toggle_example :
    (digit 11 (set_non_bolck_socket kernel 11 (pos 5) fresh).1.flags ≡ 1)
    × (digit 11
          (set_block_socket kernel 11
            (pos 5)
            (set_non_bolck_socket kernel 11 (pos 5) fresh).1).1.flags
        ≡ 0)
unfolding set_non_bolck_socket set_block_socket
modes_toggle_example =
    modes_toggle kernel (λ j. true) kernel-IsFcntl 11 (omega arith) refl (pos 5) fresh 11
      (omega arith) refl refl

construct_default_example : digit 11 (construct_mode kernel 11 (pos 5) fresh).flags ≡ 1
unfolding set_non_bolck_socket
construct_default_example =
    construct_default kernel (λ j. true) kernel-IsFcntl 11 (omega arith) refl (pos 5) fresh 11
      (omega arith) (λ above. refl)

-- A Socket made of descriptor 0 is useful, and blocks if it did.
still_blocks : construct_mode kernel 11 (pos 0) fresh ≡ fresh
unfolding construct_mode
still_blocks = refl
