-- ===== src/Socket/Info/Tests.antt =====
-- The text of a connection that has lost nothing.
use net_lib.Prelude.{ℕ, ◌<◌, ◌≡◌, refl, some, none, List, [], length, arith}
use net_lib.Socket.Info.{
  TcpInfo, format, opt_arguments, opt_string, get_socket_opt_string, snprintf, decimal, codes,
}
use net_lib.Socket.Info.Printed.{AllUnsigned, fields, opt_string-fields}
use net_lib.Socket.Info.Reader.{read_fields}

abbrev sample : TcpInfo
sample = record {
  tcpi_retransmits = 0;
  tcpi_rto = 204000;
  tcpi_ato = 40000;
  tcpi_snd_mss = 1400;
  tcpi_rcv_mss = 536;
  tcpi_lost = 0;
  tcpi_retrans = 0;
  tcpi_rtt = 120;
  tcpi_rttvar = 60;
  tcpi_snd_ssthresh = 2147483647;
  tcpi_snd_cwnd = 10;
  tcpi_total_retrans = 3;
}

sample-AllUnsigned : AllUnsigned (opt_arguments sample)
sample-AllUnsigned = (
  omega arith,
  (
    omega arith,
    (
      omega arith,
      (
        omega arith,
        (
          omega arith,
          (
            omega arith,
            (
              omega arith,
              (omega arith, (omega arith, (omega arith, (omega arith, (omega arith, tt))))),
            ),
          ),
        ),
      ),
    ),
  ),
)

opt_string-fields_example :
    (text : List ℕ) × (opt_string (some sample) ≡ some text)
    × (length text < 1024)
    × (read_fields [] none text ≡ fields sample)
opt_string-fields_example = opt_string-fields sample sample-AllUnsigned

sample_text :
    opt_string (some sample)
    ≡ some (
        codes
          "unrecovered=0 rto=204000 ato=40000 snd_mss=1400 rcv_mss=536 lost=0 retrans=0 rtt=120 rttvar=60 sshthresh=2147483647 cwnd=10 total_retrans=3")
unfolding opt_string get_socket_opt_string snprintf format decimal
sample_text = refl

no_text : opt_string none ≡ some []
unfolding opt_string get_socket_opt_string
no_text = refl
