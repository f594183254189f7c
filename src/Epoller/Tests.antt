-- ===== src/Epoller/Tests.antt =====
-- A wait that fills an array of two events, and the theorem at it.
use net_lib.Prelude.{◌≡◌, ◌⊎◌, refl, true, false, none, some, [], ◌∷◌, arith}
use net_lib.Prelude.Int.{pos, negsuc}
use net_lib.Epoller.{Epoller, new_epoller, is_epoll_fd_useful, Report, get_act_ev_serv}
use net_lib.Epoller.Wait.{IsReport, Collected, get_act_ev_serv_exact}

-- Before `init` nothing is asked.
unopened :
    (get_act_ev_serv
      (record { act_ev_num = pos 1; errno = pos 0; stored = some 3 ∷ [] })
      []
      new_epoller).result
    ≡ negsuc 0
unfolding get_act_ev_serv
unopened = refl

abbrev small : Epoller
small = record { epoll_fd = pos 5; size = 2 }

-- The timer's descriptor has the null pointer.
abbrev report : Report
report = record { act_ev_num = pos 2; errno = pos 0; stored = some 7 ∷ none ∷ [] }

report-IsReport : IsReport 2 (some 7 ∷ none ∷ []) report
report-IsReport = record { counted = refl; stored = refl; fits = omega arith }

get_act_ev_serv_exact_example :
    let a = get_act_ev_serv report (some 9 ∷ []) small in
    ((is_epoll_fd_useful small ≡ true) × Collected (some 7 ∷ none ∷ []) (some 9 ∷ []) small a)
    ⊎ ((is_epoll_fd_useful small ≡ false)
        × (a ≡ record { result = negsuc 0; act_ev_servs = some 9 ∷ []; epoller = small }))
get_act_ev_serv_exact_example =
    get_act_ev_serv_exact (some 7 ∷ none ∷ []) (some 9 ∷ []) report small report-IsReport
      (omega arith)
