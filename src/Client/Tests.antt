-- ===== src/Client/Tests.antt =====
-- The demo client behind a few steps, and the theorem at them.
use net_lib.Prelude.{◌≡◌, ◌↔◌, true, List, [], ◌∷◌, All, refl}
use net_lib.Prelude.Int.{pos}
use net_lib.Socket.{connected, got}
use net_lib.Client.{Event, starts, connects, talks, step, run, new_client, goes_on, take_one}
use net_lib.Client.Exchanges.{sum, IsDone, goes_on_exact}

abbrev first_exchange : List Event
first_exchange =
    starts 0 ∷ connects 0 (pos 9) (connected ∷ []) ∷ talks 0 (pos 4 ∷ []) (got 4 ∷ []) ∷ []

started : (run new_client (starts 1 ∷ [])).left ≡ 10000 ∷ 9999 ∷ []
unfolding run step take_one
started = refl

goes_on_exact_example :
    let c = run new_client first_exchange in
    (goes_on c ≡ true) ↔ ((sum c.left ≡ 0) × All IsDone c.talkers)
goes_on_exact_example = goes_on_exact first_exchange
