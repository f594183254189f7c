-- ===== src/Client/Exchanges.antt =====
-- What the demo client has done when its main thread goes on (client/client.cc).
use net_lib.Prelude.{
  ℕ, zero, suc, ◌+◌, ◌^◌, ◌%◌, ◌≤◌, ◌≡◌, ◌↔◌, refl, ap, inl, inr, true, Option, none, some, List,
  [], ◌∷◌, All, All-get_elem?, length, get_elem?, leb→le, arith, Option-cases,
}
use net_lib.Socket.{read, send}
use net_lib.Socket.Address.{connect}
use net_lib.Client.{
  Stage, connecting, over, talking, Talker, Client, rounds, new_client, ping, localhost, port,
  fresh_socket, Event, starts, connects, talks, ends, with_head, take_one, set_at, exchange, act,
  act_at, put, start_one, step, run, goes_on,
}

abbrev pub sum : List ℕ → ℕ
sum [] = 0
sum (n ∷ ns) = n + sum ns

abbrev pub is_over : Stage → ℕ
is_over over = 1
is_over _ = 0

-- How many of the connections are at their end.
abbrev pub overs : List Talker → ℕ
overs [] = 0
overs (t ∷ ts) = is_over t.stage + overs ts

-- The exchanges that were and those that are left are fifty.
abbrev pub Kept : Stage → ℕ → Type 0
Kept connecting n = n ≡ 0
Kept (talking k) n = k + n ≡ rounds
Kept over n = n ≡ rounds

abbrev pub IsKept : Talker → Type 0
IsKept t = Kept t.stage t.exchanges

abbrev pub IsDone : Talker → Type 0
IsDone t = (t.stage ≡ over) × (t.exchanges ≡ rounds)

-- One less in sum, if there is a result.
abbrev pub IsLess : List ℕ → Option (List ℕ) → Type 0
IsLess ns none = Unit {0}
IsLess ns (some ms) = sum ns ≡ suc (sum ms)

with_head-IsLess :
    (n : ℕ) (ns : List ℕ) (o : Option (List ℕ)) → IsLess ns o → IsLess (n ∷ ns) (with_head n o)
with_head-IsLess n ns none h = tt
with_head-IsLess n ns (some ms) h = omega (arith, h)

take_one-IsLess : (ns : List ℕ) (i : ℕ) → IsLess ns (take_one ns i)
unfolding take_one
take_one-IsLess [] i = tt
take_one-IsLess (zero ∷ ns) zero = tt
take_one-IsLess (suc n ∷ ns) zero = omega arith
take_one-IsLess (n ∷ ns) (suc i) = with_head-IsLess n ns (take_one ns i) (take_one-IsLess ns i)

overs-set_at :
    (ts : List Talker) (i : ℕ) {t : Talker} (u : Talker)
    → get_elem? ts i ≡ some t
    → overs (set_at ts i u) + is_over t.stage ≡ overs ts + is_over u.stage
overs-set_at [] i u e = cc
overs-set_at (x ∷ ts) zero u e = ground arith
overs-set_at (x ∷ ts) (suc i) u e = ground (arith, overs-set_at ts i u e)

length-set_at : (ts : List Talker) (i : ℕ) (u : Talker) → length (set_at ts i u) ≡ length ts
length-set_at [] i u = refl
length-set_at (t ∷ ts) zero u = refl
length-set_at (t ∷ ts) (suc i) u = ap suc (length-set_at ts i u)

set_at-IsKept :
    (ts : List Talker) (i : ℕ) (u : Talker) → IsKept u → All IsKept ts → All IsKept (set_at ts i u)
set_at-IsKept [] i u k h = tt
set_at-IsKept (t ∷ ts) zero u k h = (k, h.1)
set_at-IsKept (t ∷ ts) (suc i) u k h = (h.0, set_at-IsKept ts i u k h.1)

is_over-le : (st : Stage) → is_over st ≤ 1
is_over-le connecting = omega arith
is_over-le over = omega arith
is_over-le (talking k) = omega arith

overs-le : (ts : List Talker) → overs ts ≤ length ts
overs-le [] = omega arith
overs-le (t ∷ ts) = omega (arith, is_over-le t.stage, overs-le ts)

over_done : (st : Stage) (n : ℕ) → Kept st n → is_over st ≡ 1 → (st ≡ over) × (n ≡ rounds)
over_done connecting n h e = absurd (omega (arith, e))
over_done over n h e = (refl, h)
over_done (talking k) n h e = absurd (omega (arith, e))

overs-IsDone : (ts : List Talker) → All IsKept ts → overs ts ≡ length ts → All IsDone ts
overs-IsDone [] h e = tt
overs-IsDone (t ∷ ts) h e = (
  over_done t.stage t.exchanges h.0 (omega (arith, e, overs-le ts, is_over-le t.stage)),
  overs-IsDone ts h.1 (omega (arith, e, overs-le ts, is_over-le t.stage)),
)

IsDone-overs : (ts : List Talker) → All IsDone ts → overs ts ≡ length ts
IsDone-overs [] h = refl
IsDone-overs (t ∷ ts) h = ground (arith, h.0, IsDone-overs ts h.1)

pub record Inv (c : Client) : Type 0 where
  pub number : c.times ≡ overs c.talkers
  pub total : sum c.left + length c.talkers ≡ 20000
  pub kept : All IsKept c.talkers

put-Inv :
    (c : Client) (i n : ℕ) {t : Talker} (u : Talker)
    → get_elem? c.talkers i ≡ some t
    → n + is_over t.stage ≡ c.times + is_over u.stage
    → IsKept u
    → Inv c
    → Inv (put c i n (some u))
put-Inv c i n u e m k v = record {
  number = omega (arith, m, v.number, overs-set_at c.talkers i u e);
  total = omega (arith, v.total, length-set_at c.talkers i u);
  kept = set_at-IsKept c.talkers i u k v.kept;
}

started-Inv : (c : Client) (o : Option (List ℕ)) → IsLess c.left o → Inv c → Inv (start_one c o)
started-Inv c none h v = v
started-Inv c (some ms) h v = record {
  number = omega (arith, v.number);
  total = omega (arith, h, v.total);
  kept = (refl, v.kept);
}

-- How many connections come to their end at an event.
abbrev pub gain : Event → ℕ
gain (ends i) = 1
gain _ = 0

abbrev pub Moves : Event → Stage → Option Talker → Type 0
Moves e st none = Unit {0}
Moves e st (some u) = (is_over st ≡ 0) × (is_over u.stage ≡ gain e) × IsKept u

act-Moves : (e : Event) (st : Stage) (t : Talker) → Kept st t.exchanges → Moves e st (act e st t)
act-Moves (connects i fd rs) connecting t h =
    elim (Option-cases (connect rs localhost port (fresh_socket fd))) [
      | inl out ↦ rw (act, out) tt
      | inr (c, back) ↦ rw (act, back) (refl, refl, omega (arith, h))
    ]
act-Moves (talks i ws rs) (talking (suc k)) t h = elim (Option-cases (send ping ws)) [
  | inl out ↦ rw (act, exchange, out) tt
  | inr (sent, done) ↦ elim (Option-cases (read rs)) [
    | inl out ↦ rw (act, exchange, done, out) tt
    | inr (r, back) ↦ rw (act, exchange, done, back) (refl, refl, omega (arith, h))
  ]
]
act-Moves (ends i) (talking zero) t h = (refl, refl, omega (arith, h))
act-Moves e st t h = tt

event-Inv :
    (c : Client) (e : Event) (i n : ℕ)
    → n ≡ c.times + gain e
    → Inv c
    → Inv (put c i n (act_at e (get_elem? c.talkers i)))
event-Inv c e i n m v = elim (Option-cases (get_elem? c.talkers i)) [
  | inl out ↦ rw out v
  | inr (t, held) ↦
      let moves = act-Moves e t.stage t (All-get_elem? IsKept c.talkers i v.kept held) in
      elim (Option-cases (act e t.stage t)) [
        | inl out ↦ rw (held, out) v
        | inr (u, acts) ↦
            let (before, after, kept) = rw acts at moves in
            rw (held, acts) (put-Inv c i n u held (omega (arith, m, before, after)) kept v)
      ]
]

times-lt : (c : Client) → Inv c → c.times ≤ 20000
times-lt c v = omega (arith, v.number, v.total, overs-le c.talkers)

step-Inv : (c : Client) (e : Event) → Inv c → Inv (step c e)
unfolding step
step-Inv c (starts i) v = started-Inv c (take_one c.left i) (take_one-IsLess c.left i) v
step-Inv c (connects i fd rs) v = event-Inv c (connects i fd rs) i c.times (omega arith) v
step-Inv c (talks i ws rs) v = event-Inv c (talks i ws rs) i c.times (omega arith) v
step-Inv c (ends i) v =
    event-Inv c (ends i) i ((c.times + 1) % 2 ^ 32) (omega (arith, times-lt c v)) v

run-Inv : (c : Client) (es : List Event) → Inv c → Inv (run c es)
unfolding run
run-Inv c [] v = v
run-Inv c (e ∷ es) v = run-Inv (step c e) es (step-Inv c e v)

new_client-Inv : Inv new_client
new_client-Inv = record { number = refl; total = refl; kept = tt }

-- In whatever order the coroutines run, the main thread goes on if and only if all connections were
-- started and each of them is at its end, with fifty exchanges behind it.
pub goes_on_exact :
    (es : List Event)
    → let c = run new_client es in (goes_on c ≡ true) ↔ ((sum c.left ≡ 0) × All IsDone c.talkers)
goes_on_exact es =
    let c = run new_client es in
    let v = run-Inv new_client es new_client-Inv in
    let many = overs-le c.talkers in
    (
      (λ on. (
        omega (arith, leb→le 20000 c.times on, v.number, v.total, many),
        overs-IsDone c.talkers v.kept
            (omega (arith, leb→le 20000 c.times on, v.number, v.total, many)),
      )),
      (λ (none_left, all).
          ground (arith, v.number, v.total, none_left, IsDone-overs c.talkers all)),
    )
