-- ===== src/Socket/Transfer.antt =====
-- What `send` and `read` return (src/socket.cc), given what the calls return.
use native.Mathlib.Nat.{mod-eq_of_lt}
use net_lib.Prelude.{
  ℕ, zero, suc, ◌+◌, ◌-◌, ◌<◌, ◌≡◌, refl, sym, ap, ◌∙◌, ◌⊎◌, inl, inr, some, List, [], ◌∷◌, ◌++◌,
  ◌==◌, if◌then◌else◌, length, take, drop, take-append-drop, length-take, length-append,
  length-drop, replicate, arith,
}
use net_lib.Prelude.Int.{ℤ, pos, negsuc}
use net_lib.Socket.{
  size_t_mod, to_size_t, taken, Sent, sent_before, map_sent, send, ReadResult, got, read,
}

-- Results of `::send` that take some of the `n` bytes each time, and at last all that is left.
abbrev pub TakesAll : ℕ → List ℤ → Type 0
TakesAll n [] = ⊥
TakesAll n (pos k ∷ rs) = (k ≡ n) ⊎ ((0 < k) × (k < n) × TakesAll (n - k) rs)
TakesAll n (negsuc e ∷ rs) = ⊥

-- Results of `::send` that take some of the `n` bytes, but not all, and then an error.
abbrev pub BreaksOff : ℕ → List ℤ → Type 0
BreaksOff n [] = ⊥
BreaksOff n (pos k ∷ rs) = (0 < k) × (k < n) × BreaksOff (n - k) rs
BreaksOff n (negsuc e ∷ rs) = n + e < size_t_mod

-- The length of the last part, where all of them take `n` bytes.
pub last_part : ℕ → List ℤ → ℕ
last_part n [] = n
last_part n (negsuc e ∷ rs) = n
last_part n (pos k ∷ rs) = let rest = last_part (n - k) rs in if k == n then k else rest

abbrev pub Short : List ℕ → Sent → Type 0
Short buf s = ((s.waits ≡ 0) × (s.result ≡ length buf)) ⊎ ((0 < s.waits) × (s.result < length buf))

take_whole : (n : ℕ) (buf : List ℕ) → length buf ≡ n → take n buf ≡ buf
take_whole zero [] h = refl
take_whole zero (b ∷ buf) h = absurd (omega (arith, h))
take_whole (suc n) [] h = refl
take_whole (suc n) (b ∷ buf) h = ap (◌∷◌ b) (take_whole n buf (omega (arith, h)))

-- A part that is taken, but not all, is followed by a wait and a send of the rest.
send-part :
    (k : ℕ) (buf : List ℕ) (rs : List ℤ)
    → length buf < size_t_mod
    → k < length buf
    → send buf (pos k ∷ rs) ≡ map_sent (take k buf) (send (drop k buf) rs)
unfolding send taken to_size_t
send-part k buf rs h part = rw (mod-eq_of_lt {n = k} {m = size_t_mod} (omega arith)) (ground arith)

abbrev done : List ℕ → List ℕ → Sent
done buf bytes = record { result = length buf; on_wire = bytes; waits = 0 }

send-all :
    (k : ℕ) (buf : List ℕ) (rs : List ℤ)
    → length buf < size_t_mod
    → k ≡ length buf
    → send buf (pos k ∷ rs) ≡ some (done buf buf)
unfolding send taken to_size_t
send-all k buf rs h all =
    rw (mod-eq_of_lt {n = k} {m = size_t_mod} (omega arith), take_whole k buf (sym all))
      (ground arith)

send-error :
    (e : ℕ) (buf : List ℕ) (rs : List ℤ)
    → length buf + e < size_t_mod
    → send buf (negsuc e ∷ rs) ≡ some (done buf [])
unfolding send taken to_size_t
send-error e buf rs h = rw (mod-eq_of_lt {n = e} {m = size_t_mod} (omega arith)) (ground arith)

shorter :
    (rest : List ℕ) (n : ℕ) (s : Sent) (k : ℕ)
    → length rest ≡ n - k
    → 0 < k
    → k < n
    → Short rest s
    → s.result < n
shorter rest n s k e h part (inl (_, r)) = omega (arith, r)
shorter rest n s k e h part (inr (_, r)) = omega (arith, r)

-- If the calls of `::send` take the buffer in parts, all of them positive, then `send` returns and
-- the bytes on the wire are the buffer, in order. Its result is the length of the last part: without a
-- wait this is the length of the buffer, and after one it is less.
pub send_complete :
    (buf : List ℕ) (rs : List ℤ)
    → length buf < size_t_mod
    → TakesAll (length buf) rs
    → (s : Sent) × (send buf rs ≡ some s)
      × (s.on_wire ≡ buf)
      × (s.result ≡ last_part (length buf) rs)
      × Short buf s
unfolding map_sent sent_before last_part
send_complete buf [] h t = absurd t
send_complete buf (pos k ∷ rs) h (inl all) =
    (done buf buf, send-all k buf rs h all, refl, ground (arith, all), inl (refl, refl))
send_complete buf (pos k ∷ rs) h (inr (some_taken, part, t)) =
    let (s, e, wire, last, short) =
      send_complete (drop k buf) rs (omega (arith, length-drop k buf)) (rw (length-drop k buf) t) in
    (
      sent_before (take k buf) s,
      send-part k buf rs h part ∙ ap (map_sent (take k buf)) e,
      rw wire (take-append-drop k buf),
      ground (arith, part, last, length-drop k buf, ap (λ n. last_part n rs) (length-drop k buf)),
      inr (
        omega arith,
        shorter (drop k buf) (length buf) s k (length-drop k buf) some_taken part short,
      ),
    )
send_complete buf (negsuc e ∷ rs) h t = absurd t

-- Where a call of `::send` fails, at once or behind parts that were taken, `send` returns at once as
-- if it had succeeded: the result is exactly the number of the bytes that were never sent.
pub send_failed :
    (buf : List ℕ) (rs : List ℤ)
    → length buf < size_t_mod
    → BreaksOff (length buf) rs
    → (s : Sent) × (send buf rs ≡ some s) × (s.result + length s.on_wire ≡ length buf)
unfolding map_sent sent_before
send_failed buf [] h t = absurd t
send_failed buf (pos k ∷ rs) h (some_taken, part, t) =
    let (s, e, count) =
      send_failed (drop k buf) rs (omega (arith, length-drop k buf)) (rw (length-drop k buf) t) in
    (
      sent_before (take k buf) s,
      send-part k buf rs h part ∙ ap (map_sent (take k buf)) e,
      omega (
        arith,
        length-append {0} (take k buf) s.on_wire,
        length-take k buf,
        length-drop k buf,
        count,
      ),
    )
send_failed buf (negsuc e ∷ rs) h t = (done buf [], send-error e buf rs t, omega arith)

-- Interrupted reads are repeated; a count of bytes is returned with no wait, and behind another error
-- there is one wait, after which whatever `::read` returns is returned, an interruption too.
pub read_returns :
    (k n : ℕ) (r : ReadResult) (rs : List ReadResult)
    → (read (replicate k ReadResult.interrupted ++ got n ∷ rs)
        ≡ some (record { last = got n; waits = 0 }))
      × (read (replicate k ReadResult.interrupted ++ ReadResult.failed ∷ r ∷ rs)
          ≡ some (record { last = r; waits = 1 }))
unfolding read
read_returns zero n r rs = (refl, refl)
read_returns (suc k) n r rs = read_returns k n r rs
