-- ===== src/RwMutex/Refine.antt =====
-- The read-write lock against its specification (src/mutex.cc).
use mathlib.Core.Path.{subst, fun_ext}
use net_lib.Prelude.{ℕ, ◌<◌, ◌≡◌, ◌≢◌, sym, ap, ◌∙◌, inl, inr, true, false, arith, List, Bool-cases}
use net_lib.Prelude.Family.{update, number_pos}
use net_lib.RwMutex.{readable, writable, try_rlock, try_wlock, runlock, wunlock}
use net_lib.RwMutex.System.{
  Pc, idle, wants_read, wants_write, parked_read, parked_write, reading, writing, System, wake,
  wake_list, Reach, start, later, Step, call_rlock, call_wlock, enter_rlock, enter_wlock,
  call_runlock, call_wunlock, after_rlock, after_wlock, after_runlock, after_wunlock, is_reading,
  is_writing,
}
use net_lib.RwMutex.Invariant.{Inv, Reach-Inv, wake_list-same}
use net_lib.RwMutex.Spec.{
  Mode, no_hold, hold_read, hold_write, Move, take_read, take_write, release, History, unused,
  after,
}

abbrev pub mode : Pc → Mode
mode reading = hold_read
mode writing = hold_write
mode _ = no_hold

abbrev pub holders : System → ℕ → Mode
holders s i = mode (s.pc i)

wake-mode : (q : Pc) → mode (wake q) ≡ mode q
wake-mode q = ground arith

is_writing-mode : (q : Pc) → mode q ≡ hold_write → is_writing q ≡ true
is_writing-mode q e = ground (arith, e)

no_hold-mode : (q : Pc) → is_writing q ≡ false → is_reading q ≡ false → mode q ≡ no_hold
no_hold-mode q w r = ground (arith, w, r)

-- A coroutine moves to another place, and others are woken.
moved-mode :
    (pc : ℕ → Pc) (i : ℕ) (p : Pc) (j : ℕ)
    → mode (update pc i p j) ≡ update (λ k. mode (pc k)) i (mode p) j
moved-mode pc i p j = ground arith

stays : {n : ℕ} (h k : ℕ → Mode) → ((j : ℕ) → k j ≡ h j) → History n h → History n k
stays {n} h k e hist = subst (History n) (sym (fun_ext e)) hist

goes : {n : ℕ} (h k m : ℕ → Mode) → ((j : ℕ) → m j ≡ k j) → History n h → Move n h k → History n m
goes {n} h k m e hist move = subst (History n) (sym (fun_ext e)) (after hist move)

unmoved :
    (s : System) (i : ℕ) (p : Pc) (j : ℕ)
    → mode p ≡ mode (s.pc i)
    → mode (update s.pc i p j) ≡ mode (s.pc j)
unmoved s i p j e = ground (arith, e)

module _ {n : ℕ} (s : System) (r : Reach n s) (i : ℕ) (lt : i < n)
    (hist : History n (holders s)) where
  readable-open : readable s.mutex.state ≡ true → (j : ℕ) → j < n → holders s j ≢ hold_write
  readable-open h j hj e =
      let v : Inv n s = Reach-Inv r in
      ground (arith, v.agrees, is_writing-mode (s.pc j) e, number_pos is_writing n s.pc j hj)

  writable-open : writable s.mutex.state ≡ true → (j : ℕ) → j < n → holders s j ≡ no_hold
  writable-open h j hj =
      let v : Inv n s = Reach-Inv r in
      no_hold-mode (s.pc j) (ground (arith, v.agrees, number_pos is_writing n s.pc j hj))
        (ground (arith, v.agrees, number_pos is_reading n s.pc j hj))

  rlock-History : s.pc i ≡ wants_read → History n (holders (after_rlock s i))
  unfolding after_rlock try_rlock
  rlock-History e = elim (Bool-cases (readable s.mutex.state)) [
    | inl open_lock ↦ rw open_lock (
        goes (holders s) _ _ (moved-mode s.pc i reading) hist
          (take_read i lt (ap mode e) (readable-open open_lock)))
    | inr busy ↦
        rw busy (stays (holders s) _ (λ j. unmoved s i parked_read j (sym (ap mode e))) hist)
  ]

  wlock-History : s.pc i ≡ wants_write → History n (holders (after_wlock s i))
  unfolding after_wlock try_wlock
  wlock-History e = elim (Bool-cases (writable s.mutex.state)) [
    | inl open_lock ↦ rw open_lock (
        goes (holders s) _ _ (moved-mode s.pc i writing) hist
          (take_write i lt (writable-open open_lock)))
    | inr busy ↦
        rw busy (stays (holders s) _ (λ j. unmoved s i parked_write j (sym (ap mode e))) hist)
  ]

  unlock-History :
      (woken : List ℕ)
      → mode (s.pc i) ≢ no_hold
      → History n (λ j. mode (wake_list woken (update s.pc i idle) j))
  unlock-History woken held =
      goes (holders s) _ _
        (λ j. wake_list-same mode wake-mode woken (update s.pc i idle) j ∙ moved-mode s.pc i idle j)
        hist (release i lt held)

step-History :
    {n : ℕ} (s t : System) → Reach n s → Step n s t → History n (holders s) → History n (holders t)
unfolding after_runlock after_wunlock
step-History s t r (call_rlock i lt e) hist =
    stays (holders s) _ (λ j. unmoved s i wants_read j (sym (ap mode e))) hist
step-History s t r (call_wlock i lt e) hist =
    stays (holders s) _ (λ j. unmoved s i wants_write j (sym (ap mode e))) hist
step-History s t r (enter_rlock i lt e) hist = rlock-History s r i lt hist e
step-History s t r (enter_wlock i lt e) hist = wlock-History s r i lt hist e
step-History s t r (call_runlock i lt e) hist =
    unlock-History s r i lt hist (runlock s.mutex).1 (λ h. ground (arith, e, h))
step-History s t r (call_wunlock i lt e) hist =
    unlock-History s r i lt hist (wunlock s.mutex).1 (λ h. ground (arith, e, h))

-- The lock refines its specification: whatever `n` coroutines do with it, in any order of their
-- steps, who holds it and in which mode is a history of a lock that admits a reader only beside no
-- writer, and a writer only beside nobody.
pub lock_refines : {n : ℕ} {s : System} → Reach n s → History n (holders s)
lock_refines {n} start = unused
lock_refines {n} (later {s} {t} r step) = step-History s t r step (lock_refines r)
