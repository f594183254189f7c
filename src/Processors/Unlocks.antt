-- ===== src/Processors/Unlocks.antt =====
-- What an unlock hands over, and that it keeps the coroutines in their places (src/mutex.cc).
use mathlib.Core.Path.{subst}
use net_lib.Prelude.{
  ℕ, ◌+◌, ◌≡◌, ◌⊎◌, refl, sym, ◌∙◌, inl, inr, false, List, [], ◌∷◌, arith, Bool-cases,
}
use net_lib.Prelude.Int.{ℤ, pos, negsuc, ◌==ℤ◌, ◌+ℤ◌}
use net_lib.Prelude.Family.{update}
use net_lib.RwMutex.{RwMutex, runlock, wunlock}
use net_lib.RwMutex.System.{System, Pc, idle, wake_list, after_runlock, after_wunlock}
use net_lib.RwMutex.Invariant.{wake_list-same, free_lock_lem}
use net_lib.Worker.{Worker}
use net_lib.Processors.{running, Processors, at_rest, go_all, go}
use net_lib.Processors.Invariant.{Inv}
use net_lib.Processors.Handing.{go_all-Inv}
use net_lib.Processors.LockMoves.{IsInv, moved-Inv, pc-Inv}

pub go_all-lock :
    (clock : ℕ → ℕ) (k : ℕ) (q : List ℕ) (f : Processors) → (go_all clock k q f).lock ≡ f.lock
unfolding go_all
go_all-lock clock k [] f = refl
go_all-lock clock k (c ∷ q) f = go_all-lock clock (k + 2) q (go c (clock k) (clock (k + 1)) f)

-- An unlock empties the queue and hands all over, or does nothing to it.
Frees : List ℕ → RwMutex → List ℕ → Type 0
Frees q m woken = ((woken ≡ q) × (m.waiting ≡ [])) ⊎ ((woken ≡ []) × (m.waiting ≡ q))

wunlock-Frees : (m : RwMutex) → Frees m.waiting (wunlock m).0 (wunlock m).1
unfolding wunlock Frees
wunlock-Frees m = rw (free_lock_lem m) (inl (refl, refl))

runlock-Frees : (m : RwMutex) → Frees m.waiting (runlock m).0 (runlock m).1
unfolding runlock Frees
runlock-Frees m = elim (Bool-cases (m.reading_num ==ℤ pos 1)) [
  | inl last ↦
      rw (last, free_lock_lem (record m { reading_num = m.reading_num +ℤ negsuc 0 }))
        (inl (refl, refl))
  | inr more ↦ rw more (inr (refl, refl))
]

woken-at_rest : (cos : List ℕ) (pc : ℕ → Pc) (c : ℕ) → at_rest (wake_list cos pc c) ≡ at_rest (pc c)
woken-at_rest = wake_list-same at_rest (λ p. ground arith)

module _ {n : ℕ} {fd : ℕ → ℤ} {f : Processors} (v : IsInv n fd f) (k : ℕ) {w u : Worker} {co : ℕ}
    {goes : List ℕ} (e : f.slots k ≡ running w u co goes false) (clock : ℕ → ℕ) where
  -- What is behind the calls of `goCo` of an unlock.
  unlocked-IsInv :
      (m : RwMutex) (woken : List ℕ)
      → Frees f.lock.mutex.waiting m woken
      → IsInv n fd (
          go_all clock 0 woken (record f {
            lock = record { mutex = m; pc = wake_list woken (update f.lock.pc co idle) };
          }))
  unfolding Frees go_all
  unlocked-IsInv m woken frees =
      let l : System = record { mutex = m; pc = wake_list woken (update f.lock.pc co idle) } in
      let awake : Inv n fd f.lock.mutex.waiting l.pc (record f { lock = l }) =
        pc-Inv l.pc l (λ c b. (moved-Inv v k e idle l).kept c (sym (woken-at_rest woken _ c) ∙ b))
          (moved-Inv v k e idle l) in
      subst (λ x. Inv n fd x.mutex.waiting x.pc (go_all clock 0 woken (record f { lock = l })))
        (sym (go_all-lock clock 0 woken (record f { lock = l })))
        (elim frees [
          | inl (all, empty) ↦
              subst (λ x. Inv n fd x l.pc (go_all clock 0 woken (record f { lock = l })))
                (sym empty)
                (go_all-Inv clock 0 woken
                  (subst (λ x. Inv n fd x l.pc (record f { lock = l })) (sym all) awake))
          | inr (none_woken, same) ↦
              subst (λ x. Inv n fd m.waiting l.pc (go_all clock 0 x (record f { lock = l })))
                (sym none_woken)
                (subst (λ x. Inv n fd x l.pc (record f { lock = l })) (sym same) awake)
        ])

  pub runlock-IsInv :
      IsInv n fd
        (go_all clock 0 (runlock f.lock.mutex).1 (record f { lock = after_runlock f.lock co }))
  unfolding after_runlock
  runlock-IsInv =
      unlocked-IsInv (runlock f.lock.mutex).0 (runlock f.lock.mutex).1 (runlock-Frees f.lock.mutex)

  pub wunlock-IsInv :
      IsInv n fd
        (go_all clock 0 (wunlock f.lock.mutex).1 (record f { lock = after_wunlock f.lock co }))
  unfolding after_wunlock
  wunlock-IsInv =
      unlocked-IsInv (wunlock f.lock.mutex).0 (wunlock f.lock.mutex).1 (wunlock-Frees f.lock.mutex)
