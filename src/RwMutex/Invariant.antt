-- ===== src/RwMutex/Invariant.antt =====
-- The invariant of the read-write lock's system, and its preservation by every step.
use net_lib.Prelude.{
  ℕ, ◌+◌, ◌≤◌, ◌<◌, ◌≡◌, refl, sym, ◌∙◌, ap, Bool, true, false, List, [], ◌∷◌, arith, Bool-cases,
  inl, inr, member, member-append,
}
use net_lib.Prelude.Int.{pos, negsuc, ◌+ℤ◌, ◌==ℤ◌}
use net_lib.Prelude.Family.{update, bit, number, number-eq, number-update, number_none}
use net_lib.RwMutex.{
  MuStatus, mu_free, mu_reading, mu_writing, RwMutex, try_rlock, try_wlock, runlock, wunlock,
  free_lock, pop_all,
}
use net_lib.RwMutex.System.{
  Pc, idle, wants_read, wants_write, parked_read, parked_write, reading, writing, System, wake,
  wake_list, after_rlock, after_wlock, after_runlock, after_wunlock, Step, call_rlock, call_wlock,
  enter_rlock, enter_wlock, call_runlock, call_wunlock, Reach, start, later, is_reading, is_writing,
  is_parked,
}

-- What `state_` says of the numbers of readers and writers, and of the queue.
abbrev pub Agrees : MuStatus → ℕ → ℕ → List ℕ → Type 0
Agrees mu_free r w q = (r ≡ 0) × (w ≡ 0) × (q ≡ [])
Agrees mu_reading r w q = (1 ≤ r) × (w ≡ 0)
Agrees mu_writing r w q = (r ≡ 0) × (w ≡ 1)

pub record Inv (n : ℕ) (s : System) : Type 0 where
  pub agrees :
      Agrees s.mutex.state (number is_reading n s.pc) (number is_writing n s.pc) s.mutex.waiting
  pub counted : s.mutex.reading_num ≡ pos (number is_reading n s.pc)
  pub queued : (i : ℕ) → is_parked (s.pc i) ≡ true → member i s.mutex.waiting ≡ true

pub wake_list-same {ℓ} :
    {A : Type ℓ} (p : Pc → A)
    → ((q : Pc) → p (wake q) ≡ p q)
    → (cos : List ℕ) (pc : ℕ → Pc) (j : ℕ) → p (wake_list cos pc j) ≡ p (pc j)
unfolding wake_list
wake_list-same p h [] pc j = refl
wake_list-same p h (co ∷ cos) pc j =
    wake_list-same p h cos (update pc co (wake (pc co))) j ∙ ground (arith, h (pc j))

pub wake_list-parked :
    (cos : List ℕ) (pc : ℕ → Pc) (j : ℕ)
    → is_parked (wake_list cos pc j) ≡ true
    → (is_parked (pc j) ≡ true) × (member j cos ≡ false)
unfolding wake_list
wake_list-parked [] pc j h = (h, refl)
wake_list-parked (co ∷ cos) pc j h =
    ground (arith, wake_list-parked cos (update pc co (wake (pc co))) j h)

pop_all-lem :
    (q : List ℕ) (m : RwMutex) → m.waiting ≡ q → pop_all q m ≡ (record m { waiting = [] }, q)
unfolding pop_all
pop_all-lem [] m e = ground arith
pop_all-lem (co ∷ cos) m e = rw (pop_all-lem cos (record m { waiting = cos }) refl)

pub free_lock_lem :
    (m : RwMutex) → free_lock m ≡ (record m { state = mu_free; waiting = [] }, m.waiting)
unfolding free_lock
free_lock_lem m = pop_all-lem m.waiting (record m { state = mu_free }) refl

-- The numbers of readers and writers are those before the wake-ups.
wake_list-number :
    (p : Pc → Bool)
    → ((q : Pc) → p (wake q) ≡ p q)
    → (n : ℕ) (cos : List ℕ) (pc : ℕ → Pc) → number p n (wake_list cos pc) ≡ number p n pc
wake_list-number p h n cos pc = number-eq p n _ _ (wake_list-same p h cos pc)

wake-is_reading : (q : Pc) → is_reading (wake q) ≡ is_reading q
wake-is_reading q = ground arith

wake-is_writing : (q : Pc) → is_writing (wake q) ≡ is_writing q
wake-is_writing q = ground arith

-- What a move of coroutine `i` to `p` does to the two numbers.
module _ {n : ℕ} {s : System} (v : Inv n s) (i : ℕ) (lt : i < n) where
  moved_readers :
      (p : Pc)
      → number is_reading n (update s.pc i p) + bit (is_reading (s.pc i))
        ≡ number is_reading n s.pc + bit (is_reading p)
  moved_readers p = number-update is_reading n s.pc i p lt

  moved_writers :
      (p : Pc)
      → number is_writing n (update s.pc i p) + bit (is_writing (s.pc i))
        ≡ number is_writing n s.pc + bit (is_writing p)
  moved_writers p = number-update is_writing n s.pc i p lt

  queued_call :
      (p : Pc)
      → is_parked p ≡ false
      → (j : ℕ) → is_parked (update s.pc i p j) ≡ true
      → member j s.mutex.waiting ≡ true
  queued_call p e j h = ground (arith, v.queued j)

  call-Inv :
      (p : Pc)
      → s.pc i ≡ idle
      → is_parked p ≡ false
      → is_reading p ≡ false
      → is_writing p ≡ false
      → Inv n (record s { pc = update s.pc i p })
  call-Inv p e np nr nw = record {
    agrees = ground (arith, moved_readers p, moved_writers p, v.agrees);
    counted = ground (arith, moved_readers p, v.counted);
    queued = queued_call p np;
  }

  after_rlock-Inv : s.pc i ≡ wants_read → Inv n (after_rlock s i)
  unfolding after_rlock try_rlock ◌+ℤ◌
  after_rlock-Inv e = record {
    agrees = ground (
      arith,
      moved_readers reading,
      moved_writers reading,
      moved_readers parked_read,
      moved_writers parked_read,
      v.agrees,
    );
    counted = ground (arith, moved_readers reading, moved_readers parked_read, v.counted);
    queued = λ j h. ground (arith, v.queued j, member-append j s.mutex.waiting (i ∷ []));
  }

  after_wlock-Inv : s.pc i ≡ wants_write → Inv n (after_wlock s i)
  unfolding after_wlock try_wlock ◌+ℤ◌
  after_wlock-Inv e = record {
    agrees = ground (
      arith,
      moved_readers writing,
      moved_writers writing,
      moved_readers parked_write,
      moved_writers parked_write,
      v.agrees,
    );
    counted = ground (arith, moved_readers writing, moved_readers parked_write, v.counted);
    queued = λ j h. ground (arith, v.queued j, member-append j s.mutex.waiting (i ∷ []));
  }

  -- The queue is emptied and every coroutine of it woken.
  freed : (ℕ → Pc) → RwMutex → System
  freed pc m = let (m', woken) = free_lock m in record { mutex = m'; pc = wake_list woken pc }

  freed-Inv :
      (m : RwMutex)
      → m.waiting ≡ s.mutex.waiting
      → is_parked (s.pc i) ≡ false
      → m.reading_num ≡ pos 0
      → number is_reading n (update s.pc i idle) ≡ 0
      → number is_writing n (update s.pc i idle) ≡ 0
      → Inv n (freed (update s.pc i idle) m)
  unfolding freed
  freed-Inv m e p c r w = rw (free_lock_lem m) (record {
    agrees = (
      wake_list-number is_reading wake-is_reading n m.waiting (update s.pc i idle) ∙ r,
      wake_list-number is_writing wake-is_writing n m.waiting (update s.pc i idle) ∙ w,
      refl,
    );
    counted =
        c
        ∙ ap pos (
            sym (wake_list-number is_reading wake-is_reading n m.waiting (update s.pc i idle) ∙ r));
    queued = λ j h. ground (arith, wake_list-parked m.waiting (update s.pc i idle) j h, v.queued j);
  })

  after_wunlock-Inv : s.pc i ≡ writing → Inv n (after_wunlock s i)
  unfolding after_wunlock wunlock freed
  after_wunlock-Inv e =
      freed-Inv s.mutex refl (ground arith)
        (ground (arith, v.counted, v.agrees, moved_writers idle))
        (ground (arith, v.agrees, moved_readers idle, moved_writers idle))
        (ground (arith, v.agrees, moved_readers idle, moved_writers idle))

  after_runlock-Inv : s.pc i ≡ reading → Inv n (after_runlock s i)
  unfolding after_runlock runlock freed wake_list ◌+ℤ◌
  after_runlock-Inv e = elim (Bool-cases (s.mutex.reading_num ==ℤ pos 1)) [
    | inl last ↦ rw last (
        freed-Inv (record s.mutex { reading_num = s.mutex.reading_num +ℤ negsuc 0 }) refl
          (ground arith) (ground (arith, v.counted))
          (ground (arith, v.counted, v.agrees, moved_readers idle))
          (ground (arith, v.agrees, moved_writers idle, moved_readers idle, v.counted)))
    | inr more ↦ rw more (record {
      agrees = ground (arith, v.counted, v.agrees, moved_readers idle, moved_writers idle);
      counted = ground (arith, v.counted, v.agrees, moved_readers idle);
      queued = λ j h. ground (arith, v.queued j);
    })
  ]

-- Every step keeps the invariant.
pub Step-Inv : {n : ℕ} {s t : System} → Step n s t → Inv n s → Inv n t
Step-Inv (call_rlock i lt e) v = call-Inv v i lt wants_read e refl refl refl
Step-Inv (call_wlock i lt e) v = call-Inv v i lt wants_write e refl refl refl
Step-Inv (enter_rlock i lt e) v = after_rlock-Inv v i lt e
Step-Inv (enter_wlock i lt e) v = after_wlock-Inv v i lt e
Step-Inv (call_runlock i lt e) v = after_runlock-Inv v i lt e
Step-Inv (call_wunlock i lt e) v = after_wunlock-Inv v i lt e

pub Reach-Inv : {n : ℕ} {s : System} → Reach n s → Inv n s
Reach-Inv {n} start = record {
  agrees = (number_none is_reading n _ (λ i. refl), number_none is_writing n _ (λ i. refl), refl);
  counted = ap pos (sym (number_none is_reading n _ (λ i. refl)));
  queued = λ i h. cc;
}
Reach-Inv (later r st) = Step-Inv st (Reach-Inv r)
