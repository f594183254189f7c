-- ===== src/Scheduler/Single.antt =====
-- How many schedulers the threads that call `getScheduler` make (src/scheduler.cc).
use mathlib.Core.Path.{subst}
use net_lib.Prelude.{
  ℕ, suc, ◌≤◌, ◌≡◌, ◌≢◌, ◌⊎◌, refl, ap, sym, ◌∙◌, inl, inr, Option, none, some, List, [], ◌∷◌, ltb,
  ◌==◌, ==_iff, arith, Bool-cases,
}
use net_lib.Prelude.Family.{update}
use net_lib.Scheduler.{
  Point, away, testing, locking, testing_again, creating, unlocking, starting, got, Global,
  start_global, go_to, test, lock, create, emplace, start_round, step_at, get_scheduler_step,
  get_scheduler,
}

-- What holds of thread `i` at a point: behind the lock it holds the mutex, and which pointer is set.
abbrev Fits : ℕ → Option ℕ → Option ℕ → Point → Type 0
Fits i held p away = Unit {0}
Fits i held p testing = Unit {0}
Fits i held p locking = Unit {0}
Fits i held p testing_again = held ≡ some i
Fits i held p creating = (held ≡ some i) × (p ≡ none)
Fits i held p (starting n) = (held ≡ some i) × (p ≡ some 0)
Fits i held p unlocking = (held ≡ some i) × (p ≡ some 0)
Fits i held p (got k) = k ≡ some 0

-- A thread that does not hold the mutex is not concerned by what the others do.
Fits-else :
    (i : ℕ) (held held' p p' : Option ℕ) (pt : Point)
    → held ≢ some i
    → Fits i held p pt
    → Fits i held' p' pt
Fits-else i held held' p p' away ne v = tt
Fits-else i held held' p p' testing ne v = tt
Fits-else i held held' p p' locking ne v = tt
Fits-else i held held' p p' testing_again ne v = absurd (ne v)
Fits-else i held held' p p' creating ne v = absurd (ne v.0)
Fits-else i held held' p p' (starting n) ne v = absurd (ne v.0)
Fits-else i held held' p p' unlocking ne v = absurd (ne v.0)
Fits-else i held held' p p' (got k) ne v = v

record Inv (g : Global) : Type 0 where
  single : ((g.p_scher ≡ none) × (g.made ≡ 0)) ⊎ ((g.p_scher ≡ some 0) × (g.made ≡ 1))
  fits : (j : ℕ) → Fits j g.scher_mtx g.p_scher (g.point j)

-- The step of one thread `i` to a new point.
moved :
    (i : ℕ) (pt : Point) (point : ℕ → Point) (held p : Option ℕ)
    → ((j : ℕ) → i ≢ j → Fits j held p (point j))
    → Fits i held p pt
    → (j : ℕ) → Fits j held p (update point i pt j)
moved i pt point held p others mine j = elim (Bool-cases (i == j)) [
  | inl same ↦ rw same (subst (λ k. Fits k held p pt) ((==_iff i j).0 same) mine)
  | inr other ↦ rw other (others j (λ e. ground arith))
]

none_apart : (j : ℕ) → none ≢ some j
none_apart j e = ground arith

-- A thread beside the one that holds the mutex.
beside : (i j : ℕ) (held : Option ℕ) → held ≡ some i → i ≢ j → held ≢ some j
beside i j held e ne h = ground arith

set_pointer : (g : Global) (k : ℕ) → Inv g → g.p_scher ≡ some k → g.p_scher ≡ some 0
set_pointer g k v e = elim v.single [ inl unset ↦ ground (arith, unset) | inr set ↦ set.0 ]

go_to-Inv :
    (i : ℕ) (pt : Point) (g : Global) → Inv g → Fits i g.scher_mtx g.p_scher pt → Inv (go_to i pt g)
go_to-Inv i pt g v mine = record {
  single = v.single;
  fits = moved i pt g.point g.scher_mtx g.p_scher (λ j ne. v.fits j) mine;
}

testing-Inv :
    (i : ℕ) (p : Option ℕ) (g : Global) → g.p_scher ≡ p → Inv g → Inv (test i locking (got p) p g)
testing-Inv i none g e v = go_to-Inv i locking g v tt
testing-Inv i (some k) g e v = go_to-Inv i (got (some k)) g v (sym e ∙ set_pointer g k v e)

testing_again-Inv :
    (i : ℕ) (p : Option ℕ) (g : Global)
    → g.p_scher ≡ p
    → g.scher_mtx ≡ some i
    → Inv g
    → Inv (test i creating unlocking p g)
testing_again-Inv i none g e m v = go_to-Inv i creating g v (m, e)
testing_again-Inv i (some k) g e m v = go_to-Inv i unlocking g v (m, set_pointer g k v e)

lock-Inv : (i : ℕ) (held : Option ℕ) (g : Global) → g.scher_mtx ≡ held → Inv g → Inv (lock i held g)
lock-Inv i none g e v = record {
  single = v.single;
  fits =
      moved i testing_again g.point (some i) g.p_scher
        (λ j ne.
          Fits-else j g.scher_mtx (some i) g.p_scher g.p_scher (g.point j)
            (λ h. none_apart j (sym e ∙ h)) (v.fits j))
        refl;
}
lock-Inv i (some j) g e v = v

create-Inv :
    (i : ℕ) (g : Global) → g.scher_mtx ≡ some i → g.p_scher ≡ none → Inv g → Inv (create i g)
create-Inv i g m e v =
    let fresh : g.made ≡ 0 = elim v.single [
      | inl unset ↦ unset.1
      | inr set ↦ ground (arith, set)
    ] in
    record {
      single = inr (ap some fresh, omega (arith, fresh));
      fits =
          moved i (starting 0) g.point g.scher_mtx (some g.made)
            (λ j ne.
              Fits-else j g.scher_mtx g.scher_mtx g.p_scher (some g.made) (g.point j)
                (beside i j g.scher_mtx m ne) (v.fits j))
            (m, ap some fresh);
    }

unlocking-Inv :
    (i : ℕ) (g : Global)
    → g.scher_mtx ≡ some i
    → g.p_scher ≡ some 0
    → Inv g
    → Inv (go_to i (got g.p_scher) (record g { scher_mtx = none }))
unlocking-Inv i g m e v = record {
  single = v.single;
  fits =
      moved i (got g.p_scher) g.point none g.p_scher
        (λ j ne.
          Fits-else j g.scher_mtx none g.p_scher g.p_scher (g.point j) (beside i j g.scher_mtx m ne)
            (v.fits j))
        e;
}

start_round-Inv :
    (thread_num i n : ℕ) (g : Global)
    → (g.scher_mtx ≡ some i) × (g.p_scher ≡ some 0)
    → Inv g
    → Inv (start_round thread_num i n g)
start_round-Inv thread_num i n g m v = elim (Bool-cases (ltb n thread_num)) [
  | inl more ↦ rw more (
      go_to-Inv i (starting (suc n)) (record g { processors = emplace g.p_scher g.processors })
        (record { single = v.single; fits = v.fits }) m)
  | inr all ↦ rw all (go_to-Inv i unlocking g v m)
]

step_at-Inv :
    (thread_num i : ℕ) (pt : Point) (g : Global)
    → Inv g
    → Fits i g.scher_mtx g.p_scher pt
    → Inv (step_at thread_num i pt g)
step_at-Inv thread_num i away g v m = go_to-Inv i testing g v tt
step_at-Inv thread_num i testing g v m = testing-Inv i g.p_scher g refl v
step_at-Inv thread_num i locking g v m = lock-Inv i g.scher_mtx g refl v
step_at-Inv thread_num i testing_again g v m = testing_again-Inv i g.p_scher g refl m v
step_at-Inv thread_num i creating g v m = create-Inv i g m.0 m.1 v
step_at-Inv thread_num i (starting n) g v m = start_round-Inv thread_num i n g m v
step_at-Inv thread_num i unlocking g v m = unlocking-Inv i g m.0 m.1 v
step_at-Inv thread_num i (got k) g v m = v

get_scheduler-Inv :
    (thread_num : ℕ) (is : List ℕ) (g : Global) → Inv g → Inv (get_scheduler thread_num is g)
unfolding get_scheduler get_scheduler_step
get_scheduler-Inv thread_num [] g v = v
get_scheduler-Inv thread_num (i ∷ is) g v =
    get_scheduler-Inv thread_num is _ (step_at-Inv thread_num i (g.point i) g v (v.fits i))

-- In whatever order the threads that call `getScheduler` take their steps, at most one scheduler is
-- made, and a thread that has come back from the call has that one, never a null pointer.
pub single_scheduler :
    (thread_num : ℕ) (is : List ℕ) (i : ℕ) (k : Option ℕ)
    → (get_scheduler thread_num is start_global).point i ≡ got k
    → ((get_scheduler thread_num is start_global).made ≤ 1) × (k ≡ some 0)
single_scheduler thread_num is i k e =
    let g = get_scheduler thread_num is start_global in
    let v =
      get_scheduler-Inv thread_num is start_global
        (record { single = inl (refl, refl); fits = λ j. tt }) in
    (
      elim v.single [ inl unset ↦ omega (arith, unset.1) | inr set ↦ omega (arith, set.1) ],
      subst (λ pt. Fits i g.scher_mtx g.p_scher pt) e (v.fits i),
    )
