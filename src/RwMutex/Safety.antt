-- ===== src/RwMutex/Safety.antt =====
-- What holds of the read-write lock in every reachable state (src/mutex.cc).
use net_lib.Prelude.{
  ℕ, ◌<◌, ◌≡◌, ◌⊎◌, inl, inr, true, false, arith, [], member, ◌-◌, ◌≢◌, Bool, Bool-cases, ◌==◌,
}
use net_lib.Prelude.Family.{update, number, number_pos, number_two, number_find}
use net_lib.Prelude.Int.{pos, negsuc, ◌+ℤ◌}
use net_lib.RwMutex.{runlock, wunlock, MuStatus, mu_free, mu_writing}
use net_lib.RwMutex.System.{
  idle, wake_list, after_wunlock, System, reading, writing, Reach, is_reading, is_writing,
  is_parked,
}
use net_lib.RwMutex.Invariant.{free_lock_lem, wake_list-parked, Inv, Reach-Inv}

-- A writer excludes everyone: in a reachable state of `n` coroutines, if coroutine `i` holds the
-- lock for writing, then no other coroutine holds it, neither for writing nor for reading.
pub writer_exclusion :
    {n : ℕ} {s : System}
    → Reach n s
    → (i j : ℕ) → i < n
    → j < n
    → s.pc i ≡ writing
    → (s.pc j ≡ writing) ⊎ (s.pc j ≡ reading)
    → i ≡ j
writer_exclusion {n} {s} r i j hi hj wi h =
    let v : Inv n s = Reach-Inv r in
    ground (
      arith,
      v.agrees,
      number_pos is_writing n s.pc i hi,
      number_pos is_reading n s.pc j hj,
      number_two is_writing n s.pc i j hi hj,
    )

abbrev writer_mode : MuStatus → Bool
writer_mode mu_writing = true
writer_mode _ = false

-- A lock that is not free has a holder.
pub holder :
    (n : ℕ) (s : System)
    → Inv n s
    → s.mutex.state ≢ mu_free
    → (j : ℕ) × (j < n) × ((s.pc j ≡ reading) ⊎ (s.pc j ≡ writing))
holder n s v busy = elim (Bool-cases (writer_mode s.mutex.state)) [
  | inl w ↦
      let (j, lt, e) = number_find is_writing n s.pc (ground (arith, v.agrees)) in
      (j, lt, ground arith)
  | inr r ↦
      let (j, lt, e) = number_find is_reading n s.pc (ground (arith, v.agrees)) in
      (j, lt, ground arith)
]

-- No wake-up is lost: in a reachable state of `n` coroutines, a coroutine that has gone to sleep in
-- `rlock` or `wlock` stands in `waitingCo_`, and some coroutine holds the lock, whose unlock has
-- still to come.
pub no_lost_wakeup :
    {n : ℕ} {s : System}
    → Reach n s
    → (i : ℕ) → is_parked (s.pc i) ≡ true
    → (member i s.mutex.waiting ≡ true)
      × ((j : ℕ) × (j < n) × ((s.pc j ≡ reading) ⊎ (s.pc j ≡ writing)))
no_lost_wakeup {n} {s} r i h =
    let v : Inv n s = Reach-Inv r in
    (v.queued i h, holder n s v (λ e. ground (arith, v.agrees, v.queued i h)))

-- In a reachable state of `n` coroutines, `runlock` by a reader frees the lock exactly when that is
-- the only reader left: then the state is MU_FREE with no reader counted, the queue is empty and all
-- that waited is handed to `goCo` in the order in which it came. Otherwise only the count falls.
pub runlock_last :
    {n : ℕ} {s : System}
    → Reach n s
    → (i : ℕ) → i < n
    → s.pc i ≡ reading
    → ((number is_reading n s.pc ≡ 1)
        × (runlock s.mutex
            ≡ (record { state = mu_free; reading_num = pos 0; waiting = [] }, s.mutex.waiting)))
      ⊎ ((1 < number is_reading n s.pc)
          × (runlock s.mutex
              ≡ (record s.mutex { reading_num = pos (number is_reading n s.pc - 1) }, [])))
unfolding runlock ◌+ℤ◌
runlock_last {n} {s} r i lt e =
    let v : Inv n s = Reach-Inv r in
    elim (Bool-cases (number is_reading n s.pc == 1)) [
      | inl one ↦ inl (
        ground arith,
        ground (
          arith,
          v.counted,
          free_lock_lem (record s.mutex { reading_num = s.mutex.reading_num +ℤ negsuc 0 }),
        ),
      )
      | inr more ↦ inr (
        ground (arith, number_pos is_reading n s.pc i lt),
        ground (arith, number_pos is_reading n s.pc i lt, v.counted),
      )
    ]

-- `wunlock` makes the lock free and hands all that waited to `goCo`, in the order in which it came;
-- after it every coroutine that was parked is awake again.
pub wunlock_wakes :
    {n : ℕ} {s : System}
    → Reach n s
    → (i : ℕ)
    → (wunlock s.mutex ≡ (record s.mutex { state = mu_free; waiting = [] }, s.mutex.waiting))
      × ((j : ℕ) → is_parked ((after_wunlock s i).pc j) ≡ false)
unfolding wunlock after_wunlock
wunlock_wakes {n} {s} r i =
    let v : Inv n s = Reach-Inv r in
    (free_lock_lem s.mutex, λ j. rw (free_lock_lem s.mutex) (woken v j))
  where
    woken : Inv n s → (j : ℕ) → is_parked (wake_list s.mutex.waiting (update s.pc i idle) j) ≡ false
    woken v j = elim (Bool-cases (is_parked (wake_list s.mutex.waiting (update s.pc i idle) j))) [
      | inl p ↦
          ground (arith, v.queued j, wake_list-parked s.mutex.waiting (update s.pc i idle) j p)
      | inr awake ↦ awake
    ]
