-- ===== src/Lifecycle/Ends.antt =====
-- Which threads end, and which calls come back (src/processor.cc, src/scheduler.cc).
use net_lib.Prelude.{
  ℕ, zero, suc, ◌≡◌, refl, ap, ◌∙◌, Bool, true, false, none, some, List, [], ◌∷◌, All, ◌&&◌, ◌≢◌,
  Option, if◌then◌else◌,
}
use net_lib.Processor.{ProStatus, pro_running, pro_stopping, pro_stopped}
use net_lib.Lifecycle.{
  scheduler_join, launched, looping, returned, Host, new_host, loop, test, thread_at, thread_step,
  thread_steps, stop, done, waits_on, aborts, join_at, join, destroy, start_scheduler, stop_all,
  join_all, destroy_scheduler, stuck, and_then, delete_loop, Fate, bad_delete, delete_cos, finish,
  end_thread, is_running,
}

steps-returned : (n : ℕ) (e t : Bool) (h : Host) → h.point ≡ returned → thread_steps n e t h ≡ h
unfolding thread_steps thread_step
steps-returned zero e t h p = refl
steps-returned (suc n) e t h p =
    ap (thread_steps n e t) (ap (λ q. thread_at q e t h) p) ∙ steps-returned n e t h p

-- After `stop`, a thread in its loop returns at its next test of `status_`, whatever it does from then
-- on: from one step on, `join` comes back, with the status PRO_STOPPED.
pub stop_ends :
    (n : ℕ) (e t : Bool) (h : Host)
    → h.point ≡ looping
    → h.joined ≡ false
    → join (thread_steps (suc n) e t (stop h))
      ≡ done (record { status = pro_stopped; point = returned; joined = true; co_set = h.co_set })
unfolding thread_steps thread_step stop join
stop_ends n e t h p j =
    let ended = record h { status = pro_stopped; point = returned } in
    ap (λ q. join (thread_steps n e t (thread_at q e t (stop h)))) p
    ∙ ap join (steps-returned n e t ended refl)
    ∙ ap (λ b. join_at returned b ended) j

steps-running :
    (n : ℕ) (e t : Bool) (h : Host)
    → h.point ≡ looping
    → h.status ≡ pro_running
    → thread_steps n e t h ≡ h
unfolding thread_steps thread_step
steps-running zero e t h p s = refl
steps-running (suc n) e t h p s =
    ap (thread_steps n e t) (ap (λ q. thread_at q e t h) p ∙ ap (λ q. test q h) s)
    ∙ steps-running n e t h p s

-- A `stop` that comes before the new thread has set `status_` is lost: if both inits succeed, the
-- thread runs on for ever, and a `join` does not come back.
pub stop_lost :
    (n : ℕ) (h : Host)
    → h.point ≡ launched
    → h.joined ≡ false
    → join (thread_steps (suc n) true true (stop h)) ≡ waits_on
unfolding thread_steps thread_step stop join
stop_lost n h p j =
    let started = record h { status = pro_running; point = looping } in
    ap (λ q. join (thread_steps n true true (thread_at q true true (stop h)))) p
    ∙ ap join (steps-running n true true started refl refl)
    ∙ ap (λ b. join_at looping b started) j

abbrev pub ended_joined : List ℕ → Host
ended_joined cos = record { status = pro_stopped; point = returned; joined = true; co_set = cos }

stop-ended :
    (n : ℕ) (e t : Bool) (h : Host)
    → h.point ≡ looping
    → thread_steps (suc n) e t (stop h) ≡ record h { status = pro_stopped; point = returned }
unfolding thread_steps thread_step stop
stop-ended n e t h p =
    ap (λ q. thread_steps n e t (thread_at q e t (stop h))) p
    ∙ steps-returned n e t (record h { status = pro_stopped; point = returned }) refl

-- The first test of the destructor: behind it, the status is PRO_STOPPING.
first_test :
    (st : ProStatus) (h : Host)
    → h.status ≡ st
    → st ≢ pro_stopped
    → (if is_running st then stop h else h) ≡ stop h
unfolding stop
first_test pro_running h e ne = refl
first_test pro_stopping h e ne = ap (λ s. record h { status = s }) e
first_test pro_stopped h e ne = absurd (ne refl)

-- A thread that has returned and was not joined.
end_thread-returned :
    (e t : Bool) (n : ℕ) (h : Host)
    → h.joined ≡ false
    → end_thread e t n (record h { status = pro_stopped; point = returned }) ≡ aborts
unfolding end_thread finish
end_thread-returned e t n h j =
    let ended = record h { status = pro_stopped; point = returned } in
    ap (λ b. and_then (delete_loop returned b ended) (λ h2. delete_cos h2.co_set h2)) j

end_thread-looping :
    (n : ℕ) (e t : Bool) (h : Host)
    → h.point ≡ looping
    → h.joined ≡ false
    → end_thread e t (suc n) (stop h) ≡ delete_cos h.co_set (ended_joined h.co_set)
unfolding end_thread finish stop
end_thread-looping n e t h p j = ap (λ q. and_then q finish) (stop_ends n e t h p j)

-- The destructor of a processor races with its thread. It stops a thread that is in its loop, if
-- nobody has. If the thread has not taken its next step when the destructor tests the status again,
-- the destructor joins it, and comes to the loop that deletes what is in `coSet_` once the thread has
-- taken a step. If the thread has taken it, it has returned with the status PRO_STOPPED, nothing is
-- joined, and deleting the thread ends the program; so it does if the thread has returned, after a
-- `stop`, before the destructor runs.
pub destroy_race :
    (m n : ℕ) (e t : Bool) (h : Host)
    → h.point ≡ looping
    → h.joined ≡ false
    → h.status ≢ pro_stopped
    → (destroy e t 0 (suc n) h ≡ delete_cos h.co_set (ended_joined h.co_set))
      × (destroy e t (suc m) n h ≡ aborts)
      × ((k : ℕ) → destroy e t m n (thread_steps (suc k) e t (stop h)) ≡ aborts)
unfolding destroy thread_steps
destroy_race m n e t h p j ne =
    let stopped = first_test h.status h refl ne in
    let ended = record h { status = pro_stopped; point = returned } in
    let lost = end_thread-returned e t n h j in
    (
      ap (end_thread e t (suc n)) stopped ∙ end_thread-looping n e t h p j,
      ap (λ q. end_thread e t n (thread_steps (suc m) e t q)) stopped
          ∙ ap (end_thread e t n) (stop-ended m e t h p)
          ∙ lost,
      λ k.
          ap (destroy e t m n) (stop-ended k e t h p)
          ∙ ap (end_thread e t n) (steps-returned m e t ended refl)
          ∙ lost,
    )

abbrev pub InLoop : Host → Type 0
InLoop h = (h.point ≡ looping) × (h.joined ≡ false)

abbrev pub is_empty : List ℕ → Bool
is_empty [] = true
is_empty (co ∷ cos) = false

-- Whether no coroutine is left on any processor.
pub all_empty : List Host → Bool
all_empty [] = true
all_empty (h ∷ hs) = is_empty h.co_set && all_empty hs

stuck-delete_cos :
    (cos : List ℕ) (h : Host) (b : Bool) (rest : Option Fate)
    → rest ≡ (if b then none else some bad_delete)
    → stuck (delete_cos cos h) rest ≡ (if is_empty cos && b then none else some bad_delete)
unfolding delete_cos
stuck-delete_cos [] h b rest e = e
stuck-delete_cos (co ∷ cos) h b rest e = refl

-- The destructor of a processor whose thread was joined.
destroy-joined :
    (m n : ℕ) (cos : List ℕ)
    → destroy true true m n (ended_joined cos) ≡ delete_cos cos (ended_joined cos)
unfolding destroy end_thread finish
destroy-joined m n cos =
    ap (end_thread true true n) (steps-returned m true true (ended_joined cos) refl)

-- The destructor of the scheduler, with all threads in their loops: every join comes back, and no
-- thread is deleted that was not joined. It comes to its end if no coroutine is left in any `coSet_`;
-- otherwise a destructor of a processor calls `delete` for a coroutine, which is memory of a pool.
pub destroy_scheduler_ends :
    (n : ℕ) (hs : List Host)
    → All InLoop hs
    → destroy_scheduler (suc n) hs ≡ (if all_empty hs then none else some bad_delete)
unfolding destroy_scheduler stop_all join_all all_empty
destroy_scheduler_ends n [] all = refl
destroy_scheduler_ends n (h ∷ hs) ((p, j), all) =
    let rest = destroy_scheduler (suc n) hs in
    ap (λ q. stuck (and_then q (destroy true true (suc n) (suc n))) rest)
      (stop_ends n true true h p j)
    ∙ ap (λ q. stuck q rest) (destroy-joined (suc n) (suc n) h.co_set)
    ∙ stuck-delete_cos h.co_set (ended_joined h.co_set) (all_empty hs) rest
        (destroy_scheduler_ends n hs all)

-- The destructor of a scheduler whose first thread has not yet come to its loop: it never comes back.
pub destroy_scheduler_early :
    (n m : ℕ) → destroy_scheduler (suc n) (start_scheduler (suc m)) ≡ some waits_on
unfolding destroy_scheduler start_scheduler stop_all join_all loop
destroy_scheduler_early n m =
    ap
      (λ q.
        stuck (and_then q (destroy true true (suc n) (suc n)))
          (join_all (suc n) (stop_all (start_scheduler m))))
      (stop_lost n (loop new_host) refl refl)

-- `sche_join` on threads of which the first is in its loop: as long as nobody calls `stop`, it does
-- not come back.
pub scheduler_join_waits :
    (n : ℕ) (h : Host) (hs : List Host)
    → InLoop h
    → h.status ≡ pro_running
    → scheduler_join n (h ∷ hs) ≡ some waits_on
unfolding scheduler_join join
scheduler_join_waits n h hs (p, j) s =
    ap (λ q. stuck q (scheduler_join n hs))
      (ap join (steps-running n true true h p s)
        ∙ ap (λ q. join_at q h.joined h) p
        ∙ ap (λ b. join_at looping b h) j)
