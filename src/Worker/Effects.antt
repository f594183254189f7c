-- ===== src/Worker/Effects.antt =====
-- What a slice of a coroutine does to the places of the others and to its own (src/processor.cc).
use net_lib.Prelude.{
  ℕ, suc, ◌+◌, ◌*◌, ◌≡◌, refl, sym, ap, ◌∙◌, inl, inr, true, false, some, List, [], ◌∷◌, ◌++◌,
  member, length, ◌==◌, if◌then◌else◌, Bool-cases, arith,
}
use net_lib.Prelude.Family.{update, update_self}
use net_lib.Coroutine.{CoStatus, co_ready, co_waiting, co_running, co_dead, resume, yield}
use net_lib.Processor.{
  Processor, Slice, Ending, yields, finishes, sleeps, waits_event, go_each, end_slice, run_slice,
  switch_to, resume_co,
}
use net_lib.Processor.Ended.{count, count-append, ended, go_each-Same}
use net_lib.Timer.{Timer}
use net_lib.Epoller.{Epoller, add_ev}
use net_lib.Worker.{
  Watch, Worker, Visit, end_watch, end_timer, unwatch, wake_each, visited, will_run,
}
use net_lib.Worker.Places.{loose, queued, entry_cos, watch_cos, asleep}
use net_lib.Worker.Frame.{go_each-Queues, run_after-count, wake_each-heap}

-- Where the slice leaves its coroutine: the status, and the number of places of each kind.
abbrev pub status_behind : Ending → CoStatus
status_behind finishes = co_running
status_behind yields = co_waiting
status_behind (sleeps time) = co_waiting
status_behind (waits_event fd ev added) = co_waiting

abbrev pub ended_behind : Ending → ℕ
ended_behind finishes = 1
ended_behind _ = 0

-- The processor behind a slice of `co`.
pub record Ran (gos : List ℕ) (e : Ending) (co : ℕ) (p q : Processor) : Type 0 where
  pub queue_sum : (c : ℕ) → queued c q ≡ queued c p + count c gos
  pub end_sum : (c : ℕ) → ended c q ≡ ended c p + (if c == co then ended_behind e else 0)
  pub own : q.co_status co ≡ status_behind e
  pub others : (c : ℕ) → (c == co) ≡ false → q.co_status c ≡ p.co_status c
  pub co_set : q.co_set ≡ p.co_set
  pub ran : q.ran ≡ p.ran ++ co ∷ []

-- The processor behind the calls of `goCo` in the slice.
record Gone (gos : List ℕ) (co : ℕ) (p q : Processor) : Type 0 where
  queue_sum : (c : ℕ) → queued c q ≡ queued c p + count c gos
  end_sum : (c : ℕ) → ended c q ≡ ended c p
  own : q.co_status co ≡ co_running
  others : (c : ℕ) → (c == co) ≡ false → q.co_status c ≡ p.co_status c
  co_set : q.co_set ≡ p.co_set
  ran : q.ran ≡ p.ran ++ co ∷ []

waiting-Ran :
    (gos : List ℕ) (e : Ending) (co : ℕ) (p q : Processor)
    → ended_behind e ≡ 0
    → status_behind e ≡ co_waiting
    → Gone gos co p q
    → Ran gos e co p (record q { co_status = update q.co_status co (yield (q.co_status co)) })
waiting-Ran gos e co p q z w v = record {
  queue_sum = v.queue_sum;
  end_sum = λ c. ground (arith, v.end_sum c);
  own = update_self q.co_status co co_waiting ∙ sym w;
  others = λ c ne. ground (arith, v.others c ne);
  co_set = v.co_set;
  ran = v.ran;
}

end_slice-Ran :
    (gos : List ℕ) (e : Ending) (co : ℕ) (p q : Processor)
    → Gone gos co p q
    → Ran gos e co p (end_slice e co q)
end_slice-Ran gos yields co p q v = waiting-Ran gos yields co p q refl refl v
end_slice-Ran gos (sleeps time) co p q v = waiting-Ran gos (sleeps time) co p q refl refl v
end_slice-Ran gos (waits_event fd ev added) co p q v =
    waiting-Ran gos (waits_event fd ev added) co p q refl refl v
end_slice-Ran gos finishes co p q v = record {
  queue_sum = v.queue_sum;
  end_sum = λ c. ground (arith, v.end_sum c, count-append c q.removed (co ∷ []));
  own = v.own;
  others = v.others;
  co_set = v.co_set;
  ran = v.ran;
}

run_slice-Ran :
    (s : Slice) (co : ℕ) (p : Processor)
    → p.co_status co ≡ co_running
    → Ran s.goes s.ending co p (run_slice (λ _. s) co p)
unfolding run_slice
run_slice-Ran s co p e =
    let q : Processor = record p { slices = suc p.slices; ran = p.ran ++ co ∷ [] } in
    let (a, b, d) = go_each-Same s.goes q in
    let v = go_each-Queues s.goes q in
    end_slice-Ran s.goes s.ending co p (go_each s.goes q) (record {
      queue_sum = v.added;
      end_sum = λ c. omega (arith, ap (count c) b, ap (count c) d);
      own = ap (λ f. f co) a ∙ e;
      others = λ c ne. ap (λ f. f c) a;
      co_set = v.co_set;
      ran = v.ran;
    })

resume-running : (st : CoStatus) → (resume st).1 ≡ true → (resume st).0 ≡ co_running
resume-running co_ready h = refl
resume-running co_waiting h = refl
resume-running co_running h = refl
resume-running co_dead h = ground arith

Ran-started :
    (gos : List ℕ) (e : Ending) (co : ℕ) (p q : Processor)
    → Ran gos e co (record p { cur = some co; co_status = update p.co_status co co_running }) q
    → Ran gos e co p q
Ran-started gos e co p q v = record {
  queue_sum = v.queue_sum;
  end_sum = v.end_sum;
  own = v.own;
  others = λ c ne. ground (arith, v.others c ne);
  co_set = v.co_set;
  ran = v.ran;
}

pub resume_co-Ran :
    (s : Slice) (co : ℕ) (p : Processor)
    → will_run co p ≡ true
    → Ran s.goes s.ending co p (resume_co (λ _. s) (some co) p)
unfolding resume_co switch_to
resume_co-Ran s co p h =
    let present : member co p.co_set ≡ true = ground (arith, h) in
    let kept : member co p.deleted ≡ false = ground (arith, h) in
    let switched : (resume (p.co_status co)).1 ≡ true = ground (arith, h) in
    let started : Processor = record p {
      cur = some co;
      co_status = update p.co_status co co_running;
    } in
    rw (present, kept, switched, resume-running (p.co_status co) switched)
      (Ran-started s.goes s.ending co p _
        (run_slice-Ran s co started (update_self p.co_status co co_running)))

-- How many places asleep the end of a slice gives its coroutine.
abbrev pub asleep_behind : Ending → ℕ → Epoller → ℕ
asleep_behind (sleeps time) co e = 1
asleep_behind (waits_event fd ev added) co e = if (add_ev added (some co) fd ev e).1 then 1 else 0
asleep_behind finishes co e = 0
asleep_behind yields co e = 0

end_timer-count :
    (n : Ending) (c co k : ℕ) (clock : ℕ → ℕ) (t : Timer) (e : Epoller)
    → count c (entry_cos (end_timer n co clock k t).heap) + count c (watch_cos (end_watch n co e).0)
      ≡ count c (entry_cos t.heap) + (if c == co then asleep_behind n co e else 0)
end_timer-count yields c co k clock t e = ground arith
end_timer-count finishes c co k clock t e = ground arith
end_timer-count (sleeps time) c co k clock t e =
    ground (arith, run_after-count c time co (clock k) (clock (k + 1)) t)
end_timer-count (waits_event fd ev added) c co k clock t e =
    elim (Bool-cases (add_ev added (some co) fd ev e).1) [
      | inl ok ↦ rw ok (ground arith)
      | inr refused ↦ rw refused (ground arith)
    ]

pub watch-append-count :
    (c : ℕ) (us ws : List Watch)
    → count c (watch_cos (us ++ ws)) ≡ count c (watch_cos us) + count c (watch_cos ws)
watch-append-count c [] ws = omega arith
watch-append-count c (u ∷ us) ws = omega (arith, watch-append-count c us ws)

pub visited-asleep :
    (v : Visit) (c co : ℕ) (p : Processor) (w : Worker)
    → asleep c (visited v co p w)
      ≡ asleep c (loose co w) + (if c == co then asleep_behind v.slice.ending co w.epoller else 0)
visited-asleep v c co p w =
    let woken = wake_each v.clock 0 v.slice.goes w.timer in
    omega (
      arith,
      end_timer-count v.slice.ending c co (2 * length v.slice.goes) v.clock woken w.epoller,
      ap (λ h. count c (entry_cos h)) (wake_each-heap v.clock 0 v.slice.goes w.timer),
      watch-append-count c (end_watch v.slice.ending co w.epoller).0 (unwatch co w.watched),
    )
