-- ===== src/Task/Looper/Shutdown.antt =====
-- src/task/Executor.h: the end of a `LooperExecutor`.
use npp.Common.{
  ◌≢◌, ◌∙◌, ℕ, zero, suc, ◌+◌, ◌*◌, ◌≡◌, refl, ap, ◌⊎◌, inl, inr, Bool, true, false, List, [], ◌∷◌,
  ◌++◌, length, arith, append_assoc, append-nil,
}
use npp.Task.Looper.{
  Looper, Phase, running, woken, shutdown, exited, testing, locking, waiting, worker_step, execute,
  work, deactivate, clear_queue, wake,
}

last_test :
    (s : Looper)
    → s.phase ≡ testing
    → s.is_active ≡ false
    → s.queue ≡ []
    → worker_step s ≡ record s { phase = exited; queue = []; executed = s.executed ++ [] }
unfolding worker_step
last_test s p a q = ground (arith, append-nil s.executed)

-- One round of the loop: the test, the front of the queue, the job.
round :
    (j : ℕ) (jobs : List ℕ) (s : Looper)
    → s.phase ≡ testing
    → s.queue ≡ j ∷ jobs
    → worker_step (worker_step (worker_step s))
      ≡ record s { phase = testing; queue = jobs; executed = s.executed ++ j ∷ [] }
unfolding worker_step
round j jobs s p q = ground arith

-- Where the flag is down, as after `shutdown(true)`, and the thread is at the test of its loop: if nothing
-- else happens the thread runs all that is queued, in order, and ends, in three steps for each job and
-- one more.
pub shutdown_drains :
    (jobs : List ℕ) (s : Looper)
    → s.phase ≡ testing
    → s.is_active ≡ false
    → s.queue ≡ jobs
    → work (length jobs * 3 + 1) s
      ≡ record s { phase = exited; queue = []; executed = s.executed ++ jobs }
unfolding work
shutdown_drains [] s p a q = last_test s p a q
shutdown_drains (j ∷ jobs) s p a q =
    ap (λ (n : ℕ). work n s) three_more
    ∙ (ap (work (length jobs * 3 + 1)) (round j jobs s p q)
        ∙ (shutdown_drains jobs _ refl a refl
            ∙ ap (λ (es : List ℕ). record s { phase = exited; queue = []; executed = es })
                (append_assoc s.executed (j ∷ []) jobs)))
  where
    three_more : suc (length jobs) * 3 + 1 ≡ suc (suc (suc (length jobs * 3 + 1)))
    three_more = omega arith

-- The thread waits for a notification that will not come.
pub record IsStuck (s : Looper) : Type 0 where
  pub waits : s.phase ≡ waiting
  pub inactive : s.is_active ≡ false
  pub nothing_queued : s.queue ≡ []
  pub nothing_due : s.to_notify ≡ 0

-- The destructor may wait for ever. Where the thread has passed the test of its loop and the executor
-- is shut down before it takes the lock, with nothing queued, it goes on to wait with no notification
-- due; it then makes no step, and no later `execute` changes anything.
pub shutdown_race :
    (wait_for_complete : Bool) (s : Looper)
    → s.phase ≡ locking
    → s.queue ≡ []
    → s.to_notify ≡ 0
    → let t = worker_step (shutdown wait_for_complete 0 0 s) in
      IsStuck t × (worker_step t ≡ t) × ((j : ℕ) → execute t j ≡ t)
unfolding worker_step shutdown execute work
shutdown_race true s p q n = (ground arith, ground arith, λ j. ground arith)
shutdown_race false s p q n = (ground arith, ground arith, λ j. ground arith)

-- What holds after the clearing, whatever steps the thread has made.
record IsCleared (s : Looper) : Type 0 where
  inactive : s.is_active ≡ false
  nothing_queued : s.queue ≡ []
  nothing_due : s.to_notify ≡ 0

worker-IsCleared : (s : Looper) (p : Phase) → s.phase ≡ p → IsCleared s → IsCleared (worker_step s)
unfolding worker_step
worker-IsCleared s testing h c = ground (arith, h, c.inactive, c.nothing_queued, c.nothing_due)
worker-IsCleared s locking h c = ground (arith, h, c.inactive, c.nothing_queued, c.nothing_due)
worker-IsCleared s waiting h c = ground (arith, h, c.inactive, c.nothing_queued, c.nothing_due)
worker-IsCleared s woken h c = ground (arith, h, c.inactive, c.nothing_queued, c.nothing_due)
worker-IsCleared s exited h c = ground (arith, h, c.inactive, c.nothing_queued, c.nothing_due)
worker-IsCleared s (running j) h c = ground (arith, h, c.inactive, c.nothing_queued, c.nothing_due)

work-IsCleared : (n : ℕ) (s : Looper) → IsCleared s → IsCleared (work n s)
unfolding work
work-IsCleared zero s c = c
work-IsCleared (suc n) s c = work-IsCleared n (worker_step s) (worker-IsCleared s s.phase refl c)

queue-cases : (q : List ℕ) → (q ≡ []) ⊎ ((j : ℕ) × (js : List ℕ) × (q ≡ j ∷ js))
queue-cases [] = inl refl
queue-cases (j ∷ js) = inr (j, js, refl)

-- Before the clearing: the flag is down and no notification is due.
record IsDown (s : Looper) : Type 0 where
  inactive : s.is_active ≡ false
  nothing_due : s.to_notify ≡ 0

worker-IsDown : (s : Looper) (p : Phase) → s.phase ≡ p → IsDown s → IsDown (worker_step s)
unfolding worker_step
worker-IsDown s testing h c = ground (arith, h, c.inactive, c.nothing_due)
worker-IsDown s locking h c = ground (arith, h, c.inactive, c.nothing_due, queue-cases s.queue)
worker-IsDown s waiting h c = ground (arith, h, c.inactive, c.nothing_due)
worker-IsDown s woken h c = ground (arith, h, c.inactive, c.nothing_due, queue-cases s.queue)
worker-IsDown s exited h c = ground (arith, h, c.inactive, c.nothing_due)
worker-IsDown s (running j) h c = ground (arith, h, c.inactive, c.nothing_due)

work-IsDown : (n : ℕ) (s : Looper) → IsDown s → IsDown (work n s)
unfolding work
work-IsDown zero s c = c
work-IsDown (suc n) s c = work-IsDown n (worker_step s) (worker-IsDown s s.phase refl c)

notified :
    (s : Looper) (p : Phase)
    → s.phase ≡ p
    → IsCleared s
    → let t = wake s in
      (t.phase ≢ locking → (work 2 t).phase ≡ exited)
      × (t.phase ≡ locking
          → IsStuck (worker_step t)
            × (worker_step (worker_step t) ≡ worker_step t)
            × ((j : ℕ) → execute (worker_step t) j ≡ worker_step t))
unfolding work worker_step wake execute
notified s testing h c = ground (arith, h, c.inactive, c.nothing_queued, c.nothing_due)
notified s locking h c = (
  (λ d. absurd (ground (arith, d, h))),
  λ e. (
    ground (arith, h, c.inactive, c.nothing_queued, c.nothing_due),
    ground (arith, h, c.inactive, c.nothing_queued, c.nothing_due),
    λ j. ground (arith, h, c.inactive, c.nothing_queued, c.nothing_due),
  ),
)
notified s waiting h c = ground (arith, h, c.inactive, c.nothing_queued, c.nothing_due)
notified s woken h c = ground (arith, h, c.inactive, c.nothing_queued, c.nothing_due)
notified s exited h c = ground (arith, h, c.inactive, c.nothing_queued, c.nothing_due)
notified s (running j) h c = ground (arith, h, c.inactive, c.nothing_queued, c.nothing_due)

-- The destructor calls `shutdown(false)` and joins. Where no notification is due, no spurious wake-up
-- comes, and the thread makes any numbers of steps between those of `shutdown`: if the thread is between
-- the test of its loop and the lock when `shutdown` notifies, it waits for ever, and so does the
-- destructor; if it is elsewhere, it ends, in two steps at most. It is there, for one, where it was there
-- from the beginning and makes no step, and where it was at the test of its loop, a job was queued, and
-- it makes one step before the clearing.
pub destructor_lem :
    (before after : ℕ) (s : Looper)
    → s.to_notify ≡ 0
    → let t = shutdown false before after s in
      (t.phase ≢ locking → (work 2 t).phase ≡ exited)
      × (t.phase ≡ locking
          → IsStuck (worker_step t)
            × (worker_step (worker_step t) ≡ worker_step t)
            × ((j : ℕ) → execute (worker_step t) j ≡ worker_step t))
      × (s.phase ≡ locking → (shutdown false 0 0 s).phase ≡ locking)
      × ((j : ℕ) (jobs : List ℕ)
          → s.phase ≡ testing
          → s.queue ≡ j ∷ jobs
          → (shutdown false 1 0 s).phase ≡ locking)
unfolding shutdown deactivate clear_queue wake work worker_step
destructor_lem before after s n =
    let d = work-IsDown before (deactivate s) (record { inactive = refl; nothing_due = n }) in
    let u = work after (clear_queue (work before (deactivate s))) in
    let c =
      work-IsCleared after (clear_queue (work before (deactivate s)))
        (record { inactive = d.inactive; nothing_queued = refl; nothing_due = d.nothing_due }) in
    let (ends, stuck) = notified u u.phase refl c in
    (ends, stuck, (λ p. ground (arith, p)), λ j jobs p q. ground (arith, p, q))
