-- ===== src/Task/Scheduler/Order.antt =====
-- src/task/Scheduler.h: no job runs before its time, and who is notified.
use npp.Common.{ℕ, ◌+◌, ◌≤◌, ◌≡◌, refl, List, [], ◌∷◌, ◌++◌, All, arith}
use npp.Task.Scheduler.{
  DelayedExecutable, PriorityQueue, Phase, testing, timed, running, Scheduler, init, worker_step,
  time_out, wake, execute, deactivate, clear_queue, announce, Step, Reach, works, times_out,
  executes, deactivates, clears, announces, notifies, wakes, ticks, here, next,
}

-- A job that is run begins no earlier than its time.
abbrev pub Due : DelayedExecutable × ℕ → Type 0
Due (e, at) = e.scheduled_time ≤ at

abbrev pub RunningDue : ℕ → Phase → Type 0
RunningDue now (running e) = e.scheduled_time ≤ now
RunningDue now _ = Unit {0}

All-snoc :
    (xs : List (DelayedExecutable × ℕ)) (x : DelayedExecutable × ℕ)
    → All Due xs
    → Due x
    → All Due (xs ++ x ∷ [])
All-snoc [] x a d = (d, tt)
All-snoc (y ∷ ys) x a d = (a.0, All-snoc ys x a.1 d)

module _ (pq : PriorityQueue) where
  pub record IsPunctual (s : Scheduler pq) : Type 0 where
    pub ran : All Due s.executed
    pub runs : RunningDue s.now s.phase

  RunningDue-later : (now n : ℕ) (p : Phase) → RunningDue now p → RunningDue (now + n) p
  RunningDue-later now n (running e) r = omega arith
  RunningDue-later now n testing r = tt
  RunningDue-later now n _ r = tt

  worker-IsPunctual :
      (s : Scheduler pq) (p : Phase) → s.phase ≡ p → IsPunctual s → IsPunctual (worker_step pq s)
  unfolding worker_step
  worker-IsPunctual s (running e) h v = ground (arith, All-snoc s.executed (e, s.now) v.ran)
  worker-IsPunctual s testing h v = ground arith
  worker-IsPunctual s _ h v = ground arith

  time_out-IsPunctual :
      (s : Scheduler pq) (e : DelayedExecutable)
      → s.phase ≡ timed e
      → e.scheduled_time ≤ s.now
      → IsPunctual s
      → IsPunctual (time_out pq s)
  unfolding time_out
  time_out-IsPunctual s e h d v = ground arith

  wake-IsPunctual :
      (s : Scheduler pq) (p : Phase) → s.phase ≡ p → IsPunctual s → IsPunctual (wake pq s)
  unfolding wake
  wake-IsPunctual s testing h v = ground arith
  wake-IsPunctual s _ h v = ground arith

  Step-IsPunctual : {s t : Scheduler pq} → Step pq s t → IsPunctual s → IsPunctual t
  unfolding deactivate clear_queue announce execute
  Step-IsPunctual {s} (works e) v = rw e (worker-IsPunctual s s.phase refl v)
  Step-IsPunctual {s} (times_out x h d e) v = rw e (time_out-IsPunctual s x h d v)
  Step-IsPunctual {s} (executes f d l e) v = ground (arith, RunningDue-later s.now l s.phase v.runs)
  Step-IsPunctual {s} (deactivates e) v = ground arith
  Step-IsPunctual {s} (clears h e) v = ground arith
  Step-IsPunctual {s} (announces h e) v = ground arith
  Step-IsPunctual {s} (notifies h e) v =
      rw e (wake-IsPunctual _ s.phase refl (record { ran = v.ran; runs = v.runs }))
  Step-IsPunctual {s} (wakes e) v = rw e (wake-IsPunctual s s.phase refl v)
  Step-IsPunctual {s} (ticks n e) v = ground (arith, RunningDue-later s.now n s.phase v.runs)

  -- Whatever threads do, with spurious wake-ups and shutdowns, and a clock that does not run backwards:
  -- every job that was run began no earlier than the time that `execute` had set for it, and so it is
  -- for the one that is running.
  pub Reach-IsPunctual : (now : ℕ) {s : Scheduler pq} → Reach pq (init pq now) s → IsPunctual s
  unfolding init
  Reach-IsPunctual now here = record { ran = tt; runs = tt }
  Reach-IsPunctual now (next r st) = Step-IsPunctual st (Reach-IsPunctual now r)
