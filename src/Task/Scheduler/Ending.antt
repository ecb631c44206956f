-- ===== src/Task/Scheduler/Ending.antt =====
-- src/task/Scheduler.h: the destructor of a scheduler, which calls `shutdown(false)` and `join`.
use npp.Common.{ℕ, zero, suc, ◌≡◌, ◌≢◌, refl, false, arith}
use npp.Task.Scheduler.{
  DelayedExecutable, PriorityQueue, Phase, testing, locking, waiting, woken, exited, faulted, timed,
  running, Scheduler, worker_step, time_out, execute, clear_queue, deactivate, shutdown,
}
use npp.Task.Scheduler.Races.{top-empty, timed_out_after_clear}

module _ (pq : PriorityQueue) where
  -- The thread of `run_loop`, undisturbed, for some steps.
  pub work : ℕ → Scheduler pq → Scheduler pq
  work zero s = s
  work (suc n) s = work n (worker_step pq s)

  destroyed :
      (s : Scheduler pq) (p : Phase)
      → s.phase ≡ p
      → p ≢ locking
      → p ≢ faulted
      → (work 2 (shutdown pq false s)).phase ≡ exited
  unfolding work worker_step shutdown
  destroyed s testing h d f = ground (arith, top-empty pq)
  destroyed s locking h d f = absurd (d refl)
  destroyed s waiting h d f = ground (arith, top-empty pq)
  destroyed s woken h d f = ground (arith, top-empty pq)
  destroyed s exited h d f = ground (arith, top-empty pq)
  destroyed s faulted h d f = absurd (f refl)
  destroyed s (timed e) h d f = ground (arith, top-empty pq)
  destroyed s (running e) h d f = ground (arith, top-empty pq)

  -- How the destructor of a scheduler that has not faulted goes, where no other thread disturbs
  -- it. The thread ends in two steps at most, a job that is running apart, unless it is between
  -- the test of its loop and the lock: then it waits, makes no step, and takes no later job. Where
  -- its timed wait times out between the clearing of the queue and the notification, it pops an
  -- empty queue.
  pub destructor_cases :
      (s : Scheduler pq)
      → s.phase ≢ faulted
      → (s.phase ≢ locking → (work 2 (shutdown pq false s)).phase ≡ exited)
        × (s.phase ≡ locking
            → let t = worker_step pq (shutdown pq false s) in
              (t.phase ≡ waiting)
              × (worker_step pq t ≡ t)
              × ((f delay later : ℕ) → execute pq t f delay later ≡ t))
        × ((e : DelayedExecutable)
            → s.phase ≡ timed e
            → (time_out pq (clear_queue pq (deactivate pq s))).phase ≡ faulted)
  unfolding worker_step shutdown execute deactivate
  destructor_cases s n = (
    λ d. destroyed s s.phase refl d n,
    λ p. (
      ground (arith, top-empty pq),
      ground (arith, top-empty pq),
      λ f delay later. ground (arith, top-empty pq),
    ),
    λ e p. timed_out_after_clear pq (deactivate pq s) e p,
  )
