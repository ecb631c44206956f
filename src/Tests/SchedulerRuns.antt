-- ===== src/Tests/SchedulerRuns.antt =====
-- Runs of src/task/Scheduler.h with the queue of Task.Scheduler.Minimum.
use mathlib.Core.List.{Perm, not-mem-nil}
use npp.Common.{ℕ, ◌+◌, ◌≤◌, All, ◌≡◌, ◌≢◌, refl, false, true, [], ◌∷◌, arith}
use npp.Task.Scheduler.{
  DelayedExecutable, locking, waiting, exited, shutdown, deactivate, timed, running, faulted,
  Scheduler, init, delayed, worker_step, time_out, execute, clear_queue, Reach, here, next,
  executes, works, ticks,
}
use npp.Task.Scheduler.Ending.{work, destructor_cases}
use npp.Task.Scheduler.Minimum.{minimum_queue}
use npp.Task.Scheduler.Order.{IsPunctual, Reach-IsPunctual}
use npp.Task.Scheduler.Sleep.{IsNew, after_suspend, sleep_lem}
use npp.Task.Scheduler.Races.{queued_then_timed_out, timed_out_loses_job, timed_out_after_clear}

abbrev started : Scheduler minimum_queue
started = execute minimum_queue (init minimum_queue 100) 7 0 0

abbrev after_job : Scheduler minimum_queue
after_job =
    worker_step minimum_queue (worker_step minimum_queue (worker_step minimum_queue started))

job_ran : after_job.executed ≡ (delayed 100 7 0, 100) ∷ []
unfolding init worker_step execute
job_ran = refl

Reach-after_job : Reach minimum_queue (init minimum_queue 100) after_job
Reach-after_job =
    next (next (next (next here (executes 7 0 0 refl)) (works refl)) (works refl)) (works refl)

Reach-IsPunctual_example : IsPunctual minimum_queue after_job
Reach-IsPunctual_example = Reach-IsPunctual minimum_queue 100 Reach-after_job

-- The thread waits for a job of the time 500; it is 100.
abbrev late : DelayedExecutable
late = record { func = 7; scheduled_time = 500 }

abbrev sleeping : Scheduler minimum_queue
sleeping = record {
  is_active = true;
  queue = late ∷ [];
  phase = timed late;
  to_notify = 0;
  now = 100;
  executed = [];
}

timed_out_loses_job_example :
    let t = queued_then_timed_out minimum_queue sleeping 8 390 5 5 in
    (t.phase ≡ running late) × Perm t.queue (late ∷ [])
timed_out_loses_job_example =
    timed_out_loses_job minimum_queue sleeping late 8 390 5 5 refl refl refl (omega arith)

timed_out_after_clear_example :
    (time_out minimum_queue (clear_queue minimum_queue sleeping)).phase ≡ faulted
timed_out_after_clear_example = timed_out_after_clear minimum_queue sleeping late refl

idle-IsNew : IsNew minimum_queue 7 (init minimum_queue 100)
unfolding init
idle-IsNew = record {
  not_queued = λ e m. absurd (not-mem-nil m);
  not_in_phase = λ from. tt;
  not_run = λ from. tt;
}

-- The scheduler's thread runs the job of the sleeper 3 milliseconds later.
abbrev slept : Scheduler minimum_queue
slept =
    let s = after_suspend minimum_queue (init minimum_queue 100) 7 3 0 in
    let t = record s { now = s.now + 3 } in
    worker_step minimum_queue (worker_step minimum_queue (worker_step minimum_queue t))

sleeper_ran : slept.executed ≡ (delayed 100 7 3, 103) ∷ []
unfolding init worker_step execute after_suspend
sleeper_ran = refl

sleep_lem_example :
    All
      (λ (p : DelayedExecutable × ℕ). p.0.func ≡ 7 → (init minimum_queue 100).now + 3 ≤ p.1)
      slept.executed
sleep_lem_example =
    sleep_lem minimum_queue 100 7 3 0 here idle-IsNew
      (next (next (next (next here (ticks 3 refl)) (works refl)) (works refl)) (works refl)) tt

destructor_cases_example :
    (timed late ≢ locking
      → (work minimum_queue 2 (shutdown minimum_queue false sleeping)).phase ≡ exited)
    × (timed late ≡ locking
        → let t = worker_step minimum_queue (shutdown minimum_queue false sleeping) in
          (t.phase ≡ waiting)
          × (worker_step minimum_queue t ≡ t)
          × ((f delay later : ℕ) → execute minimum_queue t f delay later ≡ t))
    × ((e : DelayedExecutable)
        → timed late ≡ timed e
        → (time_out minimum_queue
            (clear_queue minimum_queue (deactivate minimum_queue sleeping))).phase
          ≡ faulted)
destructor_cases_example = destructor_cases minimum_queue sleeping (λ e. cc)
