-- ===== src/Task/Scheduler/Sleep.antt =====
-- src/task/SleepAwaiter.h over src/task/Scheduler.h: a coroutine that sleeps goes on no earlier than it
-- asked for. The job of a sleeper is the address of its awaiter.
use mathlib.Core.List.{Mem}
use npp.Common.{ℕ, ◌+◌, ◌≤◌, ◌≡◌, ◌≢◌, refl, List, [], ◌∷◌, All, arith}
use npp.Task.Scheduler.{
  DelayedExecutable, PriorityQueue, Scheduler, init, execute, Reach, executes, here, next,
}
use npp.Task.Scheduler.Order.{Due, Reach-IsPunctual}
use npp.Task.Scheduler.Late.{NoMore, LatePhase, LateRun, IsLate, execute-IsLate, Reach-IsLate}

module _ (pq : PriorityQueue) where
  open pq use {Queue, items}

  Reach-trans : {s t u : Scheduler pq} → Reach pq s t → Reach pq t u → Reach pq s u
  Reach-trans a here = a
  Reach-trans a (next b st) = next (Reach-trans a b) st

  -- The awaiter has not slept before.
  pub record IsNew (f : ℕ) (s : Scheduler pq) : Type 0 where
    pub not_queued : (e : DelayedExecutable) → Mem e (items s.queue) → e.func ≢ f
    pub not_in_phase : (from : ℕ) → LatePhase f from s.phase
    pub not_run : (from : ℕ) → All (LateRun f from) s.executed

  -- `SleepAwaiter::after_suspend`: the scheduler gets the job of the awaiter.
  unfoldable pub after_suspend : Scheduler pq → ℕ → ℕ → ℕ → Scheduler pq
  after_suspend s awaiter duration later = execute pq s awaiter duration later

  both :
      (f from : ℕ) (xs : List (DelayedExecutable × ℕ))
      → All (LateRun f from) xs
      → All Due xs
      → All (λ (p : DelayedExecutable × ℕ). p.0.func ≡ f → from ≤ p.1) xs
  both f from [] a b = tt
  both f from ((e, at) ∷ xs) (a, la) (b, lb) =
      ((λ same. let h = a same in omega arith), both f from xs la lb)

  -- A coroutine that sleeps for a duration from some time on is not resumed before the duration has
  -- passed since then, whatever other threads do to the scheduler in between.
  pub sleep_lem :
      (now f duration later : ℕ) {s u : Scheduler pq}
      → Reach pq (init pq now) s
      → IsNew f s
      → (r : Reach pq (after_suspend s f duration later) u) → NoMore f r
      → All (λ (p : DelayedExecutable × ℕ). p.0.func ≡ f → s.now + duration ≤ p.1) u.executed
  unfolding after_suspend
  sleep_lem now f duration later {s} {u} before new r n =
      let from = s.now + duration in
      let start : IsLate f from pq s = record {
        queued = λ e m same. absurd (new.not_queued e m same);
        in_phase = new.not_in_phase from;
        ran = new.not_run from;
      } in
      let first : IsLate f from pq (execute pq s f duration later) =
        execute-IsLate f from pq s f duration later (λ same. omega arith) start in
      let last = Reach-IsLate f from pq r n first in
      let punctual =
        Reach-IsPunctual pq now (Reach-trans (next before (executes f duration later refl)) r) in
      both f from u.executed last.ran punctual.ran
