-- ===== src/Task/Executors.antt =====
-- The executors of src/task/Executor.h and src/task/ElasticExecutor.cpp beside each other, and
-- src/task/DispatchAwaiter.h, which hands the handle of its coroutine to one of them. A job is the
-- address of what is resumed.
pub mod Dispatching
use npp.Common.{ℕ, ◌≡◌, Bool, true, false, List, [], ◌∷◌, ◌++◌, if◌then◌else◌}
use npp.Task.Looper
use npp.Task.Looper.{Looper}
use npp.Task.Elastic.Crew.{Crew, new_crew, push_task}
use npp.Task.Elastic.Crew

-- The shared executors are one `LooperExecutor` and one `ElasticExecutor`.
pub data Executor : Type 0 where
  noop new_thread async looper elastic : Executor

-- `threads` are the jobs of detached threads that have not run. The last three fields are a record of
-- the jobs that were given, that were run by a caller or by a thread of their own, and that no executor
-- has taken.
pub record System : Type 0 where
  pub loop : Looper
  pub crew : Crew
  pub threads : List ℕ
  pub given : List ℕ
  pub ran : List ℕ
  pub refused : List ℕ

unfoldable pub new_system : System
new_system = record {
  loop = Looper.init;
  crew = new_crew;
  threads = [];
  given = [];
  ran = [];
  refused = [];
}

-- `execute` of each executor. The future of `std::async` is dropped at once: its destructor waits for
-- the job, unless the library has chosen to defer it, and then it is never run.
module _ (is_deferred : Bool) where
  unfoldable execute_on : Executor → ℕ → System → System
  execute_on noop j s = record s { ran = s.ran ++ j ∷ [] }
  execute_on new_thread j s = record s { threads = s.threads ++ j ∷ [] }
  execute_on async j s =
      if is_deferred
      then record s { refused = s.refused ++ j ∷ [] }
      else record s { ran = s.ran ++ j ∷ [] }
  execute_on looper j s = record s {
    loop = Looper.execute s.loop j;
    refused = if s.loop.is_active then s.refused else s.refused ++ j ∷ [];
  }
  execute_on elastic j s = record s { crew = push_task j s.crew }

  -- `DispatchAwaiter::await_suspend`.
  unfoldable pub suspend_on : Executor → ℕ → System → System
  unfolding execute_on
  suspend_on e handle s = execute_on e handle (record s { given = s.given ++ handle ∷ [] })

  -- The steps: a coroutine suspends itself, a detached thread runs, or a looper or a worker makes a step
  -- in which nothing is queued.
  pub data Step (s t : System) : Type 0 where
    dispatches : (e : Executor) (handle : ℕ) → t ≡ suspend_on e handle s → Step s t
    thread_runs :
        (j : ℕ) (before after : List ℕ)
        → s.threads ≡ before ++ j ∷ after
        → t ≡ record s { threads = before ++ after; ran = s.ran ++ j ∷ [] }
        → Step s t
    looper_steps :
        {l : Looper}
        → Looper.Step s.loop l
        → l.accepted ≡ s.loop.accepted
        → t ≡ record s { loop = l }
        → Step s t
    crew_steps :
        {c : Crew}
        → Crew.Step s.crew c
        → c.queued ≡ s.crew.queued
        → t ≡ record s { crew = c }
        → Step s t

  pub data Reach (s : System) : System → Type 0 where
    here : Reach s s
    next : {t u : System} → Reach s t → Step t u → Reach s u
