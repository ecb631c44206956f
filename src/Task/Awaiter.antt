-- ===== src/Task/Awaiter.antt =====
-- src/task/CommonAwaiter.h: the state of an awaiter and its resumption. The specialisation for
-- `void` is the type at `Unit`. A coroutine handle and an executor are their addresses.
use npp.Common.{ℕ, Option, none, some}
use npp.Common.Outcome.{Outcome, ok, fault, ◌>>=◌}
use npp.Basic.Exception.{Exception}
use npp.Task.Result.{Result, of_value, of_exception, get_or_throw}

pub record Awaiter (A : Type 0) : Type 0 where
  pub result : Option (Result A)
  pub executor : Option ℕ
  pub handle : Option ℕ

-- The closures that `resume`, `resume_unsafe` and `resume_exception` hand to `dispatch`.
pub data Job (A : Type 0) : Type 0 where
  set_value : A → Job A
  only_resume : Job A
  set_exception : Exception → Job A

-- What a call of `dispatch` does: it hands the closure to the executor, or runs it at once, which
-- changes the awaiter and resumes the handle.
pub data Dispatched (A : Type 0) : Type 0 where
  posted : ℕ → Job A → Dispatched A
  resumed : ℕ → Awaiter A → Dispatched A

module _ {A : Type 0} where
  unfoldable pub init : Awaiter A
  init = record { result = none; executor = none; handle = none }

  unfoldable pub install_executor : Awaiter A → ℕ → Awaiter A
  install_executor a executor = record a { executor = some executor }

  -- `await_suspend` up to the virtual call of `after_suspend`.
  unfoldable pub await_suspend : Awaiter A → ℕ → Awaiter A
  await_suspend a handle = record a { handle = some handle }

  unfoldable pub set_result : A → Awaiter A → Job A → Awaiter A
  set_result default a (set_value v) = record a { result = some (of_value v) }
  set_result default a only_resume = a
  set_result default a (set_exception e) = record a { result = some (of_exception default e) }

  -- The body of a closure: resuming a null handle is undefined.
  unfoldable pub run_job : A → Awaiter A → Job A → Outcome Exception (ℕ × Awaiter A)
  unfolding set_result
  run_job default a job = elim a.handle [
    | none ↦ fault
    | some handle ↦ ok (handle, set_result default a job)
  ]

  unfoldable pub dispatch : A → Awaiter A → Job A → Outcome Exception (Dispatched A)
  unfolding run_job
  dispatch default a job = elim a.executor [
    | some executor ↦ ok (posted executor job)
    | none ↦ run_job default a job >>= λ p. ok (resumed p.0 p.1)
  ]

  unfoldable pub resume : A → Awaiter A → A → Outcome Exception (Dispatched A)
  unfolding dispatch
  resume default a value = dispatch default a (set_value value)

  unfoldable pub resume_unsafe : A → Awaiter A → Outcome Exception (Dispatched A)
  unfolding dispatch
  resume_unsafe default a = dispatch default a only_resume

  unfoldable pub resume_exception : A → Awaiter A → Exception → Outcome Exception (Dispatched A)
  unfolding dispatch
  resume_exception default a e = dispatch default a (set_exception e)

  -- `_result->get_or_throw()`: an empty `optional` is not to be read.
  unfoldable pub take_result : Awaiter A → Outcome Exception A
  unfolding get_or_throw
  take_result a = elim a.result [ none ↦ fault | some r ↦ get_or_throw r ]
