-- ===== src/Task/Promise.antt =====
-- src/task/TaskPromise.h and the methods of src/task/Task.h that reach the promise. The specialisation
-- for `void` is the type at `Unit`. Every operation holds `completion_lock`, so it is one step here.
pub mod Callbacks
pub mod Errors
use npp.Common.{ℕ, Bool, true, false, Option, none, some, List, [], ◌∷◌, ◌++◌, if◌then◌else◌}
use npp.Common.Outcome.{Outcome, ok, throw, abort, fault, ◌>>=◌}
use npp.Basic.Exception.{Exception, is_std}
use npp.Task.Result.{Result, of_value, of_exception, get_or_throw}

-- The closures that `Task::then`, `catching` and `finally` register, with the address of the
-- client's function.
pub data Callback : Type 0 where
  on_value : ℕ → Callback
  on_error : ℕ → Callback
  on_end : ℕ → Callback

-- A call of a client's function.
pub data Event (A : Type 0) : Type 0 where
  called_with : ℕ → A → Event A
  called_on : ℕ → Exception → Event A
  called : ℕ → Event A

-- What the client's functions do when they are called.
pub record Client (A : Type 0) : Type 0 where
  pub on_value_call : ℕ → A → Outcome Exception (Unit {0})
  pub on_error_call : ℕ → Exception → Outcome Exception (Unit {0})
  pub on_end_call : ℕ → Outcome Exception (Unit {0})

pub record Promise (A : Type 0) : Type 0 where
  pub result : Option (Result A)
  pub completion_callbacks : List Callback

-- A handler `catch (std::exception &) { /* ignore. */ }`.
abbrev pub ignore_std : Outcome Exception (Unit {0}) → Outcome Exception (Unit {0})
ignore_std (ok a) = ok a
ignore_std (throw e) = if is_std e then ok tt else throw e
ignore_std abort = abort
ignore_std fault = fault

module _ {A : Type 0} where
  unfoldable pub create : Promise A
  create = record { result = none; completion_callbacks = [] }

  unfoldable pub entirely_finish : Promise A → Bool
  entirely_finish p = elim p.result [
    | none ↦ false
    | some r ↦ elim p.completion_callbacks [ [] ↦ true | c ∷ cs ↦ false ]
  ]

  -- `get_result`, where `woken` is the promise when `completion.wait` returns, if it is called.
  unfoldable pub get_result : Promise A → Promise A → Outcome Exception A
  unfolding get_or_throw
  get_result p woken = elim p.result [
    | some r ↦ get_or_throw r
    | none ↦ elim woken.result [ some r ↦ get_or_throw r | none ↦ fault ]
  ]

module _ {A : Type 0} (client : Client A) where
  open client use {on_value_call, on_error_call, on_end_call}

  -- The bodies of the closures.
  then_body : ℕ → Outcome Exception A → List (Event A) × Outcome Exception (Unit {0})
  then_body f (ok v) = (called_with f v ∷ [], ignore_std (on_value_call f v))
  then_body f (throw e) = ([], ignore_std (throw e))
  then_body f abort = ([], abort)
  then_body f fault = ([], fault)

  catching_body : ℕ → Outcome Exception A → List (Event A) × Outcome Exception (Unit {0})
  catching_body f (ok v) = ([], ok tt)
  catching_body f (throw e) =
      if is_std e then (called_on f e ∷ [], on_error_call f e) else ([], throw e)
  catching_body f abort = ([], abort)
  catching_body f fault = ([], fault)

  unfoldable pub call : Callback → Result A → List (Event A) × Outcome Exception (Unit {0})
  unfolding then_body catching_body get_or_throw
  call (on_value f) r = then_body f (get_or_throw r)
  call (on_error f) r = catching_body f (get_or_throw r)
  call (on_end f) r = (called f ∷ [], on_end_call f)

  -- The loop of `notify_callbacks`; an exception of a callback leaves it.
  unfoldable pub call_all : List Callback → Result A → List (Event A) × Outcome Exception (Unit {0})
  call_all [] r = ([], ok tt)
  call_all (c ∷ cs) r =
      let (es, o) = call c r in
      let rest = call_all cs r in
      elim o [
        | ok _ ↦ (es ++ rest.0, rest.1)
        | throw e ↦ (es, throw e)
        | abort ↦ (es, abort)
        | fault ↦ (es, fault)
      ]

  -- The callbacks are cleared only when all of them have returned.
  unfoldable pub notify_callbacks :
      Promise A → Result A → List (Event A) × Outcome Exception (Unit {0}) × Promise A
  notify_callbacks p r =
      let (es, o) = call_all p.completion_callbacks r in
      elim o [
        | ok _ ↦ (es, ok tt, record p { completion_callbacks = [] })
        | throw e ↦ (es, throw e, p)
        | abort ↦ (es, abort, p)
        | fault ↦ (es, fault, p)
      ]

  -- `return_value`, `return_void` and `unhandled_exception`: the result is set, and then notified.
  unfoldable pub complete :
      Promise A → Result A → List (Event A) × Outcome Exception (Unit {0}) × Promise A
  unfolding notify_callbacks
  complete p r = notify_callbacks (record p { result = some r }) r

  unfoldable pub return_value :
      Promise A → A → List (Event A) × Outcome Exception (Unit {0}) × Promise A
  unfolding complete
  return_value p v = complete p (of_value v)

  unfoldable pub unhandled_exception :
      A → Promise A → Exception → List (Event A) × Outcome Exception (Unit {0}) × Promise A
  unfolding complete
  unhandled_exception default p e = complete p (of_exception default e)

  -- The end of a coroutine that returns `v`: what `return_value` throws is thrown inside its body, so
  -- `unhandled_exception` gets it.
  unfoldable pub finish :
      A → Promise A → A → List (Event A) × Outcome Exception (Unit {0}) × Promise A
  unfolding return_value unhandled_exception
  finish default p v =
      let (es, o, p') = return_value p v in
      let again = λ (e : Exception). unhandled_exception default p' e in
      elim o [
        | ok _ ↦ (es, ok tt, p')
        | throw e ↦ (es ++ (again e).0, (again e).1, (again e).2)
        | abort ↦ (es, abort, p')
        | fault ↦ (es, fault, p')
      ]

  unfoldable pub on_completed :
      Promise A → Callback → List (Event A) × Outcome Exception (Unit {0}) × Promise A
  on_completed p c = elim p.result [
    | some r ↦ ((call c r).0, (call c r).1, p)
    | none ↦ ([], ok tt, record p { completion_callbacks = p.completion_callbacks ++ c ∷ [] })
  ]

module _ {A : Type 0} where
  -- `~Task` where the handle is set: `get_result`, and then the frame is destroyed. A destructor is
  -- `noexcept`, so what it throws terminates the program.
  unfoldable pub destroy_task : Promise A → Promise A → Outcome Exception (Unit {0})
  unfolding get_result
  destroy_task p woken = elim (get_result p woken) [
    | ok v ↦ ok tt
    | throw e ↦ abort
    | abort ↦ abort
    | fault ↦ fault
  ]

  -- The value of `co_await task`: `TaskAwaiter::before_resume` and `await_resume`, and the destructor
  -- of the awaiter, which owns the task.
  unfoldable pub co_await_task : Promise A → Outcome Exception A
  unfolding get_result destroy_task
  co_await_task p = elim (get_result p p) [
    | ok v ↦ destroy_task p p >>= λ _. ok v
    | throw e ↦ destroy_task p p >>= λ _. throw e
    | abort ↦ abort
    | fault ↦ fault
  ]
