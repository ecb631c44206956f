-- ===== src/Task/Promise/Errors.antt =====
-- src/task/TaskPromise.h and src/task/Task.h: failures of coroutines and of their callbacks.
use npp.Common.{◌≡◌, refl, none, some, List, ◌++◌, arith}
use npp.Common.Outcome.{Outcome-cases, ok, throw, abort, fault}
use npp.Basic.Exception.{Exception}
use npp.Task.Result.{Result, of_value, of_exception, get_or_throw}
use npp.Task.Promise.{
  Event, Client, Promise, get_result, call_all, finish, destroy_task, co_await_task,
}

module _ {A : Type 0} where
  -- `co_await` on a task that has ended gives its value. If it has failed, the exception does not reach
  -- the awaiting coroutine: the destructor of the task throws it a second time, which terminates the
  -- program, as dropping a failed task does.
  pub co_await_ended :
      (p : Promise A) (default v : A) (e : Exception)
      → let at = λ (r : Result A). record p { result = some r } in
        (co_await_task (at (of_value v)) ≡ ok v)
        × (destroy_task (at (of_value v)) p ≡ ok tt)
        × (co_await_task (at (of_exception default e)) ≡ abort)
        × (destroy_task (at (of_exception default e)) p ≡ abort)
  unfolding co_await_task destroy_task
  co_await_ended p default v e = (refl, refl, refl, refl)

  -- `get_result` on a promise that has not ended is undefined just if the promise still has no result
  -- when the wait ends, as after a spurious wake-up; else it gives the result of then.
  pub get_result_woken :
      (p woken : Promise A)
      → p.result ≡ none
      → (woken.result ≡ none → get_result p woken ≡ fault)
        × ((r : Result A) → woken.result ≡ some r → get_result p woken ≡ get_or_throw r)
  unfolding get_result
  get_result_woken p woken h = (λ n. ground arith, λ r e. ground arith)

module _ {A : Type 0} (client : Client A) where
  -- A callback that throws while the coroutine returns its value: the value is lost, the promise gets
  -- the exception instead, and all callbacks are called a second time, with the exception, those that
  -- had run with the value too; what leaves the coroutine is what the second calls let out.
  pub finish_throwing :
      (default v : A) (p : Promise A) (es : List (Event A)) (e : Exception)
      → call_all client p.completion_callbacks (of_value v) ≡ (es, throw e)
      → let (fs, o, p') = finish client default p v in
        let again = call_all client p.completion_callbacks (of_exception default e) in
        (fs ≡ es ++ again.0) × (o ≡ again.1) × (p'.result ≡ some (of_exception default e))
  unfolding finish
  finish_throwing default v p es e h =
      ground (
        arith,
        h,
        Outcome-cases (call_all client p.completion_callbacks (of_exception default e)).1,
      )
