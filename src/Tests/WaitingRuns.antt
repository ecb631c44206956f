-- ===== src/Tests/WaitingRuns.antt =====
-- Runs of src/task/TaskAwaiter.h and src/task/FutureAwaiter.h.
use npp.Common.{ℕ, ◌≡◌, refl, none, some, [], ◌==◌, if◌then◌else◌}
use npp.Common.Outcome.{ok, throw, abort, fault}
use npp.Basic.Exception.{user}
use npp.Task.Result.{of_value, of_exception}
use npp.Task.Awaiter.{Awaiter, posted, set_value}
use npp.Task.Promise.{Promise}
use npp.Task.Waiting.{
  Manner, later, at_once, joined, await_transform, await_ended, await_running, await_future,
}
use npp.Task.Waiting.Tasks.{value_of, await_task_lem, await_future_lem}

abbrev ended : Promise ℕ
ended = record { result = some (of_value 42); completion_callbacks = [] }

abbrev fresh : Awaiter ℕ
fresh = record { result = none; executor = none; handle = none }

-- Executor 3 runs jobs later, 4 at once, and others wait for them.
abbrev manner : ℕ → Manner
manner e = if e == 3 then later else if e == 4 then at_once else joined

await_task_lem_example :
    (await_ended manner 0 ended (await_transform fresh 3) 9 ≡ some (value_of (of_value 42)))
    × (await_ended manner 0 ended fresh 9 ≡ some (value_of (of_value 42)))
    × (await_running manner 0 ended (await_transform fresh 3) 9 ≡ some (ok 42))
    × (await_running manner 0 ended fresh 9 ≡ some fault)
await_task_lem_example = await_task_lem manner 0 ended fresh 3 9 (of_value 42) refl refl

abbrev failed : Promise ℕ
failed = record { result = some (of_exception 0 (user 4)); completion_callbacks = [] }

other_executors :
    (await_running manner 0 ended (await_transform fresh 4) 9 ≡ some fault)
    × (await_running manner 0 ended (await_transform fresh 5) 9 ≡ none)
    × (await_running manner 0 failed (await_transform fresh 3) 9 ≡ some abort)
other_executors = (
  (await_task_lem manner 0 ended fresh 4 9 (of_value 42) refl refl).2,
  (await_task_lem manner 0 ended fresh 5 9 (of_value 42) refl refl).2,
  (await_task_lem manner 0 failed fresh 3 9 (of_exception 0 (user 4)) refl refl).2,
)

future_posted : await_future 0 (ok 42) (await_transform fresh 3) 9 ≡ ok (posted 3 (set_value 42))
future_posted = (await_future_lem 0 42 (user 4) fresh 3 9 refl).0

future_throws : await_future 0 (throw (user 4)) fresh 9 ≡ abort
future_throws = (await_future_lem 0 42 (user 4) fresh 3 9 refl).2
