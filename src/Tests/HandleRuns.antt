-- ===== src/Tests/HandleRuns.antt =====
-- Runs of the moves of `Task` of src/task/Task.h.
use npp.Common.{ℕ, ◌≡◌, ◌≢◌, refl, some, [], arith}
use npp.Common.Outcome.{ok, ◌>>=◌}
use npp.Task.Result.{of_value}
use npp.Task.Promise.{Promise, destroy_task}
use npp.Task.Handle.{
  Objects, live, no_objects, make_task, assign_task, drop_task, Reach, makes, assigns, drops, here,
  next,
}
use npp.Task.Handle.Moves.{IsOwned}
use npp.Task.Handle.Ownership.{without_task, Reach-IsOwned, assigned_over_leaks}

abbrev promises : ℕ → Promise ℕ
promises f = record { result = some (of_value f); completion_callbacks = [] }

-- Two tasks, of which the second is assigned to the first.
abbrev two : Objects
two = make_task 2 11 (make_task 1 10 no_objects)

abbrev assigned : Objects
assigned = assign_task 1 2 two

Reach-two : Reach promises promises no_objects two
unfolding no_objects make_task
Reach-two = next (next here (makes 1 10 refl refl refl)) (makes 2 11 refl refl refl)

-- The frame of the second is destroyed by the destructor of the first.
dropped : drop_task promises promises 1 assigned ≡ ok (without_task promises promises 1 11 assigned)
unfolding no_objects make_task assign_task drop_task destroy_task
dropped = refl

Reach-IsOwned_example :
    IsOwned assigned
    × ((x f : ℕ)
        → assigned.handle x ≡ some f
        → drop_task promises promises x assigned ≡ (
            destroy_task (promises f) (promises f) >>= λ _.
            ok (without_task promises promises x f assigned)))
Reach-IsOwned_example = Reach-IsOwned promises promises (next Reach-two (assigns 1 2 refl))

assigned_over_leaks_example :
    ((without_task promises promises 1 11 assigned).frames 10 ≡ live)
    × ((z : ℕ) → (without_task promises promises 1 11 assigned).handle z ≢ some 10)
unfolding no_objects make_task
assigned_over_leaks_example =
    assigned_over_leaks promises promises 1 2 10 Reach-two refl (omega arith)
      (next here (drops 1 dropped))
