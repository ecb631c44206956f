-- ===== src/Tests/KeeperRuns.antt =====
-- Runs of the `TaskKeeper` of src/task/Task.h.
use npp.Common.{ℕ, ◌≡◌, refl, true, none, some, List, [], ◌∷◌, ◌++◌, arith, ◌==◌, if◌then◌else◌}
use npp.Common.Outcome.{ok, abort, fault}
use npp.Basic.Exception.{Exception, user}
use npp.Task.Result.{of_value, of_exception}
use npp.Task.Promise.{Promise, entirely_finish}
use npp.Task.Keeper.{TaskKeeper, keep_me, destroy_all}
use npp.Task.Keeper.Detached.{Unfinished, keep_me_lem, destroy_all_lem}

abbrev promises : ℕ → Promise ℕ
promises t =
    if t == 3
    then record { result = some (of_value 30); completion_callbacks = [] }
    else record { result = none; completion_callbacks = [] }

-- The task 5 fails, the others give a value.
abbrev woken : ℕ → Promise ℕ
woken t =
    if t == 5
    then record { result = some (of_exception 0 (user 4)); completion_callbacks = [] }
    else record { result = some (of_value 30); completion_callbacks = [] }

abbrev keeper : TaskKeeper
keeper = record { tasks = 1 ∷ 3 ∷ [] }

keep_finished : keep_me promises keeper 4 ≡ fault
unfolding keep_me npp.Task.Keeper.check entirely_finish
keep_finished = refl

keep_me_lem_example :
    (Unfinished promises (1 ∷ 3 ∷ [])
      → keep_me promises keeper 4 ≡ ok (record keeper { tasks = 1 ∷ 3 ∷ 4 ∷ [] }))
    × ((before : List ℕ) (t : ℕ) (after : List ℕ)
        → 1 ∷ 3 ∷ [] ≡ before ++ t ∷ after
        → entirely_finish (promises t) ≡ true
        → keep_me promises keeper 4 ≡ fault)
keep_me_lem_example = keep_me_lem promises keeper 4

destroy_all_lem_example :
    (destroy_all promises woken (3 ∷ []) ≡ (3 ∷ [], ok tt))
    × ((t : ℕ) (after : List ℕ) (i : ℕ) (e : Exception)
        → (woken t).result ≡ some (of_exception i e)
        → destroy_all promises woken (3 ∷ t ∷ after) ≡ (3 ∷ [], abort))
destroy_all_lem_example =
    destroy_all_lem promises woken (λ t. ground arith) (3 ∷ []) ((30, refl), tt)
