-- ===== src/Task/Keeper.antt =====
-- The `TaskKeeper` of src/task/Task.h and src/task/Task.cpp, which owns the detached tasks. A task is an
-- address; its promise is found in the store of the promises as they are at the time.
pub mod Detached
use npp.Common.{ℕ, Bool, true, false, List, [], ◌∷◌, ◌++◌, if◌then◌else◌}
use npp.Common.Outcome.{Outcome, ok, throw, abort, fault, ◌>>=◌}
use npp.Basic.Exception.{Exception}
use npp.Task.Promise.{Promise, entirely_finish, get_result, destroy_task}

pub record TaskKeeper : Type 0 where
  pub tasks : List ℕ

module _ {A : Type 0} where
  -- The walk of `check`. It erases a finished task and goes on with the same iterator, whose node is
  -- gone by then.
  check_from : (ℕ → Promise A) → List ℕ → Outcome Exception (List ℕ)
  check_from promises [] = ok []
  check_from promises (t ∷ ts) =
      let rest = check_from promises ts in
      if entirely_finish (promises t) then fault else rest >>= (λ kept. ok (t ∷ kept))

  unfoldable pub check : (ℕ → Promise A) → TaskKeeper → Outcome Exception TaskKeeper
  unfolding check_from
  check promises k = check_from promises k.tasks >>= (λ kept. ok (record k { tasks = kept }))

  unfoldable pub keep_me : (ℕ → Promise A) → TaskKeeper → ℕ → Outcome Exception TaskKeeper
  keep_me promises k t = check promises k >>= (λ k'. ok (record k' { tasks = k'.tasks ++ t ∷ [] }))

  -- One task of `~TaskKeeper`: an exception in a destructor terminates the program.
  unfoldable pub let_go : Promise A → Promise A → Outcome Exception (Unit {0})
  let_go p woken = elim (get_result p woken) [
    | ok v ↦ destroy_task woken woken
    | throw e ↦ abort
    | abort ↦ abort
    | fault ↦ fault
  ]

  -- The tasks that are freed, in order, and how it ends. `woken` has the promises as they are when the
  -- wait for them has returned.
  unfoldable pub destroy_all :
      (ℕ → Promise A) → (ℕ → Promise A) → List ℕ → List ℕ × Outcome Exception (Unit {0})
  destroy_all promises woken [] = ([], ok tt)
  destroy_all promises woken (t ∷ ts) =
      let (freed, o) = destroy_all promises woken ts in
      elim (let_go (promises t) (woken t)) [
        | ok _ ↦ (t ∷ freed, o)
        | throw e ↦ ([], throw e)
        | abort ↦ ([], abort)
        | fault ↦ ([], fault)
      ]
