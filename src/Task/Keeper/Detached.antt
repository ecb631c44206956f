-- ===== src/Task/Keeper/Detached.antt =====
-- The `TaskKeeper` of src/task/Task.h and src/task/Task.cpp: what becomes of detached tasks.
use npp.Common.{
  ℕ, ◌≡◌, refl, true, false, none, some, List, [], ◌∷◌, ◌++◌, All, ◌⊎◌, inl, inr, arith,
}
use npp.Common.Outcome.{Outcome, ok, abort, fault}
use npp.Basic.Exception.{Exception}
use npp.Task.Result.{of_value, of_exception}
use npp.Task.Promise.{Promise, entirely_finish, get_result, destroy_task}
use npp.Task.Keeper.{TaskKeeper, check_from, check, keep_me, let_go, destroy_all}

module _ {A : Type 0} where
  abbrev pub Unfinished : (ℕ → Promise A) → List ℕ → Type 0
  Unfinished promises ts = All (λ (t : ℕ). entirely_finish (promises t) ≡ false) ts

  check-Unfinished :
      (promises : ℕ → Promise A) (ts : List ℕ)
      → Unfinished promises ts
      → check_from promises ts ≡ ok ts
  unfolding check_from
  check-Unfinished promises [] h = refl
  check-Unfinished promises (t ∷ ts) (h, hs) = rw (h, check-Unfinished promises ts hs)

  check-finished :
      (promises : ℕ → Promise A) (before : List ℕ) (t : ℕ) (after : List ℕ)
      → entirely_finish (promises t) ≡ true
      → check_from promises (before ++ t ∷ after) ≡ fault
  unfolding check_from
  check-finished promises [] t after h = rw h
  check-finished promises (b ∷ before) t after h =
      ground (arith, h, check-finished promises before t after h)

  -- Detaching a task adds it behind the tasks that are kept where none of these has finished, and is
  -- undefined where one has: finished tasks are never dropped.
  pub keep_me_lem :
      (promises : ℕ → Promise A) (k : TaskKeeper) (new : ℕ)
      → (Unfinished promises k.tasks
          → keep_me promises k new ≡ ok (record k { tasks = k.tasks ++ new ∷ [] }))
        × ((before : List ℕ) (t : ℕ) (after : List ℕ)
            → k.tasks ≡ before ++ t ∷ after
            → entirely_finish (promises t) ≡ true
            → keep_me promises k new ≡ fault)
  unfolding keep_me check
  keep_me_lem promises k new = (
    λ h. rw (check-Unfinished promises k.tasks h) refl,
    λ before t after e h. rw (e, check-finished promises before t after h) refl,
  )

  -- A task whose result is a value, when the wait for it returns.
  abbrev pub Succeeds : (ℕ → Promise A) → ℕ → Type 0
  Succeeds woken t = (v : A) × ((woken t).result ≡ some (of_value v))

  -- The wait returns the promise itself where its result was there before.
  abbrev pub Waits : (ℕ → Promise A) → (ℕ → Promise A) → Type 0
  Waits promises woken =
      (t : ℕ) → ((promises t).result ≡ none) ⊎ ((promises t).result ≡ (woken t).result)

  let_go_value :
      (p woken : Promise A) (v : A)
      → (p.result ≡ none) ⊎ (p.result ≡ woken.result)
      → woken.result ≡ some (of_value v)
      → let_go p woken ≡ ok tt
  unfolding let_go get_result destroy_task
  let_go_value p woken v (inl n) h = rw (n, h) refl
  let_go_value p woken v (inr s) h = rw (s, h) refl

  let_go_failed :
      (p woken : Promise A) (i : A) (e : Exception)
      → (p.result ≡ none) ⊎ (p.result ≡ woken.result)
      → woken.result ≡ some (of_exception i e)
      → let_go p woken ≡ abort
  unfolding let_go get_result
  let_go_failed p woken i e (inl n) h = rw (n, h) refl
  let_go_failed p woken i e (inr s) h = rw (s, h) refl

  destroy_all_next :
      (promises woken : ℕ → Promise A) (t : ℕ) (ts freed : List ℕ)
      (o : Outcome Exception (Unit {0}))
      → let_go (promises t) (woken t) ≡ ok tt
      → destroy_all promises woken ts ≡ (freed, o)
      → destroy_all promises woken (t ∷ ts) ≡ (t ∷ freed, o)
  unfolding destroy_all
  destroy_all_next promises woken t ts freed o h r = ground arith

  destroy_all_failed :
      (promises woken : ℕ → Promise A) (t : ℕ) (ts : List ℕ)
      → let_go (promises t) (woken t) ≡ abort
      → destroy_all promises woken (t ∷ ts) ≡ ([], abort)
  unfolding destroy_all
  destroy_all_failed promises woken t ts h = ground arith

  -- Where every kept task ends with a value, the end of the keeper waits for all of them and frees each
  -- once, in their order; where one fails, the tasks before it are freed and the program terminates.
  pub destroy_all_lem :
      (promises woken : ℕ → Promise A)
      → Waits promises woken
      → (ts : List ℕ) → All (Succeeds woken) ts
      → (destroy_all promises woken ts ≡ (ts, ok tt))
        × ((t : ℕ) (after : List ℕ) (i : A) (e : Exception)
            → (woken t).result ≡ some (of_exception i e)
            → destroy_all promises woken (ts ++ t ∷ after) ≡ (ts, abort))
  unfolding destroy_all
  destroy_all_lem promises woken w [] h = (
    refl,
    λ t after i e f.
        destroy_all_failed promises woken t after
          (let_go_failed (promises t) (woken t) i e (w t) f),
  )
  destroy_all_lem promises woken w (t ∷ ts) ((v, h), hs) =
      let ends = let_go_value (promises t) (woken t) v (w t) h in
      let rest = destroy_all_lem promises woken w ts hs in
      let next = destroy_all_next promises woken t in
      (
        next ts ts (ok tt) ends rest.0,
        λ t' after i e f. next (ts ++ t' ∷ after) ts abort ends (rest.1 t' after i e f),
      )
