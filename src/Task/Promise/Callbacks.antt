-- ===== src/Task/Promise/Callbacks.antt =====
-- src/task/TaskPromise.h: which callbacks run, when, and with what.
use npp.Common.{
  ℕ, ◌≡◌, refl, sym, ap, ◌∙◌, true, none, some, List, [], ◌∷◌, ◌++◌, append-nil, append_assoc,
  arith, Option-cases, inl, inr, if◌then◌else◌,
}
use npp.Common.Outcome.{Outcome, ok, throw, abort, fault, ◌>>=◌}
use npp.Basic.Exception.{Exception, is_std}
use npp.Task.Result.{Result, get_or_throw}
use npp.Task.Promise.{
  Callback, on_value, on_error, on_end, Event, called_with, called_on, called, Client, Promise,
  create, entirely_finish, get_result, call, call_all, complete, on_completed,
}

module _ {A : Type 0} where
  -- What a callback is for: `then` runs on a value, `catching` on a `std::exception`, `finally` always.
  abbrev pub wanted : Result A → Callback → List (Event A)
  wanted r (on_value f) = elim r.exception_ptr [ none ↦ called_with f r.stored ∷ [] | some e ↦ [] ]
  wanted r (on_error f) = elim r.exception_ptr [
    | none ↦ []
    | some e ↦ if is_std e then called_on f e ∷ [] else []
  ]
  wanted r (on_end f) = called f ∷ []

  abbrev pub wanted_all : Result A → List Callback → List (Event A)
  wanted_all r [] = []
  wanted_all r (c ∷ cs) = wanted r c ++ wanted_all r cs

  wanted_all-append :
      (r : Result A) (cs ds : List Callback)
      → wanted_all r (cs ++ ds) ≡ wanted_all r cs ++ wanted_all r ds
  wanted_all-append r [] ds = refl
  wanted_all-append r (c ∷ cs) ds =
      ap (◌++◌ (wanted r c)) (wanted_all-append r cs ds) ∙ sym (append_assoc (wanted r c) _ _)

module _ {A : Type 0} (client : Client A) where
  -- What a client does: registers a callback, or the coroutine ends.
  unfoldable pub register_all :
      Promise A → List Callback → List (Event A) × Outcome Exception (Unit {0}) × Promise A
  register_all p [] = ([], ok tt, p)
  register_all p (c ∷ cs) =
      let (es, o, p') = on_completed client p c in
      let rest = register_all p' cs in
      elim o [
        | ok _ ↦ (es ++ rest.0, rest.1, rest.2)
        | throw e ↦ (es, throw e, p')
        | abort ↦ (es, abort, p')
        | fault ↦ (es, fault, p')
      ]

  -- No function of the client throws anything, and the result is no foreign exception.
  pub record IsQuiet (r : Result A) : Type 0 where
    pub values : (f : ℕ) (v : A) → client.on_value_call f v ≡ ok tt
    pub errors : (f : ℕ) (e : Exception) → client.on_error_call f e ≡ ok tt
    pub ends : (f : ℕ) → client.on_end_call f ≡ ok tt
    pub std : (e : Exception) → r.exception_ptr ≡ some e → is_std e ≡ true

  call-wanted : (r : Result A) (c : Callback) → IsQuiet r → call client c r ≡ (wanted r c, ok tt)
  unfolding call
  call-wanted r (on_value f) q = elim (Option-cases r.exception_ptr) [
    | inl n ↦ ground (arith, n, q.values f r.stored)
    | inr (e, h) ↦ ground (arith, h, q.std e h)
  ]
  call-wanted r (on_error f) q = elim (Option-cases r.exception_ptr) [
    | inl n ↦ ground (arith, n)
    | inr (e, h) ↦ ground (arith, h, q.std e h, q.errors f e)
  ]
  call-wanted r (on_end f) q = ground (arith, q.ends f)

  call_all-wanted :
      (r : Result A) (cs : List Callback)
      → IsQuiet r
      → call_all client cs r ≡ (wanted_all r cs, ok tt)
  unfolding call_all
  call_all-wanted r [] q = refl
  call_all-wanted r (c ∷ cs) q = ground (arith, call-wanted r c q, call_all-wanted r cs q)

  register_all-pending :
      (before cs : List Callback)
      → register_all (record { result = none; completion_callbacks = cs }) before
        ≡ ([], ok tt, record { result = none; completion_callbacks = cs ++ before })
  unfolding register_all on_completed
  register_all-pending [] cs = ground (arith, append-nil cs)
  register_all-pending (c ∷ before) cs =
      ground (arith, register_all-pending before (cs ++ c ∷ []), append_assoc cs (c ∷ []) before)

  register_all-done :
      (r : Result A) (after cs : List Callback)
      → IsQuiet r
      → register_all (record { result = some r; completion_callbacks = cs }) after
        ≡ (wanted_all r after, ok tt, record { result = some r; completion_callbacks = cs })
  unfolding register_all on_completed
  register_all-done r [] cs q = refl
  register_all-done r (c ∷ after) cs q =
      ground (arith, call-wanted r c q, register_all-done r after cs q)

  complete-wanted :
      (r : Result A) (cs : List Callback)
      → IsQuiet r
      → complete client (record { result = none; completion_callbacks = cs }) r
        ≡ (wanted_all r cs, ok tt, record { result = some r; completion_callbacks = [] })
  unfolding complete
  complete-wanted r cs q = ground (arith, call_all-wanted r cs q)

  -- The whole life of a promise: callbacks registered before the coroutine ends, its end, and
  -- callbacks registered after it.
  unfoldable pub life :
      List Callback
      → Result A
      → List Callback
      → List (Event A) × Outcome Exception (Unit {0}) × Promise A
  life before r after =
      let (es, o, p) = register_all create before in
      let (fs, o', p') = complete client p r in
      let (gs, o'', p'') = register_all p' after in
      (es ++ (fs ++ gs), (o >>= λ _. o' >>= λ _. o''), p'')

  -- Where no function of the client throws and the result is no foreign exception: each callback,
  -- registered before the end of the coroutine or after it, is called exactly once if it wants the
  -- result and not at all if not, in the order of registration; the promise is then entirely
  -- finished, and `get_result` gives the result whatever it would have waited for.
  pub life-wanted :
      (before after : List Callback) (r : Result A)
      → IsQuiet r
      → let (es, o, p) = life before r after in
        (es ≡ wanted_all r (before ++ after))
        × (o ≡ ok tt)
        × (entirely_finish p ≡ true)
        × ((woken : Promise A) → get_result p woken ≡ get_or_throw r)
  unfolding life create entirely_finish get_result
  life-wanted before after r q =
      rw
        (register_all-pending before [], complete-wanted r before q, register_all-done r after [] q)
        (sym (wanted_all-append r before after), refl, refl, λ woken. refl)
