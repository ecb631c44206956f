-- ===== src/Basic/Thread/Life.antt =====
-- src/basic/Thread.h and src/basic/Thread.cpp: an object of a class derived from `Thread`, the threads
-- that its calls of `start` make, and its destruction, which destroys the derived part first.
use npp.Common.{ℕ, ◌+◌, ◌≡◌, Bool, true, false, Option, none, some, ◌==◌, if◌then◌else◌}
use npp.Common.Outcome.{Outcome, ok, throw, ◌>>=◌}
use npp.Basic.Exception.{Exception}
use npp.Basic.Thread.{Thread, start, begin_run, end_run}
use npp.Basic.Thread

-- Where a thread is in the closure of `start`: not begun, in `run`, or at its end.
pub data Body : Type 0 where
  absent starting inside ended : Body

-- What there is of the object: all, the part of class `Thread`, or nothing.
pub data Part : Type 0 where
  whole base gone : Part

-- `thread` is the thread of the member, if it can be joined, and `replaced` the one that the end of
-- `start` joins. `is_faulted` is set where a thread uses a part of the object that is not there.
pub record Object : Type 0 where
  pub flags : Thread
  pub bodies : ℕ → Body
  pub made : ℕ
  pub thread : Option ℕ
  pub replaced : Option ℕ
  pub part : Part
  pub is_faulted : Bool

unfoldable pub new_object : Object
new_object = record {
  flags = Thread.create;
  bodies = λ i. absent;
  made = 0;
  thread = none;
  replaced = none;
  part = whole;
  is_faulted = false;
}

abbrev pub set_body : ℕ → Body → Object → ℕ → Body
set_body i b o j = if j == i then b else o.bodies j

-- `start` up to the destructor of `newThread`, which has the thread that was the member before.
unfoldable pub start_thread : Object → Outcome Exception Object
unfolding start
start_thread o = start o.flags >>= λ t. ok (record o {
  flags = t;
  bodies = set_body o.made starting o;
  made = o.made + 1;
  thread = some o.made;
  replaced = o.thread;
})

-- The closure of `start`, where a thread has begun it: the call of `run` needs the derived part.
unfoldable pub begin_body : ℕ → Object → Object
unfolding begin_run
begin_body i o = record o {
  flags = begin_run o.flags;
  bodies = set_body i inside o;
  is_faulted = elim o.part [ whole ↦ o.is_faulted | base ↦ true | gone ↦ true ];
}

-- In `run`, which uses the members of the derived class.
unfoldable pub work_body : Object → Object
work_body o = record o {
  is_faulted = elim o.part [ whole ↦ o.is_faulted | base ↦ true | gone ↦ true ];
}

-- The end of the closure, which stores the flags.
unfoldable pub end_body : ℕ → Object → Object
unfolding end_run
end_body i o = record o {
  flags = end_run o.flags;
  bodies = set_body i ended o;
  is_faulted = elim o.part [ whole ↦ o.is_faulted | base ↦ o.is_faulted | gone ↦ true ];
}

-- `detach`; without a thread it throws `std::system_error`.
unfoldable pub detach : Object → Outcome Exception Object
detach o = elim o.thread [
  | none ↦ throw Exception.system_error
  | some i ↦ ok (record o { thread = none })
]

-- The steps of the owner and of the threads, without `detach`. The owner goes on behind a join when the
-- thread has ended. With `joined` the destructor of the derived class joins before it ends.
module _ (joined : Bool) where
  pub data Step (o p : Object) : Type 0 where
    starts : o.part ≡ whole → o.replaced ≡ none → start_thread o ≡ ok p → Step o p
    start_returns :
        (i : ℕ)
        → o.replaced ≡ some i
        → o.bodies i ≡ ended
        → p ≡ record o { replaced = none }
        → Step o p
    joins :
        (i : ℕ) → o.thread ≡ some i → o.bodies i ≡ ended → p ≡ record o { thread = none } → Step o p
    begins : (i : ℕ) → o.bodies i ≡ starting → p ≡ begin_body i o → Step o p
    works : (i : ℕ) → o.bodies i ≡ inside → p ≡ work_body o → Step o p
    ends : (i : ℕ) → o.bodies i ≡ inside → p ≡ end_body i o → Step o p
    destroys_derived :
        o.part ≡ whole
        → o.replaced ≡ none
        → (joined ≡ true → o.thread ≡ none)
        → p ≡ record o { part = base }
        → Step o p
    destroys_base : o.part ≡ base → o.thread ≡ none → p ≡ record o { part = gone } → Step o p

  pub data Reach (o : Object) : Object → Type 0 where
    here : Reach o o
    next : {p q : Object} → Reach o p → Step p q → Reach o q
