-- ===== src/Basic/Thread/Joined.antt =====
-- src/basic/Thread.cpp: the end of an object of a class derived from `Thread`.
use npp.Common.{ℕ, ◌+◌, ◌≤◌, ◌≡◌, refl, ◌⊎◌, Bool, true, false, none, some, arith}
use npp.Common.Outcome.{Outcome, ok}
use npp.Basic.Exception.{Exception}
use npp.Basic.Thread.{Thread}
use npp.Basic.Thread.Life.{
  Body, absent, starting, inside, whole, base, gone, Object, set_body, work_body, end_body, detach,
}

-- A thread that has not ended.
abbrev pub is_left : Body → Bool
is_left starting = true
is_left inside = true
is_left _ = false

-- The object owns the threads that have not ended, and of a part that is gone nothing is owned.
record IsOwner (joined : Bool) (o : Object) : Type 0 where
  left : (i : ℕ) → is_left (o.bodies i) ≡ true → (o.thread ≡ some i) ⊎ (o.replaced ≡ some i)
  unmade : (i : ℕ) → o.made ≤ i → o.bodies i ≡ absent
  settled : (o.part ≡ whole) ⊎ (o.replaced ≡ none)
  gone_joined : o.part ≡ gone → o.thread ≡ none
  derived_joined : joined ≡ true → (o.part ≡ whole) ⊎ (o.thread ≡ none)
  sound : joined ≡ true → o.is_faulted ≡ false

-- The state behind the first part of `start`.
abbrev with_thread : Thread → Object → Object
with_thread t o = record o {
  flags = t;
  bodies = set_body o.made starting o;
  made = o.made + 1;
  thread = some o.made;
  replaced = o.thread;
}

-- Where a thread is in `run` while the derived part is destroyed, its next use of a member faults.
pub destroyed_while_running :
    (o : Object) (i : ℕ)
    → o.part ≡ whole
    → o.bodies i ≡ inside
    → (work_body (record o { part = base })).is_faulted ≡ true
unfolding work_body
destroyed_while_running o i w h = refl

-- A detached thread outlives the object: the end of its closure then writes the flags of an object that
-- is gone.
pub detached_outlives :
    (o : Object) (i : ℕ)
    → o.thread ≡ some i
    → (p : Object) × (detach o ≡ ok p)
      × (p.thread ≡ none)
      × ((end_body i (record p { part = gone })).is_faulted ≡ true)
unfolding detach end_body
detached_outlives o i t = (record o { thread = none }, ground (arith, t), refl, refl)
