-- ===== src/Task/Elastic/Ending.antt =====
-- src/task/ElasticExecutor.cpp: the constructor and the destructor of the executor, its thread, and the
-- executor that all users of `SharedElasticExecutor` share.
use npp.Common.{
  ℕ, zero, suc, ◌≡◌, ◌≢◌, refl, Bool, true, false, Option, none, some, List, [], ◌∷◌, ◌++◌,
  if◌then◌else◌, arith,
}

-- Where the thread of the executor is: not begun, at the test of the loop, in a round, in `sleep_for`, or
-- at its end.
pub data Position : Type 0 where
  unbegun testing rounding sleeping ended : Position

-- `members` is whether `taskQueue` and `workers` are there, `is_faulted` whether the thread has used
-- members that are not.
pub record ElasticExecutorImpl : Type 0 where
  pub running : Bool
  pub place : Position
  pub queue : List ℕ
  pub members : Bool
  pub is_faulted : Bool

unfoldable pub construct : ElasticExecutorImpl
construct = record {
  running = true;
  place = unbegun;
  queue = [];
  members = true;
  is_faulted = false;
}

unfoldable pub execute : ElasticExecutorImpl → ℕ → ElasticExecutorImpl
execute e task = record e { queue = e.queue ++ task ∷ [] }

abbrev use_members : ElasticExecutorImpl → Position → ElasticExecutorImpl
use_members e p = record e { place = p; is_faulted = if e.members then e.is_faulted else true }

-- A step of the thread; its first one is the call of `run`.
unfoldable pub run_step : ElasticExecutorImpl → ElasticExecutorImpl
run_step e = elim e.place [
  | unbegun ↦ use_members e testing
  | testing ↦ use_members e (if e.running then rounding else ended)
  | rounding ↦ use_members e sleeping
  | sleeping ↦ record e { place = testing }
  | ended ↦ e
]

unfoldable pub stop : ElasticExecutorImpl → ElasticExecutorImpl
stop e = record e { running = false }

-- Behind the body of the destructor, and before the destructor of `Thread`, which joins.
unfoldable pub destroy_members : ElasticExecutorImpl → ElasticExecutorImpl
destroy_members e = record e { members = false }

-- `execute` of `SharedElasticExecutor`; its executor is made by the first call.
unfoldable pub shared_execute : Option ElasticExecutorImpl → ℕ → ElasticExecutorImpl
unfolding execute construct
shared_execute none task = execute construct task
shared_execute (some e) task = execute e task

-- The steps before the destructor.
pub data Step (e f : ElasticExecutorImpl) : Type 0 where
  executes : (task : ℕ) → f ≡ shared_execute (some e) task → Step e f
  runs : f ≡ run_step e → Step e f

pub data Reach (e : ElasticExecutorImpl) : ElasticExecutorImpl → Type 0 where
  here : Reach e e
  next : {f g : ElasticExecutorImpl} → Reach e f → Step f g → Reach e g

record IsAlive (e : ElasticExecutorImpl) : Type 0 where
  runs_on : e.running ≡ true
  has_members : e.members ≡ true
  sound : e.is_faulted ≡ false
  not_ended : e.place ≢ ended

run-IsAlive :
    (e : ElasticExecutorImpl) (p : Position) → e.place ≡ p → IsAlive e → IsAlive (run_step e)
unfolding run_step
run-IsAlive e unbegun q v = ground (arith, q, v.runs_on, v.has_members, v.sound)
run-IsAlive e testing q v = ground (arith, q, v.runs_on, v.has_members, v.sound)
run-IsAlive e rounding q v = ground (arith, q, v.runs_on, v.has_members, v.sound)
run-IsAlive e sleeping q v = ground (arith, q, v.runs_on, v.has_members, v.sound)
run-IsAlive e ended q v = absurd (v.not_ended q)

Step-IsAlive : {e f : ElasticExecutorImpl} → Step e f → IsAlive e → IsAlive f
unfolding shared_execute execute
Step-IsAlive (executes task q) v = rw q (record {
  runs_on = v.runs_on;
  has_members = v.has_members;
  sound = v.sound;
  not_ended = v.not_ended;
})
Step-IsAlive {e} (runs q) v = rw q (run-IsAlive e e.place refl v)

Reach-IsAlive :
    (task : ℕ) {e : ElasticExecutorImpl} → Reach (shared_execute none task) e → IsAlive e
unfolding shared_execute execute construct
Reach-IsAlive task here = record {
  runs_on = refl;
  has_members = refl;
  sound = refl;
  not_ended = λ e. cc;
}
Reach-IsAlive task (next r st) = Step-IsAlive st (Reach-IsAlive task r)

-- Some steps of the thread.
abbrev pub run_steps : ℕ → ElasticExecutorImpl → ElasticExecutorImpl
run_steps zero e = e
run_steps (suc n) e = run_steps n (run_step e)

after_stop :
    (e : ElasticExecutorImpl) (p : Position)
    → e.place ≡ p
    → IsAlive e
    → ((run_steps 3 (stop e)).place ≡ ended)
      × ((run_steps 3 (stop e)).is_faulted ≡ false)
      × ((run_steps 2 (destroy_members (stop e))).is_faulted ≡ true)
unfolding run_step stop destroy_members
after_stop e unbegun q v = ground (arith, q, v.runs_on, v.has_members, v.sound)
after_stop e testing q v = ground (arith, q, v.runs_on, v.has_members, v.sound)
after_stop e rounding q v = ground (arith, q, v.runs_on, v.has_members, v.sound)
after_stop e sleeping q v = ground (arith, q, v.runs_on, v.has_members, v.sound)
after_stop e ended q v = absurd (v.not_ended q)

-- Whatever tasks are handed to the shared executor, and however far its thread has come, when the
-- destructor begins the thread has not ended. If it then makes three steps before the members are
-- destroyed it has ended, and has used no member that is gone; if it makes none, it uses one within its
-- next two steps.
pub executor_destructor_lem :
    {e : ElasticExecutorImpl} (task : ℕ)
    → Reach (shared_execute none task) e
    → (e.place ≢ ended)
      × ((run_steps 3 (stop e)).place ≡ ended)
      × ((run_steps 3 (stop e)).is_faulted ≡ false)
      × ((run_steps 2 (destroy_members (stop e))).is_faulted ≡ true)
executor_destructor_lem {e} task r =
    let v = Reach-IsAlive task r in
    let (at_end, sound, faulted) = after_stop e e.place refl v in
    (v.not_ended, at_end, sound, faulted)
