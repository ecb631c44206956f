-- ===== src/Task/Scheduler.antt =====
-- src/task/Scheduler.h: one thread that runs each queued job when its time has come. What runs under
-- `queue_lock` is one step. Times are milliseconds since the epoch, taken not to overflow.
pub mod Order
pub mod Races
pub mod Minimum
pub mod Late
pub mod Sleep
pub mod Ending
use mathlib.Core.List.{Perm}
use npp.Common.{
  ℕ, ◌+◌, ◌-◌, ◌≤◌, ◌<◌, ◌≡◌, Bool, true, false, not, ◌||◌, Option, none, some, List, [], ◌∷◌, ◌++◌,
  All, ltb, if◌then◌else◌,
}

-- `DelayedExecutable`.
pub record DelayedExecutable : Type 0 where
  pub func : ℕ
  pub scheduled_time : ℕ

-- What `std::priority_queue` does under `DelayedExecutableCompare`: its top is one of its items with
-- the least time. Which one, of several, is left open.
pub record PriorityQueue : Type 1 where
  pub Queue : Type 0
  pub items : Queue → List DelayedExecutable
  pub empty : Queue
  pub top : Queue → Option DelayedExecutable
  pub push : Queue → DelayedExecutable → Queue
  pub pop : Queue → Queue
  pub items-empty : items empty ≡ []
  pub top-none : (q : Queue) → top q ≡ none → items q ≡ []
  pub top-least :
      (q : Queue) (e : DelayedExecutable)
      → top q ≡ some e
      → All (λ (x : DelayedExecutable). e.scheduled_time ≤ x.scheduled_time) (items q)
  pub push-perm : (q : Queue) (e : DelayedExecutable) → Perm (items (push q e)) (e ∷ items q)
  pub pop-perm :
      (q : Queue) (e : DelayedExecutable) → top q ≡ some e → Perm (items q) (e ∷ items (pop q))

-- Where the thread of `run_loop` is. In `timed e` it waits for the time of `e`, its own copy of what was
-- the top. `faulted` is after a `pop` of an empty queue.
pub data Phase : Type 0 where
  testing locking waiting woken exited faulted : Phase
  timed running : DelayedExecutable → Phase

-- `DelayedExecutable(func, delay)` at the time `now`, and whether its time is still to come.
abbrev pub delayed : ℕ → ℕ → ℕ → DelayedExecutable
delayed now func delay = record { func = func; scheduled_time = now + delay }

abbrev pub is_early : ℕ → DelayedExecutable → Bool
is_early now e = ltb now e.scheduled_time

module _ (pq : PriorityQueue) where
  open pq use {Queue, empty, top, push, pop}

  -- `executed` is a record of what was run, with the time at which it began.
  pub record Scheduler : Type 0 where
    pub is_active : Bool
    pub queue : Queue
    pub phase : Phase
    pub to_notify : ℕ
    pub now : ℕ
    pub executed : List (DelayedExecutable × ℕ)

  unfoldable pub init : ℕ → Scheduler
  init now = record {
    is_active = true;
    queue = empty;
    phase = testing;
    to_notify = 0;
    now = now;
    executed = [];
  }

  has_items : Queue → Bool
  has_items q = elim (top q) [ none ↦ false | some e ↦ true ]

  -- Under the lock: `idle` is the phase where there is nothing.
  take_top : Scheduler → Phase → Scheduler
  take_top s idle = elim (top s.queue) [
    | none ↦ record s { phase = idle }
    | some e ↦
        if is_early s.now e
        then record s { phase = timed e }
        else record s { queue = pop s.queue; phase = running e }
  ]

  unfoldable pub worker_step : Scheduler → Scheduler
  unfolding has_items take_top
  worker_step s = elim s.phase [
    | testing ↦ record s { phase = if s.is_active || has_items s.queue then locking else exited }
    | locking ↦ take_top s waiting
    | woken ↦ take_top s testing
    | running e ↦ record s { phase = testing; executed = s.executed ++ (e, s.now) ∷ [] }
    | timed e ↦ s
    | waiting ↦ s
    | exited ↦ s
    | faulted ↦ s
  ]

  -- `wait_for` timed out: the lock is taken again and the top, whatever it is now, is popped.
  unfoldable pub time_out : Scheduler → Scheduler
  unfolding has_items
  time_out s = elim s.phase [
    | timed e ↦
        if has_items s.queue
        then record s { queue = pop s.queue; phase = running e }
        else record s { phase = faulted }
    | _ ↦ s
  ]

  -- A wait that ends by a notification, or spuriously.
  unfoldable pub wake : Scheduler → Scheduler
  wake s = elim s.phase [
    | waiting ↦ record s { phase = woken }
    | timed e ↦ record s { phase = testing }
    | _ ↦ s
  ]

  -- `execute`: the clock is read for the test and again for the new item, after `later` milliseconds. A
  -- negative delay is 0.
  unfoldable pub execute : Scheduler → ℕ → ℕ → ℕ → Scheduler
  execute s func delay later =
      let need_notify : Bool = elim (top s.queue) [
        | none ↦ true
        | some e ↦ ltb (s.now + delay) e.scheduled_time
      ] in
      if s.is_active
      then record s {
        queue = push s.queue (delayed (s.now + later) func delay);
        to_notify = if need_notify then s.to_notify + 1 else s.to_notify;
        now = s.now + later;
      }
      else s

  unfoldable pub deactivate : Scheduler → Scheduler
  deactivate s = record s { is_active = false }

  unfoldable pub clear_queue : Scheduler → Scheduler
  clear_queue s = record s { queue = empty }

  unfoldable pub announce : Scheduler → Scheduler
  announce s = record s { to_notify = s.to_notify + 1 }

  -- `shutdown` where no other thread comes between its steps.
  unfoldable pub shutdown : Bool → Scheduler → Scheduler
  unfolding deactivate clear_queue wake
  shutdown wait_for_complete s =
      let s' = deactivate s in wake (if wait_for_complete then s' else clear_queue s')

  -- The steps. A wait times out only when the time of its item has come.
  pub data Step (s t : Scheduler) : Type 0 where
    works : t ≡ worker_step s → Step s t
    times_out :
        (e : DelayedExecutable)
        → s.phase ≡ timed e
        → e.scheduled_time ≤ s.now
        → t ≡ time_out s
        → Step s t
    executes : (func delay later : ℕ) → t ≡ execute s func delay later → Step s t
    deactivates : t ≡ deactivate s → Step s t
    clears : s.is_active ≡ false → t ≡ clear_queue s → Step s t
    announces : s.is_active ≡ false → t ≡ announce s → Step s t
    notifies : 0 < s.to_notify → t ≡ wake (record s { to_notify = s.to_notify - 1 }) → Step s t
    wakes : t ≡ wake s → Step s t
    ticks : (n : ℕ) → t ≡ record s { now = s.now + n } → Step s t

  pub data Reach (s : Scheduler) : Scheduler → Type 0 where
    here : Reach s s
    next : {t u : Scheduler} → Reach s t → Step t u → Reach s u
