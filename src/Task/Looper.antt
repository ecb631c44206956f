-- ===== src/Task/Looper.antt =====
-- src/task/Executor.h: `LooperExecutor`, one thread that runs what other threads queue. What runs
-- under `queue_lock` is one step; the test of the loop, the wait and the notifications are steps of
-- their own. Reads of the queue without the lock are taken to be atomic.
pub mod Order
pub mod Shutdown
use npp.Common.{
  ℕ, zero, suc, ◌+◌, ◌-◌, ◌<◌, ◌≡◌, Bool, true, false, not, ◌||◌, List, [], ◌∷◌, ◌++◌,
  if◌then◌else◌,
}

-- Where the thread of `run_loop` is: before the test of the loop, before `queue_lock`, in
-- `queue_condition.wait`, back from it, in a job, or at the end.
pub data Phase : Type 0 where
  testing locking waiting woken exited : Phase
  running : ℕ → Phase

-- `to_notify` counts the calls of `notify_one` and `notify_all` that are due. The last three fields
-- are a record of what happened: the jobs queued, run and thrown away.
pub record Looper : Type 0 where
  pub is_active : Bool
  pub queue : List ℕ
  pub phase : Phase
  pub to_notify : ℕ
  pub accepted : List ℕ
  pub executed : List ℕ
  pub dropped : List ℕ

unfoldable pub init : Looper
init = record {
  is_active = true;
  queue = [];
  phase = testing;
  to_notify = 0;
  accepted = [];
  executed = [];
  dropped = [];
}

is_empty : List ℕ → Bool
is_empty [] = true
is_empty (j ∷ js) = false

-- The test of the `while` loop.
loop_test : Looper → Looper
unfolding is_empty
loop_test s = record s { phase = if s.is_active || not (is_empty s.queue) then locking else exited }

-- Under the lock: the front of the queue is popped, or `empty` is the next phase.
take_front : Looper → Phase → List ℕ → Looper
take_front s empty [] = record s { phase = empty }
take_front s empty (j ∷ js) = record s { queue = js; phase = running j }

-- One step of the thread of `run_loop`; in `wait` and at its end it makes none.
unfoldable pub worker_step : Looper → Looper
unfolding loop_test take_front
worker_step s = elim s.phase [
  | testing ↦ loop_test s
  | locking ↦ take_front s waiting s.queue
  | woken ↦ take_front s testing s.queue
  | running j ↦ record s { phase = testing; executed = s.executed ++ j ∷ [] }
  | waiting ↦ s
  | exited ↦ s
]

-- `execute` up to its notification.
unfoldable pub execute : Looper → ℕ → Looper
execute s j =
    if s.is_active
    then record s {
      queue = s.queue ++ j ∷ [];
      to_notify = s.to_notify + 1;
      accepted = s.accepted ++ j ∷ [];
    }
    else s

-- `shutdown` is three steps: the flag, the clearing of the queue if it does not wait for completion,
-- and the notification.
unfoldable pub deactivate : Looper → Looper
deactivate s = record s { is_active = false }

unfoldable pub clear_queue : Looper → Looper
clear_queue s = record s { queue = []; dropped = s.dropped ++ s.queue }

unfoldable pub announce : Looper → Looper
announce s = record s { to_notify = s.to_notify + 1 }

unfoldable pub wake : Looper → Looper
wake s = elim s.phase [ waiting ↦ record s { phase = woken } | _ ↦ s ]

-- Some steps of the thread of `run_loop`.
unfoldable pub work : ℕ → Looper → Looper
work zero s = s
work (suc n) s = work n (worker_step s)

-- `shutdown`, where the thread of `run_loop` makes `before` steps between the flag and the clearing, and
-- `after` steps between the clearing and the notification.
unfoldable pub shutdown : Bool → ℕ → ℕ → Looper → Looper
unfolding deactivate clear_queue wake work
shutdown wait_for_complete before after s =
    let s' = work before (deactivate s) in
    wake (work after (if wait_for_complete then s' else clear_queue s'))

-- The steps. `wakes` is a spurious wake-up. A queue is cleared only by `shutdown`, after the flag.
pub data Step (s t : Looper) : Type 0 where
  works : t ≡ worker_step s → Step s t
  executes : (j : ℕ) → t ≡ execute s j → Step s t
  deactivates : t ≡ deactivate s → Step s t
  clears : s.is_active ≡ false → t ≡ clear_queue s → Step s t
  announces : s.is_active ≡ false → t ≡ announce s → Step s t
  notifies : 0 < s.to_notify → t ≡ wake (record s { to_notify = s.to_notify - 1 }) → Step s t
  wakes : t ≡ wake s → Step s t

pub data Reach (s : Looper) : Looper → Type 0 where
  here : Reach s s
  next : {t u : Looper} → Reach s t → Step t u → Reach s u
