-- ===== src/Basic/Thread.antt =====
-- src/basic/Thread.cpp: the flags of a thread, and the runs of its body that are going on. The new
-- thread may begin at any time after `start` has made it. Basic.Thread.Life has the thread that the
-- object owns, and its end.
pub mod Life
pub mod Joined
use npp.Common.{ℕ, zero, suc, ◌+◌, ◌≡◌, Bool, true, false, if◌then◌else◌, arith}
use npp.Common.Outcome.{Outcome, ok, throw}
use npp.Basic.Exception.{Exception, runtime_exception}

-- `pending` and `active` count the threads that have not begun the closure of `start`, and those that
-- are in it.
pub record Thread : Type 0 where
  pub is_running : Bool
  pub is_finished : Bool
  pub pending : ℕ
  pub active : ℕ

unfoldable pub create : Thread
create = record { is_running = false; is_finished = false; pending = 0; active = 0 }

-- `start` up to the join of the thread that it replaces.
unfoldable pub start : Thread → Outcome Exception Thread
start t =
    if t.is_finished then throw runtime_exception else ok (record t { pending = t.pending + 1 })

-- The closure: up to `run`, and after it.
unfoldable pub begin_run : Thread → Thread
begin_run t = elim t.pending [
  | zero ↦ t
  | suc n ↦ record t { is_finished = false; is_running = true; pending = n; active = t.active + 1 }
]

unfoldable pub end_run : Thread → Thread
end_run t = elim t.active [
  | zero ↦ t
  | suc n ↦ record t { is_running = false; is_finished = true; active = n }
]

-- Where the body is running and none has ended, another `start` is accepted, and a second body can
-- run beside the first; where the only body has ended and nobody runs, `start` throws that the thread
-- is already running.
pub start_while_running :
    (t : Thread) (n : ℕ)
    → t.is_finished ≡ false
    → t.active ≡ suc n
    → ((u : Thread) × (start t ≡ ok u) × ((begin_run u).active ≡ suc (suc n)))
      × (start (end_run t) ≡ throw runtime_exception)
      × ((end_run t).is_running ≡ false)
unfolding start begin_run end_run
start_while_running t n f a =
    ((record t { pending = t.pending + 1 }, ground arith, ground arith), ground arith, ground arith)
