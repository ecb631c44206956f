-- ===== src/Task/ChannelAwaiter/Lifecycle.antt =====
-- src/task/ChannelAwaiter.h: what a resumed reader or writer gets.
use npp.Common.{ℕ, ◌≡◌, true, false, some, arith, if◌then◌else◌}
use npp.Common.Outcome.{ok, throw}
use npp.Basic.Exception.{channel_closed}
use npp.Task.Result.{of_value}
use npp.Task.Awaiter.{Awaiter, Job, set_value, only_resume, run_job}
use npp.Task.Channel.{Channel}
use npp.Task.ChannelAwaiter.{ReaderAwaiter, reader_await_resume}

module _ {A : Type 0} where
  -- The state of a reader on which its closure has run.
  abbrev pub after_job : A → ReaderAwaiter A → Job A → Awaiter A → ReaderAwaiter A
  after_job default r job a = record r { awaiter = a }

  -- A suspended reader that is resumed with a value gets it if the channel is still open, also
  -- through its target, and lets go of the channel; else it gets the exception.
  pub reader_gets_value :
      (default v : A) (c : Channel A) (r : ReaderAwaiter A) (h : ℕ)
      → r.channel ≡ true
      → r.awaiter.handle ≡ some h
      → (a' : Awaiter A) × (run_job default r.awaiter (set_value v) ≡ ok (h, a'))
        × (reader_await_resume c (record r { awaiter = a' }) ≡ (
            if c.is_active
            then ok (
              v,
              record r {
                awaiter = a';
                channel = false;
                target = if r.p_value then some v else r.target;
              },
            )
            else throw channel_closed))
  unfolding run_job reader_await_resume
  reader_gets_value default v c r h linked suspended =
      (record r.awaiter { result = some (of_value v) }, ground arith, ground arith)

  -- A reader that `clean_up` resumes has no result; since the channel is closed, it throws before it
  -- would read it.
  pub reader_after_close :
      (default : A) (c : Channel A) (r : ReaderAwaiter A) (h : ℕ)
      → r.channel ≡ true
      → r.awaiter.handle ≡ some h
      → c.is_active ≡ false
      → (a' : Awaiter A) × (run_job default r.awaiter only_resume ≡ ok (h, a'))
        × (reader_await_resume c (record r { awaiter = a' }) ≡ throw channel_closed)
  unfolding run_job reader_await_resume
  reader_after_close default c r h linked suspended closed = (r.awaiter, ground arith, ground arith)
