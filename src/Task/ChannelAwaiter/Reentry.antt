-- ===== src/Task/ChannelAwaiter/Reentry.antt =====
-- src/task/Channel.h, `clean_up`, with an executor that runs a closure at once (`NoopExecutor`, or
-- none installed): the resumed coroutine runs while the thread holds `channel_lock`.
use npp.Common.{ℕ, ◌≡◌, true, false, some, arith}
use npp.Common.Outcome.{Outcome, ok, throw, abort, fault, ◌>>=◌}
use npp.Basic.Exception.{Exception}
use npp.Task.Awaiter.{set_value, only_resume, run_job}
use npp.Task.Channel.{Channel}
use npp.Task.ChannelAwaiter.{
  ReaderAwaiter, WritingAwaiter, reader_await_resume, writer_await_resume, destroy_reader,
  destroy_writer,
}

module _ {A : Type 0} where
  -- The awaiter is destroyed when `await_resume` returns or throws.
  pub resume_writer_inline : Channel A → WritingAwaiter A → Outcome Exception (Channel A)
  unfolding run_job writer_await_resume destroy_writer
  resume_writer_inline c w = run_job tt w.awaiter (set_value tt) >>= λ p.
      let w' = record w { awaiter = p.1 } in
      elim (writer_await_resume c w') [
        | ok w'' ↦ destroy_writer true c w''
        | throw e ↦ destroy_writer true c w'
        | abort ↦ abort
        | fault ↦ fault
      ]

  pub resume_reader_inline : A → Channel A → ReaderAwaiter A → Outcome Exception (Channel A)
  unfolding run_job reader_await_resume destroy_reader
  resume_reader_inline default c r = run_job default r.awaiter only_resume >>= λ p.
      let r' = record r { awaiter = p.1 } in
      elim (reader_await_resume c r') [
        | ok (v, r'') ↦ destroy_reader true c r''
        | throw e ↦ destroy_reader true c r'
        | abort ↦ abort
        | fault ↦ fault
      ]

  -- Where the closure runs at once, `clean_up` ends in undefined behaviour at any suspended writer or
  -- reader that is still linked to the channel: its coroutine throws, and the destructor of its awaiter
  -- locks `channel_lock` again, which this thread holds.
  pub close_inline_faults :
      (default : A) (c : Channel A) (w : WritingAwaiter A) (r : ReaderAwaiter A) (h k : ℕ)
      → c.is_active ≡ false
      → w.channel ≡ true
      → r.channel ≡ true
      → w.awaiter.handle ≡ some h
      → r.awaiter.handle ≡ some k
      → (resume_writer_inline c w ≡ fault) × (resume_reader_inline default c r ≡ fault)
  unfolding resume_writer_inline resume_reader_inline
  close_inline_faults default c w r h k closed wl rl wh rh = (ground arith, ground arith)
