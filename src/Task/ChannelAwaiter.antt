-- ===== src/Task/ChannelAwaiter.antt =====
-- src/task/ChannelAwaiter.h: what a reader and a writer of a channel do around their suspension.
pub mod Lifecycle
pub mod Reentry
use npp.Common.{ℕ, Bool, true, false, Option, none, some, List, if◌then◌else◌}
use npp.Common.Outcome.{Outcome, ok, throw, fault, ◌>>=◌}
use npp.Basic.Exception.{Exception}
use npp.Task.Awaiter.{Awaiter, take_result}
use npp.Task.Channel.{Channel, check_closed, remove_reader, remove_writer, write, read}

-- `channel` says whether the pointer is set; `p_value` whether the reader was made by `>>`, and
-- `target` is the variable that it points to.
pub record ReaderAwaiter (A : Type 0) : Type 0 where
  pub awaiter : Awaiter A
  pub address : ℕ
  pub channel : Bool
  pub p_value : Bool
  pub target : Option A

pub record WritingAwaiter (A : Type 0) : Type 0 where
  pub awaiter : Awaiter (Unit {0})
  pub address : ℕ
  pub channel : Bool
  pub value : A

module _ {A : Type 0} where
  -- `operator>>`: `read` with a target.
  unfoldable pub read_into : ReaderAwaiter A → ReaderAwaiter A
  read_into r = record r { p_value = true }

  -- `if (p_value) *p_value = _result->get_or_throw()`.
  assign_target : ReaderAwaiter A → Outcome Exception (ReaderAwaiter A)
  unfolding take_result
  assign_target r =
      if r.p_value then take_result r.awaiter >>= (λ v. ok (record r { target = some v })) else ok r

  -- `before_resume`: a null `channel` is not to be called.
  unfoldable pub reader_before_resume :
      Channel A → ReaderAwaiter A → Outcome Exception (ReaderAwaiter A)
  unfolding assign_target
  reader_before_resume c r =
      if r.channel
      then (check_closed c >>= λ _. assign_target r >>= λ r'. ok (record r' { channel = false }))
      else fault

  unfoldable pub reader_await_resume :
      Channel A → ReaderAwaiter A → Outcome Exception (A × ReaderAwaiter A)
  unfolding reader_before_resume take_result
  reader_await_resume c r =
      reader_before_resume c r >>= λ r'. take_result r'.awaiter >>= λ v. ok (v, r')

  unfoldable pub writer_before_resume :
      Channel A → WritingAwaiter A → Outcome Exception (WritingAwaiter A)
  writer_before_resume c w =
      if w.channel then (check_closed c >>= λ _. ok (record w { channel = false })) else fault

  unfoldable pub writer_await_resume :
      Channel A → WritingAwaiter A → Outcome Exception (WritingAwaiter A)
  unfolding writer_before_resume take_result
  writer_await_resume c w = writer_before_resume c w >>= λ w'. take_result w'.awaiter >>= λ _. ok w'

  -- The destructors, where the calling thread holds `channel_lock` or not: `std::mutex` is not to
  -- be locked again by its owner.
  unfoldable pub destroy_reader : Bool → Channel A → ReaderAwaiter A → Outcome Exception (Channel A)
  destroy_reader held c r =
      if r.channel then (if held then fault else ok (remove_reader c r.address)) else ok c

  unfoldable pub destroy_writer :
      Bool → Channel A → WritingAwaiter A → Outcome Exception (Channel A)
  destroy_writer held c w =
      if w.channel then (if held then fault else ok (remove_writer c w.address)) else ok c
