-- ===== src/Task/Channel/Invariant.antt =====
-- src/task/Channel.h: which awaiters may be suspended, and how full the buffer may be.
use npp.Common.{ℕ, ◌≤◌, ◌≡◌, ◌⊎◌, List, [], length, length-append, arith}
use npp.Common.Outcome.{ok}
use npp.Task.Channel.{
  Channel, WriterAwaiter, Resume, to_size, create, try_push_reader, try_push_writer, remove_reader,
  remove_writer, close,
}

-- A suspended reader means that there is nothing to read; a suspended writer means that the buffer
-- is full.
pub record IsValid {A : Type 0} (c : Channel A) : Type 0 where
  pub readers_wait : (c.reader_list ≡ []) ⊎ ((c.buffer ≡ []) × (c.writer_list ≡ []))
  pub writers_wait : (c.writer_list ≡ []) ⊎ (length c.buffer ≡ to_size c.buffer_capacity)
  pub bounded : length c.buffer ≤ to_size c.buffer_capacity

module _ {A : Type 0} where
  pub create-IsValid : (capacity : ℕ) → IsValid (create {A = A} capacity)
  unfolding create
  create-IsValid capacity = ground arith

  pub try_push_reader-IsValid :
      {c c' : Channel A} {rs : List (Resume A)} (reader : ℕ)
      → IsValid c
      → try_push_reader c reader ≡ ok (rs, c')
      → IsValid c'
  unfolding try_push_reader
  try_push_reader-IsValid {c} reader v e = grind (arith, length-append)

  pub try_push_writer-IsValid :
      {c c' : Channel A} {rs : List (Resume A)} (writer : WriterAwaiter A)
      → IsValid c
      → try_push_writer c writer ≡ ok (rs, c')
      → IsValid c'
  unfolding try_push_writer
  try_push_writer-IsValid {c} writer v e = grind (arith, length-append)

  pub remove_reader-IsValid : {c : Channel A} (a : ℕ) → IsValid c → IsValid (remove_reader c a)
  unfolding remove_reader
  remove_reader-IsValid {c} a v = ground arith

  pub remove_writer-IsValid : {c : Channel A} (a : ℕ) → IsValid c → IsValid (remove_writer c a)
  unfolding remove_writer
  remove_writer-IsValid {c} a v = ground arith

  pub close-IsValid : {c : Channel A} → IsValid c → IsValid (close c).1
  unfolding close
  close-IsValid {c} v = ground arith
