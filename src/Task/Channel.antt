-- ===== src/Task/Channel.antt =====
-- src/task/Channel.h: the channel's state and its operations. Each operation runs under
-- `channel_lock` up to the calls of `resume`, which are its last acts; so it is one step here, that
-- returns the resumptions in their order beside the new state.
pub mod Invariant
pub mod Logs
pub mod Fifo
pub mod Closing
use npp.Common.{
  ℕ, ◌+◌, ◌-◌, ◌^◌, Bool, true, false, List, [], ◌∷◌, ◌++◌, map, length, ltb, ◌==◌, if◌then◌else◌,
}
use npp.Common.Outcome.{Outcome, ok, throw, ◌>>=◌}
use npp.Basic.Exception.{Exception, channel_closed}

-- A suspended writer: its address and its `_value`.
pub record WriterAwaiter (A : Type 0) : Type 0 where
  pub address : ℕ
  pub value : A

-- `buffer_capacity` is the bit pattern of an `int`. A reader is its address.
pub record Channel (A : Type 0) : Type 0 where
  pub is_active : Bool
  pub buffer_capacity : ℕ
  pub buffer : List A
  pub writer_list : List (WriterAwaiter A)
  pub reader_list : List ℕ

-- A call of `resume` or `resume_unsafe` on an awaiter.
pub data Resume (A : Type 0) : Type 0 where
  resume_reader : ℕ → A → Resume A
  resume_writer : ℕ → Resume A
  resume_unsafe : ℕ → Resume A

-- An `int` as it is converted for the comparison with `buffer.size()`: sign-extended to 64 bits.
abbrev pub to_size : ℕ → ℕ
to_size w = if ltb w (2 ^ 31) then w else w + (2 ^ 64 - 2 ^ 32)

module _ {A : Type 0} where
  unfoldable pub create : ℕ → Channel A
  create capacity = record {
    is_active = true;
    buffer_capacity = capacity;
    buffer = [];
    writer_list = [];
    reader_list = [];
  }

  abbrev pub check_closed : Channel A → Outcome Exception (Unit {0})
  check_closed c = if c.is_active then ok tt else throw channel_closed

  -- The part of `try_push_reader` below a non-empty buffer, whose front is `value`.
  read_buffer : Channel A → ℕ → A → List A → List (WriterAwaiter A) → List (Resume A) × Channel A
  read_buffer c reader value rest [] = (resume_reader reader value ∷ [], record c { buffer = rest })
  read_buffer c reader value rest (writer ∷ writers) = (
    resume_writer writer.address ∷ resume_reader reader value ∷ [],
    record c { buffer = rest ++ writer.value ∷ []; writer_list = writers },
  )

  -- The part below an empty buffer.
  read_writer : Channel A → ℕ → List (WriterAwaiter A) → List (Resume A) × Channel A
  read_writer c reader [] = ([], record c { reader_list = c.reader_list ++ reader ∷ [] })
  read_writer c reader (writer ∷ writers) = (
    resume_reader reader writer.value ∷ resume_writer writer.address ∷ [],
    record c { writer_list = writers },
  )

  read_from : Channel A → ℕ → List A → List (Resume A) × Channel A
  unfolding read_buffer read_writer
  read_from c reader [] = read_writer c reader c.writer_list
  read_from c reader (value ∷ rest) = read_buffer c reader value rest c.writer_list

  unfoldable pub try_push_reader : Channel A → ℕ → Outcome Exception (List (Resume A) × Channel A)
  unfolding read_from
  try_push_reader c reader = check_closed c >>= λ _. ok (read_from c reader c.buffer)

  write_to : Channel A → WriterAwaiter A → List ℕ → List (Resume A) × Channel A
  write_to c writer (reader ∷ readers) = (
    resume_reader reader writer.value ∷ resume_writer writer.address ∷ [],
    record c { reader_list = readers },
  )
  write_to c writer [] =
      if ltb (length c.buffer) (to_size c.buffer_capacity)
      then (resume_writer writer.address ∷ [], record c { buffer = c.buffer ++ writer.value ∷ [] })
      else ([], record c { writer_list = c.writer_list ++ writer ∷ [] })

  unfoldable pub try_push_writer :
      Channel A → WriterAwaiter A → Outcome Exception (List (Resume A) × Channel A)
  unfolding write_to
  try_push_writer c writer = check_closed c >>= λ _. ok (write_to c writer c.reader_list)

  abbrev pub without_writer : ℕ → List (WriterAwaiter A) → List (WriterAwaiter A)
  without_writer address [] = []
  without_writer address (w ∷ ws) =
      if w.address == address then without_writer address ws else w ∷ without_writer address ws

  unfoldable pub remove_writer : Channel A → ℕ → Channel A
  remove_writer c address = record c { writer_list = without_writer address c.writer_list }

abbrev pub without_reader : ℕ → List ℕ → List ℕ
without_reader address [] = []
without_reader address (r ∷ rs) =
    if r == address then without_reader address rs else r ∷ without_reader address rs

module _ {A : Type 0} where
  unfoldable pub remove_reader : Channel A → ℕ → Channel A
  remove_reader c address = record c { reader_list = without_reader address c.reader_list }

  abbrev pub addresses : List (WriterAwaiter A) → List ℕ
  addresses = map (λ w. w.address)

  -- `write` and `read` only check, and build the awaiter that is then awaited.
  unfoldable pub write : Channel A → ℕ → A → Outcome Exception (WriterAwaiter A)
  write c address value = check_closed c >>= λ _. ok (record { address = address; value = value })

  unfoldable pub read : Channel A → ℕ → Outcome Exception ℕ
  read c address = check_closed c >>= λ _. ok address

  -- The loops of `clean_up`: the writers first, then the readers.
  unfoldable pub clean_up : Channel A → List (Resume A) × Channel A
  clean_up c = (
    map resume_writer (addresses c.writer_list) ++ map resume_unsafe c.reader_list,
    record c { buffer = []; writer_list = []; reader_list = [] },
  )

  -- The compare-and-exchange of `close`: whether it succeeded, and the flag after it.
  unfoldable pub exchange_active : Channel A → Bool × Channel A
  exchange_active c = (c.is_active, record c { is_active = false })

  unfoldable pub close : Channel A → List (Resume A) × Channel A
  unfolding exchange_active clean_up
  close c = let (exchanged, c') = exchange_active c in if exchanged then clean_up c' else ([], c')
