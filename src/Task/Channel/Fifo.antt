-- ===== src/Task/Channel/Fifo.antt =====
-- src/task/Channel.h: the channel as a queue. What it holds is the buffer followed by the values of
-- the suspended writers.
use npp.Common.{
  append_chain, sym, ◌∙◌, ℕ, ◌≡◌, true, List, [], ◌∷◌, ◌++◌, append-nil, append_assoc, arith,
}
use npp.Common.Outcome.{ok, Returns, Returns-of_eq, Returns-bind}
use npp.Task.Channel.{
  Channel, WriterAwaiter, Resume, try_push_reader, try_push_writer, addresses, read_from, write_to,
}
use npp.Task.Channel.Invariant.{IsValid, try_push_reader-IsValid, try_push_writer-IsValid}
use mathlib.Core.List.{map-append}
use npp.Task.Channel.Logs.{
  Call, reads, writes, contents, delivered, readers_resumed, writers_resumed, written, reader_calls,
  writer_calls, perform, run, delivered-append, readers_resumed-append, writers_resumed-append,
  logs-cons,
}

module _ {A : Type 0} where
  -- What the calls `ks`, begun at `c`, do: the invariant, and the order of values, readers and writers.
  pub record InOrder (c : Channel A) (ks : List (Call A)) (rs : List (Resume A)) (c' : Channel A)
      : Type 0 where
    pub valid : IsValid c'
    pub open_still : c'.is_active ≡ true
    pub fifo : delivered rs ++ contents c' ≡ contents c ++ written ks
    pub readers : readers_resumed rs ++ c'.reader_list ≡ c.reader_list ++ reader_calls ks
    pub writers :
        writers_resumed rs ++ addresses c'.writer_list ≡ addresses c.writer_list ++ writer_calls ks

  read-fifo :
      (c : Channel A) (r : ℕ)
      → IsValid c
      → let p = read_from c r c.buffer in delivered p.0 ++ contents p.1 ≡ contents c
  unfolding read_from
  read-fifo c r v = grind (arith, append_assoc, append-nil, map-append)

  read-readers :
      (c : Channel A) (r : ℕ)
      → IsValid c
      → let p = read_from c r c.buffer in
        readers_resumed p.0 ++ p.1.reader_list ≡ c.reader_list ++ r ∷ []
  unfolding read_from
  read-readers c r v = ground arith

  read-writers :
      (c : Channel A) (r : ℕ)
      → IsValid c
      → let p = read_from c r c.buffer in
        writers_resumed p.0 ++ addresses p.1.writer_list ≡ addresses c.writer_list
  unfolding read_from
  read-writers c r v = ground arith

  write-fifo :
      (c : Channel A) (w : WriterAwaiter A)
      → IsValid c
      → let p = write_to c w c.reader_list in
        delivered p.0 ++ contents p.1 ≡ contents c ++ w.value ∷ []
  unfolding write_to
  write-fifo c w v = grind (arith, append_assoc, append-nil, map-append)

  write-readers :
      (c : Channel A) (w : WriterAwaiter A)
      → IsValid c
      → let p = write_to c w c.reader_list in readers_resumed p.0 ++ p.1.reader_list ≡ c.reader_list
  unfolding write_to
  write-readers c w v = ground arith

  write-writers :
      (c : Channel A) (w : WriterAwaiter A)
      → IsValid c
      → let p = write_to c w c.reader_list in
        writers_resumed p.0 ++ addresses p.1.writer_list ≡ addresses c.writer_list ++ w.address ∷ []
  unfolding write_to
  write-writers c w v = grind (arith, map-append)

  read_open :
      (c : Channel A) (r : ℕ) → c.is_active ≡ true → (read_from c r c.buffer).1.is_active ≡ true
  unfolding read_from
  read_open c r a = ground arith

  write_open :
      (c : Channel A) (w : WriterAwaiter A)
      → c.is_active ≡ true
      → (write_to c w c.reader_list).1.is_active ≡ true
  unfolding write_to
  write_open c w a = ground arith

  try_push_reader-eq :
      (c : Channel A) (r : ℕ)
      → c.is_active ≡ true
      → try_push_reader c r ≡ ok (read_from c r c.buffer)
  unfolding try_push_reader
  try_push_reader-eq c r a = ground arith

  try_push_writer-eq :
      (c : Channel A) (w : WriterAwaiter A)
      → c.is_active ≡ true
      → try_push_writer c w ≡ ok (write_to c w c.reader_list)
  unfolding try_push_writer
  try_push_writer-eq c w a = ground arith

  perform-InOrder :
      (c : Channel A) (k : Call A)
      → IsValid c
      → c.is_active ≡ true
      → Returns (λ p. InOrder c (k ∷ []) p.0 p.1) (perform c k)
  unfolding perform
  perform-InOrder c (reads r) v a = Returns-of_eq _ (try_push_reader-eq c r a) (record {
    valid = try_push_reader-IsValid r v (try_push_reader-eq c r a);
    open_still = read_open c r a;
    fifo = read-fifo c r v ∙ sym (append-nil _);
    readers = read-readers c r v;
    writers = read-writers c r v ∙ sym (append-nil _);
  })
  perform-InOrder c (writes w) v a = Returns-of_eq _ (try_push_writer-eq c w a) (record {
    valid = try_push_writer-IsValid w v (try_push_writer-eq c w a);
    open_still = write_open c w a;
    fifo = write-fifo c w v;
    readers = write-readers c w v ∙ sym (append-nil _);
    writers = write-writers c w v;
  })

  InOrder-append :
      {c c' c'' : Channel A} (k : Call A) (ks : List (Call A)) {rs rs' : List (Resume A)}
      → InOrder c (k ∷ []) rs c'
      → InOrder c' ks rs' c''
      → InOrder c (k ∷ ks) (rs ++ rs') c''
  InOrder-append {c} {c'} {c''} k ks {rs} {rs'} f g = record {
    valid = g.valid;
    open_still = g.open_still;
    fifo =
        rw (delivered-append rs rs', ← (logs-cons k ks).0)
          (append_chain (delivered rs) _ (contents c) (contents c') _ _ _ f.fifo g.fifo);
    readers =
        rw (readers_resumed-append rs rs', ← (logs-cons k ks).1)
          (append_chain (readers_resumed rs) _ c.reader_list c'.reader_list _ _ _ f.readers
            g.readers);
    writers =
        rw (writers_resumed-append rs rs', ← (logs-cons k ks).2)
          (append_chain (writers_resumed rs) _ (addresses c.writer_list) (addresses c'.writer_list)
            _ _ _ f.writers g.writers);
  }

  -- Any sequence of reads and writes on an open channel whose invariant holds returns, keeps the
  -- invariant and leaves the channel open. The values handed to readers, followed by what is left in
  -- the channel, are what it held followed by what was written, in order. The readers resumed,
  -- followed by those suspended, are those suspended before followed by those that called, in order;
  -- and so it is with the writers.
  pub run-InOrder :
      (c : Channel A) (ks : List (Call A))
      → IsValid c
      → c.is_active ≡ true
      → Returns (λ p. InOrder c ks p.0 p.1) (run c ks)
  unfolding run
  run-InOrder c [] v a = record {
    valid = v;
    open_still = a;
    fifo = sym (append-nil _);
    readers = sym (append-nil _);
    writers = sym (append-nil _);
  }
  run-InOrder c (k ∷ ks) v a = Returns-bind _ _ (perform c k) _ (perform-InOrder c k v a) λ p f.
      Returns-bind _ _ (run p.1 ks) _ (run-InOrder p.1 ks f.valid f.open_still)
        λ q g. InOrder-append k ks f g
