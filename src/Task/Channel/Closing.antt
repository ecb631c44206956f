-- ===== src/Task/Channel/Closing.antt =====
-- src/task/Channel.h: every history of a channel that other threads may close at any time. The two
-- parts of `close`, the exchange of the flag and `clean_up`, are steps of their own.
use npp.Common.{ℕ, ◌≡◌, refl, true, false, List, [], ◌++◌, map, arith}
use npp.Common.Outcome.{ok, throw}
use npp.Basic.Exception.{channel_closed}
use npp.Task.Channel.{
  Channel, WriterAwaiter, Resume, resume_unsafe, resume_writer, addresses, create, try_push_reader,
  try_push_writer, remove_reader, remove_writer, exchange_active, clean_up, close,
}
use npp.Task.Channel.Invariant.{
  IsValid, create-IsValid, try_push_reader-IsValid, try_push_writer-IsValid, remove_reader-IsValid,
  remove_writer-IsValid,
}

module _ {A : Type 0} where
  -- A step of some thread, with the resumptions that it makes.
  pub data Step (c : Channel A) (rs : List (Resume A)) (c' : Channel A) : Type 0 where
    pushes_reader : (reader : ℕ) → try_push_reader c reader ≡ ok (rs, c') → Step c rs c'
    pushes_writer : (w : WriterAwaiter A) → try_push_writer c w ≡ ok (rs, c') → Step c rs c'
    removes_reader : (a : ℕ) → c' ≡ remove_reader c a → rs ≡ [] → Step c rs c'
    removes_writer : (a : ℕ) → c' ≡ remove_writer c a → rs ≡ [] → Step c rs c'
    exchanges : c' ≡ (exchange_active c).1 → rs ≡ [] → Step c rs c'
    cleans : c.is_active ≡ false → (rs, c') ≡ clean_up c → Step c rs c'

  pub data Reach (c : Channel A) : List (Resume A) → Channel A → Type 0 where
    here : Reach c [] c
    next :
        {rs qs : List (Resume A)} {d e : Channel A}
        → Reach c rs d
        → Step d qs e
        → (ts : List (Resume A)) → ts ≡ rs ++ qs
        → Reach c ts e

  pub Step-IsValid :
      {c c' : Channel A} {rs : List (Resume A)} → Step c rs c' → IsValid c → IsValid c'
  unfolding exchange_active clean_up
  Step-IsValid (pushes_reader r e) v = try_push_reader-IsValid r v e
  Step-IsValid (pushes_writer w e) v = try_push_writer-IsValid w v e
  Step-IsValid (removes_reader a e n) v = rw e (remove_reader-IsValid a v)
  Step-IsValid (removes_writer a e n) v = rw e (remove_writer-IsValid a v)
  Step-IsValid (exchanges e n) v = ground arith
  Step-IsValid (cleans a e) v = ground arith

  -- Whatever threads do to a new channel, in whatever order: a suspended reader means that there is
  -- nothing to read, a suspended writer that the buffer is full, and the buffer is within its capacity.
  pub Reach-IsValid :
      (capacity : ℕ) {rs : List (Resume A)} {c : Channel A}
      → Reach (create capacity) rs c
      → IsValid c
  Reach-IsValid capacity here = create-IsValid capacity
  Reach-IsValid capacity (next r s ts e) = Step-IsValid s (Reach-IsValid capacity r)

  -- Nothing is held and nobody waits.
  pub record IsClosed (c : Channel A) : Type 0 where
    pub inactive : c.is_active ≡ false
    pub no_value : c.buffer ≡ []
    pub no_writer : c.writer_list ≡ []
    pub no_reader : c.reader_list ≡ []

  Step-IsClosed :
      {c c' : Channel A} {rs : List (Resume A)}
      → Step c rs c'
      → IsClosed c
      → IsClosed c' × (rs ≡ [])
  unfolding exchange_active clean_up try_push_reader try_push_writer remove_reader remove_writer
  Step-IsClosed (pushes_reader r e) v = ground arith
  Step-IsClosed (pushes_writer w e) v = ground arith
  Step-IsClosed (removes_reader a e n) v = ground arith
  Step-IsClosed (removes_writer a e n) v = ground arith
  Step-IsClosed (exchanges e n) v = ground arith
  Step-IsClosed (cleans a e) v = ground arith

  Reach-IsClosed :
      {c c' : Channel A} {rs : List (Resume A)}
      → IsClosed c
      → Reach c rs c'
      → IsClosed c' × (rs ≡ [])
  Reach-IsClosed v here = (v, refl)
  Reach-IsClosed v (next r s ts e) =
      let (vd, nd) = Reach-IsClosed v r in let (ve, ne) = Step-IsClosed s vd in (ve, rw (e, nd, ne))

  -- `close` of an open channel resumes each suspended writer and then each suspended reader, once and
  -- in order. From then on, whatever threads do, nobody is resumed or suspended, nothing is held, every
  -- later awaiter gets the exception, and a second `close` does nothing.
  pub close_is_final :
      (c : Channel A) {c' : Channel A} {rs : List (Resume A)}
      → c.is_active ≡ true
      → Reach (close c).1 rs c'
      → ((close c).0
          ≡ map resume_writer (addresses c.writer_list) ++ map resume_unsafe c.reader_list)
        × (rs ≡ [])
        × IsClosed c'
        × ((reader : ℕ) → try_push_reader c' reader ≡ throw channel_closed)
        × ((w : WriterAwaiter A) → try_push_writer c' w ≡ throw channel_closed)
        × ((close c').0 ≡ [])
  unfolding close try_push_reader try_push_writer
  close_is_final c a r =
      let (v, n) = Reach-IsClosed closed r in
      (
        ground arith,
        n,
        v,
        λ reader. ground (arith, v.inactive),
        λ w. ground (arith, v.inactive),
        ground (arith, v.inactive),
      )
    where
      closed : IsClosed (close c).1
      closed = ground arith
