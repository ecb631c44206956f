-- ===== src/Task/Channel/Logs.antt =====
-- src/task/Channel.h: sequences of calls on a channel, and what they read, write and resume.
use npp.Common.{ap, ℕ, ◌≡◌, refl, List, [], ◌∷◌, ◌++◌, map}
use npp.Common.Outcome.{Outcome, ok, ◌>>=◌}
use npp.Basic.Exception.{Exception}
use npp.Task.Channel.{
  Channel, WriterAwaiter, Resume, resume_reader, resume_writer, resume_unsafe, try_push_reader,
  try_push_writer,
}

-- A call of an awaiter's `after_suspend`.
pub data Call (A : Type 0) : Type 0 where
  reads : ℕ → Call A
  writes : WriterAwaiter A → Call A

module _ {A : Type 0} where
  abbrev pub values : List (WriterAwaiter A) → List A
  values = map (λ w. w.value)

  abbrev pub contents : Channel A → List A
  contents c = c.buffer ++ values c.writer_list

  -- The values handed to readers, the readers and the writers resumed, in order.
  abbrev pub delivered : List (Resume A) → List A
  delivered [] = []
  delivered (resume_reader r a ∷ rs) = a ∷ delivered rs
  delivered (resume_writer w ∷ rs) = delivered rs
  delivered (resume_unsafe r ∷ rs) = delivered rs

  abbrev pub readers_resumed : List (Resume A) → List ℕ
  readers_resumed [] = []
  readers_resumed (resume_reader r a ∷ rs) = r ∷ readers_resumed rs
  readers_resumed (resume_writer w ∷ rs) = readers_resumed rs
  readers_resumed (resume_unsafe r ∷ rs) = r ∷ readers_resumed rs

  abbrev pub writers_resumed : List (Resume A) → List ℕ
  writers_resumed [] = []
  writers_resumed (resume_reader r a ∷ rs) = writers_resumed rs
  writers_resumed (resume_writer w ∷ rs) = w ∷ writers_resumed rs
  writers_resumed (resume_unsafe r ∷ rs) = writers_resumed rs

  abbrev pub written : List (Call A) → List A
  written [] = []
  written (reads r ∷ ks) = written ks
  written (writes w ∷ ks) = w.value ∷ written ks

  abbrev pub reader_calls : List (Call A) → List ℕ
  reader_calls [] = []
  reader_calls (reads r ∷ ks) = r ∷ reader_calls ks
  reader_calls (writes w ∷ ks) = reader_calls ks

  abbrev pub writer_calls : List (Call A) → List ℕ
  writer_calls [] = []
  writer_calls (reads r ∷ ks) = writer_calls ks
  writer_calls (writes w ∷ ks) = w.address ∷ writer_calls ks

  unfoldable pub perform : Channel A → Call A → Outcome Exception (List (Resume A) × Channel A)
  perform c (reads r) = try_push_reader c r
  perform c (writes w) = try_push_writer c w

  unfoldable pub run : Channel A → List (Call A) → Outcome Exception (List (Resume A) × Channel A)
  run c [] = ok ([], c)
  run c (k ∷ ks) = perform c k >>= λ p. run p.1 ks >>= λ q. ok (p.0 ++ q.0, q.1)

  pub delivered-append :
      (rs qs : List (Resume A)) → delivered (rs ++ qs) ≡ delivered rs ++ delivered qs
  delivered-append [] qs = refl
  delivered-append (resume_reader r a ∷ rs) qs = ap (◌∷◌ a) (delivered-append rs qs)
  delivered-append (resume_writer w ∷ rs) qs = delivered-append rs qs
  delivered-append (resume_unsafe r ∷ rs) qs = delivered-append rs qs

  pub readers_resumed-append :
      (rs qs : List (Resume A))
      → readers_resumed (rs ++ qs) ≡ readers_resumed rs ++ readers_resumed qs
  readers_resumed-append [] qs = refl
  readers_resumed-append (resume_reader r a ∷ rs) qs = ap (◌∷◌ r) (readers_resumed-append rs qs)
  readers_resumed-append (resume_writer w ∷ rs) qs = readers_resumed-append rs qs
  readers_resumed-append (resume_unsafe r ∷ rs) qs = ap (◌∷◌ r) (readers_resumed-append rs qs)

  pub writers_resumed-append :
      (rs qs : List (Resume A))
      → writers_resumed (rs ++ qs) ≡ writers_resumed rs ++ writers_resumed qs
  writers_resumed-append [] qs = refl
  writers_resumed-append (resume_reader r a ∷ rs) qs = writers_resumed-append rs qs
  writers_resumed-append (resume_writer w ∷ rs) qs = ap (◌∷◌ w) (writers_resumed-append rs qs)
  writers_resumed-append (resume_unsafe r ∷ rs) qs = writers_resumed-append rs qs

  -- Each log of the calls begins with the log of the first call.
  pub logs-cons :
      (k : Call A) (ks : List (Call A))
      → (written (k ∷ []) ++ written ks ≡ written (k ∷ ks))
        × (reader_calls (k ∷ []) ++ reader_calls ks ≡ reader_calls (k ∷ ks))
        × (writer_calls (k ∷ []) ++ writer_calls ks ≡ writer_calls (k ∷ ks))
  logs-cons (reads r) ks = (refl, refl, refl)
  logs-cons (writes w) ks = (refl, refl, refl)
