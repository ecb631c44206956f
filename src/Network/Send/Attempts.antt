-- ===== src/Network/Send/Attempts.antt =====
-- src/network/NetworkManager.cpp: how `sendMessage` ends, and after which attempts.
use npp.Common.{
  Bool-cases, ltb→lt, ℕ, zero, suc, ◌+◌, ◌≤◌, ◌<◌, ◌≡◌, refl, Option, none, some, List, [], ◌∷◌,
  ◌++◌, length, arith, All, ltb, inl, inr,
}
use npp.Common.Outcome.{Outcome, ok, throw}
use npp.Basic.Exception.{Exception, send_error}
use npp.Network.Head.{message_frame}
use npp.Network.Registry.{NetworkManager}
use npp.Network.Send.{
  after_write, after_socket, Kernel, Report, ℤ, rounds, Attempt, no_socket, wrote, Sent,
  get_send_socket, retry_or_throw, send_loop, send_message,
}

-- A round that may be tried again: there was no socket, or `writev` failed.
abbrev pub IsFailure : Attempt → Type 0
IsFailure no_socket = Unit {0}
IsFailure (wrote fd frame r) = r ≡ none

-- How `sendMessage` may end with `n` rounds.
pub data Verdict (content : List ℕ) (n : ℕ) (o : Outcome Exception (Unit {0})) (log : List Attempt)
    : Type 0 where
  nothing_sent : n ≡ 0 → o ≡ ok tt → log ≡ [] → Verdict content n o log
  sent :
      (fails : List Attempt) (fd size : ℕ)
      → All IsFailure fails
      → length fails < n
      → length content + 12 ≤ size
      → log ≡ fails ++ wrote fd (message_frame content) (some size) ∷ []
      → o ≡ ok tt
      → Verdict content n o log
  cut_short :
      (fails : List Attempt) (fd size : ℕ)
      → All IsFailure fails
      → length fails < n
      → size < length content + 12
      → log ≡ fails ++ wrote fd (message_frame content) (some size) ∷ []
      → o ≡ throw send_error
      → Verdict content n o log
  gave_up :
      0 < n → All IsFailure log → length log ≡ n → o ≡ throw send_error → Verdict content n o log

Verdict-retry :
    (content : List ℕ) (n : ℕ) (o : Outcome Exception (Unit {0})) (a : Attempt) (log : List Attempt)
    → IsFailure a
    → Verdict content (suc n) o log
    → Verdict content (suc (suc n)) o (a ∷ log)
Verdict-retry content n o a log f (nothing_sent z e l) = absurd (omega arith)
Verdict-retry content n o a log f (sent fails fd size fs lt le l e) =
    sent (a ∷ fails) fd size (f, fs) (omega arith) le (ground (arith, l)) e
Verdict-retry content n o a log f (cut_short fails fd size fs lt le l e) =
    cut_short (a ∷ fails) fd size (f, fs) (omega arith) le (ground (arith, l)) e
Verdict-retry content n o a log f (gave_up z fs l e) = gave_up (omega arith) (f, fs) (omega arith) e

module _ (k : Kernel) where
  open k use {State}

  -- The verdict on a call that ends; one that waits for the server says nothing.
  abbrev pub Judged : List ℕ → ℕ → Option (Sent k) → Type 0
  Judged content n none = Unit {0}
  Judged content n (some (o, m, s, log)) = Verdict content n o log

  retry-Judged :
      (content : List ℕ) (n : ℕ) (m : NetworkManager) (s : State) (a : Attempt)
      (rest : Option (Sent k))
      → IsFailure a
      → Judged content n rest
      → Judged content (suc n) (retry_or_throw k n m s a rest)
  unfolding retry_or_throw
  retry-Judged content zero m s a rest f j = gave_up (omega arith) (f, tt) refl refl
  retry-Judged content (suc n) m s a none f j = tt
  retry-Judged content (suc n) m s a (some (o, m', s', log)) f j =
      Verdict-retry content n o a log f j

  module _ (content : List ℕ) (n rank : ℕ) (again : NetworkManager → State → Option (Sent k)) where
    write-Judged :
        (m : NetworkManager) (fd : ℕ) (r : Option ℕ × State)
        → ((m' : NetworkManager) (s' : State) → Judged content n (again m' s'))
        → Judged content (suc n) (after_write k n rank content again m fd r)
    unfolding after_write
    write-Judged m fd (none, s) j = retry-Judged content n _ s _ _ refl (j _ s)
    write-Judged m fd (some written, s) j =
        elim (Bool-cases (ltb written (8 + length content + 4))) [
          | inl short ↦
              rw short (
                cut_short [] fd written tt (omega arith) (omega (arith, ltb→lt _ _ short)) refl
                  refl)
          | inr whole ↦ rw whole (sent [] fd written tt (omega arith) (ground arith) refl refl)
        ]

    socket-Judged :
        (r : Option (Option ℕ × NetworkManager × State × List Report))
        → ((m' : NetworkManager) (s' : State) → Judged content n (again m' s'))
        → Judged content (suc n) (after_socket k n rank content again r)
    unfolding after_socket
    socket-Judged none j = tt
    socket-Judged (some (none, m, s, rs)) j = retry-Judged content n m s no_socket _ tt (j m s)
    socket-Judged (some (some fd, m, s, rs)) j = write-Judged m fd _ j

  loop-Judged :
      (n : ℕ) (m : NetworkManager) (s : State) (rank : ℕ) (content : List ℕ)
      → Judged content n (send_loop k n m s rank content)
  unfolding send_loop
  loop-Judged zero m s rank content = nothing_sent refl refl refl
  loop-Judged (suc n) m s rank content =
      socket-Judged content n rank _ (get_send_socket k m s rank)
        (λ m' s'. loop-Judged n m' s' rank content)

  -- How `sendMessage` ends, if it does not wait for the server for ever. With a negative `retry` it
  -- returns without an attempt. Else it makes at most `retry + 1` attempts, each after a failed one:
  -- it returns if the last of them wrote the whole frame of the message, throws `SendError` if the last
  -- one wrote less, and throws it if all the `retry + 1` failed.
  pub send_message-Verdict :
      (m : NetworkManager) (s : State) (rank : ℕ) (content : List ℕ) (retry : ℤ)
      → Judged content (rounds retry) (send_message k m s rank content retry)
  unfolding send_message
  send_message-Verdict m s rank content retry = loop-Judged (rounds retry) m s rank content
