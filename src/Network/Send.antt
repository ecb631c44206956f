-- ===== src/Network/Send.antt =====
-- src/network/NetworkManager.cpp: `getSendSocket`, `sendRankReportMessage` and `sendMessage`, over the
-- calls of the operating system.
pub mod Attempts
pub mod Stream
pub mod Short
pub mod Table
pub mod Threads
use npp.Common.{
  ℕ, zero, suc, ◌+◌, Bool, true, false, Option, none, some, List, [], ◌∷◌, length, ltb,
  if◌then◌else◌,
}
use npp.Common.Outcome.{Outcome, ok, throw}
use npp.Basic.Exception.{Exception, send_error}
use npp.Network.Head.{message_frame, report_frame}
use npp.Network.Registry.{NetworkManager, Target, find, set_sock, clear_send_socket}

-- The system calls that are made on a socket for sending. `none` is -1; `writev` is given the buffers
-- one after the other.
pub record Kernel : Type 1 where
  pub State : Type 0
  pub socket : State → Option ℕ × State
  pub connect : State → ℕ → ℕ → ℕ → Bool × State
  pub writev : State → ℕ → List ℕ → Option ℕ × State
  pub close : State → ℕ → State
  pub add_epoll : State → ℕ → State

-- The value of an `int`: `negsuc n` is -(n + 1).
pub data ℤ : Type 0 where
  pos : ℕ → ℤ
  negsuc : ℕ → ℤ

-- How often the loop `while (retry >= 0)` can run.
abbrev pub rounds : ℤ → ℕ
rounds (pos n) = suc n
rounds (negsuc n) = zero

-- A round of `sendMessage`, for the record: no socket, or what `writev` was given and what it returned.
pub data Attempt : Type 0 where
  no_socket : Attempt
  wrote : ℕ → List ℕ → Option ℕ → Attempt

-- A rank report on a new socket, for the record: the manager that sends it, what `writev` was given and
-- what it returned.
pub record Report : Type 0 where
  pub manager : NetworkManager
  pub socket : ℕ
  pub bytes : List ℕ
  pub taken : Option ℕ

module _ (k : Kernel) where
  open k use {State, socket, connect, writev, close, add_epoll}

  -- Whether `writev` took the whole report, with what it was given.
  unfoldable pub send_rank_report : NetworkManager → State → ℕ → Bool × State × Report
  send_rank_report m s fd =
      let bytes = report_frame m.my_rank m.listen_port in
      let (r, s') = writev s fd bytes in
      (
        elim r [ none ↦ false | some n ↦ if ltb n 12 then false else true ],
        s',
        record { manager = m; socket = fd; bytes = bytes; taken = r },
      )

  -- After `connect`: the caller waits here until the server runs, and for ever if it does not, which
  -- is `none`.
  report_to :
      NetworkManager → State → ℕ → ℕ → Option (Option ℕ × NetworkManager × State × List Report)
  unfolding send_rank_report
  report_to m s rank fd =
      if m.running
      then (let (sent, s', r) = send_rank_report m s fd in
          if sent
          then some (some fd, set_sock m rank fd, add_epoll s' fd, r ∷ [])
          else some (none, m, close s' fd, r ∷ []))
      else none

  new_socket :
      NetworkManager → State → ℕ → Target → Option (Option ℕ × NetworkManager × State × List Report)
  unfolding report_to
  new_socket m s rank t =
      let (fd?, s') = socket s in
      elim fd? [
        | none ↦ some (none, m, s', [])
        | some fd ↦
            let (connected, s'') = connect s' fd t.ip t.port in
            if connected then report_to m s'' rank fd else some (none, m, s'', [])
      ]

  -- A socket counts as open only if its number is positive.
  unfoldable pub get_send_socket :
      NetworkManager → State → ℕ → Option (Option ℕ × NetworkManager × State × List Report)
  unfolding new_socket
  get_send_socket m s rank = elim (find rank m.socks) [
    | none ↦ some (none, m, s, [])
    | some t ↦ elim t.sock [
      | none ↦ new_socket m s rank t
      | some fd ↦ elim fd [ zero ↦ new_socket m s rank t | suc n ↦ some (some (suc n), m, s, []) ]
    ]
  ]

  abbrev pub Sent : Type 0
  Sent = Outcome Exception (Unit {0}) × NetworkManager × State × List Attempt

  -- After a failed round: throw if it was the last, else go on.
  retry_or_throw : ℕ → NetworkManager → State → Attempt → Option Sent → Option Sent
  retry_or_throw zero m s a rest = some (throw send_error, m, s, a ∷ [])
  retry_or_throw (suc n) m s a rest = elim rest [
    | none ↦ none
    | some (o, m', s', log) ↦ some (o, m', s', a ∷ log)
  ]

  -- What the round does with the return of `writev`; `again` is the rest of the loop.
  after_write :
      ℕ
      → ℕ
      → List ℕ
      → (NetworkManager → State → Option Sent)
      → NetworkManager
      → ℕ
      → Option ℕ × State
      → Option Sent
  unfolding retry_or_throw
  after_write n rank content again m fd (none, s) =
      let m' = clear_send_socket m rank in
      retry_or_throw n m' s (wrote fd (message_frame content) none) (again m' s)
  after_write n rank content again m fd (some written, s) =
      let a = wrote fd (message_frame content) (some written) in
      if ltb written (8 + length content + 4)
      then some (throw send_error, m, s, a ∷ [])
      else some (ok tt, m, s, a ∷ [])

  after_socket :
      ℕ
      → ℕ
      → List ℕ
      → (NetworkManager → State → Option Sent)
      → Option (Option ℕ × NetworkManager × State × List Report)
      → Option Sent
  unfolding after_write
  after_socket n rank content again none = none
  after_socket n rank content again (some (none, m, s, rs)) =
      retry_or_throw n m s no_socket (again m s)
  after_socket n rank content again (some (some fd, m, s, rs)) =
      after_write n rank content again m fd (writev s fd (message_frame content))

  -- The loop, on the number of rounds that are left.
  send_loop : ℕ → NetworkManager → State → ℕ → List ℕ → Option Sent
  unfolding get_send_socket after_socket
  send_loop zero m s rank content = some (ok tt, m, s, [])
  send_loop (suc n) m s rank content =
      after_socket n rank content (λ m' s'. send_loop n m' s' rank content)
        (get_send_socket m s rank)

  unfoldable pub send_message : NetworkManager → State → ℕ → List ℕ → ℤ → Option Sent
  unfolding send_loop
  send_message m s rank content retry = send_loop (rounds retry) m s rank content
