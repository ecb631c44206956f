-- ===== src/Network/Dispatch.antt =====
-- src/network/NetworkManager.cpp: what `run` does with a connection that has something to read, and
-- `readRankReportMessage`.
pub mod Frames
pub mod Reports
use npp.Common.{ℕ, Bool, true, false, Option, none, some, List, [], ◌∷◌, ◌==◌, if◌then◌else◌}
use npp.Common.Outcome.{Outcome, ok, throw, abort, fault, ◌>>=◌}
use npp.Basic.Exception.{Exception}
use npp.Basic.Bytes.{Cell}
use npp.Network.Head.{MessageHead, decode_head, head_size}
use npp.Network.Connection.{Connection}
use npp.Network.Receive.{read_verify, check_verify, read_normal_message}
use npp.Network.Registry.{NetworkManager, record_report}

module _ (k : Connection) where
  open k use {State, read}

  -- The message that is handed on, if any, and whether the socket was closed.
  pub record Handled : Type 0 where
    pub message : Option Cell
    pub is_closed : Bool
    pub manager : NetworkManager
    pub connection : State

  -- Nothing to hand on, and the socket stays open.
  abbrev pub quiet : NetworkManager → State → Handled
  quiet m s = record { message = none; is_closed = false; manager = m; connection = s }

  -- How `readNormalMessage` ends: it closes the socket where it has no message.
  abbrev pub received : NetworkManager → Option Cell × State → Handled
  received m (message, s) = record {
    message = message;
    is_closed = elim message [ none ↦ true | some content ↦ false ];
    manager = m;
    connection = s;
  }

  -- `ip` is what `getsockname` gives.
  unfoldable pub read_rank_report :
      NetworkManager → State → MessageHead → ℕ → ℕ → Outcome Exception Handled
  read_rank_report m s head ip connfd =
      let (w, s') = read_verify k s in
      check_verify w >>= (λ _. ok (quiet (record_report m head.size ip head.reserved connfd) s'))

  unfoldable pub by_type : NetworkManager → State → MessageHead → ℕ → ℕ → Outcome Exception Handled
  unfolding read_rank_report
  by_type m s head ip connfd =
      if head.type == 0
      then (read_normal_message k s head >>= (λ (r : Option Cell × State). ok (received m r)))
      else if head.type == 1
      then read_rank_report m s head ip connfd
      else ok (quiet m s)

  -- One event of a connection. A `read` that gives nothing closes the socket.
  unfoldable pub handle_event : NetworkManager → State → ℕ → ℕ → Outcome Exception Handled
  handle_event m s ip connfd =
      let (r, s') = read s head_size in
      elim r [
        | none ↦ ok (received m (none, s'))
        | some bs ↦ by_type m s' (decode_head bs) ip connfd
      ]
