-- ===== src/Network/Node.antt =====
-- src/network/NetworkManager.cpp: the server and the messages of `getMessage` as one system. The thread
-- of the loop handles an event to its end, with `processMessage` where a message has come; meanwhile
-- other threads call `getMessage`.
pub mod Events
pub mod Kept
pub mod Carries
pub mod EndToEnd
use npp.Common.{ℕ, ◌≡◌, false, Option, none, some, List, [], ◌∷◌, ◌++◌, if◌then◌else◌}
use npp.Common.Outcome.{Outcome, ok, ◌>>=◌}
use npp.Basic.Exception.{Exception}
use npp.Basic.Bytes.{Cell}
use npp.Network.Connection.{Connection}
use npp.Network.Dispatch.{Handled, handle_event}
use npp.Network.Registry.{NetworkManager, register_target}
use npp.Network.Send.{Kernel, ℤ, Sent, send_message}
use npp.Network.Server.{
  Server, Event, is_listening, accept_connection, after_event, end_run, stop_running,
  stop_listening, stop_epoll,
}
use npp.Network.Inbox.{
  Inbox, Loop, polling, writing, ended, failed, open_inbox, process_message, get_message,
  test_running, stop,
}

module _ (k : Connection) where
  -- The flag `running` is in the server's manager and in the inbox. `served` is a record of the events of connections that were handled.
  pub record Node : Type 0 where
    pub server : Server k
    pub inbox : Inbox Cell
    pub served : List (Event k)

  unfoldable pub open_node : Server k → Node
  open_node s = record {
    server = s;
    inbox = record open_inbox { running = s.manager.running };
    served = [];
  }

  -- `writer` is the address of the awaiter in `write_sync`.
  abbrev pub deliver : Inbox Cell → ℕ → Option Cell → Inbox Cell
  deliver i writer none = i
  deliver i writer (some content) = process_message i writer content

  -- One event in the loop of `run`. Where `accept` fails the loop is told to stop.
  unfoldable pub serve : Node → Event k → ℕ → Outcome Exception Node
  serve n e writer =
      if is_listening k n.server.manager e.fd
      then (let s = accept_connection k n.server e in
          ok (record n { server = s; inbox = record n.inbox { running = s.manager.running } }))
      else (handle_event k n.server.manager (n.server.connections e.fd) e.ip e.fd
          >>= λ (h : Handled k). ok (record {
            server = after_event k n.server e.fd h;
            inbox = deliver n.inbox writer h.message;
            served = n.served ++ e ∷ [];
          }))

  -- The test of the loop, and the end of `run` where it fails.
  abbrev pub after_test : Loop Cell → Server k → Server k
  after_test polling s =
      if s.manager.running then s else record s { descriptors = end_run s.manager s.descriptors }
  after_test (writing c) s = s
  after_test ended s = s
  after_test failed s = s

  unfoldable pub test_loop : Node → Node
  unfolding end_run
  test_loop n = record n { server = after_test n.inbox.loop n.server; inbox = test_running n.inbox }

  -- The steps of `stopServer` up to its wait for the loop.
  unfoldable pub stop_loop : Node → Node
  unfolding stop_running stop
  stop_loop n = record n {
    server = record n.server { manager = stop_running n.server.manager };
    inbox = stop n.inbox;
  }

  unfoldable pub close_listening : Node → Node
  unfolding stop_listening
  close_listening n =
      let (m, d) = stop_listening n.server.manager n.server.descriptors in
      record n { server = record n.server { manager = m; descriptors = d } }

  unfoldable pub close_epoll : Node → Node
  unfolding stop_epoll
  close_epoll n =
      let (m, d) = stop_epoll n.server.manager n.server.descriptors in
      record n { server = record n.server { manager = m; descriptors = d } }

  -- What `accept` gives is the connection that `connections` has for the descriptor: what its peer sends
  -- on it from the beginning.
  abbrev pub Accepts : Node → Event k → Type 0
  Accepts n e = elim e.accepted [
    | none ↦ Unit {0}
    | some (fd, c) ↦ k.incoming c ≡ k.incoming (n.server.connections fd)
  ]

  abbrev pub with_manager : Node → NetworkManager → Node
  with_manager n m = record n { server = record n.server { manager = m } }

  module _ (os : Kernel) where
    -- The loop handles an event only where it does not wait in `processMessage`. Other threads use the
    -- table of targets: what the system answers to a call of `sendMessage` is given with the step, and
    -- a call is one step.
    pub data Step (n t : Node) : Type 0 where
      serves :
          (e : Event k) (writer : ℕ)
          → n.inbox.loop ≡ polling
          → Accepts n e
          → serve n e writer ≡ ok t
          → Step n t
      gets : (reader : ℕ) → t ≡ record n { inbox = get_message n.inbox reader } → Step n t
      tests : t ≡ test_loop n → Step n t
      stops : t ≡ stop_loop n → Step n t
      closes_listening : t ≡ close_listening n → Step n t
      closes_epoll : t ≡ close_epoll n → Step n t
      registers :
          (rank ip port : ℕ)
          → t ≡ with_manager n (register_target n.server.manager rank ip port)
          → Step n t
      sends :
          (s : os.State) (rank : ℕ) (content : List ℕ) (retry : ℤ) (r : Sent os)
          → send_message os n.server.manager s rank content retry ≡ some r
          → t ≡ with_manager n r.1
          → Step n t

    pub data Reach (n : Node) : Node → Type 0 where
      here : Reach n n
      next : {t u : Node} → Reach n t → Step t u → Reach n u
