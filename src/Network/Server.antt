-- ===== src/Network/Server.antt =====
-- src/network/NetworkManager.cpp: `startServer`, `run`, `closeSocket` and `stopServer`. What the calls
-- of the operating system answer is given with each step.
pub mod Sending
pub mod Peers
pub mod Life
use npp.Common.{
  ℕ, ◌+◌, ◌*◌, ◌/◌, ◌%◌, Bool, true, false, Option, none, some, List, [], ◌∷◌, ◌++◌, ltb, ◌==◌,
  if◌then◌else◌,
}
use npp.Common.Outcome.{Outcome, ok, ◌>>=◌}
use npp.Basic.Exception.{Exception}
use npp.Basic.Bytes.{Cell}
use npp.Network.Head.{htons}
use npp.Network.Connection.{Connection}
use npp.Network.Registry.{NetworkManager}
use npp.Network.Dispatch.{Handled, handle_event}

-- The descriptors that the manager has open, and every call of `close`, in order.
pub record Descriptors : Type 0 where
  pub opened : List ℕ
  pub closes : List ℕ

abbrev pub without : ℕ → List ℕ → List ℕ
without fd [] = []
without fd (x ∷ xs) = if x == fd then without fd xs else x ∷ without fd xs

unfoldable pub close_fd : ℕ → Descriptors → Descriptors
close_fd fd d = record { opened = without fd d.opened; closes = d.closes ++ fd ∷ [] }

-- What `socket`, `bind`, `listen`, `epoll_create`, `epoll_ctl` and `getsockname` answer to `run`; `none`
-- is -1, and a port is in network byte order.
pub record Startup : Type 0 where
  pub socket : Option ℕ
  pub bound : Bool
  pub listens : Bool
  pub epoll : Option ℕ
  pub added : Bool
  pub port : Option ℕ

-- `serv_addr.sin_port` behind `getsockname`: it keeps what `bind` was given where this fails.
abbrev pub sin_port : NetworkManager → Startup → ℕ
sin_port m a = elim a.port [ none ↦ htons m.listen_port | some p ↦ p ]

-- The part of `run` before its loop, with the descriptors that it leaves open. What `listen` and
-- `getsockname` return is not looked at.
open_epoll : NetworkManager → Startup → ℕ → NetworkManager × List ℕ
open_epoll m a fd = elim a.epoll [
  | none ↦ (record m { epoll_fd = none }, fd ∷ [])
  | some epoll_fd ↦
      if a.added
      then (
        record m { epoll_fd = some epoll_fd; listen_port = htons (sin_port m a); running = true },
        epoll_fd ∷ fd ∷ [],
      )
      else (record m { epoll_fd = some epoll_fd }, epoll_fd ∷ fd ∷ [])
]

unfoldable pub open_server : NetworkManager → Startup → NetworkManager × List ℕ
unfolding open_epoll
open_server m a = elim a.socket [
  | none ↦ (record m { sockfd = none }, [])
  | some fd ↦
      if a.bound
      then open_epoll (record m { sockfd = some fd }) a fd
      else (record m { sockfd = some fd }, fd ∷ [])
]

-- `startServer`: whether it returns, which it does once the server runs. Where `run` has given up it
-- waits for ever.
unfoldable pub start_server : NetworkManager → ℕ → Startup → Bool × NetworkManager × List ℕ
unfolding open_server
start_server m port a =
    let (m', fds) = open_server (record m { listen_port = port }) a in (m'.running, m', fds)

-- The steps of `stopServer` up to the wait for the end of `run`. A member is closed, and set to -1,
-- where it is greater than 0.
abbrev pub reset_member : Option ℕ → Option ℕ
reset_member none = none
reset_member (some fd) = if ltb 0 fd then none else some fd

close_member : Option ℕ → Descriptors → Descriptors
unfolding close_fd
close_member none d = d
close_member (some fd) d = if ltb 0 fd then close_fd fd d else d

unfoldable pub stop_running : NetworkManager → NetworkManager
stop_running m = record m { running = false; listen_port = 0 }

unfoldable pub stop_listening : NetworkManager → Descriptors → NetworkManager × Descriptors
unfolding close_member
stop_listening m d = (record m { sockfd = reset_member m.sockfd }, close_member m.sockfd d)

unfoldable pub stop_epoll : NetworkManager → Descriptors → NetworkManager × Descriptors
unfolding close_member
stop_epoll m d = (record m { epoll_fd = reset_member m.epoll_fd }, close_member m.epoll_fd d)

unfoldable pub stop_server : NetworkManager → Descriptors → NetworkManager × Descriptors
unfolding stop_running stop_listening stop_epoll
stop_server m d = let (m', d') = stop_listening (stop_running m) d in stop_epoll m' d'

-- The destructor, before those of its members.
unfoldable pub destroy_manager : NetworkManager → Descriptors → NetworkManager × Descriptors
unfolding stop_server
destroy_manager m d = if m.running then stop_server m d else (m, d)

-- The end of `run` closes both members as they are; of -1 nothing comes.
close_if_any : Option ℕ → Descriptors → Descriptors
unfolding close_fd
close_if_any none d = d
close_if_any (some fd) d = close_fd fd d

unfoldable pub end_run : NetworkManager → Descriptors → Descriptors
unfolding close_if_any
end_run m d = close_if_any m.sockfd (close_if_any m.epoll_fd d)

-- How the loop of `run` is left, if it is.
pub data Ending : Type 0 where
  waiting failed stopped : Ending

module _ (k : Connection) where
  open k use {State}

  -- The descriptors, those that epoll watches beside `sockfd`, and the messages handed on
  -- with the descriptor that they came from.
  pub record Server : Type 0 where
    pub manager : NetworkManager
    pub descriptors : Descriptors
    pub watched : List ℕ
    pub connections : ℕ → State
    pub handed_on : List (ℕ × Cell)

  -- An event of `epoll_wait`, and what `accept`, `epoll_ctl` and `getsockname` answer if they are called.
  pub record Event : Type 0 where
    pub fd : ℕ
    pub accepted : Option (ℕ × State)
    pub added : Bool
    pub ip : ℕ

  abbrev pub update : ℕ → State → (ℕ → State) → ℕ → State
  update fd c connections x = if x == fd then c else connections x

  abbrev pub is_listening : NetworkManager → ℕ → Bool
  is_listening m fd = elim m.sockfd [ none ↦ false | some s ↦ fd == s ]

  unfoldable pub accept_connection : Server → Event → Server
  accept_connection s e = elim e.accepted [
    | none ↦ record s { manager = record s.manager { running = false } }
    | some (fd, c) ↦ record s {
      descriptors = record s.descriptors { opened = fd ∷ s.descriptors.opened };
      watched = if e.added then fd ∷ s.watched else s.watched;
      connections = update fd c s.connections;
    }
  ]

  -- `close` takes the descriptor out of the epoll set, so that the `epoll_ctl` after it does nothing.
  unfoldable pub close_socket : Server → ℕ → Server
  unfolding close_fd
  close_socket s fd = record s {
    descriptors = close_fd fd s.descriptors;
    watched = without fd s.watched;
  }

  abbrev pub log_message : ℕ → Option Cell → List (ℕ × Cell) → List (ℕ × Cell)
  log_message fd none log = log
  log_message fd (some content) log = log ++ (fd, content) ∷ []

  unfoldable pub after_event : Server → ℕ → Handled k → Server
  unfolding close_socket
  after_event s fd h =
      let s' = record s {
        manager = h.manager;
        connections = update fd h.connection s.connections;
        handed_on = log_message fd h.message s.handed_on;
      } in
      if h.is_closed then close_socket s' fd else s'

  unfoldable pub serve_event : Server → Event → Outcome Exception Server
  unfolding accept_connection after_event
  serve_event s e =
      if is_listening s.manager e.fd
      then ok (accept_connection s e)
      else (handle_event k s.manager (s.connections e.fd) e.ip e.fd >>= λ (h : Handled k).
          ok (after_event s e.fd h))

  unfoldable pub serve_events : Server → List Event → Outcome Exception Server
  serve_events s [] = ok s
  serve_events s (e ∷ es) = serve_event s e >>= λ (t : Server). serve_events t es

  -- The loop, over what `epoll_wait` gives at each call.
  unfoldable pub run_loop :
      Server → List (Option (List Event)) → Outcome Exception (Ending × Server)
  unfolding end_run
  run_loop s [] = ok (waiting, s)
  run_loop s (r ∷ rs) =
      if s.manager.running
      then elim r [
        | none ↦ ok (failed, s)
        | some es ↦ serve_events s es >>= λ (t : Server). run_loop t rs
      ]
      else ok (stopped, record s { descriptors = end_run s.manager s.descriptors })
