-- ===== src/Tests/ServerRuns.antt =====
-- Runs of the server of src/network/NetworkManager.cpp, with `read` in pieces.
use npp.Common.{
  ℕ, ◌≡◌, ◌≢◌, ◌↔◌, refl, true, false, none, some, List, [], ◌∷◌, inl, inr, Bool-cases, ◌==◌,
  if◌then◌else◌, arith,
}
use npp.Common.Outcome.{Returns}
use npp.Network.Head.{htons}
use npp.Network.Connection.Chunks.{chunks, chunks-IsReliable}
use npp.Network.Registry.{NetworkManager, create}
use npp.Network.Server.{
  Startup, Server, Event, start_server, stop_server, destroy_manager, end_run, serve_events,
}
use npp.Network.Server.Sending.{Item, message, report, frames, Sending, Served, to_come}
use npp.Network.Server.Peers.{serve_events-Served}
use npp.Network.Server.Life.{
  Succeeds, IsRunning, count, stop_around, start_server_lem, stop_server_lem,
}

-- The peer of descriptor 8 has reported its rank.
abbrev pub items : ℕ → List Item
items fd =
    if fd == 8
    then report 0 8080 ∷ message (1 ∷ 2 ∷ 3 ∷ []) ∷ message (4 ∷ []) ∷ []
    else if fd == 9
    then message (5 ∷ 6 ∷ []) ∷ []
    else []

abbrev pub manager : NetworkManager
manager = record {
  my_rank = 0;
  running = true;
  sockfd = some 5;
  epoll_fd = some 6;
  listen_port = 8080;
  socks = [];
}

abbrev pub server : Server (chunks 7)
server = record {
  manager = manager;
  descriptors = record { opened = 9 ∷ 8 ∷ 6 ∷ 5 ∷ []; closes = [] };
  watched = 9 ∷ 8 ∷ [];
  connections = λ fd. frames (items fd);
  handed_on = [];
}

abbrev pub on : ℕ → Event (chunks 7)
on fd = record { fd = fd; accepted = none; added = true; ip = 16777343 }

-- The last event has nothing to come.
abbrev events : List (Event (chunks 7))
events = on 8 ∷ on 9 ∷ on 8 ∷ on 9 ∷ []

pub items-Sending : Sending (chunks 7) server items
items-Sending fd = elim (Bool-cases (fd == 8)) [
  | inl here ↦ rw here (refl, omega arith)
  | inr other ↦ elim (Bool-cases (fd == 9)) [
    | inl here ↦ rw (other, here) (refl, omega arith)
    | inr away ↦ rw (other, away) (refl, tt)
  ]
]

serve_events-Served_example :
    Returns
      (λ t. Served (chunks 7) server t items (to_come (chunks 7) events items))
      (serve_events (chunks 7) server events)
serve_events-Served_example =
    serve_events-Served (chunks 7) (chunks-IsReliable 7 (omega arith)) server items events
      items-Sending (refl, (refl, (refl, (refl, tt))))

abbrev answers : Startup
answers = record {
  socket = some 5;
  bound = true;
  listens = false;
  epoll = some 6;
  added = true;
  port = some 36895;
}

start_server_lem_example :
    let (returns, m', fds) = start_server (create 0) 0 answers in
    (returns ≡ true ↔ (fd : ℕ) × (epoll_fd : ℕ) × Succeeds answers fd epoll_fd)
    × ((fd epoll_fd : ℕ)
        → Succeeds answers fd epoll_fd
        → (m'.sockfd ≡ some fd)
          × (m'.epoll_fd ≡ some epoll_fd)
          × ((p : ℕ) → answers.port ≡ some p → m'.listen_port ≡ htons p)
          × (answers.port ≡ none → m'.listen_port ≡ htons (htons 0))
          × (fds ≡ epoll_fd ∷ fd ∷ []))
    × (returns ≡ false → (m'.running ≡ false) × (m'.listen_port ≡ 0))
unfolding create
start_server_lem_example = start_server_lem (create 0) 0 answers refl

running : IsRunning manager 5 6
running = record {
  runs = refl;
  has_socket = refl;
  has_epoll = refl;
  positive = (omega arith, omega arith);
}

stop_server_lem_example :
    let (stopped, d') = stop_server manager server.descriptors in
    let first = end_run stopped d' in
    let second = stop_around manager server.descriptors in
    (first.closes ≡ 5 ∷ 6 ∷ [])
    × (second.closes ≡ 6 ∷ 5 ∷ 5 ∷ 6 ∷ [])
    × ((x : ℕ)
        → x ≢ 5
        → x ≢ 6
        → (count x first.opened ≡ count x server.descriptors.opened)
          × (count x second.opened ≡ count x server.descriptors.opened))
    × (destroy_manager manager server.descriptors ≡ (stopped, d'))
    × (destroy_manager stopped d' ≡ (stopped, d'))
stop_server_lem_example = stop_server_lem manager server.descriptors 5 6 running
