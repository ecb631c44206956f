-- ===== src/Tests/StreamRuns.antt =====
-- Runs of `sendMessage` of src/network/NetworkManager.cpp, one call after the other.
use npp.Common.{ℕ, ◌≡◌, refl, true, Option, none, some, List, [], ◌∷◌, ◌++◌, take, arith}
use npp.Common.Outcome.{ok, throw}
use npp.Basic.Exception.{send_error}
use npp.Network.Head.{message_frame}
use npp.Network.Registry.{NetworkManager, Target, find, clear_send_socket, set_sock}
use npp.Network.Send.{Kernel, Attempt, wrote, get_send_socket, send_message}
use npp.Network.Send.Stream.{Call, carried, send_all}
use npp.Network.Send.Short.{call, short_write_stays}

-- Its state is what `writev` returns next.
abbrev pub scripted : Kernel
scripted = record {
  State = List (Option ℕ);
  socket = λ s. (some 6, s);
  connect = λ s fd ip port. (true, s);
  writev = λ s fd bytes. elim s [ [] ↦ (none, []) | r ∷ rs ↦ (r, rs) ];
  close = λ s fd. s;
  add_epoll = λ s fd. s;
}

abbrev pub peer : Target
peer = record { rank = 1; ip = 16777343; port = 36895; sock = some 4 }

abbrev pub manager : NetworkManager
manager = record {
  my_rank = 0;
  running = true;
  sockfd = some 3;
  epoll_fd = some 5;
  listen_port = 8080;
  socks = (1, peer) ∷ [];
}

-- The second call fails on socket 4, and connects again.
abbrev calls : List Call
calls = call 1 (10 ∷ 20 ∷ []) 0 ∷ call 1 (30 ∷ []) 1 ∷ []

abbrev answers : List (Option ℕ)
answers = some 14 ∷ none ∷ some 12 ∷ some 13 ∷ []

abbrev reconnected : NetworkManager
reconnected = record manager { socks = (1, record peer { sock = some 6 }) ∷ [] }

abbrev attempts : List Attempt
attempts =
    wrote 4 (message_frame (10 ∷ 20 ∷ [])) (some 14)
    ∷ wrote 4 (message_frame (30 ∷ [])) none
    ∷ wrote 6 (message_frame (30 ∷ [])) (some 13)
    ∷ []

sends :
    send_all scripted manager answers calls ≡ some (ok tt ∷ ok tt ∷ [], reconnected, [], attempts)
unfolding send_all send_message get_send_socket find clear_send_socket set_sock
sends = refl

short_write_stays_example :
    (log : List Attempt) × (send_all scripted manager
        (some 9 ∷ some 13 ∷ [])
        (call 1 (10 ∷ 20 ∷ []) 2 ∷ call 1 (30 ∷ []) 0 ∷ [])
      ≡ some (throw send_error ∷ ok tt ∷ [], manager, [], log))
    × (carried 4 log ≡ take 9 (message_frame (10 ∷ 20 ∷ [])) ++ message_frame (30 ∷ []))
unfolding find
short_write_stays_example =
    short_write_stays scripted manager 1 3 peer (some 9 ∷ some 13 ∷ []) (some 13 ∷ []) []
      (10 ∷ 20 ∷ []) (30 ∷ []) 2 0 9 13 refl refl refl (omega arith) refl (omega arith)
