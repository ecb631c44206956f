-- ===== src/Tests/EndToEndRuns.antt =====
-- Two peers that call `sendMessage` of src/network/NetworkManager.cpp, and the server that they send
-- to.
use npp.Common.{ℕ, ◌≡◌, refl, some, List, [], ◌∷◌, inl, inr, Bool-cases, ◌==◌, if◌then◌else◌, arith}
use npp.Common.Outcome.{Outcome, ok}
use npp.Basic.Exception.{Exception}
use npp.Network.Head.{message_frame, report_frame}
use npp.Network.Connection.Chunks.{chunks, chunks-IsReliable}
use npp.Network.Registry.{find, set_sock}
use npp.Network.Server.Sending.{Item, IsMessage, frames}
use npp.Network.Send.{get_send_socket}
use npp.Network.Send.Stream.{Call}
use npp.Network.Send.Threads.{
  ended, begin, after_get, place_after, test_round, sender_step, Senders, after_step, open_senders,
  here,
}
use npp.Network.Node.Carries.{Carries}
use npp.Network.Node.EndToEnd.{Peer, arrived_from, AreSent, Reach-Carries_sent}
use npp.Tests.ServerRuns.{items, server}
use npp.Tests.NodeRuns.{stopping, Reach-stopping}
use npp.Tests.StreamRuns.{scripted, manager}
use npp.Tests.SenderRuns.{
  unconnected, connecting, two_calls, run_of, run-Reach, crossing, Reach-crossing,
  crossing-returned, two_calls-rounds,
}

abbrev first_calls : ℕ → Call
first_calls = two_calls (1 ∷ 2 ∷ 3 ∷ []) (4 ∷ [])

abbrev second_calls : ℕ → Call
second_calls = two_calls (5 ∷ 6 ∷ []) (8 ∷ [])

abbrev second_sent : Senders scripted
second_sent = run_of (0 ∷ 0 ∷ []) (open_senders scripted manager (some 14 ∷ []) second_calls)

second-returned :
    (i : ℕ) (o : Outcome Exception (Unit {0})) → (second_sent.senders i).place ≡ ended o → o ≡ ok tt
unfolding open_senders begin sender_step test_round after_get place_after after_step get_send_socket
    find
second-returned i o e = ground (arith, e)

abbrev silent : Senders scripted
silent = open_senders scripted manager [] second_calls

silent-returned :
    (i : ℕ) (o : Outcome Exception (Unit {0})) → (silent.senders i).place ≡ ended o → o ≡ ok tt
unfolding open_senders begin
silent-returned i o e = ground (arith, e)

first_messages : (i : ℕ) → IsMessage (first_calls i).content
first_messages i = ground arith

second_messages : (i : ℕ) → IsMessage (second_calls i).content
second_messages i = ground arith

abbrev first_peer : Peer scripted
first_peer = record {
  manager = unconnected;
  system = connecting;
  calls = first_calls;
  last = crossing;
  socket = 6;
  fit = (omega arith, omega arith);
  reached = Reach-crossing;
  returned = crossing-returned;
  tries = two_calls-rounds (1 ∷ 2 ∷ 3 ∷ []) (4 ∷ []);
  messages = first_messages;
}

-- The second peer makes one of its calls.
abbrev second_peer : Peer scripted
second_peer = record {
  manager = manager;
  system = some 14 ∷ [];
  calls = second_calls;
  last = second_sent;
  socket = 4;
  fit = (omega arith, omega arith);
  reached = run-Reach (0 ∷ 0 ∷ []) _ _ here;
  returned = second-returned;
  tries = two_calls-rounds (5 ∷ 6 ∷ []) (8 ∷ []);
  messages = second_messages;
}

abbrev silent_peer : Peer scripted
silent_peer = record {
  manager = manager;
  system = [];
  calls = second_calls;
  last = silent;
  socket = 4;
  fit = (omega arith, omega arith);
  reached = here;
  returned = silent-returned;
  tries = two_calls-rounds (5 ∷ 6 ∷ []) (8 ∷ []);
  messages = second_messages;
}

abbrev peer : ℕ → Peer scripted
peer fd = if fd == 8 then first_peer else if fd == 9 then second_peer else silent_peer

arrived : (fd : ℕ) → frames (items fd) ≡ arrived_from (peer fd)
unfolding message_frame report_frame open_senders begin sender_step test_round after_get place_after
    after_step get_send_socket find set_sock
arrived fd = elim (Bool-cases (fd == 8)) [
  | inl q ↦ rw q refl
  | inr other ↦ elim (Bool-cases (fd == 9)) [
    | inl q ↦ rw (other, q) refl
    | inr away ↦ rw (other, away) refl
  ]
]

Reach-Carries_sent_example :
    (sent : ℕ → List Item) × ((fd : ℕ) → AreSent (peer fd) (sent fd))
    × Carries (chunks 7) (chunks-IsReliable 7 (omega arith)) scripted server sent stopping
Reach-Carries_sent_example =
    Reach-Carries_sent (chunks 7) (chunks-IsReliable 7 (omega arith)) scripted scripted server peer
      arrived refl Reach-stopping
