-- ===== src/Tests/NodeRuns.antt =====
-- Runs of the server of src/network/NetworkManager.cpp with clients that call `getMessage`.
use npp.Common.{◌≡◌, refl, true, Option, none, some, [], ◌∷◌, arith}
use npp.Common.Outcome.{Outcome, ok}
use npp.Basic.Exception.{Exception}
use npp.Basic.Bytes.{set_cell}
use npp.Network.Head.{decode_head, message_frame, report_frame}
use npp.Network.Receive.{read_normal_message}
use npp.Network.Dispatch.{handle_event, by_type}
use npp.Network.Registry.{NetworkManager, record_report, register_target, find, insert, set_sock}
use npp.Network.Send.{pos, Sent, send_message, get_send_socket}
use npp.Network.Server.{Event, after_event, accept_connection}
use npp.Network.Connection.Chunks.{chunks, chunks-IsReliable}
use npp.Network.Receive.Fill.{written}
use npp.Network.Inbox.{writing, open_inbox, process_message, get_message}
use npp.Network.Node.{
  Node, open_node, serve, stop_loop, with_manager, Reach, serves, gets, stops, registers, sends,
  here, next,
}
use npp.Network.Node.Carries.{Carries, Reach-Carries}
use npp.Tests.StreamRuns.{scripted}
use npp.Tests.ServerRuns.{items, server, on, items-Sending}

abbrev pub Peers : Type 0
Peers = Node (chunks 7)

abbrev pub value : Peers → Outcome Exception Peers → Peers
value n (ok t) = t
value n _ = n

-- A client asks, a connection is accepted, a peer reports its rank, and its message comes and is
-- returned; then one of another peer comes, which waits while the process registers a target, sends it
-- a message on a new socket, and `stopServer` tells the loop to stop.
abbrev pub asked : Peers
asked = record (open_node (chunks 7) server) { inbox = get_message open_inbox 1 }

abbrev accepting : Event (chunks 7)
accepting = record { fd = 5; accepted = some (10, []); added = true; ip = 16777343 }

abbrev pub accepted : Peers
accepted = value asked (serve (chunks 7) asked accepting 2)

abbrev pub reported : Peers
reported = value accepted (serve (chunks 7) accepted (on 8) 2)

abbrev pub first_come : Peers
first_come = value reported (serve (chunks 7) reported (on 8) 2)

abbrev pub second_come : Peers
second_come = value first_come (serve (chunks 7) first_come (on 9) 3)

abbrev pub registered : Peers
registered =
    with_manager (chunks 7) second_come
      (register_target second_come.server.manager 2 2130706433 8081)

-- Its state is what `writev` answers to the report and to the message.
abbrev connected : Option (Sent scripted)
connected =
    send_message scripted registered.server.manager (some 12 ∷ some 13 ∷ []) 2 (7 ∷ []) (pos 0)

abbrev pub sent_manager : Option (Sent scripted) → NetworkManager → NetworkManager
sent_manager none m = m
sent_manager (some r) m = r.1

abbrev pub sent : Peers
sent = with_manager (chunks 7) registered (sent_manager connected registered.server.manager)

abbrev pub stopping : Peers
stopping = stop_loop (chunks 7) sent

returned :
    (second_come.inbox.got ≡ written (1 ∷ 2 ∷ 3 ∷ []) ∷ [])
    × (second_come.inbox.loop ≡ writing (written (5 ∷ 6 ∷ [])))
    × (second_come.server.watched ≡ 10 ∷ 9 ∷ 8 ∷ [])
unfolding open_node serve stop_loop handle_event by_type read_normal_message set_cell decode_head
    after_event accept_connection open_inbox process_message get_message npp.Task.Channel.create
    npp.Task.Channel.try_push_reader npp.Task.Channel.try_push_writer message_frame report_frame
    record_report
returned = (refl, refl, refl)

sent_message :
    find 2 sent.server.manager.socks
    ≡ some (record { rank = 2; ip = 16777343; port = 37151; sock = some 6 })
unfolding open_node serve handle_event by_type read_normal_message set_cell decode_head after_event
    accept_connection open_inbox process_message get_message npp.Task.Channel.create
    npp.Task.Channel.try_push_reader npp.Task.Channel.try_push_writer message_frame report_frame
    record_report register_target find insert set_sock send_message get_send_socket
sent_message = refl

pub Reach-stopping : Reach (chunks 7) scripted (open_node (chunks 7) server) stopping
unfolding open_node serve stop_loop handle_event by_type read_normal_message set_cell decode_head
    after_event accept_connection open_inbox process_message get_message npp.Task.Channel.create
    npp.Task.Channel.try_push_reader npp.Task.Channel.try_push_writer message_frame report_frame
    record_report register_target find insert set_sock send_message get_send_socket
Reach-stopping =
    let asks = gets 1 refl in
    let accepts = serves accepting 2 refl refl refl in
    let reports = serves (on 8) 2 refl tt refl in
    let comes = serves (on 8) 2 refl tt refl in
    let waits = serves (on 9) 3 refl tt refl in
    let names = registers 2 2130706433 8081 refl in
    let calls = sends (some 12 ∷ some 13 ∷ []) 2 (7 ∷ []) (pos 0) _ refl refl in
    let comes_first = next (next (next (next (next here asks) accepts) reports) comes) waits in
    next (next (next comes_first names) calls) (stops refl)

Reach-Carries_example :
    Carries (chunks 7) (chunks-IsReliable 7 (omega arith)) scripted server items stopping
Reach-Carries_example =
    Reach-Carries (chunks 7) (chunks-IsReliable 7 (omega arith)) scripted server items items-Sending
      refl Reach-stopping
