-- ===== src/Network/Node/Carries.antt =====
-- src/network/NetworkManager.cpp: what `getMessage` returns of the messages that peers send.
use npp.Common.{ℕ, Bool-cases, inl, inr, ◌≡◌, refl, sym, ap, subst, ◌∙◌, false, List, [], ◌++◌, map}
use npp.Common.Outcome.{Outcome, ok, throw, abort, fault, Returns}
use npp.Basic.Exception.{Exception}
use npp.Basic.Bytes.{Cell}
use npp.Network.Connection.{Connection, IsReliable}
use npp.Network.Receive.Fill.{written}
use npp.Network.Dispatch.{Handled, handle_event}
use npp.Network.Server.{Server, Event, is_listening, serve_event, stop_running}
use npp.Network.Server.Sending.{Item, contents, from, after, Sending, Served, to_come}
use npp.Network.Registry.{NetworkManager}
use npp.Network.Server.Peers.{event-Served}
use npp.Network.Inbox.{
  Inbox, Loop, polling, writing, ended, failed, open_inbox, get_message, test_running, stop,
}
use npp.Network.Inbox.Handover.{in_flight, Step-IsInbox, Reach-IsInbox}
use npp.Network.Inbox
use npp.Network.Send.{Kernel}
use npp.Network.Send.Table.{OnlySocks, register_target-OnlySocks, send_message-OnlySocks}
use npp.Network.Node.Events.{
  content_of, get-handed_on, test-handed_on, serve-Handling, IsInbox-running, test-running,
  get-running, ok_injective,
}
use npp.Network.Node.Kept.{IsCarrying, kept-IsCarrying, accept-IsCarrying, Handling-IsCarrying}
use npp.Network.Node.{
  Node, open_node, with_manager, serve, after_test, test_loop, stop_loop, close_listening,
  close_epoll, Accepts, Step, Reach, serves, gets, tests, stops, closes_listening, closes_epoll,
  registers, sends, here, next,
}

module _ (k : Connection) where
  -- What the test of the loop leaves of the server.
  record Tested (s t : Server k) : Type 0 where
    same_connections : t.connections ≡ s.connections
    same_log : t.handed_on ≡ s.handed_on
    same_manager : t.manager ≡ s.manager

  after_test-Tested : (l : Loop Cell) (s : Server k) → Tested s (after_test k l s)
  after_test-Tested polling s = elim (Bool-cases s.manager.running) [
    | inl on ↦ rw on (record { same_connections = refl; same_log = refl; same_manager = refl })
    | inr off ↦ rw off (record { same_connections = refl; same_log = refl; same_manager = refl })
  ]
  after_test-Tested (writing c) s = record {
    same_connections = refl;
    same_log = refl;
    same_manager = refl;
  }
  after_test-Tested ended s = record {
    same_connections = refl;
    same_log = refl;
    same_manager = refl;
  }
  after_test-Tested failed s = record {
    same_connections = refl;
    same_log = refl;
    same_manager = refl;
  }

  module _ (reliable : IsReliable k) (os : Kernel) (first : Server k) (items : ℕ → List Item) where
    serve-IsCarrying :
        (n t : Node k) (e : Event k) (writer : ℕ)
        → n.inbox.loop ≡ polling
        → Accepts k n e
        → serve k n e writer ≡ ok t
        → IsCarrying k first items n
        → IsCarrying k first items t
    unfolding serve
    serve-IsCarrying n t e writer p a eq v =
        elim (Bool-cases (is_listening k n.server.manager e.fd)) [
          | inl q ↦
              subst (IsCarrying k first items) (ok_injective k (sym (rw q refl) ∙ eq))
                (accept-IsCarrying k first items n e e.accepted refl a v)
          | inr q ↦
              Handling-IsCarrying k first items n t e writer reliable p q
                (serve-Handling k n t e writer q eq) v
        ]

    table-IsCarrying :
        {n t : Node k} {m : NetworkManager}
        → t ≡ with_manager k n m
        → OnlySocks n.server.manager m
        → IsCarrying k first items n
        → IsCarrying k first items t
    table-IsCarrying {n} e p v = rw e (
        kept-IsCarrying k first items n _ n.inbox refl refl refl
          (v.same_running ∙ ap (λ (m : NetworkManager). m.running) (sym p)) v.inbox v)

    Step-IsCarrying :
        {n t : Node k} → Step k os n t → IsCarrying k first items n → IsCarrying k first items t
    unfolding test_loop stop_loop close_listening close_epoll
    Step-IsCarrying {n} {t} (serves e w p a eq) v = serve-IsCarrying n t e w p a eq v
    Step-IsCarrying {n} (gets r e) v = rw e (
        kept-IsCarrying k first items n n.server (get_message n.inbox r) refl refl
          (get-handed_on n.inbox r) (get-running n.inbox r ∙ v.same_running)
          (Step-IsInbox (Inbox.gets r refl) v.inbox) v)
    Step-IsCarrying {n} (tests e) v =
        let d = after_test-Tested n.inbox.loop n.server in
        rw e (
          kept-IsCarrying k first items n (after_test k n.inbox.loop n.server)
            (test_running n.inbox) d.same_connections d.same_log (test-handed_on n.inbox)
            (test-running n.inbox
              ∙ (v.same_running ∙ ap (λ (m : NetworkManager). m.running) (sym d.same_manager)))
            (Step-IsInbox (Inbox.tests refl) v.inbox) v)
    Step-IsCarrying {n} (stops e) v = rw e (
        kept-IsCarrying k first items n
          (record n.server { manager = stop_running n.server.manager }) (stop n.inbox) refl refl
          refl refl (Step-IsInbox (Inbox.stops refl) v.inbox) v)
    Step-IsCarrying {n} (closes_listening e) v =
        rw e (kept-IsCarrying k first items n _ n.inbox refl refl refl v.same_running v.inbox v)
    Step-IsCarrying {n} (closes_epoll e) v =
        rw e (kept-IsCarrying k first items n _ n.inbox refl refl refl v.same_running v.inbox v)
    Step-IsCarrying {n} (registers rank ip port e) v =
        table-IsCarrying e (register_target-OnlySocks n.server.manager rank ip port) v
    Step-IsCarrying {n} (sends s rank content retry r q e) v =
        table-IsCarrying e (send_message-OnlySocks os n.server.manager s rank content retry r q) v

    serve-Returns :
        (n : Node k) (e : Event k) (writer : ℕ)
        → IsCarrying k first items n
        → Returns (λ (t : Node k). Unit {0}) (serve k n e writer)
    unfolding serve serve_event
    serve-Returns n e writer v = elim (Bool-cases (is_listening k n.server.manager e.fd)) [
      | inl q ↦ rw q tt
      | inr q ↦
          go q (handle_event k n.server.manager (n.server.connections e.fd) e.ip e.fd) refl
            (event-Served k reliable n.server (to_come k n.served items) e v.sending q)
    ]
      where
        go :
            is_listening k n.server.manager e.fd ≡ false
            → (o : Outcome Exception (Handled k))
            → handle_event k n.server.manager (n.server.connections e.fd) e.ip e.fd ≡ o
            → Returns
                (λ t.
                  Served k n.server t
                    (to_come k n.served items)
                    (after e.fd (to_come k n.served items)))
                (serve_event k n.server e)
            → Returns (λ (t : Node k). Unit {0}) (serve k n e writer)
        go q (ok h) f r = rw (q, f) tt
        go q (throw x) f r = elim (rw (q, f) at r) [ ]
        go q abort f r = elim (rw (q, f) at r) [ ]
        go q fault f r = elim (rw (q, f) at r) [ ]

    Reach-IsCarrying :
        {n : Node k}
        → Sending k first items
        → first.handed_on ≡ []
        → Reach k os (open_node k first) n
        → IsCarrying k first items n
    unfolding open_node open_inbox
    Reach-IsCarrying h e here = record {
      sending = h;
      in_order = λ fd. refl;
      logged = sym (ap (map content_of) e);
      inbox = IsInbox-running open_inbox first.manager.running (Reach-IsInbox Inbox.here);
      same_running = refl;
    }
    Reach-IsCarrying h e (next r st) = Step-IsCarrying st (Reach-IsCarrying h e r)

    -- `getMessage` has returned the messages of the log in order, but for the one that the loop waits
    -- to hand over; on each connection the log and the messages that are still to come are those that
    -- the peer sends; and the loop handles any event.
    pub record Carries (n : Node k) : Type 0 where
      pub returned : n.inbox.got ++ in_flight n.inbox.loop ≡ map content_of n.server.handed_on
      pub in_order :
          (fd : ℕ)
          → from fd n.server.handed_on ++ map written (contents (to_come k n.served items fd))
            ≡ map written (contents (items fd))
      pub goes_on :
          (e : Event k) (writer : ℕ) → Returns (λ (t : Node k). Unit {0}) (serve k n e writer)

    -- Peers send non-empty messages shorter than 2^32 and rank reports, one after the other on each
    -- connection, to a server that has handed on none. The connections are without errors, and heads
    -- and verify codes have arrived whole when they are read, which TCP does not promise. However events, connections being accepted among
    -- them, calls of `getMessage`, `registerTarget` and `sendMessage`, tests of the loop and the steps of
    -- `stopServer` interleave: `getMessage` has returned, with the one message that the loop may wait to
    -- hand over, a list in which the messages of each connection are whole and in the order of sending,
    -- each event of a connection having taken the next message or report while there are some, and no
    -- event makes the loop fail.
    pub Reach-Carries :
        {n : Node k}
        → Sending k first items
        → first.handed_on ≡ []
        → Reach k os (open_node k first) n
        → Carries n
    Reach-Carries {n} h e r =
        let v = Reach-IsCarrying h e r in
        record {
          returned = v.inbox.in_order ∙ v.logged;
          in_order = λ fd.
              v.in_order fd
              ∙ ap (λ (l : List (ℕ × Cell)). from fd l ++ map written (contents (items fd))) e;
          goes_on = λ d writer. serve-Returns n d writer v;
        }
