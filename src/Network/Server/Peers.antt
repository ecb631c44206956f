-- ===== src/Network/Server/Peers.antt =====
-- src/network/NetworkManager.cpp: many peers send messages at once, and the loop of `run` handles the
-- events of their connections in any order.
use npp.Common.{
  ℕ, ◌≡◌, refl, sym, ap, ◌∙◌, subst, false, Option, none, some, List, [], ◌∷◌, ◌++◌, inl, inr,
  Bool-cases, ==_iff, All, map, length, length-append, append_assoc, ◌==◌, arith,
}
use npp.Common.Outcome.{ok, Returns, Returns-bind, Returns-mono}
use npp.Network.Head.{decode_head, htons}
use npp.Network.Connection.{Connection, IsReliable}
use npp.Network.Receive.Fill.{written}
use npp.Network.Registry.{NetworkManager, record_report}
use npp.Network.Dispatch.{Handled, quiet as quiet_handled, received, by_type, handle_event}
use npp.Network.Dispatch.Frames.{Delivered, handle-message_frame, handle-report_frame}
use npp.Network.Server.{Server, Event, update, is_listening, after_event, serve_event, serve_events}
use npp.Network.Server.Sending.{
  Item, message, report, IsItem, frames, contents, from, after, Sending, Served, to_come, from-snoc,
  to_come-after, Served-trans,
}

module _ (k : Connection) (reliable : IsReliable k) where
  open k use {State, incoming, read}

  -- A connection on which nothing comes is closed.
  handle-nothing :
      (m : NetworkManager) (s : State) (ip fd : ℕ)
      → incoming s ≡ []
      → (s' : State) × (handle_event k m s ip fd ≡ ok (received k m (none, s')))
        × (incoming s' ≡ [])
  unfolding handle_event
  handle-nothing m s ip fd e = go (read s 8) refl
    where
      go :
          (r : Option (List ℕ) × State)
          → read s 8 ≡ r
          → (s' : State) × (handle_event k m s ip fd ≡ ok (received k m (none, s')))
            × (incoming s' ≡ [])
      go (none, s') q = (
        s',
        ap
            (λ (x : Option (List ℕ) × State). elim x.0 [
              | none ↦ ok (received k m (none, x.1))
              | some bs ↦ by_type k m x.1 (decode_head bs) ip fd
            ])
            q,
        reliable.unread s s' 8 q ∙ e,
      )
      go (some bs, s') q =
          let (came, fits, sp) = k.read_some s s' 8 bs q in
          absurd (omega (arith, ap length (sym e ∙ sp), length-append bs (incoming s')))

  closed-Served :
      (s : Server k) (items : ℕ → List Item) (fd : ℕ) (s' : State)
      → Sending k s items
      → items fd ≡ []
      → incoming s' ≡ []
      → Served k s (after_event k s fd (received k s.manager (none, s'))) items (after fd items)
  unfolding after_event
  closed-Served s items fd s' sends none_left i = record {
    sending = λ x. elim (Bool-cases (x == fd)) [
      | inl same ↦ ground (arith, ap items ((==_iff x fd).0 same), same)
      | inr other ↦ ground (arith, other, sends x)
    ];
    same_listening = refl;
    same_running = refl;
    in_order = λ x. elim (Bool-cases (x == fd)) [
      | inl same ↦ ground (arith, ap items ((==_iff x fd).0 same), same)
      | inr other ↦ ground (arith, other)
    ];
  }

  -- The state after a rank report.
  report-Served :
      (s : Server k) (items : ℕ → List Item) (fd rank port ip : ℕ) (is : List Item) (s' : State)
      → Sending k s items
      → items fd ≡ report rank port ∷ is
      → incoming s' ≡ frames is
      → Served k s
          (after_event k s fd
            (quiet_handled k (record_report s.manager rank ip (htons port) fd) s'))
          items
          (after fd items)
  unfolding after_event record_report
  report-Served s items fd rank port ip is s' sends more i = record {
    sending = λ x. elim (Bool-cases (x == fd)) [
      | inl same ↦ ground (arith, ap items ((==_iff x fd).0 same), same, sends fd)
      | inr other ↦ ground (arith, other, sends x)
    ];
    same_listening = refl;
    same_running = refl;
    in_order = λ x. elim (Bool-cases (x == fd)) [
      | inl same ↦ ground (arith, ap items ((==_iff x fd).0 same), same)
      | inr other ↦ ground (arith, other)
    ];
  }

  -- The state after a message, which leaves the socket open.
  after-message :
      (s : Server k) (fd : ℕ) (c rest : List ℕ) (h : Handled k)
      → Delivered k s.manager c rest h
      → (conn : State) × (incoming conn ≡ rest)
        × (after_event k s fd h ≡ record s {
          connections = update k fd conn s.connections;
          handed_on = s.handed_on ++ (fd, written c) ∷ [];
        })
  unfolding after_event
  after-message s fd c rest h d = (h.connection, d.left, ground arith)

  message-Served :
      (s : Server k) (items : ℕ → List Item) (fd : ℕ) (c : List ℕ) (is : List Item) (conn : State)
      → Sending k s items
      → items fd ≡ message c ∷ is
      → incoming conn ≡ frames is
      → Served k s
          (record s {
            connections = update k fd conn s.connections;
            handed_on = s.handed_on ++ (fd, written c) ∷ [];
          })
          items
          (after fd items)
  message-Served s items fd c is conn sends more i = record {
    sending = λ x. elim (Bool-cases (x == fd)) [
      | inl same ↦ ground (arith, ap items ((==_iff x fd).0 same), same, sends fd)
      | inr other ↦ ground (arith, other, sends x)
    ];
    same_listening = refl;
    same_running = refl;
    in_order = λ x. elim (Bool-cases (x == fd)) [
      | inl same ↦ ground (
        arith,
        ap items ((==_iff x fd).0 same),
        same,
        from-snoc x fd (written c) s.handed_on,
        ==_iff x fd,
        append_assoc (from x s.handed_on) (written c ∷ []) (map written (contents is)),
      )
      | inr other ↦ ground (arith, other, from-snoc x fd (written c) s.handed_on)
    ];
  }

  -- One event, whichever connection it is on.
  pub event-Served :
      (s : Server k) (items : ℕ → List Item) (e : Event k)
      → Sending k s items
      → is_listening k s.manager e.fd ≡ false
      → Returns (λ t. Served k s t items (after e.fd items)) (serve_event k s e)
  unfolding serve_event
  event-Served s items e sends quiet = go (items e.fd) refl
    where
      go :
          (l : List Item)
          → items e.fd ≡ l
          → Returns (λ t. Served k s t items (after e.fd items)) (serve_event k s e)
      go [] q =
          let (s', r, i) =
            handle-nothing s.manager (s.connections e.fd) e.ip e.fd
              ((sends e.fd).0 ∙ ap frames q) in
          rw (quiet, r) (closed-Served s items e.fd s' sends q i)
      go (report rank port ∷ is) q =
          let good : All IsItem (report rank port ∷ is) = subst (All IsItem) q (sends e.fd).1 in
          let (s', r, i) =
            handle-report_frame k reliable s.manager (s.connections e.fd) rank port e.ip e.fd
              (frames is) good.0.0 good.0.1 ((sends e.fd).0 ∙ ap frames q) in
          rw (quiet, r) (report-Served s items e.fd rank port e.ip is s' sends q i)
      go (message c ∷ is) q =
          let good : All IsItem (message c ∷ is) = subst (All IsItem) q (sends e.fd).1 in
          rw quiet (
            Returns-bind (Delivered k s.manager c (frames is)) _
              (handle_event k s.manager (s.connections e.fd) e.ip e.fd) _
              (handle-message_frame k reliable s.manager (s.connections e.fd) c e.ip e.fd
                (frames is) good.0.0 good.0.1 ((sends e.fd).0 ∙ ap frames q))
              (λ h d.
                let (conn, i, eq) = after-message s e.fd c (frames is) h d in
                subst (λ (t : Server k). Served k s t items (after e.fd items)) (sym eq)
                  (message-Served s items e.fd c is conn sends q i)))

  still_quiet :
      (s t : Server k) (es : List (Event k))
      → t.manager.sockfd ≡ s.manager.sockfd
      → All (λ (e : Event k). is_listening k s.manager e.fd ≡ false) es
      → All (λ (e : Event k). is_listening k t.manager e.fd ≡ false) es
  still_quiet s t [] same h = tt
  still_quiet s t (e ∷ es) same (h, hs) = (rw same h, still_quiet s t es same hs)

  -- Where on each connection the peer sends non-empty messages shorter than 2^32 and rank reports, one
  -- after the other, without errors, and heads and verify codes have arrived whole when they are read,
  -- which TCP does not promise; and whatever the order in which these connections have events: the loop
  -- handles all the events without a failure, each event of a connection takes the next of these, a
  -- message being handed on whole, and none is lost, repeated, or mixed with those of another connection.
  -- An event with nothing to come hands on nothing. The listening socket and the flag of the loop stay as
  -- they are.
  pub serve_events-Served :
      (s : Server k) (items : ℕ → List Item) (es : List (Event k))
      → Sending k s items
      → All (λ (e : Event k). is_listening k s.manager e.fd ≡ false) es
      → Returns (λ t. Served k s t items (to_come k es items)) (serve_events k s es)
  unfolding serve_events
  serve_events-Served s items [] sends h = record {
    sending = sends;
    same_listening = refl;
    same_running = refl;
    in_order = λ fd. refl;
  }
  serve_events-Served s items (e ∷ es) sends (h, hs) =
      Returns-bind _ _ (serve_event k s e) _ (event-Served s items e sends h) (λ t f.
        Returns-mono _ _ (serve_events k t es)
          (λ u g.
            Served-trans k s t u items (after e.fd items) _ (to_come k (e ∷ es) items)
              (to_come-after k e es items) f g)
          (serve_events-Served t (after e.fd items) es f.sending
            (still_quiet s t es f.same_listening hs)))
