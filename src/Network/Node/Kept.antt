-- ===== src/Network/Node/Kept.antt =====
-- src/network/NetworkManager.cpp: what each step of a node keeps.
use npp.Common.{
  Option, none, some, Bool-cases, inl, inr, ==_iff, All, ◌==◌, ℕ, ◌≡◌, refl, sym, ap, subst, ◌∙◌,
  false, List, ◌++◌, map,
}
use npp.Common.Outcome.{Returns}
use npp.Basic.Bytes.{Cell}
use npp.Network.Connection.{Connection, IsReliable}
use npp.Network.Receive.Fill.{written}
use npp.Network.Server.{Server, Event, is_listening, accept_connection}
use npp.Network.Server.Sending.{
  Item, IsItem, frames, contents, from, after, Sending, Served, to_come,
}
use npp.Network.Server.Peers.{event-Served}
use npp.Network.Inbox.{Inbox, polling}
use npp.Network.Inbox.Handover.{IsInbox}
use npp.Network.Node.Events.{
  content_of, IsInbox-running, deliver-running, to_come-snoc, Handling, IsLogged, deliver-IsLogged,
  after_event-handed_on, Handling-IsInbox,
}
use npp.Network.Node.{Accepts, Node}

module _ (k : Connection) (first : Server k) (items : ℕ → List Item) where
  -- What holds in every state; the events that were handled have left `to_come` of the items.
  pub record IsCarrying (n : Node k) : Type 0 where
    pub sending : Sending k n.server (to_come k n.served items)
    pub in_order :
        (fd : ℕ)
        → from fd n.server.handed_on ++ map written (contents (to_come k n.served items fd))
          ≡ from fd first.handed_on ++ map written (contents (items fd))
    pub logged : IsLogged k n.inbox n.server.handed_on
    pub inbox : IsInbox n.inbox
    pub same_running : n.inbox.running ≡ n.server.manager.running

  -- A step that leaves connections and messages alone.
  pub kept-IsCarrying :
      (n : Node k) (s : Server k) (i : Inbox Cell)
      → s.connections ≡ n.server.connections
      → s.handed_on ≡ n.server.handed_on
      → i.handed_on ≡ n.inbox.handed_on
      → i.running ≡ s.manager.running
      → IsInbox i
      → IsCarrying n
      → IsCarrying (record n { server = s; inbox = i })
  kept-IsCarrying n s i c h g r w v = record {
    sending =
        λ fd. (ap (λ (f : ℕ → k.State). k.incoming (f fd)) c ∙ (v.sending fd).0, (v.sending fd).1);
    in_order = λ fd.
        ap
          (λ (l : List (ℕ × Cell)).
            from fd l ++ map written (contents (to_come k n.served items fd)))
          h
        ∙ v.in_order fd;
    logged = g ∙ (v.logged ∙ ap (map content_of) (sym h));
    inbox = w;
    same_running = r;
  }

  -- Where the listening socket has an event.
  pub accept-IsCarrying :
      (n : Node k) (e : Event k) (a : Option (ℕ × k.State))
      → e.accepted ≡ a
      → Accepts k n e
      → IsCarrying n
      → let s = accept_connection k n.server e in
        IsCarrying (record n { server = s; inbox = record n.inbox { running = s.manager.running } })
  unfolding accept_connection
  accept-IsCarrying n e none q h v =
      rw (q, accept_connection)
        (kept-IsCarrying n _ _ refl refl refl refl (IsInbox-running n.inbox false v.inbox) v)
  accept-IsCarrying n e (some (fd, c)) q h v =
      rw (q, accept_connection)
        (record {
          sending = λ x. (
            elim (Bool-cases (x == fd)) [
              | inl same ↦ rw same (
                  (rw q at h)
                  ∙ (ap (λ (y : ℕ). k.incoming (n.server.connections y))
                        (sym ((==_iff x fd).0 same))
                      ∙ (v.sending x).0))
              | inr other ↦ rw other (v.sending x).0
            ],
            (v.sending x).1,
          );
          in_order = v.in_order;
          logged = v.logged;
          inbox = IsInbox-running n.inbox n.server.manager.running v.inbox;
          same_running = refl;
        })

  pub Handling-IsCarrying :
      (n t : Node k) (e : Event k) (writer : ℕ)
      → IsReliable k
      → n.inbox.loop ≡ polling
      → is_listening k n.server.manager e.fd ≡ false
      → Handling k n t e writer
      → IsCarrying n
      → IsCarrying t
  Handling-IsCarrying n t e writer reliable p q h v =
      let f : Served k n.server t.server (to_come k n.served items)
          (after e.fd (to_come k n.served items)) =
        subst
          (Returns (λ u.
            Served k n.server u (to_come k n.served items) (after e.fd (to_come k n.served items))))
          h.same_server
          (event-Served k reliable n.server (to_come k n.served items) e v.sending q) in
      let left : (fd : ℕ) → after e.fd (to_come k n.served items) fd ≡ to_come k t.served items fd =
        λ fd.
          to_come-snoc k n.served e items fd
          ∙ ap (λ (es : List (Event k)). to_come k es items fd) (sym h.served_after) in
      record {
        sending = λ fd.
            ((f.sending fd).0 ∙ ap frames (left fd), subst (All IsItem) (left fd) (f.sending fd).1);
        in_order = λ fd.
            ap (λ (l : List Item). from fd t.server.handed_on ++ map written (contents l))
              (sym (left fd))
            ∙ (f.in_order fd ∙ v.in_order fd);
        logged =
            ap (λ (i : Inbox Cell). i.handed_on) h.inbox_after
            ∙ (deliver-IsLogged k n.inbox n.server.handed_on e.fd writer h.handled.message p
                  v.logged
                ∙ ap (map content_of) (
                    sym (
                      ap (λ (s : Server k). s.handed_on) h.server_after
                      ∙ after_event-handed_on k n.server e.fd h.handled)));
        inbox =
            subst IsInbox (sym h.inbox_after)
              (Handling-IsInbox k n.inbox writer h.handled.message v.inbox);
        same_running =
            ap (λ (i : Inbox Cell). i.running) h.inbox_after
            ∙ (deliver-running k n.inbox writer h.handled.message
                ∙ (v.same_running ∙ sym f.same_running));
      }
