-- ===== src/Network/Inbox/Waits.antt =====
-- src/network/NetworkManager.cpp: `stopServer` while the loop hands a message over.
use npp.Common.{ℕ, ◌≡◌, refl, [], ◌∷◌, ◌++◌, arith}
use npp.Network.Inbox.{
  Inbox, polling, writing, ended, process_message, get_message, test_running, stop, open_inbox,
  Reach, Unread,
}
use npp.Network.Inbox
use npp.Network.Inbox.Handover.{
  IsInbox, Step-IsInbox, Reach-IsInbox, Matches-of_eq, push_alone, read_writing,
}

module _ {A : Type 0} where
  writing_stays : {s t : Inbox A} (c : A) → s.loop ≡ writing c → Unread s t → t.loop ≡ writing c
  unfolding process_message test_running stop
  writing_stays c e Unread.here = e
  writing_stays c e (Unread.processes w x u) = ground (arith, writing_stays c e u)
  writing_stays c e (Unread.tests u) = ground (arith, writing_stays c e u)
  writing_stays c e (Unread.stops u) = ground (arith, writing_stays c e u)

  Unread-IsInbox : {s t : Inbox A} → Unread s t → IsInbox s → IsInbox t
  Unread-IsInbox Unread.here v = v
  Unread-IsInbox (Unread.processes w x u) v =
      Step-IsInbox (Inbox.processes w x refl) (Unread-IsInbox u v)
  Unread-IsInbox (Unread.tests u) v = Step-IsInbox (Inbox.tests refl) (Unread-IsInbox u v)
  Unread-IsInbox (Unread.stops u) v = Step-IsInbox (Inbox.stops refl) (Unread-IsInbox u v)

  -- A message with no reader suspends the loop.
  process-writing :
      (s : Inbox A) (w : ℕ) (c : A)
      → IsInbox s
      → s.loop ≡ polling
      → s.channel.reader_list ≡ []
      → (process_message s w c).loop ≡ writing c
  unfolding process_message
  process-writing s w c v p r =
      rw (p, process_message)
        (rw
          (push_alone s.channel (record { address = w; value = c }) v.active r v.capacity v.buffer)
          refl)

  -- What a call of `getMessage` does then.
  get-writing :
      (t : Inbox A) (reader : ℕ) (c : A)
      → IsInbox t
      → t.loop ≡ writing c
      → ((get_message t reader).loop ≡ polling)
        × ((get_message t reader).got ≡ t.got ++ c ∷ [])
        × ((get_message t reader).running ≡ t.running)
  unfolding get_message
  get-writing t reader c v e =
      let ((a, one), none_else) = Matches-of_eq (writing c) e v in
      rw (read_writing t.channel reader _ [] v.active v.buffer one) (refl, refl, refl)

  -- In a manager that runs, where no call of `getMessage` waits, a message suspends the loop, and however
  -- `stopServer`, further tests and events come: as long as nobody calls `getMessage` the loop stays
  -- suspended and does not end, so `stopServer`, which waits for its end, waits too. A call of
  -- `getMessage` then returns the message, and where `stopServer` has cleared the flag the next test of
  -- the loop ends it.
  pub stop_waits :
      (s t : Inbox A) (writer reader : ℕ) (c : A)
      → Reach open_inbox s
      → s.loop ≡ polling
      → s.channel.reader_list ≡ []
      → Unread (process_message s writer c) t
      → (t.loop ≡ writing c)
        × ((test_running (stop t)).loop ≡ writing c)
        × ((get_message (stop t) reader).got ≡ t.got ++ c ∷ [])
        × ((test_running (get_message (stop t) reader)).loop ≡ ended)
  unfolding test_running stop
  stop_waits s t writer reader c r p none_waits u =
      let v = Reach-IsInbox r in
      let e = writing_stays c (process-writing s writer c v p none_waits) u in
      let w = Unread-IsInbox u (Step-IsInbox (Inbox.processes writer c refl) v) in
      let (goes_on, got, same) =
        get-writing (stop t) reader c (Step-IsInbox (Inbox.stops refl) w) e in
      (e, ground (arith, e), got, ground (arith, goes_on, same))
