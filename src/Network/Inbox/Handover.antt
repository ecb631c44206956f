-- ===== src/Network/Inbox/Handover.antt =====
-- src/network/NetworkManager.cpp: the way of messages from the loop to `getMessage`.
use npp.Common.{ℕ, ◌≡◌, refl, sym, ap, subst, ◌∙◌, true, List, [], ◌∷◌, ◌++◌, append-nil, arith}
use npp.Common.Outcome.{ok}
use npp.Task.Channel.{
  Channel, create, WriterAwaiter, resume_reader, resume_writer, try_push_reader, try_push_writer,
}
use npp.Network.Inbox.{
  Loop, polling, writing, ended, failed, Inbox, open_inbox, process_message, get_message,
  test_running, stop, Step, Reach, here, next, processes, gets, tests, stops,
}

module _ {A : Type 0} where
  abbrev pub in_flight : Loop A → List A
  in_flight (writing c) = c ∷ []
  in_flight _ = []

  -- The writer of the loop is suspended just where the loop is in `write_sync`, and then no reader is.
  abbrev pub Matches : Loop A → List (WriterAwaiter A) → List ℕ → Type 0
  Matches (writing c) ws rs = ((a : ℕ) × (ws ≡ record { address = a; value = c } ∷ [])) × (rs ≡ [])
  Matches failed ws rs = ⊥
  Matches _ ws rs = ws ≡ []

  pub record IsInbox (s : Inbox A) : Type 0 where
    pub active : s.channel.is_active ≡ true
    pub capacity : s.channel.buffer_capacity ≡ 0
    pub buffer : s.channel.buffer ≡ []
    pub matches : Matches s.loop s.channel.writer_list s.channel.reader_list
    pub in_order : s.got ++ in_flight s.loop ≡ s.handed_on

  push_waiting :
      (c : Channel A) (w : WriterAwaiter A) (r : ℕ) (rs : List ℕ)
      → c.is_active ≡ true
      → c.reader_list ≡ r ∷ rs
      → try_push_writer c w
        ≡ ok (resume_reader r w.value ∷ resume_writer w.address ∷ [], record c { reader_list = rs })
  unfolding try_push_writer
  push_waiting c w r rs a e = ground arith

  pub push_alone :
      (c : Channel A) (w : WriterAwaiter A)
      → c.is_active ≡ true
      → c.reader_list ≡ []
      → c.buffer_capacity ≡ 0
      → c.buffer ≡ []
      → try_push_writer c w ≡ ok ([], record c { writer_list = c.writer_list ++ w ∷ [] })
  unfolding try_push_writer
  push_alone c w a e k b = ground arith

  read_alone :
      (c : Channel A) (r : ℕ)
      → c.is_active ≡ true
      → c.buffer ≡ []
      → c.writer_list ≡ []
      → try_push_reader c r ≡ ok ([], record c { reader_list = c.reader_list ++ r ∷ [] })
  unfolding try_push_reader
  read_alone c r a b e = ground arith

  pub read_writing :
      (c : Channel A) (r : ℕ) (w : WriterAwaiter A) (ws : List (WriterAwaiter A))
      → c.is_active ≡ true
      → c.buffer ≡ []
      → c.writer_list ≡ w ∷ ws
      → try_push_reader c r
        ≡ ok (resume_reader r w.value ∷ resume_writer w.address ∷ [], record c { writer_list = ws })
  unfolding try_push_reader
  read_writing c r w ws a b e = ground arith

  pub Matches-of_eq :
      {s : Inbox A} (l : Loop A)
      → s.loop ≡ l
      → IsInbox s
      → Matches l s.channel.writer_list s.channel.reader_list
  Matches-of_eq {s} l e v =
      subst (λ (x : Loop A). Matches x s.channel.writer_list s.channel.reader_list) e v.matches

  order_of :
      {s : Inbox A} (l : Loop A) → s.loop ≡ l → IsInbox s → s.got ++ in_flight l ≡ s.handed_on
  order_of {s} l e v = subst (λ (x : Loop A). s.got ++ in_flight x ≡ s.handed_on) e v.in_order

  all_got : {s : Inbox A} → s.loop ≡ polling → IsInbox s → s.got ≡ s.handed_on
  all_got {s} e v = sym (append-nil s.got) ∙ order_of polling e v

  process-IsInbox :
      (s : Inbox A) (l : Loop A) (rs : List ℕ) (w : ℕ) (c : A)
      → s.loop ≡ l
      → s.channel.reader_list ≡ rs
      → IsInbox s
      → IsInbox (process_message s w c)
  unfolding process_message
  process-IsInbox s polling (r ∷ rs) w c e f v =
      let writer : WriterAwaiter A = record { address = w; value = c } in
      rw (e, process_message)
        (rw (push_waiting s.channel writer r rs v.active f) (record {
          active = v.active;
          capacity = v.capacity;
          buffer = v.buffer;
          matches = Matches-of_eq polling e v;
          in_order = append-nil _ ∙ ap (λ (l : List A). l ++ c ∷ []) (all_got e v);
        }))
  process-IsInbox s polling [] w c e f v =
      let writer : WriterAwaiter A = record { address = w; value = c } in
      rw (e, process_message)
        (rw (push_alone s.channel writer v.active f v.capacity v.buffer) (record {
          active = v.active;
          capacity = v.capacity;
          buffer = v.buffer;
          matches = (
            (w, ap (λ (l : List (WriterAwaiter A)). l ++ writer ∷ []) (Matches-of_eq polling e v)),
            f,
          );
          in_order = ap (λ (l : List A). l ++ c ∷ []) (append-nil s.got ∙ all_got e v);
        }))
  process-IsInbox s (writing d) rs w c e f v = ground arith
  process-IsInbox s ended rs w c e f v = ground arith
  process-IsInbox s failed rs w c e f v = ground arith

  -- A reader that finds no writer is suspended.
  get_alone :
      (s : Inbox A) (r : ℕ)
      → IsInbox s
      → s.channel.writer_list ≡ []
      → get_message s r ≡ record s {
        channel = record s.channel { reader_list = s.channel.reader_list ++ r ∷ [] };
        got = s.got ++ [];
      }
  unfolding get_message
  get_alone s r v e = rw (read_alone s.channel r v.active v.buffer e) refl

  get-IsInbox :
      (s : Inbox A) (l : Loop A) (r : ℕ) → s.loop ≡ l → IsInbox s → IsInbox (get_message s r)
  unfolding get_message
  get-IsInbox s polling r e v =
      rw (get_alone s r v (Matches-of_eq polling e v))
        (ground (arith, append-nil s.got, e, Matches-of_eq polling e v))
  get-IsInbox s ended r e v =
      rw (get_alone s r v (Matches-of_eq ended e v))
        (ground (arith, append-nil s.got, e, Matches-of_eq ended e v))
  get-IsInbox s failed r e v = elim (Matches-of_eq failed e v) [ ]
  get-IsInbox s (writing c) r e v =
      let ((a, one), none_else) = Matches-of_eq (writing c) e v in
      rw (e, get_message)
        (rw (read_writing s.channel r _ [] v.active v.buffer one) (record {
          active = v.active;
          capacity = v.capacity;
          buffer = v.buffer;
          matches = refl;
          in_order = append-nil _ ∙ order_of (writing c) e v;
        }))

  test-IsInbox : (s : Inbox A) (l : Loop A) → s.loop ≡ l → IsInbox s → IsInbox (test_running s)
  unfolding test_running
  test-IsInbox s polling e v = ground (arith, e, Matches-of_eq polling e v, order_of polling e v)
  test-IsInbox s (writing c) e v = ground arith
  test-IsInbox s ended e v = ground arith
  test-IsInbox s failed e v = ground arith

  pub Step-IsInbox : {s t : Inbox A} → Step s t → IsInbox s → IsInbox t
  unfolding stop
  Step-IsInbox {s} (processes w c e) v =
      rw e (process-IsInbox s s.loop s.channel.reader_list w c refl refl v)
  Step-IsInbox {s} (gets r e) v = rw e (get-IsInbox s s.loop r refl v)
  Step-IsInbox {s} (tests e) v = rw e (test-IsInbox s s.loop refl v)
  Step-IsInbox {s} (stops e) v = rw e (record {
    active = v.active;
    capacity = v.capacity;
    buffer = v.buffer;
    matches = v.matches;
    in_order = v.in_order;
  })

  -- Whatever the loop, clients and a `stopServer` do to a new manager: what `getMessage` has returned,
  -- with the message that the loop waits to hand over, if it does, is what was handed on, in order. The
  -- loop waits for a reader with each message, holds one at most, and no exception leaves it.
  pub Reach-IsInbox : {s : Inbox A} → Reach open_inbox s → IsInbox s
  unfolding open_inbox create
  Reach-IsInbox here = record {
    active = refl;
    capacity = refl;
    buffer = refl;
    matches = refl;
    in_order = refl;
  }
  Reach-IsInbox (next r st) = Step-IsInbox st (Reach-IsInbox r)
