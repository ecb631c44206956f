-- ===== src/Network/Node/Events.antt =====
-- src/network/NetworkManager.cpp: what one event, and one step of the inbox, do to a node.
use npp.Common.{
  ℕ, zero, suc, ◌≡◌, refl, sym, ap, ◌∙◌, false, Option, none, some, List, [], ◌∷◌, ◌++◌, inl, inr,
  Bool, Bool-cases, map, drop, ◌==◌, if◌then◌else◌, arith,
}
use npp.Common.Outcome.{Outcome, ok, throw, abort, fault}
use npp.Basic.Exception.{Exception}
use npp.Basic.Bytes.{Cell}
use npp.Task.Channel.{Channel, Resume, try_push_writer}
use npp.Network.Connection.{Connection}
use npp.Network.Dispatch.{Handled, handle_event}
use npp.Network.Server.{Server, Event, is_listening, log_message, after_event, serve_event}
use npp.Network.Server.Sending.{Item, rest_of, after, events_of, to_come}
use npp.Network.Inbox.{
  Inbox, polling, writing, process_message, get_message, test_running, after_call,
}
use npp.Network.Inbox.Handover.{IsInbox, Step-IsInbox}
use npp.Network.Inbox
use npp.Network.Node.{Node, deliver, serve}

abbrev pub content_of : (p : ℕ × Cell) → Cell
content_of p = p.1

-- `processMessage` hands a message on, `getMessage` and the test of the loop none.
after_call-handed_on :
    {A : Type 0} (s : Inbox A) (o : Outcome Exception (List (Resume A) × Channel A))
    → (after_call s o).handed_on ≡ s.handed_on
after_call-handed_on s (ok (rs, c)) = refl
after_call-handed_on s (throw e) = refl
after_call-handed_on s abort = refl
after_call-handed_on s fault = refl

process-handed_on :
    {A : Type 0} (s : Inbox A) (w : ℕ) (c : A)
    → s.loop ≡ polling
    → (process_message s w c).handed_on ≡ s.handed_on ++ c ∷ []
unfolding process_message
process-handed_on s w c e = rw (e, process_message) (after_call-handed_on _ _)

pub get-handed_on : {A : Type 0} (s : Inbox A) (r : ℕ) → (get_message s r).handed_on ≡ s.handed_on
unfolding get_message
get-handed_on s r = after_call-handed_on s _

pub test-handed_on : {A : Type 0} (s : Inbox A) → (test_running s).handed_on ≡ s.handed_on
unfolding test_running
test-handed_on s = ground arith

after_call-running :
    {A : Type 0} (s : Inbox A) (o : Outcome Exception (List (Resume A) × Channel A))
    → (after_call s o).running ≡ s.running
after_call-running s (ok (rs, c)) = refl
after_call-running s (throw e) = refl
after_call-running s abort = refl
after_call-running s fault = refl

process-running :
    {A : Type 0} (s : Inbox A) (w : ℕ) (c : A) → (process_message s w c).running ≡ s.running
unfolding process_message
process-running s w c = ground (
  arith,
  after_call-running (record s { loop = writing c; handed_on = s.handed_on ++ c ∷ [] })
      (try_push_writer s.channel (record { address = w; value = c })),
)

pub get-running : {A : Type 0} (s : Inbox A) (r : ℕ) → (get_message s r).running ≡ s.running
unfolding get_message
get-running s r = after_call-running s _

pub test-running : {A : Type 0} (s : Inbox A) → (test_running s).running ≡ s.running
unfolding test_running
test-running s = ground arith

map-snoc :
    (l : List (ℕ × Cell)) (p : ℕ × Cell)
    → map content_of (l ++ p ∷ []) ≡ map content_of l ++ p.1 ∷ []
map-snoc [] p = refl
map-snoc (q ∷ l) p = ap (◌∷◌ q.1) (map-snoc l p)

rest_of-drop {ℓ} : {A : Type ℓ} (n : ℕ) (l : List A) → rest_of (drop n l) ≡ drop (suc n) l
rest_of-drop zero [] = refl
rest_of-drop zero (x ∷ xs) = refl
rest_of-drop (suc n) [] = refl
rest_of-drop (suc n) (x ∷ xs) = rest_of-drop n xs

pub IsInbox-running :
    {A : Type 0} (i : Inbox A) (b : Bool) → IsInbox i → IsInbox (record i { running = b })
IsInbox-running i b v = record {
  active = v.active;
  capacity = v.capacity;
  buffer = v.buffer;
  matches = v.matches;
  in_order = v.in_order;
}

module _ (k : Connection) where
  events_of-snoc :
      (fd : ℕ) (es : List (Event k)) (e : Event k)
      → events_of k fd (es ++ e ∷ [])
        ≡ (if fd == e.fd then suc (events_of k fd es) else events_of k fd es)
  events_of-snoc fd [] e = refl
  events_of-snoc fd (x ∷ es) e = ground (arith, events_of-snoc fd es e)

  pub to_come-snoc :
      (es : List (Event k)) (e : Event k) (items : ℕ → List Item) (fd : ℕ)
      → after e.fd (to_come k es items) fd ≡ to_come k (es ++ e ∷ []) items fd
  to_come-snoc es e items fd = elim (Bool-cases (fd == e.fd)) [
    | inl same ↦ rw (events_of-snoc fd es e, same) (rest_of-drop (events_of k fd es) (items fd))
    | inr other ↦ rw (events_of-snoc fd es e, other) refl
  ]

  -- What handling an event of a connection comes to.
  pub record Handling (n t : Node k) (e : Event k) (writer : ℕ) : Type 0 where
    pub handled : Handled k
    pub same_server : serve_event k n.server e ≡ ok t.server
    pub server_after : t.server ≡ after_event k n.server e.fd handled
    pub inbox_after : t.inbox ≡ deliver k n.inbox writer handled.message
    pub served_after : t.served ≡ n.served ++ e ∷ []

  pub ok_injective : {A : Type 0} {x y : A} → ◌≡◌ {A = Outcome Exception A} (ok x) (ok y) → x ≡ y
  ok_injective e = cc

  pub serve-Handling :
      (n t : Node k) (e : Event k) (writer : ℕ)
      → is_listening k n.server.manager e.fd ≡ false
      → serve k n e writer ≡ ok t
      → Handling n t e writer
  unfolding serve serve_event
  serve-Handling n t e writer q eq =
      go (handle_event k n.server.manager (n.server.connections e.fd) e.ip e.fd) refl
    where
      go :
          (o : Outcome Exception (Handled k))
          → handle_event k n.server.manager (n.server.connections e.fd) e.ip e.fd ≡ o
          → Handling n t e writer
      go (ok h) f =
          let same = ok_injective (sym (rw (q, f) refl) ∙ eq) in
          record {
            handled = h;
            same_server = rw (q, f) (ap (λ (x : Node k). ok x.server) same);
            server_after = ap (λ (x : Node k). x.server) (sym same);
            inbox_after = ap (λ (x : Node k). x.inbox) (sym same);
            served_after = ap (λ (x : Node k). x.served) (sym same);
          }
      go (throw x) f = absurd (ground (arith, eq, q, f))
      go abort f = absurd (ground (arith, eq, q, f))
      go fault f = absurd (ground (arith, eq, q, f))

  -- The inbox has been given the messages of the log.
  abbrev pub IsLogged : Inbox Cell → List (ℕ × Cell) → Type 0
  IsLogged i log = i.handed_on ≡ map content_of log

  pub deliver-IsLogged :
      (i : Inbox Cell) (log : List (ℕ × Cell)) (fd writer : ℕ) (message : Option Cell)
      → i.loop ≡ polling
      → IsLogged i log
      → IsLogged (deliver k i writer message) (log_message k fd message log)
  deliver-IsLogged i log fd writer none p v = v
  deliver-IsLogged i log fd writer (some c) p v =
      process-handed_on i writer c p
      ∙ (ap (λ (l : List Cell). l ++ c ∷ []) v ∙ sym (map-snoc log (fd, c)))

  pub deliver-running :
      (i : Inbox Cell) (writer : ℕ) (message : Option Cell)
      → (deliver k i writer message).running ≡ i.running
  deliver-running i writer none = refl
  deliver-running i writer (some c) = process-running i writer c

  pub after_event-handed_on :
      (s : Server k) (fd : ℕ) (h : Handled k)
      → (after_event k s fd h).handed_on ≡ log_message k fd h.message s.handed_on
  unfolding after_event
  after_event-handed_on s fd h = elim (Bool-cases h.is_closed) [
    | inl c ↦ rw c refl
    | inr o ↦ rw o refl
  ]

  pub Handling-IsInbox :
      (i : Inbox Cell) (writer : ℕ) (message : Option Cell)
      → IsInbox i
      → IsInbox (deliver k i writer message)
  Handling-IsInbox i writer none v = v
  Handling-IsInbox i writer (some c) v = Step-IsInbox (Inbox.processes writer c refl) v
