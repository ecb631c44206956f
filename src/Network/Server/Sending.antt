-- ===== src/Network/Server/Sending.antt =====
-- src/network/NetworkManager.cpp: the messages and rank reports that peers send on their connections, and what the loop of
-- `run` has handed on of them.
use npp.Common.{
  ℕ, zero, suc, ◌^◌, ◌<◌, ◌≡◌, refl, sym, ap, ◌∙◌, subst, List, [], ◌∷◌, ◌++◌, inl, inr, Bool-cases,
  All, map, drop, length, ◌==◌, if◌then◌else◌, arith,
}
use npp.Basic.Bytes.{Cell}
use npp.Network.Head.{message_frame, report_frame}
use npp.Network.Connection.{Connection}
use npp.Network.Receive.Fill.{written}
use npp.Network.Server.{Server, Event}

-- A message that can be sent and received.
abbrev pub IsMessage : List ℕ → Type 0
IsMessage content = (0 < length content) × (length content < 2 ^ 32)

-- What a peer sends: messages, and the report of its rank and port.
pub data Item : Type 0 where
  message : List ℕ → Item
  report : ℕ → ℕ → Item

abbrev pub IsItem : Item → Type 0
IsItem (message content) = IsMessage content
IsItem (report rank port) = (rank < 2 ^ 32) × (port < 65536)

abbrev pub item_frame : Item → List ℕ
item_frame (message content) = message_frame content
item_frame (report rank port) = report_frame rank port

-- The bytes of items that are sent one after the other, and the messages among them.
abbrev pub frames : List Item → List ℕ
frames [] = []
frames (i ∷ items) = item_frame i ++ frames items

abbrev pub contents : List Item → List (List ℕ)
contents [] = []
contents (message content ∷ items) = content ∷ contents items
contents (report rank port ∷ items) = contents items

-- What has been handed on from a connection.
abbrev pub from : ℕ → List (ℕ × Cell) → List Cell
from fd [] = []
from fd ((x, c) ∷ log) = if x == fd then c ∷ from fd log else from fd log

abbrev pub rest_of {ℓ} : {A : Type ℓ} → List A → List A
rest_of [] = []
rest_of (x ∷ xs) = xs

-- What is still to come when `fd` has had an event.
abbrev pub after : ℕ → (ℕ → List Item) → ℕ → List Item
after fd items x = if x == fd then rest_of (items x) else items x

pub from-snoc :
    (fd x : ℕ) (c : Cell) (log : List (ℕ × Cell))
    → from fd (log ++ (x, c) ∷ []) ≡ (if x == fd then from fd log ++ c ∷ [] else from fd log)
from-snoc fd x c [] = ground arith
from-snoc fd x c ((y, d) ∷ log) = ground (arith, from-snoc fd x c log)

drop-rest_of {ℓ} : {A : Type ℓ} (n : ℕ) (l : List A) → drop n (rest_of l) ≡ drop (suc n) l
drop-rest_of zero [] = refl
drop-rest_of (suc n) [] = refl
drop-rest_of n (x ∷ xs) = refl

module _ (k : Connection) where
  open k use {State, incoming, read}

  -- On every connection the items that are still to come, and their bytes.
  abbrev pub Sending : Server k → (ℕ → List Item) → Type 0
  Sending s items =
      (fd : ℕ) → (incoming (s.connections fd) ≡ frames (items fd)) × All IsItem (items fd)

  -- `t` after `s`, where `before` was to come and `items` is.
  pub record Served (s t : Server k) (before items : ℕ → List Item) : Type 0 where
    pub sending : Sending t items
    pub same_listening : t.manager.sockfd ≡ s.manager.sockfd
    pub same_running : t.manager.running ≡ s.manager.running
    pub in_order :
        (fd : ℕ)
        → from fd t.handed_on ++ map written (contents (items fd))
          ≡ from fd s.handed_on ++ map written (contents (before fd))

  -- How many of the events are of a connection.
  abbrev pub events_of : ℕ → List (Event k) → ℕ
  events_of fd [] = 0
  events_of fd (e ∷ es) = if fd == e.fd then suc (events_of fd es) else events_of fd es

  -- The items that are still to come after the events.
  abbrev pub to_come : List (Event k) → (ℕ → List Item) → ℕ → List Item
  to_come es items fd = drop (events_of fd es) (items fd)

  pub to_come-after :
      (e : Event k) (es : List (Event k)) (items : ℕ → List Item) (fd : ℕ)
      → to_come es (after e.fd items) fd ≡ to_come (e ∷ es) items fd
  to_come-after e es items fd = elim (Bool-cases (fd == e.fd)) [
    | inl same ↦ rw same (drop-rest_of (events_of fd es) (items fd))
    | inr other ↦ rw other refl
  ]

  pub Served-trans :
      (s t u : Server k) (a b c d : ℕ → List Item)
      → ((fd : ℕ) → c fd ≡ d fd)
      → Served s t a b
      → Served t u b c
      → Served s u a d
  Served-trans s t u a b c d e f g = record {
    sending =
        λ fd. ((g.sending fd).0 ∙ ap frames (e fd), subst (All IsItem) (e fd) (g.sending fd).1);
    same_listening = g.same_listening ∙ f.same_listening;
    same_running = g.same_running ∙ f.same_running;
    in_order = λ fd.
        ap (λ (l : List Item). from fd u.handed_on ++ map written (contents l)) (sym (e fd))
        ∙ (g.in_order fd ∙ f.in_order fd);
  }
