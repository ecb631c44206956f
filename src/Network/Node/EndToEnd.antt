-- ===== src/Network/Node/EndToEnd.antt =====
-- src/network/NetworkManager.cpp: from `sendMessage` of peers to `getMessage`.
use npp.Common.{
  some, ◌==◌, ltb, Option, none, ℕ, ◌++◌, ◌<◌, ◌≡◌, refl, ◌∙◌, List, [], ◌∷◌, All, inl, inr,
  Bool-cases,
}
use npp.Common.Outcome.{Outcome, ok}
use npp.Basic.Exception.{Exception}
use npp.Network.Connection.{Connection, IsReliable}
use npp.Network.Server.{Server}
use npp.Network.Server.Sending.{Item, message, IsMessage, IsItem, frames}
use npp.Network.Registry.{NetworkManager}
use npp.Network.Send.{Kernel, rounds, no_socket, wrote}
use npp.Network.Send.Stream.{Call}
use npp.Network.Send.Threads.{Senders, Write, reported, attempted, IsFit, open_senders, ended}
use npp.Network.Send.Threads.Wire.{IsWrite, Reach-IsWired}
use npp.Network.Send.Threads.Verdicts.{All-snoc}
use npp.Network.Send.Threads.Carried.{carry, greeting, times}
use npp.Network.Send.Threads.Frames.{items, has_returned, Reach-sent}
use npp.Network.Send.Threads
use npp.Network.Node.{Node, open_node, Reach}
use npp.Network.Node.Carries.{Carries, Reach-Carries}

-- A process some of whose calls of `sendMessage`, in different threads, have returned, none having
-- failed, and the socket that leads to the server. A thread that has not begun stands for a call that is
-- still to be made.
pub record Peer (n : Kernel) : Type 0 where
  pub manager : NetworkManager
  pub system : n.State
  pub calls : ℕ → Call
  pub last : Senders n
  pub socket : ℕ
  pub fit : IsFit manager
  pub reached : Threads.Reach n (open_senders n manager system calls) last
  pub returned :
      (i : ℕ) (o : Outcome Exception (Unit {0})) → (last.senders i).place ≡ ended o → o ≡ ok tt
  pub tries : (i : ℕ) → 0 < rounds (calls i).retry
  pub messages : (i : ℕ) → IsMessage (calls i).content

-- What has come on a connection from a peer: the rank report where `getSendSocket` has made the socket,
-- and the messages.
abbrev pub arrived_from : {n : Kernel} → Peer n → List ℕ
arrived_from p = carry p.socket [] p.last.wire

-- What a peer has sent to the server: what has been written on the socket, in the order of writing. Each
-- thread whose call has returned has written once, and no other has.
pub record AreSent {n : Kernel} (p : Peer n) (sent : List Item) : Type 0 where
  pub in_order : sent ≡ items p.calls p.socket [] p.last.wire
  pub once : (i : ℕ) → times i p.last.wire ≡ has_returned (p.last.senders i).place

greeting-IsItem : (m : NetworkManager) (taken : Option ℕ) → IsFit m → All IsItem (greeting m taken)
greeting-IsItem m none f = tt
greeting-IsItem m (some n) f = elim (Bool-cases (ltb n 12)) [
  | inl short ↦ rw short tt
  | inr whole ↦ rw whole (f, tt)
]

items-IsItem :
    (calls : ℕ → Call) (fd : ℕ) (before : List Item) (ws : List Write)
    → ((i : ℕ) → IsMessage (calls i).content)
    → All IsItem before
    → All IsWrite ws
    → All IsItem (items calls fd before ws)
items-IsItem calls fd before [] m b w = b
items-IsItem calls fd before (reported r ∷ ws) m b ((f, e), w) =
    elim (Bool-cases (r.socket == fd)) [
      | inl q ↦ rw q (
          items-IsItem calls fd (greeting r.manager r.taken) ws m
            (greeting-IsItem r.manager r.taken f) w)
      | inr q ↦ rw q (items-IsItem calls fd before ws m b w)
    ]
items-IsItem calls fd before (attempted i no_socket ∷ ws) m b (u, w) =
    items-IsItem calls fd before ws m b w
items-IsItem calls fd before (attempted i (wrote x frame none) ∷ ws) m b (u, w) =
    items-IsItem calls fd before ws m b w
items-IsItem calls fd before (attempted i (wrote x frame (some size)) ∷ ws) m b (u, w) =
    elim (Bool-cases (x == fd)) [
      | inl q ↦ rw q (
          items-IsItem calls fd (before ++ message (calls i).content ∷ []) ws m
            (All-snoc IsItem before (message (calls i).content) b (m i)) w)
      | inr q ↦ rw q (items-IsItem calls fd before ws m b w)
    ]

module _ (k : Connection) (reliable : IsReliable k) (os : Kernel) (n : Kernel) (first : Server k)
    (peer : ℕ → Peer n) where
  sent_by :
      (fd : ℕ)
      → (items : List Item) × AreSent (peer fd) items
        × (arrived_from (peer fd) ≡ frames items)
        × All IsItem items
  sent_by fd =
      let p = peer fd in
      let (carries, once) =
        Reach-sent p.calls n p.manager p.system p.last p.fit p.reached p.tries p.returned in
      let w = Reach-IsWired n p.manager p.system p.calls p.fit p.reached in
      (
        items p.calls p.socket [] p.last.wire,
        record { in_order = refl; once = once },
        carries p.socket [],
        items-IsItem p.calls p.socket [] p.last.wire p.messages tt w.written,
      )

  -- Peers call `sendMessage` in many threads at the same time, with non-empty messages shorter than 2^32
  -- and a `retry` that is not negative, and the calls that have ended have all returned. What is to be
  -- read on the connections of a server that has handed on none is what the sockets of the peers have
  -- carried: the rank report that `getSendSocket` has written on a new one, and the messages. The
  -- connections are without errors, and heads and verify codes have arrived whole when they are read,
  -- which TCP does not promise. Then, however events, connections being accepted among them, calls of
  -- `getMessage`, `registerTarget` and `sendMessage`, tests of the loop and the steps of `stopServer`
  -- interleave: `getMessage` has returned, with the one message that the loop may wait to hand over, for
  -- each peer the contents that it has sent to the server, whole and in the order of writing, once for
  -- each call, each event of a connection having taken the report or the next message while there are
  -- some, and no event makes the loop fail.
  pub Reach-Carries_sent :
      {t : Node k}
      → ((fd : ℕ) → k.incoming (first.connections fd) ≡ arrived_from (peer fd))
      → first.handed_on ≡ []
      → Reach k os (open_node k first) t
      → (items : ℕ → List Item) × ((fd : ℕ) → AreSent (peer fd) (items fd))
        × Carries k reliable os first items t
  Reach-Carries_sent arrived e r = (
    λ fd. (sent_by fd).0,
    λ fd. (sent_by fd).1,
    Reach-Carries k reliable os first (λ fd. (sent_by fd).0)
        (λ fd. (arrived fd ∙ (sent_by fd).2, (sent_by fd).3)) e r,
  )
