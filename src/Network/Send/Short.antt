-- ===== src/Network/Send/Short.antt =====
-- src/network/NetworkManager.cpp: a `writev` that takes a part of a message.
use npp.Common.{
  ℕ, suc, Bool-cases, ==_refl, inl, inr, ◌+◌, ◌≤◌, ◌<◌, ◌≡◌, refl, some, List, [], ◌∷◌, ◌++◌,
  append-nil, length, take, take-all, ltb, if◌then◌else◌, arith,
}
use npp.Common.Outcome.{ok, throw}
use npp.Basic.Exception.{send_error}
use npp.Network.Head.{message_frame}
use npp.Network.Registry.{NetworkManager, Target, find}
use npp.Network.Send.{Kernel, Attempt, pos, wrote, get_send_socket, send_message}
use npp.Network.Send.Stream.{Call, carried, send_all, length-message_frame}

abbrev pub call : ℕ → List ℕ → ℕ → Call
call rank content n = record { rank = rank; content = content; retry = pos n }

module _ (k : Kernel) (m : NetworkManager) (rank fd : ℕ) (t : Target) where
  open k use {State, writev}

  known_socket :
      (s : State)
      → find rank m.socks ≡ some t
      → t.sock ≡ some (suc fd)
      → get_send_socket k m s rank ≡ some (some (suc fd), m, s, [])
  unfolding get_send_socket
  known_socket s f e = ground (arith, f, e)

  -- A call on a socket that is open, where `writev` takes something.
  send_known :
      (s s' : State) (content : List ℕ) (n size : ℕ)
      → find rank m.socks ≡ some t
      → t.sock ≡ some (suc fd)
      → writev s (suc fd) (message_frame content) ≡ (some size, s')
      → send_message k m s rank content (pos n)
        ≡ some (
          if ltb size (8 + length content + 4) then throw send_error else ok tt,
          m,
          s',
          wrote (suc fd) (message_frame content) (some size) ∷ [],
        )
  unfolding send_message
  send_known s s' content n size f e w = elim (Bool-cases (ltb size (8 + length content + 4))) [
    | inl short ↦ rw short (ground (arith, f, e, w, short))
    | inr whole ↦ rw whole (ground (arith, f, e, w, whole))
  ]

  -- Where `writev` takes only a part of a message, the call throws and leaves the socket as it is: the
  -- next message for the same rank is sent on it, behind that part.
  pub short_write_stays :
      (s s' s'' : State) (first second : List ℕ) (n n' size size' : ℕ)
      → find rank m.socks ≡ some t
      → t.sock ≡ some (suc fd)
      → writev s (suc fd) (message_frame first) ≡ (some size, s')
      → size < length first + 12
      → writev s' (suc fd) (message_frame second) ≡ (some size', s'')
      → length second + 12 ≤ size'
      → (log : List Attempt) × (send_all k m s (call rank first n ∷ call rank second n' ∷ [])
          ≡ some (throw send_error ∷ ok tt ∷ [], m, s'', log))
        × (carried (suc fd) log ≡ take size (message_frame first) ++ message_frame second)
  unfolding send_all
  short_write_stays s s' s'' first second n n' size size' f e w h w' h' = (
    wrote (suc fd) (message_frame first) (some size)
        ∷ wrote (suc fd) (message_frame second) (some size')
        ∷ [],
    ground (arith, send_known s s' first n size f e w, send_known s' s'' second n' size' f e w'),
    rw
        (
          ==_refl (suc fd),
          take-all size' (message_frame second) (omega (arith, length-message_frame second)),
          append-nil (message_frame second),
        )
        refl,
  )
