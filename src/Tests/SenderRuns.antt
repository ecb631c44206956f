-- ===== src/Tests/SenderRuns.antt =====
-- Runs of calls of `sendMessage` of src/network/NetworkManager.cpp in several threads.
use npp.Common.{ℕ, ◌<◌, ◌≡◌, refl, Option, none, some, List, [], ◌∷◌, ◌==◌, if◌then◌else◌, arith}
use npp.Common.Outcome.{Outcome, ok}
use npp.Basic.Exception.{Exception}
use npp.Network.Registry.{NetworkManager, find, set_sock}
use npp.Network.Send.{rounds, get_send_socket}
use npp.Network.Send.Short.{call}
use npp.Network.Send.Stream.{Call}
use npp.Network.Server.Sending.{Item, message, report, frames}
use npp.Network.Send.Threads.{
  ended, begin, Stepped, after_get, place_after, test_round, sender_step, Senders, after_step,
  open_senders, sends, Reach, here, next,
}
use npp.Network.Send.Threads.Carried.{carry, times}
use npp.Network.Send.Threads.Frames.{items, has_returned, Reach-sent}
use npp.Tests.StreamRuns.{scripted, peer, manager}

-- Two calls that are made, and others that are not made yet.
abbrev pub two_calls : List ℕ → List ℕ → ℕ → Call
two_calls a b i = if i == 0 then call 1 a 0 else if i == 1 then call 1 b 0 else call 1 (9 ∷ []) 0

abbrev pub after : ℕ → Senders scripted → Option (Stepped scripted) → Senders scripted
after i t none = t
after i t (some r) = after_step scripted t i r

abbrev pub step_of : ℕ → Senders scripted → Senders scripted
step_of i t = after i t (sender_step scripted (t.senders i) t.manager t.system)

abbrev pub run_of : List ℕ → Senders scripted → Senders scripted
run_of [] t = t
run_of (i ∷ threads) t = run_of threads (step_of i t)

step-Reach :
    (i : ℕ) (s t : Senders scripted) (r : Option (Stepped scripted))
    → sender_step scripted (t.senders i) t.manager t.system ≡ r
    → Reach scripted s t
    → Reach scripted s (after i t r)
step-Reach i s t none e h = h
step-Reach i s t (some r) e h = next h (sends i r e refl)

pub run-Reach :
    (threads : List ℕ) (s t : Senders scripted)
    → Reach scripted s t
    → Reach scripted s (run_of threads t)
run-Reach [] s t h = h
run-Reach (i ∷ threads) s t h = run-Reach threads s (step_of i t) (step-Reach i s t _ refl h)

-- The target has no socket yet; what `writev` answers to the report and to two messages.
abbrev pub unconnected : NetworkManager
unconnected = record manager { socks = (1, record peer { sock = none }) ∷ [] }

abbrev pub connecting : List (Option ℕ)
connecting = some 12 ∷ some 15 ∷ some 13 ∷ []

-- The first two threads get the socket before either writes; the third does not write.
abbrev pub crossing : Senders scripted
crossing =
    run_of (0 ∷ 1 ∷ 2 ∷ 0 ∷ 1 ∷ [])
      (open_senders scripted unconnected connecting (two_calls (1 ∷ 2 ∷ 3 ∷ []) (4 ∷ [])))

pub Reach-crossing :
    Reach scripted
      (open_senders scripted unconnected connecting (two_calls (1 ∷ 2 ∷ 3 ∷ []) (4 ∷ [])))
      crossing
Reach-crossing = run-Reach (0 ∷ 1 ∷ 2 ∷ 0 ∷ 1 ∷ []) _ _ here

wrote_in_order :
    (items (two_calls (1 ∷ 2 ∷ 3 ∷ []) (4 ∷ [])) 6 [] crossing.wire
      ≡ report 0 8080 ∷ message (1 ∷ 2 ∷ 3 ∷ []) ∷ message (4 ∷ []) ∷ [])
    × (times 0 crossing.wire ≡ 1)
    × (times 2 crossing.wire ≡ 0)
unfolding open_senders begin sender_step test_round after_get place_after after_step get_send_socket
    find set_sock
wrote_in_order = (refl, refl, refl)

pub crossing-returned :
    (i : ℕ) (o : Outcome Exception (Unit {0})) → (crossing.senders i).place ≡ ended o → o ≡ ok tt
unfolding open_senders begin sender_step test_round after_get place_after after_step get_send_socket
    find set_sock
crossing-returned i o e = ground (arith, e)

pub two_calls-rounds : (a b : List ℕ) (i : ℕ) → 0 < rounds (two_calls a b i).retry
two_calls-rounds a b i = ground arith

Reach-sent_example :
    ((fd : ℕ) (before : List Item)
      → carry fd (frames before) crossing.wire
        ≡ frames (items (two_calls (1 ∷ 2 ∷ 3 ∷ []) (4 ∷ [])) fd before crossing.wire))
    × ((i : ℕ) → times i crossing.wire ≡ has_returned (crossing.senders i).place)
Reach-sent_example =
    Reach-sent (two_calls (1 ∷ 2 ∷ 3 ∷ []) (4 ∷ [])) scripted unconnected connecting crossing
      (omega arith, omega arith) Reach-crossing (two_calls-rounds (1 ∷ 2 ∷ 3 ∷ []) (4 ∷ []))
      crossing-returned
