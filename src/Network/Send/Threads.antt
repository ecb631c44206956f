-- ===== src/Network/Send/Threads.antt =====
-- src/network/NetworkManager.cpp: calls of `sendMessage` in many threads at the same time. The steps of
-- a call are `getSendSocket`, which holds the accessor of its target from the beginning to the end,
-- `writev`, and `clearSendSocket`.
pub mod Verdicts
pub mod Wire
pub mod Carried
pub mod Frames
pub mod Alone
use npp.Common.{
  ℕ, zero, suc, ◌+◌, ◌^◌, ◌<◌, ◌≡◌, map, Option, none, some, List, [], ◌∷◌, ◌++◌, length, ltb, ◌==◌,
  if◌then◌else◌,
}
use npp.Common.Outcome.{Outcome, ok, throw}
use npp.Basic.Exception.{Exception, send_error}
use npp.Network.Head.{message_frame}
use npp.Network.Registry.{NetworkManager, clear_send_socket}
use npp.Network.Send.{Kernel, rounds, Attempt, Report, no_socket, wrote, get_send_socket}
use npp.Network.Send.Stream.{Call}

-- Where a call is: at the test of the loop, with a socket, after a `writev` that failed, or at its end.
pub data Place : Type 0 where
  testing : Place
  with_socket : ℕ → Place
  write_failed : Place
  ended : Outcome Exception (Unit {0}) → Place

-- `left` is the number of rounds that are left, with the one that runs.
pub record Sender : Type 0 where
  pub call : Call
  pub left : ℕ
  pub place : Place

unfoldable pub begin : Call → Sender
begin c = record { call = c; left = rounds c.retry; place = testing }

-- After `retry--`.
unfoldable pub next_round : Call → ℕ → Sender
next_round c zero = record { call = c; left = zero; place = ended (throw send_error) }
next_round c (suc n) = record { call = c; left = suc n; place = testing }

-- The place after `writev`.
unfoldable pub place_after : Call → Option ℕ → Place
place_after c none = write_failed
place_after c (some written) =
    if ltb written (8 + length c.content + 4) then ended (throw send_error) else ended (ok tt)

-- Attempts with their thread.
abbrev pub by_thread : ℕ → List Attempt → List (ℕ × Attempt)
by_thread i [] = []
by_thread i (a ∷ new) = (i, a) ∷ by_thread i new

-- What is written on sockets, for the record: the report on a new one, and the attempts of threads.
pub data Write : Type 0 where
  reported : Report → Write
  attempted : ℕ → Attempt → Write

abbrev pub attempted_by : ℕ → List Attempt → List Write
attempted_by i [] = []
attempted_by i (a ∷ new) = attempted i a ∷ attempted_by i new

-- The values that the members can have: `int` and `uint16_t`, a rank not being negative.
abbrev pub IsFit : NetworkManager → Type 0
IsFit m = (m.my_rank < 2 ^ 32) × (m.listen_port < 65536)

module _ (os : Kernel) where
  open os use {State, writev}

  -- The call, the manager and the system after a step, the attempt that has come to an end in it, and
  -- the report that it has written.
  abbrev pub Stepped : Type 0
  Stepped = Sender × NetworkManager × State × List Attempt × List Report

  unfoldable pub after_get :
      Call → ℕ → Option (Option ℕ × NetworkManager × State × List Report) → Option Stepped
  unfolding next_round
  after_get c n none = none
  after_get c n (some (none, m, s, rs)) = some (next_round c n, m, s, no_socket ∷ [], rs)
  after_get c n (some (some fd, m, s, rs)) =
      some (record { call = c; left = suc n; place = with_socket fd }, m, s, [], rs)

  unfoldable pub test_round : Call → ℕ → NetworkManager → State → Option Stepped
  unfolding after_get
  test_round c zero m s =
      some (record { call = c; left = zero; place = ended (ok tt) }, m, s, [], [])
  test_round c (suc n) m s = after_get c n (get_send_socket os m s c.rank)

  unfoldable pub clear_round : Call → ℕ → NetworkManager → State → Option Stepped
  unfolding next_round
  clear_round c zero m s = none
  clear_round c (suc n) m s = some (next_round c n, clear_send_socket m c.rank, s, [], [])

  -- `none` is a call that has ended, or waits in `getSendSocket` for the server to run.
  unfoldable pub sender_step : Sender → NetworkManager → State → Option Stepped
  unfolding test_round clear_round place_after
  sender_step x m s = elim x.place [
    | testing ↦ test_round x.call x.left m s
    | with_socket fd ↦
        let frame = message_frame x.call.content in
        let (r, s') = writev s fd frame in
        some (record x { place = place_after x.call r }, m, s', wrote fd frame r ∷ [], [])
    | write_failed ↦ clear_round x.call x.left m s
    | ended o ↦ none
  ]

  -- The calls by their threads, the attempts of all, with the thread of each, and these together with
  -- the reports.
  pub record Senders : Type 0 where
    pub manager : NetworkManager
    pub system : State
    pub senders : ℕ → Sender
    pub log : List (ℕ × Attempt)
    pub wire : List Write

  abbrev pub replace : ℕ → Sender → (ℕ → Sender) → ℕ → Sender
  replace i x senders j = if j == i then x else senders j

  unfoldable pub after_step : Senders → ℕ → Stepped → Senders
  after_step t i (x, m, s, new, reports) = record {
    manager = m;
    system = s;
    senders = replace i x t.senders;
    log = t.log ++ by_thread i new;
    wire = t.wire ++ (map reported reports ++ attempted_by i new);
  }

  unfoldable pub open_senders : NetworkManager → State → (ℕ → Call) → Senders
  open_senders m s calls = record {
    manager = m;
    system = s;
    senders = λ i. begin (calls i);
    log = [];
    wire = [];
  }

  -- Other threads change the manager and the system between the steps.
  pub data Step (t u : Senders) : Type 0 where
    sends :
        (i : ℕ) (r : Stepped)
        → sender_step (t.senders i) t.manager t.system ≡ some r
        → u ≡ after_step t i r
        → Step t u
    others :
        (m : NetworkManager) (s : State)
        → IsFit m
        → u ≡ record t { manager = m; system = s }
        → Step t u

  pub data Reach (t : Senders) : Senders → Type 0 where
    here : Reach t t
    next : {u v : Senders} → Reach t u → Step u v → Reach t v
