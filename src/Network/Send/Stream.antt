-- ===== src/Network/Send/Stream.antt =====
-- src/network/NetworkManager.cpp: what calls of `sendMessage`, one after the other, put on the sockets.
use npp.Common.{
  map, ℕ, suc, ◌+◌, ◌≤◌, ◌<◌, ◌≡◌, refl, sym, ap, ap₂, subst, ◌∙◌, Option, none, some, List, [],
  ◌∷◌, ◌++◌, append_assoc, append-nil, length, length-append, take, take-all, All, ◌==◌,
  if◌then◌else◌, Bool-cases, inl, inr, arith,
}
use npp.Common.Outcome.{Outcome, ok}
use npp.Basic.Exception.{Exception}
use npp.Network.Head.{message_frame, bytes32, fix_verify_code}
use npp.Network.Registry.{NetworkManager}
use npp.Network.Server.Sending.{message, frames}
use npp.Network.Send.{Kernel, ℤ, rounds, Attempt, no_socket, wrote, Sent, send_message}
use npp.Network.Send.Attempts.{
  IsFailure, Verdict, nothing_sent, sent, cut_short, gave_up, Judged, send_message-Verdict,
}

-- A call of `sendMessage`.
pub record Call : Type 0 where
  pub rank : ℕ
  pub content : List ℕ
  pub retry : ℤ

-- The bytes of messages that `writev` took on a socket.
abbrev pub carried : ℕ → List Attempt → List ℕ
carried fd [] = []
carried fd (no_socket ∷ log) = carried fd log
carried fd (wrote x frame none ∷ log) = carried fd log
carried fd (wrote x frame (some size) ∷ log) =
    if x == fd then take size frame ++ carried fd log else carried fd log

-- The contents that go to a socket, where the calls have used these sockets.
abbrev routed : ℕ → List ℕ → List Call → List (List ℕ)
routed fd [] calls = []
routed fd (x ∷ xs) [] = []
routed fd (x ∷ xs) (c ∷ calls) =
    if x == fd then c.content ∷ routed fd xs calls else routed fd xs calls

module _ (k : Kernel) where
  open k use {State, writev}

  -- The outcomes of the calls, and all the attempts.
  abbrev pub AllSent : Type 0
  AllSent = List (Outcome Exception (Unit {0})) × NetworkManager × State × List Attempt

  unfoldable pub send_all : NetworkManager → State → List Call → Option AllSent
  send_all m s [] = some ([], m, s, [])
  send_all m s (c ∷ calls) = elim (send_message k m s c.rank c.content c.retry) [
    | none ↦ none
    | some (o, m', s', log) ↦ elim (send_all m' s' calls) [
      | none ↦ none
      | some (os, m'', s'', log') ↦ some (o ∷ os, m'', s'', log ++ log')
    ]
  ]

carried-append :
    (fd : ℕ) (log log' : List Attempt)
    → carried fd (log ++ log') ≡ carried fd log ++ carried fd log'
carried-append fd [] log' = refl
carried-append fd (no_socket ∷ log) log' = carried-append fd log log'
carried-append fd (wrote x frame none ∷ log) log' = carried-append fd log log'
carried-append fd (wrote x frame (some size) ∷ log) log' = elim (Bool-cases (x == fd)) [
  | inl here ↦
      rw (here, carried-append fd log log')
        (sym (append_assoc (take size frame) (carried fd log) (carried fd log')))
  | inr away ↦ rw away (carried-append fd log log')
]

failures_carry_nothing :
    (fd : ℕ) (fails log : List Attempt)
    → All IsFailure fails
    → carried fd (fails ++ log) ≡ carried fd log
failures_carry_nothing fd [] log fs = refl
failures_carry_nothing fd (no_socket ∷ fails) log (f, fs) = failures_carry_nothing fd fails log fs
failures_carry_nothing fd (wrote x frame none ∷ fails) log (f, fs) =
    failures_carry_nothing fd fails log fs
failures_carry_nothing fd (wrote x frame (some size) ∷ fails) log (f, fs) = absurd (cc)

pub length-message_frame : (content : List ℕ) → length (message_frame content) ≡ length content + 12
unfolding message_frame
length-message_frame content = omega (arith, length-append content (bytes32 fix_verify_code))

-- A call that returns has put its frame on one socket.
sent-carried :
    (content : List ℕ) (n : ℕ) (log : List Attempt)
    → 0 < n
    → Verdict content n (ok tt) log
    → (x : ℕ) × ((fd : ℕ) → carried fd log ≡ (if x == fd then message_frame content else []))
sent-carried content n log h (nothing_sent z e l) = absurd (omega arith)
sent-carried content n log h (cut_short fails x size fs lt le l e) = absurd (cc)
sent-carried content n log h (gave_up z fs l e) = absurd (cc)
sent-carried content n log h (sent fails x size fs lt le l e) = (
  x,
  λ fd.
      ap (carried fd) l
      ∙ (failures_carry_nothing fd fails _ fs ∙ elim (Bool-cases (x == fd)) [
        | inl here ↦ rw (here, take-all size (message_frame content) enough) (append-nil _)
        | inr away ↦ rw away refl
      ]),
)
  where
    enough : length (message_frame content) ≤ size
    enough = omega (arith, length-message_frame content)

routed_cons :
    (fd x : ℕ) (xs : List ℕ) (c : Call) (calls : List Call)
    → (if x == fd then message_frame c.content else []) ++ frames (map message (routed fd xs calls))
      ≡ frames (map message (routed fd (x ∷ xs) (c ∷ calls)))
routed_cons fd x xs c calls = elim (Bool-cases (x == fd)) [
  | inl here ↦ rw here refl
  | inr away ↦ rw away refl
]

module _ (k : Kernel) where
  open k use {State}

  -- How the first of some calls and the others make up all of them.
  record Split (m : NetworkManager) (s : State) (c : Call) (calls : List Call) (r : AllSent k)
      : Type 0 where
    outcome : Outcome Exception (Unit {0})
    manager : NetworkManager
    state : State
    log : List Attempt
    later : AllSent k
    called : send_message k m s c.rank c.content c.retry ≡ some (outcome, manager, state, log)
    others : send_all k manager state calls ≡ some later
    outcomes_of : r.0 ≡ outcome ∷ later.0
    log_of : r.3 ≡ log ++ later.3

  send_all-Split :
      (m : NetworkManager) (s : State) (c : Call) (calls : List Call) (r : AllSent k)
      → send_all k m s (c ∷ calls) ≡ some r
      → Split m s c calls r
  unfolding send_all
  send_all-Split m s c calls r e = first (send_message k m s c.rank c.content c.retry) refl
    where
      first :
          (a : Option (Sent k))
          → send_message k m s c.rank c.content c.retry ≡ a
          → Split m s c calls r
      first none p = absurd (ground (arith, e, p))
      first (some (o, m', s', log)) p = rest (send_all k m' s' calls) refl
        where
          rest : (b : Option (AllSent k)) → send_all k m' s' calls ≡ b → Split m s c calls r
          rest none q = absurd (ground (arith, e, p, q))
          rest (some later) q = record {
            outcome = o;
            manager = m';
            state = s';
            log = log;
            later = later;
            called = p;
            others = q;
            outcomes_of = ground (arith, e, p, q);
            log_of = ground (arith, e, p, q);
          }

  -- Where calls of `sendMessage` with a `retry` that is not negative all return, each of them has used
  -- one socket, and the bytes that each socket has carried of them are the frames of the contents that
  -- were sent on it, one after the other, with nothing of a failed attempt between them.
  send_all-frames :
      (m : NetworkManager) (s : State) (calls : List Call) (r : AllSent k)
      → send_all k m s calls ≡ some r
      → All (λ (o : Outcome Exception (Unit {0})). o ≡ ok tt) r.0
      → All (λ (c : Call). 0 < rounds c.retry) calls
      → (xs : List ℕ) × (length xs ≡ length calls)
        × ((fd : ℕ) → carried fd r.3 ≡ frames (map message (routed fd xs calls)))
  unfolding send_all
  send_all-frames m s [] r e returned h = ([], refl, λ fd. ground arith)
  send_all-frames m s (c ∷ calls) r e returned (h, hs) =
      let v = send_all-Split m s c calls r e in
      let (good, goods) : All (λ (o : Outcome Exception (Unit {0})). o ≡ ok tt)
          (v.outcome ∷ v.later.0) =
        subst (All (λ (o : Outcome Exception (Unit {0})). o ≡ ok tt)) v.outcomes_of returned in
      let (x, one) = sent-carried c.content (rounds c.retry) v.log h (
        subst (λ (o : Outcome Exception (Unit {0})). Verdict c.content (rounds c.retry) o v.log)
          good
          (subst (Judged k c.content (rounds c.retry)) v.called
            (send_message-Verdict k m s c.rank c.content c.retry))) in
      let (xs, same, all) = send_all-frames v.manager v.state calls v.later v.others goods hs in
      (
        x ∷ xs,
        ap suc same,
        λ fd.
            ap (carried fd) v.log_of
            ∙ (carried-append fd v.log v.later.3
                ∙ (ap₂ ◌++◌ (one fd) (all fd) ∙ routed_cons fd x xs c calls)),
      )
