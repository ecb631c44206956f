-- ===== src/Network/Send/Threads/Frames.antt =====
-- src/network/NetworkManager.cpp: what calls of `sendMessage` at the same time put on the sockets.
use npp.Common.{
  Bool-cases, ==_iff, Bool, true, false, ℕ, suc, ◌+◌, ◌≤◌, ◌<◌, ◌≡◌, refl, sym, ap, subst, take,
  ◌∙◌, none, some, List, [], ◌∷◌, ◌++◌, take-all, length, arith, All, inl, inr, ◌==◌, if◌then◌else◌,
}
use npp.Common.Outcome.{Outcome, ok}
use npp.Basic.Exception.{Exception}
use npp.Network.Head.{message_frame}
use npp.Network.Registry.{NetworkManager}
use npp.Network.Server.Sending.{Item, message, frames}
use npp.Network.Send.{Kernel, rounds, Attempt, no_socket, wrote}
use npp.Network.Send.Attempts.{IsFailure, Verdict, nothing_sent, sent, cut_short, gave_up}
use npp.Network.Send.Stream.{Call, length-message_frame}
use npp.Network.Send.Threads.{
  Place, testing, with_socket, write_failed, ended, Write, reported, attempted, IsFit, Senders,
  open_senders, Reach,
}
use npp.Network.Send.Threads.Carried.{carry, greeting, times, greeting-frames, frames-snoc}
use npp.Network.Send.Threads.Wire.{IsWrite, attempts_in, Reach-IsWired}
use npp.Network.Send.Threads.Verdicts.{attempts_of, Progress, All-snoc, Reach-Fits}

abbrev pub has_returned : Place → ℕ
has_returned (ended o) = 1
has_returned testing = 0
has_returned (with_socket fd) = 0
has_returned write_failed = 0

-- An attempt of a call that has not written a part of its frame only.
abbrev IsSound : Call → Attempt → Type 0
IsSound c no_socket = Unit {0}
IsSound c (wrote fd frame none) = Unit {0}
IsSound c (wrote fd frame (some size)) =
    (frame ≡ message_frame c.content) × (length c.content + 12 ≤ size)

abbrev number : List Attempt → ℕ
number [] = 0
number (no_socket ∷ log) = number log
number (wrote fd frame none ∷ log) = number log
number (wrote fd frame (some size) ∷ log) = suc (number log)

failures-IsSound : (c : Call) (log : List Attempt) → All IsFailure log → All (IsSound c) log
failures-IsSound c [] fs = tt
failures-IsSound c (no_socket ∷ log) (f, fs) = (tt, failures-IsSound c log fs)
failures-IsSound c (wrote fd frame none ∷ log) (f, fs) = (tt, failures-IsSound c log fs)
failures-IsSound c (wrote fd frame (some size) ∷ log) (f, fs) = absurd (cc)

failures-number :
    (log later : List Attempt) → All IsFailure log → number (log ++ later) ≡ number later
failures-number [] later fs = refl
failures-number (no_socket ∷ log) later (f, fs) = failures-number log later fs
failures-number (wrote fd frame none ∷ log) later (f, fs) = failures-number log later fs
failures-number (wrote fd frame (some size) ∷ log) later (f, fs) = absurd (cc)

verdict-IsSound :
    (c : Call) (log : List Attempt)
    → 0 < rounds c.retry
    → Verdict c.content (rounds c.retry) (ok tt) log
    → All (IsSound c) log × (number log ≡ 1)
verdict-IsSound c log h (nothing_sent z e l) = absurd (omega arith)
verdict-IsSound c log h (cut_short fails x size fs lt le l e) = absurd (cc)
verdict-IsSound c log h (gave_up z fs l e) = absurd (cc)
verdict-IsSound c log h (sent fails fd size fs lt le l e) = rw l (
  All-snoc (IsSound c) fails _ (failures-IsSound c fails fs) (refl, le),
  failures-number fails _ fs,
)

number-failures : (log : List Attempt) → All IsFailure log → number log ≡ 0
number-failures [] fs = refl
number-failures (no_socket ∷ log) (f, fs) = number-failures log fs
number-failures (wrote fd frame none ∷ log) (f, fs) = number-failures log fs
number-failures (wrote fd frame (some size) ∷ log) (f, fs) = absurd (cc)

place-IsSound :
    (c : Call) (p : Place) (left : ℕ) (log : List Attempt)
    → 0 < rounds c.retry
    → ((o : Outcome Exception (Unit {0})) → p ≡ ended o → o ≡ ok tt)
    → Progress c log p left
    → All (IsSound c) log × (number log ≡ has_returned p)
place-IsSound c testing left log h r (fs, e, g) =
    (failures-IsSound c log fs, number-failures log fs)
place-IsSound c (with_socket fd) left log h r (fs, e, g) =
    (failures-IsSound c log fs, number-failures log fs)
place-IsSound c write_failed left log h r (fs, e, g, d) =
    (failures-IsSound c log fs, number-failures log fs)
place-IsSound c (ended o) left log h r v = verdict-IsSound c log h (
    subst (λ (x : Outcome Exception (Unit {0})). Verdict c.content (rounds c.retry) x log)
      (r o refl) v)

times-number : (i : ℕ) (ws : List Write) → times i ws ≡ number (attempts_of i (attempts_in ws))
times-number i [] = refl
times-number i (reported r ∷ ws) = times-number i ws
times-number i (attempted j no_socket ∷ ws) = ground (arith, times-number i ws)
times-number i (attempted j (wrote x frame none) ∷ ws) = ground (arith, times-number i ws)
times-number i (attempted j (wrote x frame (some size)) ∷ ws) = ground (arith, times-number i ws)

module _ (calls : ℕ → Call) where
  abbrev OfCall : ℕ × Attempt → Type 0
  OfCall (i, a) = IsSound (calls i) a

  all_threads :
      (log : List (ℕ × Attempt))
      → ((i : ℕ) → All (IsSound (calls i)) (attempts_of i log))
      → All OfCall log
  all_threads [] h = tt
  all_threads ((j, a) ∷ log) h = (
    (at_test j true ((==_iff j j).1 refl)).0,
    all_threads log (λ i. elim (Bool-cases (i == j)) [
      | inl q ↦ (at_test i true q).1
      | inr q ↦ at_test i false q
    ]),
  )
    where
      at_test :
          (i : ℕ) (b : Bool)
          → (i == j) ≡ b
          → All (IsSound (calls i)) (if b then a ∷ attempts_of i log else attempts_of i log)
      at_test i b q =
          subst
            (λ (b : Bool).
              All (IsSound (calls i)) (if b then a ∷ attempts_of i log else attempts_of i log))
            q (h i)

  -- The items that a socket has carried, after `before`.
  abbrev pub items : ℕ → List Item → List Write → List Item
  items fd before [] = before
  items fd before (reported r ∷ ws) =
      items fd (if r.socket == fd then greeting r.manager r.taken else before) ws
  items fd before (attempted i no_socket ∷ ws) = items fd before ws
  items fd before (attempted i (wrote x frame none) ∷ ws) = items fd before ws
  items fd before (attempted i (wrote x frame (some size)) ∷ ws) =
      items fd (if x == fd then before ++ message (calls i).content ∷ [] else before) ws

  carry-frames :
      (fd : ℕ) (before : List Item) (ws : List Write)
      → All IsWrite ws
      → All OfCall (attempts_in ws)
      → carry fd (frames before) ws ≡ frames (items fd before ws)
  carry-frames fd before [] r h = refl
  carry-frames fd before (reported x ∷ ws) ((f, e), r) h = elim (Bool-cases (x.socket == fd)) [
    | inl q ↦ rw q (
        ap (λ (l : List ℕ). carry fd l ws) (greeting-frames x.manager x.bytes x.taken e)
        ∙ carry-frames fd (greeting x.manager x.taken) ws r h)
    | inr q ↦ rw q (carry-frames fd before ws r h)
  ]
  carry-frames fd before (attempted i no_socket ∷ ws) (u, r) (o, h) = carry-frames fd before ws r h
  carry-frames fd before (attempted i (wrote x frame none) ∷ ws) (u, r) (o, h) =
      carry-frames fd before ws r h
  carry-frames fd before (attempted i (wrote x frame (some size)) ∷ ws) (u, r) ((e, le), h) =
      elim (Bool-cases (x == fd)) [
        | inl q ↦ rw q (
            ap (λ (l : List ℕ). carry fd l ws)
              (ap (λ (l : List ℕ). frames before ++ take size l) e
                ∙ (ap (λ (l : List ℕ). frames before ++ l)
                      (take-all size (message_frame (calls i).content) whole)
                    ∙ sym (frames-snoc before (message (calls i).content))))
            ∙ carry-frames fd (before ++ message (calls i).content ∷ []) ws r h)
        | inr q ↦ rw q (carry-frames fd before ws r h)
      ]
    where
      whole : length (message_frame (calls i).content) ≤ size
      whole = omega (arith, length-message_frame (calls i).content)

  -- Calls of `sendMessage` with a `retry` that is not negative, in many threads at the same time and
  -- with whatever other threads do to the manager, its rank and port staying in their ranges, and to the
  -- system, of which those that have ended have all returned: each that has ended has written once and no
  -- other has, and the bytes that each socket has carried are those from before, on a new socket the
  -- report of the rank and port of the manager in their place, and then the frames of the contents, in
  -- the order of writing and each in one piece.
  pub Reach-sent :
      (os : Kernel) (m : NetworkManager) (s : os.State) (t : Senders os)
      → IsFit m
      → Reach os (open_senders os m s calls) t
      → ((i : ℕ) → 0 < rounds (calls i).retry)
      → ((i : ℕ) (o : Outcome Exception (Unit {0})) → (t.senders i).place ≡ ended o → o ≡ ok tt)
      → ((fd : ℕ) (before : List Item)
          → carry fd (frames before) t.wire ≡ frames (items fd before t.wire))
        × ((i : ℕ) → times i t.wire ≡ has_returned (t.senders i).place)
  Reach-sent os m s t f r tries returned =
      let w = Reach-IsWired os m s calls f r in
      (
        λ fd before.
            carry-frames fd before t.wire w.written
              (subst (All OfCall) (sym w.in_step) (all_threads t.log (λ i. (sound i).0))),
        λ i.
            times-number i t.wire
            ∙ (ap (λ (l : List (ℕ × Attempt)). number (attempts_of i l)) w.in_step ∙ (sound i).1),
      )
    where
      sound :
          (i : ℕ)
          → All (IsSound (calls i)) (attempts_of i t.log)
            × (number (attempts_of i t.log) ≡ has_returned (t.senders i).place)
      sound i =
          place-IsSound (calls i) (t.senders i).place (t.senders i).left (attempts_of i t.log)
            (tries i) (returned i) (Reach-Fits os m s calls r i).progress
