-- ===== src/Network/Send/Threads/Verdicts.antt =====
-- src/network/NetworkManager.cpp: how each of many calls of `sendMessage` at the same time ends.
use npp.Common.{
  Bool-cases, ==_iff, ltb→lt, ℕ, zero, suc, ◌+◌, ◌<◌, ◌≡◌, refl, sym, ap, subst, Option, none, some,
  List, [], ◌∷◌, ◌++◌, append-nil, length, length-append, arith, All, ltb, inl, inr, ◌⊎◌, ◌==◌,
  if◌then◌else◌,
}
use npp.Network.Head.{message_frame}
use npp.Network.Registry.{NetworkManager}
use npp.Network.Send.{Kernel, rounds, Report, Attempt, no_socket, wrote, get_send_socket}
use npp.Network.Send.Attempts.{IsFailure, Verdict, nothing_sent, sent, cut_short, gave_up}
use npp.Network.Send.Stream.{Call}
use npp.Network.Send.Threads.{
  Place, testing, with_socket, write_failed, ended, Sender, begin, next_round, Stepped, after_get,
  place_after, test_round, clear_round, sender_step, Senders, by_thread, after_step, open_senders,
  Step, sends, others, Reach, here, next,
}

-- The attempts of one thread.
abbrev pub attempts_of : ℕ → List (ℕ × Attempt) → List Attempt
attempts_of i [] = []
attempts_of i ((j, a) ∷ log) = if i == j then a ∷ attempts_of i log else attempts_of i log

-- What the attempts of a call have been, at the place where it is, with so many rounds left.
abbrev pub Progress : Call → List Attempt → Place → ℕ → Type 0
Progress c log testing left =
    All IsFailure log × (length log + left ≡ rounds c.retry) × ((log ≡ []) ⊎ (0 < left))
Progress c log (with_socket fd) left =
    All IsFailure log × (length log + left ≡ rounds c.retry) × (0 < left)
Progress c log write_failed left =
    All IsFailure log × (length log + left ≡ suc (rounds c.retry)) × (0 < left) × (0 < length log)
Progress c log (ended o) left = Verdict c.content (rounds c.retry) o log

pub record Fits (c : Call) (x : Sender) (log : List Attempt) : Type 0 where
  pub same_call : x.call ≡ c
  pub progress : Progress c log x.place x.left

pub All-snoc {ℓ κ} :
    {A : Type ℓ} (P : A → Type κ) (xs : List A) (x : A) → All P xs → P x → All P (xs ++ x ∷ [])
All-snoc P [] x h p = (p, tt)
All-snoc P (y ∷ ys) x (h, hs) p = (h, All-snoc P ys x hs p)

-- After a failed attempt, which was the last of `log`.
next_round-Fits :
    (c : Call) (n : ℕ) (log : List Attempt)
    → All IsFailure log
    → 0 < length log
    → length log + n ≡ rounds c.retry
    → Fits c (next_round c n) log
unfolding next_round
next_round-Fits c zero log fs h e = record {
  same_call = refl;
  progress = gave_up (omega arith) fs (omega arith) refl;
}
next_round-Fits c (suc n) log fs h e = record {
  same_call = refl;
  progress = (fs, e, inr (omega arith));
}

module _ (os : Kernel) where
  open os use {State, writev}

  Good : Call → List Attempt → Option (Stepped os) → Type 0
  Good c log none = Unit {0}
  Good c log (some (x, m, s, new, rs)) = Fits c x (log ++ new)

  get-Good :
      (c : Call) (n : ℕ) (log : List Attempt)
      (r : Option (Option ℕ × NetworkManager × State × List Report))
      → All IsFailure log
      → length log + suc n ≡ rounds c.retry
      → Good c log (after_get os c n r)
  unfolding after_get Good
  get-Good c n log none fs e = tt
  get-Good c n log (some (none, m, s, rs)) fs e =
      next_round-Fits c n (log ++ no_socket ∷ []) (All-snoc IsFailure log no_socket fs tt)
        (omega (arith, length-append log (no_socket ∷ [])))
        (omega (arith, e, length-append log (no_socket ∷ [])))
  get-Good c n log (some (some fd, m, s, rs)) fs e = record {
    same_call = refl;
    progress =
        subst (λ (l : List Attempt). Progress c l (with_socket fd) (suc n)) (sym (append-nil log))
          (fs, e, omega arith);
  }

  write-Progress :
      (c : Call) (fd n : ℕ) (log : List Attempt) (r : Option ℕ)
      → Progress c log (with_socket fd) n
      → Progress c (log ++ wrote fd (message_frame c.content) r ∷ []) (place_after c r) n
  unfolding place_after
  write-Progress c fd n log none (fs, e, h) = (
    All-snoc IsFailure log _ fs refl,
    omega (arith, e, length-append log (wrote fd (message_frame c.content) none ∷ [])),
    h,
    omega (arith, length-append log (wrote fd (message_frame c.content) none ∷ [])),
  )
  write-Progress c fd n log (some written) (fs, e, h) =
      elim (Bool-cases (ltb written (8 + length c.content + 4))) [
        | inl short ↦
            rw short (
              cut_short log fd written fs (omega arith) (omega (arith, ltb→lt _ _ short)) refl refl)
        | inr whole ↦ rw whole (sent log fd written fs (omega arith) (ground arith) refl refl)
      ]

  step-Good :
      (c : Call) (n : ℕ) (p : Place) (m : NetworkManager) (s : State) (log : List Attempt)
      → Progress c log p n
      → Good c log (sender_step os (record { call = c; left = n; place = p }) m s)
  unfolding sender_step test_round clear_round Good
  step-Good c zero testing m s log (fs, e, inl none_yet) = record {
    same_call = refl;
    progress = nothing_sent (ground (arith, e, none_yet)) refl (ground (arith, none_yet));
  }
  step-Good c zero testing m s log (fs, e, inr h) = absurd (omega arith)
  step-Good c (suc n) testing m s log (fs, e, h) =
      get-Good c n log (get_send_socket os m s c.rank) fs e
  step-Good c n (with_socket fd) m s log p = record {
    same_call = refl;
    progress = write-Progress c fd n log (writev s fd (message_frame c.content)).0 p;
  }
  step-Good c zero write_failed m s log (fs, e, h, some_done) = absurd (omega arith)
  step-Good c (suc n) write_failed m s log (fs, e, h, some_done) =
      subst (Fits c (next_round c n)) (sym (append-nil log))
        (next_round-Fits c n log fs some_done (omega (arith, e)))
  step-Good c n (ended o) m s log p = tt

  step-Fits :
      (c : Call) (x : Sender) (m : NetworkManager) (s : State) (log : List Attempt) (r : Stepped os)
      → sender_step os x m s ≡ some r
      → Fits c x log
      → Fits c r.0 (log ++ r.3)
  unfolding Good
  step-Fits c x m s log r e v = subst (Good c log) e (
      subst
        (λ (d : Call).
          Good c log (sender_step os (record { call = d; left = x.left; place = x.place }) m s))
        (sym v.same_call) (step-Good c x.left x.place m s log v.progress))

attempts_of-by_thread :
    (i j : ℕ) (new : List Attempt) → attempts_of i (by_thread j new) ≡ (if i == j then new else [])
attempts_of-by_thread i j [] = ground arith
attempts_of-by_thread i j (a ∷ new) = ground (arith, attempts_of-by_thread i j new)

pub attempts_of-append :
    (i : ℕ) (log later : List (ℕ × Attempt))
    → attempts_of i (log ++ later) ≡ attempts_of i log ++ attempts_of i later
attempts_of-append i [] later = refl
attempts_of-append i ((j, a) ∷ log) later = elim (Bool-cases (i == j)) [
  | inl q ↦ rw q (ap (◌∷◌ a) (attempts_of-append i log later))
  | inr q ↦ rw q (attempts_of-append i log later)
]

module _ (os : Kernel) (m : NetworkManager) (s : os.State) (calls : ℕ → Call) where
  IsFitting : Senders os → Type 0
  IsFitting t = (i : ℕ) → Fits (calls i) (t.senders i) (attempts_of i t.log)

  step-IsFitting :
      (t : Senders os) (i : ℕ) (r : Stepped os)
      → sender_step os (t.senders i) t.manager t.system ≡ some r
      → IsFitting t
      → IsFitting (after_step os t i r)
  unfolding IsFitting after_step Good
  step-IsFitting t i r e v j = elim (Bool-cases (j == i)) [
    | inl q ↦
        rw (attempts_of-append j t.log (by_thread i r.3), attempts_of-by_thread j i r.3, q)
          (subst (λ (x : ℕ). Fits (calls x) r.0 (attempts_of x t.log ++ r.3))
            (sym ((==_iff j i).0 q))
            (step-Fits os (calls i) (t.senders i) t.manager t.system (attempts_of i t.log) r e
              (v i)))
    | inr q ↦
        rw
          (
            attempts_of-append j t.log (by_thread i r.3),
            attempts_of-by_thread j i r.3,
            q,
            append-nil (attempts_of j t.log),
          )
          (v j)
  ]

  Step-IsFitting : {t u : Senders os} → Step os t u → IsFitting t → IsFitting u
  unfolding IsFitting
  Step-IsFitting {t} (sends i r e q) v = subst IsFitting (sym q) (step-IsFitting t i r e v)
  Step-IsFitting {t} (others n u f q) v = subst IsFitting (sym q) v

  -- However calls of `sendMessage` in many threads interleave, and whatever other threads do to the
  -- manager and the system: each call that has ended has done so as one that runs alone, after attempts
  -- of its own, and one that has not ended has made failed attempts only, and not more than its rounds.
  pub Reach-Fits :
      {t : Senders os}
      → Reach os (open_senders os m s calls) t
      → (i : ℕ) → Fits (calls i) (t.senders i) (attempts_of i t.log)
  unfolding open_senders begin IsFitting
  Reach-Fits here i = record { same_call = refl; progress = (tt, omega arith, inl refl) }
  Reach-Fits (next r st) i = Step-IsFitting st (Reach-Fits r) i
