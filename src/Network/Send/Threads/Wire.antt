-- ===== src/Network/Send/Threads/Wire.antt =====
-- src/network/NetworkManager.cpp: the rank reports among what calls of `sendMessage` write.
use npp.Common.{
  Bool-cases, ℕ, zero, suc, ◌≡◌, refl, ap, ap₂, subst, ◌∙◌, Option, none, some, List, [], ◌∷◌, ◌++◌,
  map, All, inl, inr,
}
use npp.Network.Head.{report_frame}
use npp.Network.Registry.{NetworkManager, Target, find, set_sock, clear_send_socket}
use npp.Network.Send.{
  Kernel, Report, Attempt, send_rank_report, report_to, new_socket, get_send_socket,
}
use npp.Network.Send.Stream.{Call}
use npp.Network.Send.Threads.{
  Place, testing, with_socket, write_failed, ended, Stepped, after_get, test_round, clear_round,
  sender_step, by_thread, Write, reported, attempted, attempted_by, IsFit, Senders, after_step,
  open_senders, sends, others, Reach, here, next,
}

-- A report is the frame of the rank and the port of the manager that sends it.
abbrev pub IsReport : Report → Type 0
IsReport r = IsFit r.manager × (r.bytes ≡ report_frame r.manager.my_rank r.manager.listen_port)

abbrev pub IsWrite : Write → Type 0
IsWrite (reported r) = IsReport r
IsWrite (attempted i a) = Unit {0}

-- The attempts with their threads.
abbrev pub attempts_in : List Write → List (ℕ × Attempt)
attempts_in [] = []
attempts_in (reported r ∷ ws) = attempts_in ws
attempts_in (attempted i a ∷ ws) = (i, a) ∷ attempts_in ws

All-append {ℓ κ} :
    {A : Type ℓ} (P : A → Type κ) (xs ys : List A) → All P xs → All P ys → All P (xs ++ ys)
All-append P [] ys h k = k
All-append P (x ∷ xs) ys (h, hs) k = (h, All-append P xs ys hs k)

reports-IsWrite : (rs : List Report) → All IsReport rs → All IsWrite (map reported rs)
reports-IsWrite [] h = tt
reports-IsWrite (r ∷ rs) (h, hs) = (h, reports-IsWrite rs hs)

attempted-IsWrite : (i : ℕ) (new : List Attempt) → All IsWrite (attempted_by i new)
attempted-IsWrite i [] = tt
attempted-IsWrite i (a ∷ new) = (tt, attempted-IsWrite i new)

attempts_in-append :
    (ws vs : List Write) → attempts_in (ws ++ vs) ≡ attempts_in ws ++ attempts_in vs
attempts_in-append [] vs = refl
attempts_in-append (reported r ∷ ws) vs = attempts_in-append ws vs
attempts_in-append (attempted i a ∷ ws) vs = ap (◌∷◌ (i, a)) (attempts_in-append ws vs)

attempts_in-step :
    (rs : List Report) (i : ℕ) (new : List Attempt)
    → attempts_in (map reported rs ++ attempted_by i new) ≡ by_thread i new
attempts_in-step [] i [] = refl
attempts_in-step [] i (a ∷ new) = ap (◌∷◌ (i, a)) (attempts_in-step [] i new)
attempts_in-step (r ∷ rs) i new = attempts_in-step rs i new

module _ (os : Kernel) where
  open os use {State, socket, connect}

  Reports : Option (Option ℕ × NetworkManager × State × List Report) → Type 0
  Reports none = Unit {0}
  Reports (some (fd?, m, s, rs)) = IsFit m × All IsReport rs

  report-Reports :
      (m : NetworkManager) (s : State) (rank fd : ℕ) → IsFit m → Reports (report_to os m s rank fd)
  unfolding Reports report_to set_sock send_rank_report
  report-Reports m s rank fd f = elim (Bool-cases m.running) [
    | inl on ↦ elim (Bool-cases (send_rank_report os m s fd).0) [
      | inl whole ↦ rw (on, whole) (f, ((f, refl), tt))
      | inr short ↦ rw (on, short) (f, ((f, refl), tt))
    ]
    | inr off ↦ rw off tt
  ]

  new-Reports :
      (m : NetworkManager) (s : State) (rank : ℕ) (t : Target)
      → IsFit m
      → Reports (new_socket os m s rank t)
  unfolding new_socket Reports
  new-Reports m s rank t f = go (socket s).0 refl
    where
      go : (o : Option ℕ) → (socket s).0 ≡ o → Reports (new_socket os m s rank t)
      go none q = rw (q, Reports) (f, tt)
      go (some fd) q = elim (Bool-cases (connect (socket s).1 fd t.ip t.port).0) [
        | inl up ↦ rw (q, up, Reports) (report-Reports m _ rank fd f)
        | inr down ↦ rw (q, down, Reports) (f, tt)
      ]

  get-Reports :
      (m : NetworkManager) (s : State) (rank : ℕ) → IsFit m → Reports (get_send_socket os m s rank)
  unfolding get_send_socket Reports
  get-Reports m s rank f = go (find rank m.socks) refl
    where
      go : (o : Option Target) → find rank m.socks ≡ o → Reports (get_send_socket os m s rank)
      go none q = rw (q, Reports) (f, tt)
      go (some t) q = open_socket t.sock refl
        where
          open_socket : (o : Option ℕ) → t.sock ≡ o → Reports (get_send_socket os m s rank)
          open_socket none h = rw (q, h, Reports) (new-Reports m s rank t f)
          open_socket (some zero) h = rw (q, h, Reports) (new-Reports m s rank t f)
          open_socket (some (suc n)) h = rw (q, h, Reports) (f, tt)

  StepReports : Option (Stepped os) → Type 0
  StepReports none = Unit {0}
  StepReports (some (x, m, s, new, rs)) = IsFit m × All IsReport rs

  after_get-StepReports :
      (c : Call) (n : ℕ) (r : Option (Option ℕ × NetworkManager × State × List Report))
      → Reports r
      → StepReports (after_get os c n r)
  unfolding after_get Reports StepReports
  after_get-StepReports c n none h = tt
  after_get-StepReports c n (some (none, m, s, rs)) h = h
  after_get-StepReports c n (some (some fd, m, s, rs)) h = h

  step-StepReports :
      (c : Call) (n : ℕ) (p : Place) (m : NetworkManager) (s : State)
      → IsFit m
      → StepReports (sender_step os (record { call = c; left = n; place = p }) m s)
  unfolding sender_step test_round clear_round StepReports clear_send_socket
  step-StepReports c zero testing m s f = (f, tt)
  step-StepReports c (suc n) testing m s f =
      after_get-StepReports c n (get_send_socket os m s c.rank) (get-Reports m s c.rank f)
  step-StepReports c n (with_socket fd) m s f = (f, tt)
  step-StepReports c zero write_failed m s f = tt
  step-StepReports c (suc n) write_failed m s f = (f, tt)
  step-StepReports c n (ended o) m s f = tt

  pub record IsWired (t : Senders os) : Type 0 where
    pub fit : IsFit t.manager
    pub written : All IsWrite t.wire
    pub in_step : attempts_in t.wire ≡ t.log

  after-IsWired :
      (t : Senders os) (i : ℕ) (r : Stepped os)
      → StepReports (some r)
      → IsWired t
      → IsWired (after_step os t i r)
  unfolding after_step StepReports
  after-IsWired t i (x, m, s, new, rs) (f, h) v = record {
    fit = f;
    written =
        All-append IsWrite t.wire _ v.written
          (All-append IsWrite (map reported rs) _ (reports-IsWrite rs h) (attempted-IsWrite i new));
    in_step =
        attempts_in-append t.wire (map reported rs ++ attempted_by i new)
        ∙ ap₂ ◌++◌ v.in_step (attempts_in-step rs i new);
  }

  pub Reach-IsWired :
      (m : NetworkManager) (s : State) (calls : ℕ → Call) {t : Senders os}
      → IsFit m
      → Reach os (open_senders os m s calls) t
      → IsWired t
  unfolding open_senders
  Reach-IsWired m s calls f here = record { fit = f; written = tt; in_step = refl }
  Reach-IsWired m s calls f (next {u} r (sends i x e q)) =
      let v = Reach-IsWired m s calls f r in
      let y = u.senders i in
      rw q (
        after-IsWired u i x
          (subst StepReports e (step-StepReports y.call y.left y.place u.manager u.system v.fit)) v)
  Reach-IsWired m s calls f (next r (others n w g q)) =
      let v = Reach-IsWired m s calls f r in
      rw q (record { fit = g; written = v.written; in_step = v.in_step })
