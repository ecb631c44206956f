-- ===== src/Network/Send/Threads/Alone.antt =====
-- src/network/NetworkManager.cpp: a call of `sendMessage` that is not disturbed, as steps.
use npp.Common.{
  Bool-cases, ℕ, zero, suc, ◌+◌, ◌≡◌, refl, sym, ap, subst, ◌∙◌, Option, none, some, List, [], ◌∷◌,
  ◌++◌, append-nil, append_assoc, length, ltb, inl, inr, ◌==◌, ==_iff, if◌then◌else◌,
}
use mathlib.Core.Option.{some-injective}
use npp.Common.Outcome.{Outcome, ok}
use npp.Basic.Exception.{Exception}
use npp.Network.Head.{message_frame}
use npp.Network.Registry.{NetworkManager, clear_send_socket}
use npp.Network.Send.{
  Kernel, rounds, Report, Attempt, no_socket, wrote, Sent, get_send_socket, retry_or_throw,
  after_write, after_socket, send_loop, send_message,
}
use npp.Network.Send.Stream.{Call}
use npp.Network.Send.Threads.{
  testing, with_socket, write_failed, ended, Sender, begin, next_round, Stepped, after_get,
  place_after, test_round, clear_round, sender_step, Senders, by_thread, after_step, open_senders,
  sends, Reach, here, next,
}

by_thread-append :
    (i : ℕ) (a b : List Attempt) → by_thread i (a ++ b) ≡ by_thread i a ++ by_thread i b
by_thread-append i [] b = refl
by_thread-append i (x ∷ a) b = ap (◌∷◌ (i, x)) (by_thread-append i a b)

replace-at : (i : ℕ) (x : Sender) (f : ℕ → Sender) → (if i == i then x else f i) ≡ x
replace-at i x f = rw ((==_iff i i).1 refl) refl

module _ (os : Kernel) where
  open os use {State, writev}

  Reach-trans : {t u v : Senders os} → Reach os t u → Reach os u v → Reach os t v
  Reach-trans r here = r
  Reach-trans r (next q st) = next (Reach-trans r q) st

  -- A run at whose end the call of the thread has ended with this outcome, after these attempts.
  pub record Ends (t : Senders os) (i : ℕ) (r : Sent os) : Type 0 where
    pub last : Senders os
    pub reached : Reach os t last
    pub outcome : (last.senders i).place ≡ ended r.0
    pub same_manager : last.manager ≡ r.1
    pub same_system : last.system ≡ r.2
    pub attempts : last.log ≡ t.log ++ by_thread i r.3

  -- One step of the thread.
  step_once :
      (t : Senders os) (i : ℕ) (x : Sender) (r : Stepped os)
      → t.senders i ≡ x
      → sender_step os x t.manager t.system ≡ some r
      → Reach os t (after_step os t i r)
  step_once t i x r q e =
      next here (sends i r (ap (λ (y : Sender). sender_step os y t.manager t.system) q ∙ e) refl)

  Ends-after :
      (t u : Senders os) (i : ℕ) (new : List Attempt) (o : Outcome Exception (Unit {0}))
      (m : NetworkManager) (s : State) (log : List Attempt)
      → Reach os t u
      → u.log ≡ t.log ++ by_thread i new
      → Ends u i (o, m, s, log)
      → Ends t i (o, m, s, new ++ log)
  Ends-after t u i new o m s log r q e = record {
    last = e.last;
    reached = Reach-trans r e.reached;
    outcome = e.outcome;
    same_manager = e.same_manager;
    same_system = e.same_system;
    attempts =
        e.attempts
        ∙ (ap (λ (l : List (ℕ × Attempt)). l ++ by_thread i log) q
            ∙ (append_assoc t.log (by_thread i new) (by_thread i log)
                ∙ ap (λ (l : List (ℕ × Attempt)). t.log ++ l) (sym (by_thread-append i new log))));
  }

  -- After a failed round, where the rest of the loop is known to be a run.
  round-Ends :
      (t u : Senders os) (i : ℕ) (c : Call) (n : ℕ) (a : Attempt) (r : Sent os)
      → Reach os t u
      → u.senders i ≡ next_round c n
      → u.log ≡ t.log ++ by_thread i (a ∷ [])
      → ((v : Sent os)
          → u.senders i ≡ record { call = c; left = n; place = testing }
          → send_loop os n u.manager u.system c.rank c.content ≡ some v
          → Ends u i v)
      → retry_or_throw os n u.manager u.system a
          (send_loop os n u.manager u.system c.rank c.content)
        ≡ some r
      → Ends t i r
  unfolding retry_or_throw next_round
  round-Ends t u i c zero a r reach q l rest e = subst (Ends t i) (some-injective _ _ e) (record {
    last = u;
    reached = reach;
    outcome = ap (λ (x : Sender). x.place) q;
    same_manager = refl;
    same_system = refl;
    attempts = l;
  })
  round-Ends t u i c (suc n) a r reach q l rest e =
      go (send_loop os (suc n) u.manager u.system c.rank c.content) refl e
    where
      go :
          (b : Option (Sent os))
          → send_loop os (suc n) u.manager u.system c.rank c.content ≡ b
          → retry_or_throw os (suc n) u.manager u.system a b ≡ some r
          → Ends t i r
      go none p e = absurd (cc)
      go (some (o, m, s, log)) p e =
          subst (Ends t i) (some-injective _ _ e)
            (Ends-after t u i (a ∷ []) o m s log reach l (rest (o, m, s, log) q p))

  -- The part of a round after `getSendSocket`, and all the rounds.
  write-Ends :
      (t u : Senders os) (i : ℕ) (c : Call) (n fd : ℕ) (w : Option ℕ × State) (r : Sent os)
      → Reach os t u
      → u.log ≡ t.log
      → u.senders i ≡ record { call = c; left = suc n; place = with_socket fd }
      → writev u.system fd (message_frame c.content) ≡ w
      → ((v : Senders os) (r' : Sent os)
          → v.senders i ≡ record { call = c; left = n; place = testing }
          → send_loop os n v.manager v.system c.rank c.content ≡ some r'
          → Ends v i r')
      → after_write os n c.rank c.content
          (λ m s. send_loop os n m s c.rank c.content)
          u.manager
          fd
          w
        ≡ some r
      → Ends t i r
  unfolding after_write after_step sender_step clear_round place_after
  write-Ends t u i c n fd (none, s) r reach l q w rest e =
      let x : Sender = record { call = c; left = suc n; place = write_failed } in
      let a = wrote fd (message_frame c.content) none in
      let v = after_step os u i (x, u.manager, s, a ∷ [], []) in
      let y : Stepped os = (next_round c n, clear_send_socket u.manager c.rank, s, [], []) in
      round-Ends t (after_step os v i y) i c n a r
        (Reach-trans reach (
          Reach-trans (step_once u i _ (x, u.manager, s, a ∷ [], []) q (rw w refl))
            (step_once v i x y (replace-at i x u.senders) refl)))
        (replace-at i (next_round c n) v.senders)
        (append-nil v.log ∙ ap (λ (l : List (ℕ × Attempt)). l ++ (i, a) ∷ []) l)
        (rest (after_step os v i y)) e
  write-Ends t u i c n fd (some written, s) r reach l q w rest e =
      let a = wrote fd (message_frame c.content) (some written) in
      let x : Sender = record { call = c; left = suc n; place = place_after c (some written) } in
      let v = after_step os u i (x, u.manager, s, a ∷ [], []) in
      let reached =
        Reach-trans reach (step_once u i _ (x, u.manager, s, a ∷ [], []) q (rw w refl)) in
      let here_place = ap (λ (y : Sender). y.place) (replace-at i x u.senders) in
      let attempts = ap (λ (l : List (ℕ × Attempt)). l ++ (i, a) ∷ []) l in
      elim (Bool-cases (ltb written (8 + length c.content + 4))) [
        | inl short ↦ subst (Ends t i) (some-injective _ _ (rw short at e)) (record {
          last = v;
          reached = reached;
          outcome = here_place ∙ rw short refl;
          same_manager = refl;
          same_system = refl;
          attempts = attempts;
        })
        | inr whole ↦ subst (Ends t i) (some-injective _ _ (rw whole at e)) (record {
          last = v;
          reached = reached;
          outcome = here_place ∙ rw whole refl;
          same_manager = refl;
          same_system = refl;
          attempts = attempts;
        })
      ]

  socket-Ends :
      (t : Senders os) (i : ℕ) (c : Call) (n : ℕ)
      (b : Option (Option ℕ × NetworkManager × State × List Report)) (r : Sent os)
      → t.senders i ≡ record { call = c; left = suc n; place = testing }
      → get_send_socket os t.manager t.system c.rank ≡ b
      → ((v : Senders os) (r' : Sent os)
          → v.senders i ≡ record { call = c; left = n; place = testing }
          → send_loop os n v.manager v.system c.rank c.content ≡ some r'
          → Ends v i r')
      → after_socket os n c.rank c.content (λ m s. send_loop os n m s c.rank c.content) b ≡ some r
      → Ends t i r
  unfolding after_socket sender_step test_round after_get after_step
  socket-Ends t i c n none r q g rest e = absurd (cc)
  socket-Ends t i c n (some (none, m, s, rs)) r q g rest e =
      let x : Stepped os = (next_round c n, m, s, no_socket ∷ [], rs) in
      round-Ends t (after_step os t i x) i c n no_socket r (step_once t i _ x q (rw g refl))
        (replace-at i (next_round c n) t.senders) refl (rest (after_step os t i x)) e
  socket-Ends t i c n (some (some fd, m, s, rs)) r q g rest e =
      let y : Sender = record { call = c; left = suc n; place = with_socket fd } in
      let x : Stepped os = (y, m, s, [], rs) in
      write-Ends t (after_step os t i x) i c n fd (writev s fd (message_frame c.content)) r
        (step_once t i _ x q (rw g refl)) (append-nil t.log) (replace-at i y t.senders) refl rest e

  loop-Ends :
      (n : ℕ) (t : Senders os) (i : ℕ) (c : Call) (r : Sent os)
      → t.senders i ≡ record { call = c; left = n; place = testing }
      → send_loop os n t.manager t.system c.rank c.content ≡ some r
      → Ends t i r
  unfolding send_loop sender_step test_round after_step
  loop-Ends zero t i c r q e =
      let y : Sender = record { call = c; left = zero; place = ended (ok tt) } in
      let x : Stepped os = (y, t.manager, t.system, [], []) in
      subst (Ends t i) (some-injective _ _ e) (record {
        last = after_step os t i x;
        reached = step_once t i _ x q refl;
        outcome = ap (λ (y : Sender). y.place) (replace-at i y t.senders);
        same_manager = refl;
        same_system = refl;
        attempts = refl;
      })
  loop-Ends (suc n) t i c r q e =
      socket-Ends t i c n (get_send_socket os t.manager t.system c.rank) r q refl
        (λ v r'. loop-Ends n v i c r') e

  -- A call of `sendMessage` that runs without others is such a run of its thread: it ends with the same
  -- outcome, manager and state of the system after the same attempts.
  pub send_message-Ends :
      (m : NetworkManager) (s : State) (calls : ℕ → Call) (i : ℕ) (r : Sent os)
      → send_message os m s (calls i).rank (calls i).content (calls i).retry ≡ some r
      → Ends (open_senders os m s calls) i r
  unfolding send_message open_senders begin
  send_message-Ends m s calls i r e =
      loop-Ends (rounds (calls i).retry) (open_senders os m s calls) i (calls i) r refl e
