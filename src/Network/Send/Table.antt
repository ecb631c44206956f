-- ===== src/Network/Send/Table.antt =====
-- src/network/NetworkManager.cpp: what `registerTarget` and `sendMessage` change of the manager.
use npp.Common.{
  Bool-cases, ℕ, zero, suc, ◌+◌, ◌≡◌, refl, ap, subst, ◌∙◌, Option, none, some, List, inl, inr,
  length, ltb,
}
use npp.Network.Registry.{
  NetworkManager, Target, find, set_sock, clear_send_socket, register_target,
}
use npp.Network.Send.{
  Kernel, Report, ℤ, rounds, Attempt, Sent, report_to, new_socket, get_send_socket,
  send_rank_report, retry_or_throw, after_write, after_socket, send_loop, send_message,
}

-- Only the table of targets changes.
abbrev pub OnlySocks : NetworkManager → NetworkManager → Type 0
OnlySocks m m' = m' ≡ record m { socks = m'.socks }

OnlySocks-trans : (m m' m'' : NetworkManager) → OnlySocks m m' → OnlySocks m' m'' → OnlySocks m m''
OnlySocks-trans m m' m'' p q = q ∙ ap (λ (x : NetworkManager). record x { socks = m''.socks }) p

pub register_target-OnlySocks :
    (m : NetworkManager) (rank ip port : ℕ) → OnlySocks m (register_target m rank ip port)
unfolding register_target
register_target-OnlySocks m rank ip port = go (find rank m.socks) refl
  where
    go : (o : Option Target) → find rank m.socks ≡ o → OnlySocks m (register_target m rank ip port)
    go none q = rw (q, register_target) refl
    go (some t) q = rw (q, register_target) refl

module _ (k : Kernel) where
  open k use {State, socket, connect}

  Found : NetworkManager → Option (Option ℕ × NetworkManager × State × List Report) → Type 0
  Found m none = Unit {0}
  Found m (some (fd?, m', s, rs)) = OnlySocks m m'

  abbrev Kept : NetworkManager → Option (Sent k) → Type 0
  Kept m none = Unit {0}
  Kept m (some (o, m', s, log)) = OnlySocks m m'

  report-Found : (m : NetworkManager) (s : State) (rank fd : ℕ) → Found m (report_to k m s rank fd)
  unfolding Found report_to set_sock
  report-Found m s rank fd = elim (Bool-cases m.running) [
    | inl on ↦ elim (Bool-cases (send_rank_report k m s fd).0) [
      | inl whole ↦ rw (on, whole) refl
      | inr short ↦ rw (on, short) refl
    ]
    | inr off ↦ rw off tt
  ]

  new-Found :
      (m : NetworkManager) (s : State) (rank : ℕ) (t : Target) → Found m (new_socket k m s rank t)
  unfolding new_socket Found
  new-Found m s rank t = go (socket s).0 refl
    where
      go : (o : Option ℕ) → (socket s).0 ≡ o → Found m (new_socket k m s rank t)
      go none q = rw (q, Found) refl
      go (some fd) q = elim (Bool-cases (connect (socket s).1 fd t.ip t.port).0) [
        | inl up ↦ rw (q, up, Found) (report-Found m _ rank fd)
        | inr down ↦ rw (q, down, Found) refl
      ]

  get-Found : (m : NetworkManager) (s : State) (rank : ℕ) → Found m (get_send_socket k m s rank)
  unfolding get_send_socket Found
  get-Found m s rank = go (find rank m.socks) refl
    where
      go : (o : Option Target) → find rank m.socks ≡ o → Found m (get_send_socket k m s rank)
      go none q = rw (q, Found) refl
      go (some t) q = open_socket t.sock refl
        where
          open_socket : (o : Option ℕ) → t.sock ≡ o → Found m (get_send_socket k m s rank)
          open_socket none h = rw (q, h, Found) (new-Found m s rank t)
          open_socket (some zero) h = rw (q, h, Found) (new-Found m s rank t)
          open_socket (some (suc n)) h = rw (q, h, Found) refl

  retry-Kept :
      (n : ℕ) (m m' : NetworkManager) (s : State) (a : Attempt) (rest : Option (Sent k))
      → OnlySocks m m'
      → Kept m' rest
      → Kept m (retry_or_throw k n m' s a rest)
  unfolding retry_or_throw
  retry-Kept zero m m' s a rest p h = p
  retry-Kept (suc n) m m' s a none p h = tt
  retry-Kept (suc n) m m' s a (some (o, m'', s', log)) p h = OnlySocks-trans m m' m'' p h

  module _ (n rank : ℕ) (content : List ℕ) (again : NetworkManager → State → Option (Sent k))
      (kept : (m : NetworkManager) (s : State) → Kept m (again m s)) where
    write-Kept :
        (m m' : NetworkManager) (fd : ℕ) (r : Option ℕ × State)
        → OnlySocks m m'
        → Kept m (after_write k n rank content again m' fd r)
    unfolding after_write clear_send_socket
    write-Kept m m' fd (none, s) p =
        retry-Kept n m (clear_send_socket m' rank) s _ _ (OnlySocks-trans m m' _ p refl) (kept _ s)
    write-Kept m m' fd (some written, s) p =
        elim (Bool-cases (ltb written (8 + length content + 4))) [
          | inl short ↦ rw short p
          | inr whole ↦ rw whole p
        ]

    socket-Kept :
        (m : NetworkManager) (r : Option (Option ℕ × NetworkManager × State × List Report))
        → Found m r
        → Kept m (after_socket k n rank content again r)
    unfolding after_socket Found
    socket-Kept m none p = tt
    socket-Kept m (some (none, m', s, rs)) p = retry-Kept n m m' s _ _ p (kept m' s)
    socket-Kept m (some (some fd, m', s, rs)) p = write-Kept m m' fd _ p

  loop-Kept :
      (n : ℕ) (m : NetworkManager) (s : State) (rank : ℕ) (content : List ℕ)
      → Kept m (send_loop k n m s rank content)
  unfolding send_loop
  loop-Kept zero m s rank content = refl
  loop-Kept (suc n) m s rank content =
      socket-Kept n rank content _ (λ m' s'. loop-Kept n m' s' rank content) m
        (get_send_socket k m s rank) (get-Found m s rank)

  -- A call of `sendMessage` that ends, well or not, has changed nothing of the manager but its table.
  pub send_message-OnlySocks :
      (m : NetworkManager) (s : State) (rank : ℕ) (content : List ℕ) (retry : ℤ) (r : Sent k)
      → send_message k m s rank content retry ≡ some r
      → OnlySocks m r.1
  unfolding send_message
  send_message-OnlySocks m s rank content retry r e =
      subst (Kept m) e (loop-Kept (rounds retry) m s rank content)
