-- ===== src/Network/Receive/Whole.antt =====
-- src/network/NetworkManager.cpp: a message that was sent is received, however `read` cuts it up.
use npp.Common.{
  lt→ltb, subst, ℕ, zero, suc, ◌+◌, ◌%◌, ◌^◌, ◌≤◌, ◌<◌, ◌≡◌, refl, sym, ap, ◌∙◌, Option, none, some,
  List, [], ◌∷◌, ◌++◌, min, length, arith, length-append, append_split, append_assoc, append-nil,
}
use npp.Common.Outcome.{ok, Returns, Returns-of_eq, Returns-bind}
use npp.Basic.Bytes.{Cell}
use npp.Network.Head.{message_head, bytes32, fix_verify_code}
use npp.Network.Connection.{Connection, IsReliable, read_word}
use npp.Network.Receive.{
  finish_message, receive_loop, read_verify, read_normal_message, receive_buff_size,
}
use npp.Network.Receive.Fill.{written, partial, Received, pass}

pub nothing_left : (l bs t : List ℕ) → l ≡ bs ++ t → length t ≡ 0 → (bs ≡ l) × (t ≡ [])
nothing_left l bs [] p h = (sym (p ∙ append-nil bs), refl)
nothing_left l bs (x ∷ t) p h = absurd (omega arith)

module _ (k : Connection) (reliable : IsReliable k) where
  open k use {State, incoming, read}

  pub next_read :
      (s : State) (todo rest : List ℕ) (n : ℕ)
      → 0 < n
      → n ≤ length todo
      → incoming s ≡ todo ++ rest
      → (bs : List ℕ) × (s' : State) × (t : List ℕ) × (read s n ≡ (some bs, s'))
        × (todo ≡ bs ++ t)
        × (incoming s' ≡ t ++ rest)
        × (0 < length bs)
  next_read s todo rest n pos le e =
      let (bs, s', re) = reliable.progress s n pos there in
      let (some_came, fits, sp) = k.read_some s s' n bs re in
      let (t, p, q) = append_split todo rest bs (incoming s') (sym e ∙ sp) (omega arith) in
      (bs, s', t, re, p, q, some_came)
    where
      there : 0 < length (incoming s)
      there = omega (arith, ap length e, length-append todo rest)

  loop-whole :
      (fuel : ℕ) (s : State) (done todo rest : List ℕ) (size remain all_read : ℕ)
      → remain ≡ length todo
      → size ≡ length done + remain
      → all_read ≡ length done
      → remain ≤ fuel
      → size < 2 ^ 32
      → incoming s ≡ todo ++ rest
      → Returns
          (Received k (done ++ todo) rest)
          (receive_loop k fuel size s remain all_read (partial done remain))
  unfolding receive_loop
  loop-whole fuel s done [] rest size zero all_read er es ea f h e =
      (ap some (append-nil (written done) ∙ ap written (sym (append-nil done))), e)
  loop-whole fuel s done (b ∷ todo) rest size zero all_read er es ea f h e = absurd (omega arith)
  loop-whole zero s done todo rest size (suc remain) all_read er es ea f h e = absurd (omega arith)
  loop-whole (suc fuel) s done todo rest size (suc remain) all_read er es ea f h e =
      let (bs, s', t, re, p, q, came) =
        next_read s todo rest (min receive_buff_size (suc remain)) (omega arith) (omega arith) e in
      let bytes : suc remain ≡ length bs + length t =
        omega (arith, ap length p, length-append bs t) in
      let after : length (done ++ bs) ≡ length done + length bs = length-append done bs in
      subst (Returns (Received k (done ++ todo) rest))
        (sym (pass k fuel s s' done bs size remain all_read (length t) re es ea bytes h))
        (subst
          (λ (l : List ℕ). Returns (Received k l rest) (
            receive_loop k fuel size s' (length t) (length (done ++ bs))
              (partial (done ++ bs) (length t))))
          (append_assoc done bs t ∙ ap (◌++◌ done) (sym p))
          (loop-whole fuel s' (done ++ bs) t rest size (length t) (length (done ++ bs)) refl
            (omega arith) refl (omega arith) h q))

  pub read_verify-whole :
      (s : State) (rest : List ℕ)
      → incoming s ≡ bytes32 fix_verify_code ++ rest
      → (s' : State) × (read_verify k s ≡ (some fix_verify_code, s')) × (incoming s' ≡ rest)
  unfolding read_verify
  read_verify-whole s rest e =
      let (bs, s', t, re, p, q, came) =
        next_read s (bytes32 fix_verify_code) rest 4 (omega arith) (omega arith) e in
      let four : length bs ≡ 4 = read_word k reliable s s' 4 bs (omega arith) enough re in
      let ends =
        nothing_left (bytes32 fix_verify_code) bs t p
          (omega (arith, ap length p, length-append bs t)) in
      (s', ground (arith, re, ends.0), q ∙ ap (λ (l : List ℕ). l ++ rest) ends.1)
    where
      enough : 4 ≤ length (incoming s)
      enough = omega (arith, ap length e)

  finish-eq :
      (c : Cell) (s s' : State)
      → read_verify k s ≡ (some fix_verify_code, s')
      → finish_message k (some c, s) ≡ ok (some c, s')
  unfolding finish_message
  finish-eq c s s' r = ground (arith, r)

  finish-whole :
      (content rest : List ℕ) (p : Option Cell × State)
      → Received k content (bytes32 fix_verify_code ++ rest) p
      → Returns (Received k content rest) (finish_message k p)
  unfolding finish_message
  finish-whole content rest (none, s) (e, q) = cc
  finish-whole content rest (some c, s) (e, q) =
      let (s', r, l) = read_verify-whole s rest q in
      Returns-of_eq (Received k content rest) (finish-eq c s s' r) (e, l)

  -- A non-empty message that the peer has sent as `sendMessage` frames it, after its head has been
  -- read: whatever pieces `read` gives it in, the handler returns the whole message, in order, and has
  -- read exactly up to the end of the frame.
  pub read_normal_message-whole :
      (s : State) (content rest : List ℕ)
      → 0 < length content
      → length content < 2 ^ 32
      → incoming s ≡ content ++ (bytes32 fix_verify_code ++ rest)
      → Returns (Received k content rest) (read_normal_message k s (message_head content))
  unfolding read_normal_message message_head
  read_normal_message-whole s content rest pos lim e =
      rw (fits, lt→ltb 0 (length content) pos)
        (Returns-bind (Received k content (bytes32 fix_verify_code ++ rest))
          (Received k content rest) _ (finish_message k)
          (loop-whole (length content) s [] content (bytes32 fix_verify_code ++ rest)
            (length content) (length content) 0 refl (omega arith) refl (omega arith) lim e)
          (finish-whole content rest))
    where
      fits : length content % 2 ^ 32 ≡ length content
      fits = omega arith
