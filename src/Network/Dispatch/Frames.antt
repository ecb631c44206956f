-- ===== src/Network/Dispatch/Frames.antt =====
-- src/network/NetworkManager.cpp: the frames of the sending side, as the receiving side handles them.
use npp.Common.{
  ℕ, ◌^◌, ◌≤◌, ◌<◌, ◌≡◌, refl, sym, ap, subst, ◌∙◌, false, Option, none, some, List, [], ◌++◌,
  length, length-append, append_assoc, append-nil, arith,
}
use npp.Basic.Bytes.{Cell}
use npp.Common.Outcome.{ok, ◌>>=◌, Returns, Returns-bind}
use npp.Network.Head.{
  MessageHead, encode_head, decode_head, message_head, report_head, message_frame, report_frame,
  bytes32, fix_verify_code, htons,
}
use npp.Network.Head.RoundTrip.{Fits, decode-encode_head}
use npp.Network.Connection.{Connection, IsReliable, read_word}
use npp.Network.Receive.{read_verify, read_normal_message}
use npp.Network.Receive.Fill.{written, Received}
use npp.Network.Receive.Whole.{
  read_normal_message-whole, read_verify-whole, next_read, nothing_left,
}
use npp.Network.Registry.{NetworkManager, record_report}
use npp.Network.Dispatch.{Handled, quiet, received, read_rank_report, by_type, handle_event}

report-Fits : (rank port : ℕ) → rank < 2 ^ 32 → port < 65536 → Fits (report_head rank port)
unfolding report_head
report-Fits rank port r p = record {
  compress_bit = omega arith;
  verify_bit = omega arith;
  res1_bits = omega arith;
  type_bits = omega arith;
  res2_bits = omega arith;
  reserved_bits = omega arith;
  size_bits = r;
}

message-Fits : (content : List ℕ) → Fits (message_head content)
unfolding message_head
message-Fits content = record {
  compress_bit = omega arith;
  verify_bit = omega arith;
  res1_bits = omega arith;
  type_bits = omega arith;
  res2_bits = omega arith;
  reserved_bits = omega arith;
  size_bits = omega arith;
}

length-encode_head : (h : MessageHead) → length (encode_head h) ≡ 8
unfolding encode_head
length-encode_head h = refl

module _ (k : Connection) where
  open k use {State, incoming}

  -- The message is handed on whole, the socket stays open and the table as it is, and `rest` is what
  -- there is still to read.
  pub record Delivered (m : NetworkManager) (content rest : List ℕ) (r : Handled k) : Type 0 where
    pub whole : r.message ≡ some (written content)
    pub stays_open : r.is_closed ≡ false
    pub same_manager : r.manager ≡ m
    pub left : incoming r.connection ≡ rest

  received-Delivered :
      (m : NetworkManager) (content rest : List ℕ) (r : Option Cell × State)
      → Received k content rest r
      → Delivered m content rest (received k m r)
  received-Delivered m content rest (some c, s) (e, l) = record {
    whole = e;
    stays_open = refl;
    same_manager = refl;
    left = l;
  }
  received-Delivered m content rest (none, s) (e, l) = cc

module _ (k : Connection) (reliable : IsReliable k) where
  open k use {State, incoming, read}

  -- A head that is there is read whole.
  read_head :
      (s : State) (h : MessageHead) (rest : List ℕ)
      → incoming s ≡ encode_head h ++ rest
      → (s' : State) × (read s 8 ≡ (some (encode_head h), s')) × (incoming s' ≡ rest)
  read_head s h rest e =
      let l = length-encode_head h in
      let (bs, s', t, re, p, q, came) =
        next_read k reliable s (encode_head h) rest 8 (omega arith) (omega arith) e in
      let eight : length bs ≡ 8 = read_word k reliable s s' 8 bs (omega arith) enough re in
      let ends =
        nothing_left (encode_head h) bs t p (omega (arith, ap length p, length-append bs t)) in
      (s', re ∙ ap (λ (x : List ℕ). (some x, s')) ends.0, q ∙ ap (λ (x : List ℕ). x ++ rest) ends.1)
    where
      enough : 8 ≤ length (incoming s)
      enough = omega (arith, ap length e, length-encode_head h, length-append (encode_head h) rest)

  handle-head :
      (m : NetworkManager) (s s' : State) (h : MessageHead) (ip connfd : ℕ)
      → Fits h
      → read s 8 ≡ (some (encode_head h), s')
      → handle_event k m s ip connfd ≡ by_type k m s' h ip connfd
  unfolding handle_event
  handle-head m s s' h ip connfd f r =
      let d : decode_head (encode_head h) ≡ h =
        ap decode_head (sym (append-nil (encode_head h))) ∙ decode-encode_head h [] f in
      ap
        (λ (x : Option (List ℕ) × State). elim x.0 [
          | none ↦ ok (received k m (none, x.1))
          | some bs ↦ by_type k m x.1 (decode_head bs) ip connfd
        ])
        r
      ∙ ap (λ (g : MessageHead). by_type k m s' g ip connfd) d

  by_type-report :
      (m : NetworkManager) (s s' : State) (rank port ip connfd : ℕ)
      → read_verify k s ≡ (some fix_verify_code, s')
      → by_type k m s (report_head rank port) ip connfd
        ≡ ok (quiet k (record_report m rank ip (htons port) connfd) s')
  unfolding by_type read_rank_report report_head
  by_type-report m s s' rank port ip connfd w = rw w refl

  by_type-message :
      (m : NetworkManager) (s : State) (content : List ℕ) (ip connfd : ℕ)
      → by_type k m s (message_head content) ip connfd
        ≡ read_normal_message k s (message_head content) >>= (λ r. ok (received k m r))
  unfolding by_type message_head
  by_type-message m s content ip connfd = refl

  -- A rank report that a peer has sent is read to its end, and what `record_report` does to the table
  -- is all that it does.
  pub handle-report_frame :
      (m : NetworkManager) (s : State) (rank port ip connfd : ℕ) (rest : List ℕ)
      → rank < 2 ^ 32
      → port < 65536
      → incoming s ≡ report_frame rank port ++ rest
      → (s' : State) × (handle_event k m s ip connfd
          ≡ ok (quiet k (record_report m rank ip (htons port) connfd) s'))
        × (incoming s' ≡ rest)
  unfolding report_frame
  handle-report_frame m s rank port ip connfd rest r p e =
      let h = report_head rank port in
      let (s1, got, left) =
        read_head s h (bytes32 fix_verify_code ++ rest)
          (e ∙ append_assoc (encode_head h) (bytes32 fix_verify_code) rest) in
      let (s2, word, ends) = read_verify-whole k reliable s1 rest left in
      (
        s2,
        handle-head m s s1 h ip connfd (report-Fits rank port r p) got
            ∙ by_type-report m s1 s2 rank port ip connfd word,
        ends,
      )

  -- A non-empty message that a peer has sent is handed on whole, and its frame is read to the end,
  -- however `read` cuts the content up; the socket stays open and the table as it is.
  pub handle-message_frame :
      (m : NetworkManager) (s : State) (content : List ℕ) (ip connfd : ℕ) (rest : List ℕ)
      → 0 < length content
      → length content < 2 ^ 32
      → incoming s ≡ message_frame content ++ rest
      → Returns (Delivered k m content rest) (handle_event k m s ip connfd)
  unfolding message_frame
  handle-message_frame m s content ip connfd rest pos lim e =
      let h = message_head content in
      let (s1, got, left) = read_head s h (content ++ (bytes32 fix_verify_code ++ rest)) (
        e
        ∙ append_assoc (encode_head h) (content ++ bytes32 fix_verify_code) rest
        ∙ ap (◌++◌ (encode_head h)) (append_assoc content (bytes32 fix_verify_code) rest)) in
      subst (Returns (Delivered k m content rest))
        (sym (
          handle-head m s s1 h ip connfd (message-Fits content) got
          ∙ by_type-message m s1 content ip connfd))
        (Returns-bind (Received k content rest) _ _ (λ r. ok (received k m r))
          (read_normal_message-whole k reliable s1 content rest pos lim left)
          (received-Delivered k m content rest))
