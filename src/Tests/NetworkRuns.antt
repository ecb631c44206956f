-- ===== src/Tests/NetworkRuns.antt =====
-- Runs of src/network/NetworkManager.cpp.
use npp.Common.{
  ℕ, suc, ◌+◌, ◌*◌, ◌/◌, ◌%◌, ◌<◌, ◌≡◌, refl, true, none, some, List, [], ◌∷◌, ◌++◌, length,
  replicate, All, ◌==◌, if◌then◌else◌, arith,
}
use npp.Common.Outcome.{abort, Returns}
use npp.Network.Head.{
  MessageHead, zero_head, encode_head, decode_head, bytes32, fix_verify_code, message_head,
}
use npp.Network.Head.RoundTrip.{Fits, decode-encode_head, encode_head_layout}
use npp.Network.Connection.Chunks.{chunks, chunks-IsReliable}
use npp.Network.Receive.{receive_loop, read_normal_message}
use npp.Network.Receive.Fill.{Received}
use npp.Network.Receive.Whole.{read_normal_message-whole}
use npp.Network.Receive.Safety.{Filled, receive-Filled, read_normal_message_empty}
use npp.Network.Registry.{
  NetworkManager, create, find, register_target, clear_send_socket, set_sock, record_report,
}
use npp.Network.Registry.Table.{IsKeyed, registered, find-register_target, updates-IsKeyed}
use npp.Network.Send.{Kernel, pos, send_message}
use npp.Network.Send.Attempts.{Judged, send_message-Verdict}

abbrev head : MessageHead
head = record zero_head { type = 1; size = 7; reserved = 258 }

head-Fits : Fits head
head-Fits = omega arith

decode-encode_head_example : decode_head (encode_head head ++ 99 ∷ []) ≡ head
decode-encode_head_example = decode-encode_head head (99 ∷ []) head-Fits

encode_head_layout_example :
    All (λ (b : ℕ). b < 256) (encode_head head)
    × ((0 + 1 * 256) % 2 ≡ 0)
    × (((0 + 1 * 256) / 2) % 2 ≡ 0)
    × (((0 + 1 * 256) / 256) % 8 ≡ 1)
    × (2 + 1 * 256 ≡ 258)
    × (7 + 0 * 256 + 0 * 65536 + 0 * 16777216 ≡ 7)
unfolding encode_head
encode_head_layout_example = encode_head_layout head 0 1 2 1 7 0 0 0 head-Fits refl

abbrev content : List ℕ
content = 104 ∷ 101 ∷ 108 ∷ 108 ∷ 111 ∷ 44 ∷ 32 ∷ 119 ∷ 111 ∷ 114 ∷ 108 ∷ 100 ∷ []

abbrev sent : List ℕ
sent = content ++ (bytes32 fix_verify_code ++ 0 ∷ 0 ∷ [])

-- At most eight bytes at a time.
read_normal_message-whole_example :
    Returns
      (Received (chunks 7) content (0 ∷ 0 ∷ []))
      (read_normal_message (chunks 7) sent (message_head content))
read_normal_message-whole_example =
    read_normal_message-whole (chunks 7) (chunks-IsReliable 7 (omega arith)) sent content
      (0 ∷ 0 ∷ []) (omega arith) (omega arith) refl

receive-Filled_example :
    Returns (Filled (chunks 2) sent [] 5) (receive_loop (chunks 2) 5 5 sent 5 0 (replicate 5 none))
receive-Filled_example = receive-Filled (chunks 2) sent 5 (omega arith)

read_normal_message_empty_example : read_normal_message (chunks 7) sent (message_head []) ≡ abort
read_normal_message_empty_example = read_normal_message_empty (chunks 7) sent [] refl

create-IsKeyed : (my_rank : ℕ) → IsKeyed (create my_rank)
unfolding create find
create-IsKeyed my_rank r t e = cc

find-register_target_example :
    find 5 (register_target (create 0) 5 0x7f000001 8080).socks
    ≡ some (registered 5 0x7f000001 8080)
find-register_target_example =
    find-register_target (create 0) 5 5 0x7f000001 8080 (create-IsKeyed 0)

updates-IsKeyed_example :
    IsKeyed (register_target (create 0) 5 1 80)
    × IsKeyed (clear_send_socket (create 0) 5)
    × IsKeyed (set_sock (create 0) 5 9)
    × IsKeyed (record_report (create 0) 5 1 80 9)
updates-IsKeyed_example = updates-IsKeyed (create 0) 5 1 80 80 9 (create-IsKeyed 0)

-- Its state counts the calls of `writev`; the first on the message fails.
abbrev flaky : Kernel
flaky = record {
  State = ℕ;
  socket = λ s. (some 4, s);
  connect = λ s fd ip port. (true, s);
  writev = λ s fd bytes. (if s == 1 then none else some (length bytes), suc s);
  close = λ s fd. s;
  add_epoll = λ s fd. s;
}

abbrev peer : NetworkManager
peer = record {
  my_rank = 0;
  running = true;
  sockfd = some 3;
  epoll_fd = some 5;
  listen_port = 80;
  socks = (5, record { rank = 5; ip = 1; port = 80; sock = none }) ∷ [];
}

send_message-Verdict_example : Judged flaky content 3 (send_message flaky peer 0 5 content (pos 2))
send_message-Verdict_example = send_message-Verdict flaky peer 0 5 content (pos 2)
