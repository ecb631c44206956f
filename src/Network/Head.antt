-- ===== src/Network/Head.antt =====
-- src/network/NetworkManager.h, `MessageHead`, and the frames that src/network/NetworkManager.cpp
-- writes. The machine is little-endian, with bit fields allocated from the low bit up, and 32 bits in
-- an `int`; a message is a list of bytes.
pub mod RoundTrip
use npp.Common.{ℕ, ◌+◌, ◌-◌, ◌*◌, ◌/◌, ◌%◌, ◌^◌, List, [], ◌∷◌, ◌++◌, length, take, replicate}

pub record MessageHead : Type 0 where
  pub compress : ℕ
  pub verify : ℕ
  pub res1 : ℕ
  pub type : ℕ
  pub res2 : ℕ
  pub reserved : ℕ
  pub size : ℕ

-- `MessageHead head{}`
abbrev pub zero_head : MessageHead
zero_head = record {
  compress = 0;
  verify = 0;
  res1 = 0;
  type = 0;
  res2 = 0;
  reserved = 0;
  size = 0;
}

abbrev pub head_size : ℕ
head_size = 8

abbrev pub fix_verify_code : ℕ
fix_verify_code = 0xDEADFACE

abbrev pub bytes16 : ℕ → List ℕ
bytes16 n = n % 256 ∷ (n / 256) % 256 ∷ []

abbrev pub bytes32 : ℕ → List ℕ
bytes32 n = n % 256 ∷ (n / 256) % 256 ∷ (n / 65536) % 256 ∷ (n / 16777216) % 256 ∷ []

-- The object as `writev` sees it.
unfoldable pub encode_head : MessageHead → List ℕ
encode_head h =
    (h.compress + (h.verify * 2 + h.res1 * 4))
    ∷ (h.type + h.res2 * 8)
    ∷ (bytes16 h.reserved ++ bytes32 h.size)

decode8 : ℕ → ℕ → ℕ → ℕ → ℕ → ℕ → ℕ → ℕ → MessageHead
decode8 b0 b1 b2 b3 b4 b5 b6 b7 = record {
  compress = b0 % 2;
  verify = (b0 / 2) % 2;
  res1 = b0 / 4;
  type = b1 % 8;
  res2 = b1 / 8;
  reserved = b2 + b3 * 256;
  size = b4 + (b5 * 256 + (b6 * 65536 + b7 * 16777216));
}

-- The zeroed object after `read` has filled its first bytes with those of the list.
unfoldable pub decode_head : List ℕ → MessageHead
unfolding decode8
decode_head [] = zero_head
decode_head (a ∷ []) = decode8 a 0 0 0 0 0 0 0
decode_head (a ∷ b ∷ []) = decode8 a b 0 0 0 0 0 0
decode_head (a ∷ b ∷ c ∷ []) = decode8 a b c 0 0 0 0 0
decode_head (a ∷ b ∷ c ∷ d ∷ []) = decode8 a b c d 0 0 0 0
decode_head (a ∷ b ∷ c ∷ d ∷ e ∷ []) = decode8 a b c d e 0 0 0
decode_head (a ∷ b ∷ c ∷ d ∷ e ∷ f ∷ []) = decode8 a b c d e f 0 0
decode_head (a ∷ b ∷ c ∷ d ∷ e ∷ f ∷ g ∷ []) = decode8 a b c d e f g 0
decode_head (a ∷ b ∷ c ∷ d ∷ e ∷ f ∷ g ∷ i ∷ rest) = decode8 a b c d e f g i

-- `htons`
abbrev pub htons : ℕ → ℕ
htons n = (n % 256) * 256 + n / 256

-- The head of a message of some bytes, and of a rank report.
unfoldable pub message_head : List ℕ → MessageHead
message_head content = record zero_head { size = length content % 2 ^ 32 }

unfoldable pub report_head : ℕ → ℕ → MessageHead
report_head my_rank listen_port = record zero_head {
  type = 1;
  size = my_rank;
  reserved = htons listen_port;
}

-- The three buffers of `sendMessage` and the two of `sendRankReportMessage`, one after the other.
unfoldable pub message_frame : List ℕ → List ℕ
unfolding encode_head message_head
message_frame content = encode_head (message_head content) ++ (content ++ bytes32 fix_verify_code)

unfoldable pub report_frame : ℕ → ℕ → List ℕ
unfolding encode_head report_head
report_frame my_rank listen_port =
    encode_head (report_head my_rank listen_port) ++ bytes32 fix_verify_code
