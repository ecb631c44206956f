-- ===== src/Network/Head/RoundTrip.antt =====
-- src/network/NetworkManager.h: the head and its bytes, against the format of src/network/README.md.
use npp.Common.{ℕ, ◌+◌, ◌*◌, ◌/◌, ◌%◌, ◌^◌, ◌<◌, ◌≡◌, List, [], ◌∷◌, ◌++◌, All, arith}
use npp.Network.Head.{MessageHead, encode_head, decode_head}

-- Each field is within its width.
pub record Fits (h : MessageHead) : Type 0 where
  pub compress_bit : h.compress < 2
  pub verify_bit : h.verify < 2
  pub res1_bits : h.res1 < 64
  pub type_bits : h.type < 8
  pub res2_bits : h.res2 < 32
  pub reserved_bits : h.reserved < 65536
  pub size_bits : h.size < 2 ^ 32

-- A head whose fields are within their widths is read back from its eight bytes, whatever follows.
pub decode-encode_head :
    (h : MessageHead) (rest : List ℕ) → Fits h → decode_head (encode_head h ++ rest) ≡ h
unfolding decode_head encode_head
decode-encode_head h rest f = ground arith

-- The bytes of a head that fits are bytes, eight of them. Its control word is laid out as the README
-- has it: bit 0 for compression, bit 1 for verification, bits 8 to 10 for the type; the reserve
-- stands at byte 2 and the length at byte 4, low byte first.
pub encode_head_layout :
    (h : MessageHead) (b0 b1 b2 b3 b4 b5 b6 b7 : ℕ)
    → Fits h
    → encode_head h ≡ b0 ∷ b1 ∷ b2 ∷ b3 ∷ b4 ∷ b5 ∷ b6 ∷ b7 ∷ []
    → let control = b0 + b1 * 256 in
      All (λ (b : ℕ). b < 256) (encode_head h)
      × (control % 2 ≡ h.compress)
      × ((control / 2) % 2 ≡ h.verify)
      × ((control / 256) % 8 ≡ h.type)
      × (b2 + b3 * 256 ≡ h.reserved)
      × (b4 + b5 * 256 + b6 * 65536 + b7 * 16777216 ≡ h.size)
unfolding encode_head
encode_head_layout h b0 b1 b2 b3 b4 b5 b6 b7 f e = ground arith
