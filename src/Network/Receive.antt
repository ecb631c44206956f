-- ===== src/Network/Receive.antt =====
-- src/network/NetworkManager.cpp: `readNormalMessage` and `readVerify`, over a connection. Closing the
-- socket ends the handling of it.
pub mod Fill
pub mod Whole
pub mod Safety
use npp.Common.{
  ℕ, zero, suc, ◌+◌, ◌-◌, ◌*◌, ◌%◌, ◌^◌, Bool, true, false, Option, none, some, List, [], ◌∷◌, ◌++◌,
  map, min, length, replicate, ltb, ◌==◌, if◌then◌else◌,
}
use npp.Common.Outcome.{Outcome, ok, throw, abort, fault, ◌>>=◌}
use npp.Basic.Exception.{Exception}
use npp.Basic.Bytes.{Cell, set_cell}
use npp.Network.Head.{MessageHead, fix_verify_code}
use npp.Network.Connection.{Connection}

abbrev pub receive_buff_size : ℕ
receive_buff_size = 4096

-- The `uint32_t` that four bytes hold.
abbrev pub word32 : ℕ → ℕ → ℕ → ℕ → ℕ
word32 a b c d = a + (b * 256 + (c * 65536 + d * 16777216))

-- The word after a `read` of four bytes: indeterminate unless all of them came.
abbrev pub verify_word : Option (List ℕ) → Option ℕ
verify_word (some (a ∷ b ∷ c ∷ d ∷ [])) = some (word32 a b c d)
verify_word _ = none

-- `assert(verify_code == fix_verify_code)`; an indeterminate word is not to be read.
abbrev pub check_verify : Option ℕ → Outcome Exception (Unit {0})
check_verify none = fault
check_verify (some w) = if w == fix_verify_code then ok tt else abort

module _ (k : Connection) where
  open k use {State, read}

  unfoldable pub read_verify : State → Option ℕ × State
  read_verify s = let (r, s') = read s 4 in (verify_word r, s')

  -- What one pass of the loop does with what `read` gave: `none` is the `break` that leaves bytes to
  -- come, and otherwise the buffer, the bytes that remain and those read in all. The counters are
  -- `uint32_t`.
  pub receive_chunk : ℕ → Option (List ℕ) → ℕ → ℕ → Cell → Outcome Exception (Option (Cell × ℕ × ℕ))
  receive_chunk size none remain all_read buffer = ok none
  receive_chunk size (some bs) remain all_read buffer =
      set_cell size buffer (map some bs) all_read >>= λ buffer'.
      ok (some (buffer', (remain + 2 ^ 32 - length bs) % 2 ^ 32, (all_read + length bs) % 2 ^ 32))

  -- The loop, on fuel: each pass reads a byte at least, so that as many passes as bytes are enough.
  pub receive_loop : ℕ → ℕ → State → ℕ → ℕ → Cell → Outcome Exception (Option Cell × State)
  unfolding receive_chunk
  receive_loop fuel size s zero all_read buffer = ok (some buffer, s)
  receive_loop zero size s (suc remain) all_read buffer = fault
  receive_loop (suc fuel) size s (suc remain) all_read buffer =
      let (r, s') = read s (min receive_buff_size (suc remain)) in
      receive_chunk size r (suc remain) all_read buffer >>= λ o. elim o [
        | none ↦ ok (none, s')
        | some (buffer', remain', all') ↦ receive_loop fuel size s' remain' all' buffer'
      ]

  -- What follows the loop.
  finish_message : Option Cell × State → Outcome Exception (Option Cell × State)
  unfolding read_verify
  finish_message (none, s) = ok (none, s)
  finish_message (some content, s) =
      let (w, s') = read_verify s in check_verify w >>= λ _. ok (some content, s')

  -- The message that is handed to `processMessage`, if the connection lasts so long. `Bytes(size)`
  -- asserts that the size is positive, and leaves its bytes indeterminate.
  unfoldable pub read_normal_message : State → MessageHead → Outcome Exception (Option Cell × State)
  unfolding receive_loop finish_message
  read_normal_message s head =
      if ltb 0 head.size
      then (receive_loop head.size head.size s head.size 0 (replicate head.size none)
          >>= finish_message)
      else abort
