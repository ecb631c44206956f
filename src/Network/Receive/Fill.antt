-- ===== src/Network/Receive/Fill.antt =====
-- src/network/NetworkManager.cpp: how the loop of
-- `readNormalMessage` fills its buffer.
use mathlib.Core.List.{map-append}
use npp.Common.{
  ℕ, suc, ◌+◌, ◌^◌, ◌<◌, ◌≡◌, sym, ap, ◌∙◌, Option, none, some, List, ◌++◌, map, min, length, take,
  drop, replicate, arith, length-append, length-replicate, length-map, take-length-append,
  drop-append, drop-replicate, append_assoc,
}
use npp.Common.Outcome.{ok}
use npp.Basic.Bytes.{Cell, set_cell}
use npp.Basic.Bytes.Set.{set_cell_checked}
use npp.Network.Connection.{Connection}
use npp.Network.Receive.{receive_chunk, receive_loop, receive_buff_size}

abbrev pub written : List ℕ → Cell
written = map some

-- The buffer when `done` has come and `n` bytes are to come.
abbrev pub partial : List ℕ → ℕ → Cell
partial done n = written done ++ replicate n none

pub length-partial : (done : List ℕ) (n : ℕ) → length (partial done n) ≡ length done + n
length-partial done n = omega (
  arith,
  length-append (written done) (replicate {A = Option ℕ} n none),
  length-map {0, 0} {B = Option ℕ} some done,
  length-replicate {A = Option ℕ} n none,
)

fill :
    (done bs : List ℕ) (m : ℕ)
    → take (length done) (partial done (length bs + m))
        ++ (written bs ++ drop (length done + length bs) (partial done (length bs + m)))
      ≡ partial (done ++ bs) m
fill done bs m =
    rw (take_done, drop_done, drop-replicate {A = Option ℕ} (length bs) m none)
      (sym (append_assoc (written done) (written bs) _)
        ∙ ap (λ (c : Cell). c ++ replicate m none) (sym (map-append some done bs)))
  where
    take_done : take (length done) (partial done (length bs + m)) ≡ written done
    take_done =
        ap (λ (n : ℕ). take n (partial done (length bs + m)))
          (sym (length-map {0, 0} {B = Option ℕ} some done))
        ∙ take-length-append (written done) _

    drop_done :
        drop (length done + length bs) (partial done (length bs + m))
        ≡ drop (length bs) (replicate (length bs + m) none)
    drop_done =
        drop-append (length done) (length bs) (written done) _
          (sym (length-map {0, 0} {B = Option ℕ} some done))

-- Writing the next bytes after those that have come.
set_cell-fill :
    (done bs : List ℕ) (m : ℕ)
    → length done + length bs + m < 2 ^ 32
    → set_cell
        (length done + (length bs + m))
        (partial done (length bs + m))
        (written bs)
        (length done)
      ≡ ok (partial (done ++ bs) m)
set_cell-fill done bs m h =
    ap (λ (n : ℕ). set_cell n (partial done (length bs + m)) (written bs) (length done))
      (sym (length-partial done (length bs + m)))
    ∙ (set_cell_checked (partial done (length bs + m)) (written bs) (length done)
          (omega (arith, length_written))).0
        (omega (arith, length_written, length-partial done (length bs + m)))
    ∙ ap ok (rw length_written (fill done bs m))
  where
    length_written : length (written bs) ≡ length bs
    length_written = length-map {0, 0} some bs

module _ (k : Connection) where
  open k use {State, incoming, read}

  pub chunk-fill :
      (done bs : List ℕ) (m size remain : ℕ)
      → size ≡ length done + remain
      → remain ≡ length bs + m
      → size < 2 ^ 32
      → receive_chunk k size (some bs) remain (length done) (partial done remain)
        ≡ ok (some (partial (done ++ bs) m, m, length (done ++ bs)))
  unfolding receive_chunk
  chunk-fill done bs m size remain es er h =
      ground (arith, set_cell-fill done bs m, length-append done bs)

  -- What the loop returns when the whole content has come.
  abbrev pub Received : List ℕ → List ℕ → Option Cell × State → Type 0
  Received content rest p = (p.0 ≡ some (written content)) × (incoming p.1 ≡ rest)

  pub pass :
      (fuel : ℕ) (s s' : State) (done bs : List ℕ) (size remain all_read m : ℕ)
      → read s (min receive_buff_size (suc remain)) ≡ (some bs, s')
      → size ≡ length done + suc remain
      → all_read ≡ length done
      → suc remain ≡ length bs + m
      → size < 2 ^ 32
      → receive_loop k (suc fuel) size s (suc remain) all_read (partial done (suc remain))
        ≡ receive_loop k fuel size s' m (length (done ++ bs)) (partial (done ++ bs) m)
  unfolding receive_loop
  pass fuel s s' done bs size remain all_read m re es ea er h =
      ground (arith, re, ea, chunk-fill done bs m size (suc remain) es er h)
