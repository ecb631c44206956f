-- ===== src/Basic/Bytes/Set.antt =====
-- src/basic/Bytes.cpp, `set`: its range check and what it writes.
use npp.Common.{ℕ, ◌+◌, ◌≤◌, ◌<◌, ◌^◌, ◌≡◌, ◌++◌, length, take, drop, arith}
use npp.Common.Outcome.{ok, throw, fault}
use npp.Basic.Exception.{range_exception}
use npp.Basic.Bytes.{Cell, set_cell}

-- Below 2 ^ 64 the check is exact: within the buffer `set` overwrites just the bytes from `start` on,
-- beyond it it throws.
pub set_cell_checked :
    (target source : Cell) (start : ℕ)
    → start + length source < 2 ^ 64
    → (start + length source ≤ length target
        → set_cell (length target) target source start
          ≡ ok (take start target ++ (source ++ drop (start + length source) target)))
      × (length target < start + length source
          → set_cell (length target) target source start ≡ throw range_exception)
unfolding set_cell
set_cell_checked target source start h = (λ k. ground arith, λ k. ground arith)

-- The sum of the check wraps: a write that begins so far out that `start + size` passes 2 ^ 64 and
-- comes back into the buffer's size is let through, and is out of bounds.
pub set_cell_wraps :
    (target source : Cell) (start : ℕ)
    → length target < 2 ^ 64
    → start < 2 ^ 64
    → 2 ^ 64 ≤ start + length source
    → start + length source ≤ 2 ^ 64 + length target
    → set_cell (length target) target source start ≡ fault
unfolding set_cell
set_cell_wraps target source start ht hs lo hi = ground arith
