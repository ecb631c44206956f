-- ===== src/Basic/Command.antt =====
-- src/basic/Utils.cpp: `exec`, which runs a command and collects what it prints.
pub mod Output
pub mod Lines
use npp.Common.{ℕ, zero, suc, ◌+◌, ◌≤◌, ◌<◌, ◌≡◌, Option, none, some, List, [], ◌∷◌, ◌++◌, length}
use npp.Common.Outcome.{Outcome, ok, throw, fault}
use npp.Basic.Exception.{Exception, user}
use npp.Basic.StackFrame.{until_zero}

-- What the C library does on a pipe. `output` is what the command prints and nobody has read; `gets` is
-- `fgets` for a buffer of some size, which keeps one byte for the final zero.
pub record Pipes : Type 1 where
  pub State : Type 0
  pub output : State → List ℕ
  pub popen : List ℕ → Option State
  pub gets : State → ℕ → Option (List ℕ × State)
  pub gets_some :
      (s s' : State) (n : ℕ) (bs : List ℕ)
      → gets s n ≡ some (bs, s')
      → (0 < length bs) × (length bs + 1 ≤ n) × (output s ≡ bs ++ output s')

-- No pipe has a read error: `fgets` gives nothing only at the end.
abbrev pub IsHealthy : Pipes → Type 0
IsHealthy k = (s : k.State) (n : ℕ) → 2 ≤ n → k.gets s n ≡ none → k.output s ≡ []

abbrev pub buffer_size : ℕ
buffer_size = 128

-- `std::runtime_error("popen() failed!")`, which is no exception of this library.
abbrev pub popen_failed : Exception
popen_failed = user 0

module _ (k : Pipes) where
  open k use {State, popen, gets}

  -- The loop, on fuel: each pass reads a byte at least. What is added is the C string in the buffer.
  pub read_lines : ℕ → State → List ℕ → Outcome Exception (List ℕ)
  read_lines zero s result = fault
  read_lines (suc fuel) s result = elim (gets s buffer_size) [
    | none ↦ ok result
    | some (bs, s') ↦ read_lines fuel s' (result ++ until_zero (bs ++ 0 ∷ []))
  ]

  unfoldable pub exec : ℕ → List ℕ → Outcome Exception (List ℕ)
  unfolding read_lines
  exec fuel cmd = elim (popen cmd) [ none ↦ throw popen_failed | some s ↦ read_lines fuel s [] ]
