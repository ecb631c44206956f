-- ===== src/Network/Connection.antt =====
-- The reading side of a connected socket, which the operating system implements: what
-- src/network/NetworkManager.cpp relies on when it calls `read`.
pub mod Chunks
use npp.Common.{ℕ, ◌≤◌, ◌<◌, ◌≡◌, Option, none, some, List, ◌++◌, length, arith}

-- `incoming` is what the peer has sent and nobody has read, of which so many bytes as `arrived` says are
-- there already. `read s n` asks for at most `n` bytes; `none` stands for a count of 0 or -1. It gives
-- less than is asked for only where less has arrived.
pub record Connection : Type 1 where
  pub State : Type 0
  pub incoming : State → List ℕ
  pub arrived : State → ℕ
  pub read : State → ℕ → Option (List ℕ) × State
  pub read_some :
      (s s' : State) (n : ℕ) (bs : List ℕ)
      → read s n ≡ (some bs, s')
      → (0 < length bs) × (length bs ≤ n) × (incoming s ≡ bs ++ incoming s')
  pub read_all :
      (s s' : State) (n : ℕ) (bs : List ℕ)
      → n ≤ arrived s
      → read s n ≡ (some bs, s')
      → n ≤ length bs

-- A connection without errors: `read` gives something where there is something, and one that gives
-- nothing takes nothing. `words` is what the program relies on and TCP does not promise: of what the
-- peer has sent, as many bytes as a head or a verify code has are there when they are read.
pub record IsReliable (k : Connection) : Type 0 where
  pub progress :
      (s : k.State) (n : ℕ)
      → 0 < n
      → 0 < length (k.incoming s)
      → (bs : List ℕ) × (s' : k.State) × (k.read s n ≡ (some bs, s'))
  pub unread : (s s' : k.State) (n : ℕ) → k.read s n ≡ (none, s') → k.incoming s' ≡ k.incoming s
  pub words : (s : k.State) (n : ℕ) → n ≤ 8 → n ≤ length (k.incoming s) → n ≤ k.arrived s

-- A word that is there is read whole.
pub read_word :
    (k : Connection) (reliable : IsReliable k) (s s' : k.State) (n : ℕ) (bs : List ℕ)
    → n ≤ 8
    → n ≤ length (k.incoming s)
    → k.read s n ≡ (some bs, s')
    → length bs ≡ n
read_word k reliable s s' n bs h l e =
    let (_, most, _) = k.read_some s s' n bs e in
    let least = k.read_all s s' n bs (reliable.words s n h l) e in omega arith
