-- ===== src/Network/Connection/Chunks.antt =====
-- A connection that gives at most a fixed number of bytes at each call of `read`.
use npp.Common.{
  ℕ, zero, suc, ◌≤◌, ◌<◌, ◌≡◌, refl, Option, none, some, List, [], ◌∷◌, ◌++◌, length, take, drop,
  min, take-append-drop, length-take, arith,
}
use npp.Network.Connection.{Connection, IsReliable}

abbrev pub read_chunk : ℕ → List ℕ → ℕ → Option (List ℕ) × List ℕ
read_chunk limit [] n = (none, [])
read_chunk limit (b ∷ bs) zero = (none, b ∷ bs)
read_chunk limit (b ∷ bs) (suc n) = (some (b ∷ take (min limit n) bs), drop (min limit n) bs)

pub read_chunk-some :
    (limit : ℕ) (s s' : List ℕ) (n : ℕ) (bs : List ℕ)
    → read_chunk limit s n ≡ (some bs, s')
    → (0 < length bs) × (length bs ≤ n) × (s ≡ bs ++ s')
read_chunk-some limit [] s' n bs e = cc
read_chunk-some limit (b ∷ l) s' zero bs e = cc
read_chunk-some limit (b ∷ l) s' (suc n) bs e =
    ground (arith, length-take (min limit n) l, take-append-drop (min limit n) l)

pub read_chunk-all :
    (limit : ℕ) (s s' : List ℕ) (n : ℕ) (bs : List ℕ)
    → n ≤ min (suc limit) (length s)
    → read_chunk limit s n ≡ (some bs, s')
    → n ≤ length bs
read_chunk-all limit [] s' n bs h e = cc
read_chunk-all limit (b ∷ l) s' zero bs h e = cc
read_chunk-all limit (b ∷ l) s' (suc n) bs h e = ground (arith, length-take (min limit n) l)

-- It gives one byte more than `limit`.
abbrev pub chunks : ℕ → Connection
chunks limit = record {
  State = List ℕ;
  incoming = λ s. s;
  arrived = λ s. min (suc limit) (length s);
  read = read_chunk limit;
  read_some = read_chunk-some limit;
  read_all = read_chunk-all limit;
}

chunks_progress :
    (limit : ℕ) (s : List ℕ) (n : ℕ)
    → 0 < n
    → 0 < length s
    → (bs : List ℕ) × (s' : List ℕ) × (read_chunk limit s n ≡ (some bs, s'))
chunks_progress limit [] n h k = absurd (omega arith)
chunks_progress limit (b ∷ l) zero h k = absurd (omega arith)
chunks_progress limit (b ∷ l) (suc n) h k = (_, _, refl)

chunks_unread : (limit : ℕ) (s s' : List ℕ) (n : ℕ) → read_chunk limit s n ≡ (none, s') → s' ≡ s
chunks_unread limit [] s' n e = cc
chunks_unread limit (b ∷ l) s' zero e = cc
chunks_unread limit (b ∷ l) s' (suc n) e = cc

pub chunks-IsReliable : (limit : ℕ) → 7 ≤ limit → IsReliable (chunks limit)
chunks-IsReliable limit h = record {
  progress = chunks_progress limit;
  unread = chunks_unread limit;
  words = λ s n k l. omega arith;
}
