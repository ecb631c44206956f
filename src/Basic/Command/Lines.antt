-- ===== src/Basic/Command/Lines.antt =====
-- Pipes of commands that all print the same text, read line by line.
use npp.Common.{
  ℕ, zero, suc, ◌+◌, ◌≤◌, ◌<◌, ◌≡◌, refl, Option, none, some, List, [], ◌∷◌, ◌++◌, length, ◌==◌,
  if◌then◌else◌, arith,
}
use npp.Basic.Command.{Pipes, IsHealthy}

-- At most so many bytes, and none behind a newline.
abbrev pub take_line : ℕ → List ℕ → List ℕ × List ℕ
take_line zero cs = ([], cs)
take_line (suc n) [] = ([], [])
take_line (suc n) (c ∷ cs) =
    let (line, rest) = take_line n cs in if c == 10 then (c ∷ [], cs) else (c ∷ line, rest)

take_line-split :
    (n : ℕ) (cs : List ℕ)
    → (length (take_line n cs).0 ≤ n) × (cs ≡ (take_line n cs).0 ++ (take_line n cs).1)
take_line-split zero cs = (omega arith, refl)
take_line-split (suc n) [] = (omega arith, refl)
take_line-split (suc n) (c ∷ cs) = ground (arith, take_line-split n cs)

abbrev pub get_line : List ℕ → ℕ → Option (List ℕ × List ℕ)
get_line [] n = none
get_line (c ∷ cs) zero = none
get_line (c ∷ cs) (suc zero) = none
get_line (c ∷ cs) (suc (suc n)) = some (take_line (suc n) (c ∷ cs))

pub get_line-some :
    (s s' : List ℕ) (n : ℕ) (bs : List ℕ)
    → get_line s n ≡ some (bs, s')
    → (0 < length bs) × (length bs + 1 ≤ n) × (s ≡ bs ++ s')
get_line-some [] s' n bs e = cc
get_line-some (c ∷ cs) s' zero bs e = cc
get_line-some (c ∷ cs) s' (suc zero) bs e = cc
get_line-some (c ∷ cs) s' (suc (suc n)) bs e = ground (arith, take_line-split n cs)

abbrev pub printing : List ℕ → Pipes
printing text = record {
  State = List ℕ;
  output = λ s. s;
  popen = λ cmd. some text;
  gets = get_line;
  gets_some = get_line-some;
}

get_line-none : (s : List ℕ) (n : ℕ) → 2 ≤ n → get_line s n ≡ none → s ≡ []
get_line-none [] n h e = refl
get_line-none (c ∷ cs) zero h e = absurd (omega arith)
get_line-none (c ∷ cs) (suc zero) h e = absurd (omega arith)
get_line-none (c ∷ cs) (suc (suc n)) h e = cc

pub printing-IsHealthy : (text : List ℕ) → IsHealthy (printing text)
printing-IsHealthy text = get_line-none
