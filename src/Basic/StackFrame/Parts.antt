-- ===== src/Basic/StackFrame/Parts.antt =====
-- src/basic/Exception.cpp: the parts that `parseStrings` finds in a line of `backtrace_symbols`.
use npp.Common.{
  ℕ, suc, ◌+◌, ◌≡◌, ◌≢◌, refl, ap, ◌∙◌, Option, none, some, List, [], ◌∷◌, ◌++◌, All, drop, length,
  ◌==◌, if◌then◌else◌, arith,
}
use npp.Basic.StackFrame.{
  open_parenthesis, close_parenthesis, plus, parse_from, parse_strings, until_zero, string_at,
}

-- A character of a part: no delimiter, and not the end of the line.
abbrev pub IsInner : ℕ → Type 0
IsInner c = (c ≢ 0) × (c ≢ open_parenthesis) × (c ≢ close_parenthesis) × (c ≢ plus)

abbrev pub Inner : List ℕ → Type 0
Inner = All IsInner

abbrev Parse : Type 0
Parse = List ℕ × Option ℕ × Option ℕ

-- The parse of `rest`, behind what is left of the characters before it.
abbrev behind : List ℕ → Parse → Parse
behind xs (line, symbol, offset) = (xs ++ line, symbol, offset)

parse-Inner :
    (i : ℕ) (symbol offset : Option ℕ) (xs rest : List ℕ)
    → Inner xs
    → parse_from i symbol offset (xs ++ rest)
      ≡ behind xs (parse_from (i + length xs) symbol offset rest)
unfolding parse_from
parse-Inner i symbol offset [] rest h = ground arith
parse-Inner i symbol offset (c ∷ xs) rest (h, hs) =
    ground (arith, parse-Inner (suc i) symbol offset xs rest hs)

until_zero_lem : (xs ys : List ℕ) → Inner xs → until_zero (xs ++ 0 ∷ ys) ≡ xs
until_zero_lem [] ys h = refl
until_zero_lem (c ∷ xs) ys (h, hs) = ground (arith, until_zero_lem xs ys hs)

parse_tail :
    (i : ℕ) (symbol offset : Option ℕ) (tail : List ℕ)
    → Inner tail
    → parse_from i symbol offset tail ≡ (tail, symbol, offset)
unfolding parse_from
parse_tail i symbol offset [] h = refl
parse_tail i symbol offset (c ∷ xs) (h, hs) = ground (arith, parse_tail (suc i) symbol offset xs hs)

parse_offset :
    (i : ℕ) (symbol offset : Option ℕ) (xs tail : List ℕ)
    → Inner xs
    → Inner tail
    → parse_from i symbol offset (xs ++ close_parenthesis ∷ tail) ≡ (xs ++ 0 ∷ tail, symbol, offset)
unfolding parse_from
parse_offset i symbol offset xs tail h t =
    parse-Inner i symbol offset xs (close_parenthesis ∷ tail) h
    ∙ rw (parse_tail (suc (i + length xs)) symbol offset tail t)

parse_symbol :
    (i : ℕ) (symbol : Option ℕ) (name xs tail : List ℕ)
    → Inner name
    → Inner xs
    → Inner tail
    → parse_from i symbol none (name ++ plus ∷ (xs ++ close_parenthesis ∷ tail))
      ≡ (name ++ 0 ∷ (xs ++ 0 ∷ tail), symbol, some (suc (i + length name)))
unfolding parse_from
parse_symbol i symbol name xs tail n h t =
    parse-Inner i symbol none name (plus ∷ (xs ++ close_parenthesis ∷ tail)) n
    ∙ ap (λ (r : Parse). behind name (0 ∷ r.0, r.1, r.2))
        (parse_offset (suc (i + length name)) symbol (some (suc (i + length name))) xs tail h t)

-- The line as it is left, and where the symbol and the offset begin.
parse_line :
    (file name xs tail : List ℕ)
    → Inner file
    → Inner name
    → Inner xs
    → Inner tail
    → parse_strings (file ++ open_parenthesis ∷ (name ++ plus ∷ (xs ++ close_parenthesis ∷ tail)))
      ≡ (
        file ++ 0 ∷ (name ++ 0 ∷ (xs ++ 0 ∷ tail)),
        some (suc (0 + length file)),
        some (suc (suc (0 + length file) + length name)),
      )
unfolding parse_strings parse_from
parse_line file name xs tail f n h t =
    parse-Inner 0 none none file
      (open_parenthesis ∷ (name ++ plus ∷ (xs ++ close_parenthesis ∷ tail))) f
    ∙ ap (λ (r : Parse). behind file (0 ∷ r.0, r.1, r.2))
        (parse_symbol (suc (0 + length file)) (some (suc (0 + length file))) name xs tail n h t)

drop_past : (xs ys : List ℕ) (n : ℕ) → drop (suc (length xs + n)) (xs ++ 0 ∷ ys) ≡ drop n ys
drop_past [] ys n = ground arith
drop_past (x ∷ xs) ys n =
    let shift : suc (length xs) + n ≡ suc (length xs + n) = omega arith in
    ap (λ (k : ℕ). drop k (xs ++ 0 ∷ ys)) shift ∙ drop_past xs ys n

-- The string behind the zero that ends `xs`.
string_past :
    (xs ys zs : List ℕ) (k n : ℕ)
    → k ≡ suc (length xs + n)
    → until_zero (drop n ys) ≡ zs
    → until_zero (drop k (xs ++ 0 ∷ ys)) ≡ zs
string_past xs ys zs k n e h = rw e (ap until_zero (drop_past xs ys n) ∙ h)

-- Where the line has the form `file(symbol+offset)tail`, with no zero and no other parenthesis or plus
-- in it, the three C strings that the parser gives are the file, the symbol and the offset.
pub parse_strings_lem :
    (file symbol offset tail : List ℕ)
    → Inner file
    → Inner symbol
    → Inner offset
    → Inner tail
    → let (line, symbol_at, offset_at) =
        parse_strings
          (file ++ open_parenthesis ∷ (symbol ++ plus ∷ (offset ++ close_parenthesis ∷ tail))) in
      (string_at 0 line ≡ file)
      × ((i : ℕ) × (symbol_at ≡ some i) × (string_at i line ≡ symbol))
      × ((j : ℕ) × (offset_at ≡ some j) × (string_at j line ≡ offset))
parse_strings_lem file symbol offset tail f n h t =
    let rest = symbol ++ 0 ∷ (offset ++ 0 ∷ tail) in
    rw (parse_line file symbol offset tail f n h t) (
      until_zero_lem file rest f,
      (
        suc (0 + length file),
        refl,
        string_past file rest symbol (suc (0 + length file)) 0 (omega arith)
            (until_zero_lem symbol (offset ++ 0 ∷ tail) n),
      ),
      (
        suc (suc (0 + length file) + length symbol),
        refl,
        string_past file rest offset (suc (suc (0 + length file) + length symbol))
            (suc (length symbol + 0)) (omega arith)
            (string_past symbol (offset ++ 0 ∷ tail) offset (suc (length symbol + 0)) 0 refl
              (until_zero_lem offset tail h)),
      ),
    )

symbol-unset :
    (i : ℕ) (symbol offset : Option ℕ) (line : List ℕ)
    → All (λ (c : ℕ). c ≢ open_parenthesis) line
    → (parse_from i symbol offset line).1 ≡ symbol
unfolding parse_from
symbol-unset i symbol offset [] h = refl
symbol-unset i symbol offset (c ∷ line) (h, hs) =
    ground (arith, symbol-unset (suc i) symbol (if c == plus then some (suc i) else offset) line hs)

-- A line with no opening parenthesis leaves the pointer to the symbol as the caller had it, whatever
-- else is in the line: `CalculateOffset` then reads a pointer that was never set.
pub parse_strings_unset :
    (line : List ℕ) → All (λ (c : ℕ). c ≢ open_parenthesis) line → (parse_strings line).1 ≡ none
unfolding parse_strings
parse_strings_unset line h = symbol-unset 0 none none line h
