-- ===== src/Basic/StackFrame.antt =====
-- src/basic/Exception.cpp: `parseStrings`, which cuts a line of `backtrace_symbols` into its parts in
-- place. The line is its characters before the terminating zero; a pointer into it is an offset, and a
-- pointer that was not set is `none`.
pub mod Parts
use npp.Common.{ℕ, suc, ◌+◌, Option, none, some, List, [], ◌∷◌, ◌||◌, ◌==◌, if◌then◌else◌, drop}

abbrev pub open_parenthesis : ℕ
open_parenthesis = 40

abbrev pub close_parenthesis : ℕ
close_parenthesis = 41

abbrev pub plus : ℕ
plus = 43

abbrev cut : ℕ → ℕ
cut c = if c == open_parenthesis || (c == plus || c == close_parenthesis) then 0 else c

-- The line as it is left, `*symbolString` and `*offsetString`.
parse_from : ℕ → Option ℕ → Option ℕ → List ℕ → List ℕ × Option ℕ × Option ℕ
parse_from i symbol offset [] = ([], symbol, offset)
parse_from i symbol offset (c ∷ line) =
    let (rest, symbol', offset') =
      parse_from (suc i) (if c == open_parenthesis then some (suc i) else symbol)
        (if c == plus then some (suc i) else offset) line in
    (cut c ∷ rest, symbol', offset')

unfoldable pub parse_strings : List ℕ → List ℕ × Option ℕ × Option ℕ
unfolding parse_from
parse_strings line = parse_from 0 none none line

-- The C string that begins at an offset.
abbrev pub until_zero : List ℕ → List ℕ
until_zero [] = []
until_zero (c ∷ cs) = if c == 0 then [] else c ∷ until_zero cs

abbrev pub string_at : ℕ → List ℕ → List ℕ
string_at i line = until_zero (drop i line)
