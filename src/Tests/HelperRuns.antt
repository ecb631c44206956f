-- ===== src/Tests/HelperRuns.antt =====
-- Runs of src/basic/Thread.cpp, src/basic/Logger.cpp and src/basic/Exception.cpp.
use npp.Common.{ℕ, ◌≡◌, refl, true, false, some, none, List, [], ◌∷◌, ◌++◌, arith}
use npp.Common.Outcome.{ok, throw}
use npp.Basic.Exception.{runtime_exception}
use npp.Basic.Thread.{Thread, start, begin_run, end_run, start_while_running}
use npp.Basic.FileName.{file_name, EndsPart, IsPlain, file_name_lem}
use npp.Basic.StackFrame.{parse_strings, string_at}
use npp.Basic.StackFrame.Parts.{parse_strings_lem, parse_strings_unset}

abbrev busy : Thread
busy = record { is_running = true; is_finished = false; pending = 0; active = 1 }

start_while_running_example :
    ((u : Thread) × (start busy ≡ ok u) × ((begin_run u).active ≡ 2))
    × (start (end_run busy) ≡ throw runtime_exception)
    × ((end_run busy).is_running ≡ false)
start_while_running_example = start_while_running busy 0 refl refl

-- `a/bc`.
abbrev path : List ℕ
path = 97 ∷ 47 ∷ 98 ∷ 99 ∷ []

file_name-path : file_name path ≡ 98 ∷ 99 ∷ []
unfolding file_name
file_name-path = refl

file_name_lem_example :
    (prefix : List ℕ) × (path ≡ prefix ++ file_name path)
    × EndsPart prefix
    × IsPlain (file_name path)
file_name_lem_example = file_name_lem path

-- `a(f+1)`.
abbrev frame : List ℕ
frame = 97 ∷ 40 ∷ 102 ∷ 43 ∷ 49 ∷ 41 ∷ []

parse_frame : parse_strings frame ≡ (97 ∷ 0 ∷ 102 ∷ 0 ∷ 49 ∷ 0 ∷ [], some 2, some 4)
unfolding parse_strings
parse_frame = refl

parse_strings_lem_example :
    let (line, symbol_at, offset_at) = parse_strings frame in
    (string_at 0 line ≡ 97 ∷ [])
    × ((i : ℕ) × (symbol_at ≡ some i) × (string_at i line ≡ 102 ∷ []))
    × ((j : ℕ) × (offset_at ≡ some j) × (string_at j line ≡ 49 ∷ []))
parse_strings_lem_example =
    parse_strings_lem (97 ∷ []) (102 ∷ []) (49 ∷ []) []
      ((omega arith, omega arith, omega arith, omega arith), tt)
      ((omega arith, omega arith, omega arith, omega arith), tt)
      ((omega arith, omega arith, omega arith, omega arith), tt) tt

parse_strings_unset_example : (parse_strings (97 ∷ 43 ∷ [])).1 ≡ none
parse_strings_unset_example = parse_strings_unset (97 ∷ 43 ∷ []) (omega arith, (omega arith, tt))
