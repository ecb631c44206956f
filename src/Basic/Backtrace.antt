-- ===== src/Basic/Backtrace.antt =====
-- src/basic/Exception.cpp: `CalculateOffset`, `Addr2LinePrint` and `print_backtrace`, over what the
-- system's loader answers. Pointers are numbers of 64 bits, a null pointer is 0.
pub mod Frames
use Prim.Native.Char.{code}
use Prim.Native.String.{String}
use npp.Common.{
  ℕ, suc, ◌+◌, ◌-◌, ◌%◌, ◌^◌, Bool, true, false, Option, none, some, List, [], ◌∷◌, ◌++◌, length,
  ltb, ◌==◌, if◌then◌else◌,
}
use npp.Common.Outcome.{Outcome, ok, fault, ◌>>=◌}
use npp.Basic.Exception.{Exception}
use npp.Basic.StackFrame.{parse_strings, string_at}
use npp.Basic.Command.{Pipes, exec}

abbrev pub codes : String → List ℕ
codes String.[] = []
codes (String.◌∷◌ c s) = code c ∷ codes s

-- What the library calls answer. `scan_pointer` and `print_pointer` are `%p`: `none` is EOF, `some none`
-- that there is no pointer in the text. `dladdr` gives `dli_saddr` and `dli_fbase`. `has_message` is
-- whether `dlerror` has a message that was there before.
pub record Loader : Type 0 where
  pub scan_pointer : List ℕ → Option (Option ℕ)
  pub print_pointer : ℕ → List ℕ
  pub print_number : ℕ → List ℕ
  pub dlopen : Bool
  pub dlsym : List ℕ → Option ℕ
  pub dladdr : Option ℕ → Option (ℕ × ℕ)
  pub has_message : Bool

-- `dlerror` and the `strlen` of its message: a null pointer where there is none. It forgets the message.
abbrev pub write_dlerror : Bool → Outcome Exception Bool
write_dlerror message = if message then ok false else fault

module _ (l : Loader) where
  open l use {scan_pointer, print_pointer, print_number, dlsym, dladdr}

  -- A failed `dlopen` or `dlsym` leaves a message, which is then written; `dladdr` leaves none.
  unfoldable pub add_base : List ℕ → ℕ → Outcome Exception ℕ
  add_base symbol offset =
      (if l.dlopen then ok l.has_message else write_dlerror true) >>= λ (m : Bool).
      elim (dlsym symbol) [ some a ↦ ok m | none ↦ write_dlerror true ] >>= λ (m' : Bool).
      elim (dladdr (dlsym symbol)) [
        | some (saddr, fbase) ↦ ok ((saddr + 2 ^ 64 - fbase + offset) % 2 ^ 64)
        | none ↦ write_dlerror m' >>= λ _. ok offset
      ]

  -- `offset` is null before `sscanf`.
  abbrev pub scanned : Option (Option ℕ) → ℕ
  scanned (some (some v)) = v
  scanned _ = 0

  abbrev pub unless_eof : Option (Option ℕ) → ℕ → ℕ
  unless_eof none v = 0
  unless_eof (some r) v = v

  unfoldable pub resolve : List ℕ → List ℕ → Outcome Exception ℕ
  unfolding add_base
  resolve symbol text =
      elim symbol [
        | [] ↦ ok (scanned (scan_pointer text))
        | c ∷ cs ↦ add_base (c ∷ cs) (scanned (scan_pointer text))
      ]
      >>= λ v. ok (unless_eof (scan_pointer text) v)

  -- The offset and the file. A pointer that the parser has not set is read all the same.
  of_parts : List ℕ × Option ℕ × Option ℕ → Outcome Exception (ℕ × List ℕ)
  of_parts (line, symbol_at, none) = fault
  of_parts (line, none, some j) = fault
  of_parts (line, some i, some j) =
      resolve (string_at i line) (string_at j line) >>= λ (v : ℕ). ok (v, string_at 0 line)

  unfoldable pub calculate_offset : List ℕ → Outcome Exception (ℕ × List ℕ)
  unfolding of_parts
  calculate_offset symbols = of_parts (parse_strings symbols)

  abbrev pub addr2line_command : ℕ → List ℕ → List ℕ
  addr2line_command address file =
      codes "addr2line -C -i -f -p -s -a -e " ++ (file ++ 32 ∷ (print_pointer address ++ 32 ∷ []))

  abbrev pub no_offset : List ℕ
  no_offset = codes "Offset cannot be resolved: No offset present?\n"

  module _ (k : Pipes) where
    -- `sprintf` into a buffer of 512 bytes, the final zero included.
    unfoldable pub addr2line_print : ℕ → ℕ → List ℕ → Outcome Exception (List ℕ)
    addr2line_print fuel address file =
        let command = addr2line_command address file in
        if ltb (length command) 512 then exec k fuel command else fault

    -- One line of the loop.
    unfoldable pub print_frame : ℕ → List ℕ → Outcome Exception (List ℕ)
    unfolding calculate_offset addr2line_print
    print_frame fuel symbols = calculate_offset symbols >>= λ (r : ℕ × List ℕ).
        (if r.0 == 0 then ok no_offset else addr2line_print fuel r.0 r.1)

    unfoldable pub print_frames : ℕ → List (List ℕ) → Outcome Exception (List ℕ)
    unfolding print_frame
    print_frames fuel [] = ok []
    print_frames fuel (line ∷ lines) = print_frame fuel line >>= λ (text : List ℕ).
        print_frames fuel lines >>= λ (rest : List ℕ). ok (text ++ rest)

    -- What is written to the stream at the end.
    unfoldable pub print_backtrace : ℕ → List (List ℕ) → Outcome Exception (List ℕ)
    unfolding print_frames
    print_backtrace fuel lines = print_frames fuel lines >>= λ (text : List ℕ). ok (
        codes "Obtained "
        ++ (print_number (length lines) ++ (codes " stack frames.\n" ++ (text ++ 10 ∷ []))))
