-- ===== src/Tests/BacktraceRuns.antt =====
-- Runs of src/basic/Utils.cpp and of the backtrace of src/basic/Exception.cpp.
use npp.Common.{
  ℕ, ◌+◌, ◌-◌, ◌%◌, ◌^◌, ◌<◌, ◌≡◌, ◌≢◌, refl, true, false, none, some, List, [], ◌∷◌, length, ◌==◌,
  if◌then◌else◌, arith,
}
use npp.Common.Outcome.{ok, throw, fault}
use npp.Basic.Command.{popen_failed, exec}
use npp.Basic.Command.Output.{IsText, exec-eq_output}
use npp.Basic.Command.Lines.{printing, printing-IsHealthy}
use npp.Basic.StackFrame.{parse_strings}
use npp.Basic.Signal.{
  Handlers, make_exception, make_default, init_exception_handler, sigaction, set_terminate, raise,
  terminate, report_of,
}
use npp.Basic.Backtrace.{Loader, codes, resolve, calculate_offset, print_frames}
use npp.Basic.Backtrace.Frames.{
  Frame, line, IsFrame, calculate_offset_lem, IsPrinted, print_frames-outputs,
}

-- Two lines.
abbrev printed : List ℕ
printed = 97 ∷ 10 ∷ 98 ∷ 99 ∷ []

exec-eq_output_example :
    (some printed ≡ none → exec (printing printed) 5 [] ≡ throw popen_failed)
    × ((s : List ℕ)
        → some printed ≡ some s
        → length s < 5
        → IsText s
        → exec (printing printed) 5 [] ≡ ok s)
exec-eq_output_example = exec-eq_output (printing printed) (printing-IsHealthy printed) 5 []

-- It knows the symbol `f` only, at 4096 bytes from its base.
abbrev loader : Loader
loader = record {
  scan_pointer = λ text. elim text [ [] ↦ none | c ∷ cs ↦ some (some (c - 48)) ];
  print_pointer = λ p. codes "0x";
  print_number = λ n. (n + 48) ∷ [];
  dlopen = true;
  dlsym = λ name. elim name [ [] ↦ none | c ∷ cs ↦ if c == 102 then some 8192 else none ];
  dladdr = λ a. elim a [ none ↦ none | some p ↦ some (p, p - 4096) ];
  has_message = false;
}

-- `a(f+1)`.
abbrev frame : Frame
frame = record { file = 97 ∷ []; symbol = 102 ∷ []; offset = 49 ∷ []; tail = [] }

frame-IsFrame : IsFrame frame
frame-IsFrame = record {
  file = ((omega arith, omega arith, omega arith, omega arith), tt);
  symbol = ((omega arith, omega arith, omega arith, omega arith), tt);
  offset = ((omega arith, omega arith, omega arith, omega arith), tt);
  tail = tt;
}

calculate_offset_lem_example :
    (frame.symbol ≡ [] → calculate_offset loader (line frame) ≡ ok (1, 97 ∷ []))
    × (frame.symbol ≢ []
        → ((a saddr base : ℕ)
            → loader.dlsym frame.symbol ≡ some a
            → loader.dladdr (some a) ≡ some (saddr, base)
            → calculate_offset loader (line frame)
              ≡ ok ((saddr + 2 ^ 64 - base + 1) % 2 ^ 64, 97 ∷ []))
          × (loader.dladdr (loader.dlsym frame.symbol) ≡ none
              → calculate_offset loader (line frame) ≡ fault))
calculate_offset_lem_example = calculate_offset_lem loader frame 1 frame-IsFrame refl refl refl

frame-IsPrinted :
    IsPrinted loader (printing printed) (printing-IsHealthy printed) 5 frame 4097 printed
unfolding calculate_offset parse_strings resolve
frame-IsPrinted = record {
  resolved = refl;
  present = refl;
  fits = omega arith;
  starts = refl;
  enough = omega arith;
  text = omega arith;
}

print_frames-outputs_example :
    print_frames loader (printing printed) 5 (line frame ∷ line frame ∷ [])
    ≡ ok (97 ∷ 10 ∷ 98 ∷ 99 ∷ 97 ∷ 10 ∷ 98 ∷ 99 ∷ [])
print_frames-outputs_example =
    print_frames-outputs loader (printing printed) (printing-IsHealthy printed) 5
      ((frame, 4097, printed) ∷ (frame, 4097, printed) ∷ [])
      (frame-IsPrinted, (frame-IsPrinted, tt))

-- The name cannot be demangled.
abbrev strsignal : ℕ → List ℕ
strsignal n = 115 ∷ n ∷ []

abbrev untouched : Handlers
untouched = record { terminates = false; action = λ x. false }

abbrev text_of : List ℕ → List ℕ
text_of info =
    report_of loader (printing printed) (printing-IsHealthy printed) 5 info (69 ∷ []) none
      ((frame, 4097, printed) ∷ [])

-- A signal of the six, and one of which the program says nothing.
at_signals :
    (terminate loader
        (printing printed)
        5
        (init_exception_handler untouched)
        (raise strsignal (69 ∷ []) none (init_exception_handler untouched) 6 [])
      ≢ none)
    × (raise strsignal (69 ∷ []) none (init_exception_handler untouched) 13 [] ≡ none)
unfolding terminate raise init_exception_handler sigaction set_terminate
at_signals = (λ e. ground (arith, e), refl)

default_info : make_default (69 ∷ []) none [] ≡ make_exception (69 ∷ []) none (codes "no info") []
unfolding make_default
default_info = refl
