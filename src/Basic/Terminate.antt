-- ===== src/Basic/Terminate.antt =====
-- src/basic/Exception.cpp: `terminate_handler`, which prints the exception that nobody has caught.
use npp.Common.{ℕ, suc, ◌≡◌, refl, ap, Option, none, some, List, [], ◌∷◌, ◌++◌, length, All}
use npp.Common.Outcome.{Outcome, ok, throw, abort, fault}
use npp.Basic.Exception.{Exception}
use npp.Basic.Command.{Pipes, IsHealthy}
use npp.Basic.Backtrace.{Loader, codes, print_backtrace}
use npp.Basic.Backtrace.Frames.{Frame, IsPrinted, outputs, lines_of, print_frames-outputs}

-- `std::current_exception`: none, one of the program with the name of its type, the name that
-- `__cxa_demangle` gives, `info` and the symbols of its frames, a `std::exception` with `what`, or
-- another object.
pub data Current : Type 0 where
  nothing foreign : Current
  of_npp : List ℕ → Option (List ℕ) → List ℕ → List (List ℕ) → Current
  of_std : List ℕ → Current

-- How the process ends: by `exit(-1)`, by an abort, since an exception leaves the handler or an
-- assertion fails, or by undefined behaviour.
pub data Ending : Type 0 where
  exits aborts crashes : Ending

abbrev pub type_name : List ℕ → Option (List ℕ) → List ℕ
type_name name none = name
type_name name (some demangled) = demangled

-- The line before the backtrace.
abbrev pub headline : List ℕ → Option (List ℕ) → List ℕ → List ℕ
headline name demangled info = type_name name demangled ++ (codes ": " ++ (info ++ 10 ∷ []))

abbrev after_backtrace : List ℕ → Outcome Exception (List ℕ) → List ℕ × Ending
after_backtrace head (ok text) = (head ++ text, exits)
after_backtrace head (throw e) = (head, aborts)
after_backtrace head abort = (head, aborts)
after_backtrace head fault = (head, crashes)

module _ (l : Loader) (k : Pipes) (fuel : ℕ) where
  -- What is written to `std::cout`, and the end.
  unfoldable pub terminate_handler : Current → List ℕ × Ending
  terminate_handler nothing = ([], exits)
  terminate_handler foreign = ([], aborts)
  terminate_handler (of_npp name demangled info symbols) =
      after_backtrace (headline name demangled info) (print_backtrace l k fuel symbols)
  terminate_handler (of_std what) = (codes "Caught exception \"" ++ (what ++ codes "\"\n"), exits)

module _ (l : Loader) (k : Pipes) (healthy : IsHealthy k) (fuel : ℕ) where
  open k use {State}

  length-lines_of :
      (fs : List (Frame × ℕ × State)) → length (lines_of l k healthy fuel fs) ≡ length fs
  length-lines_of [] = refl
  length-lines_of (f ∷ fs) = ap suc (length-lines_of fs)

  -- An exception of the program whose frames can all be resolved: the handler writes the name of the
  -- type and `info`, the number of frames, and what addr2line prints for each of them, in order, and
  -- then exits.
  pub terminate_handler-outputs :
      (name info : List ℕ) (demangled : Option (List ℕ)) (fs : List (Frame × ℕ × State))
      → All (λ (p : Frame × ℕ × State). IsPrinted l k healthy fuel p.0 p.1 p.2) fs
      → terminate_handler l k fuel (of_npp name demangled info (lines_of l k healthy fuel fs)) ≡ (
        type_name name demangled
            ++ (codes ": " ++ (info ++ 10 ∷ []))
            ++ (codes "Obtained "
                ++ (l.print_number (length fs)
                    ++ (codes " stack frames.\n" ++ (outputs l k healthy fuel fs ++ 10 ∷ [])))),
        exits,
      )
  unfolding terminate_handler print_backtrace
  terminate_handler-outputs name info demangled fs h =
      rw (print_frames-outputs l k healthy fuel fs h, length-lines_of fs) refl
