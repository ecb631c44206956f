-- ===== src/Basic/Signal.antt =====
-- src/basic/Exception.cpp: the construction of exceptions, the handler of signals and
-- `initExceptionHandler`. The numbers of signals are those of Linux.
use npp.Common.{
  ℕ, Bool, true, false, Option, none, some, List, [], ◌∷◌, ◌++◌, length, take, ◌==◌, if◌then◌else◌,
}
use npp.Basic.Command.{Pipes, IsHealthy}
use npp.Basic.Backtrace.{Loader, codes}
use npp.Basic.Backtrace.Frames.{Frame, outputs}
use npp.Basic.Terminate.{Current, Ending, of_npp, type_name, terminate_handler}

abbrev pub dump_size : ℕ
dump_size = 128

-- An exception of the program, with the name of its type: `backtrace` gives the innermost frames of the
-- stack, as many as `array` has room for.
unfoldable pub make_exception : List ℕ → Option (List ℕ) → List ℕ → List (List ℕ) → Current
make_exception name demangled info stack = of_npp name demangled info (take dump_size stack)

unfoldable pub make_default : List ℕ → Option (List ℕ) → List (List ℕ) → Current
unfolding make_exception
make_default name demangled stack = make_exception name demangled (codes "no info") stack

-- What the process does with an exception that nobody catches, and with a signal: the action of the
-- system, or the handler of the program.
pub record Handlers : Type 0 where
  pub terminates : Bool
  pub action : ℕ → Bool

unfoldable pub set_terminate : Handlers → Handlers
set_terminate h = record h { terminates = true }

unfoldable pub sigaction : ℕ → Handlers → Handlers
sigaction signum h = record h { action = λ x. if x == signum then true else h.action x }

-- SIGSEGV, SIGFPE, SIGINT, SIGILL, SIGTERM and SIGABRT, in this order.
unfoldable pub init_exception_handler : Handlers → Handlers
unfolding set_terminate sigaction
init_exception_handler h =
    sigaction 6
      (sigaction 15 (sigaction 4 (sigaction 2 (sigaction 8 (sigaction 11 (set_terminate h))))))

-- Whether `initExceptionHandler` names the signal.
abbrev pub handled : List ℕ
handled = 2 ∷ 4 ∷ 6 ∷ 8 ∷ 11 ∷ 15 ∷ []

abbrev pub among : ℕ → List ℕ → Bool
among x [] = false
among x (y ∷ ys) = if x == y then true else among x ys

-- `strsignal`, and the names of `SignalException`.
module _ (strsignal : ℕ → List ℕ) (name : List ℕ) (demangled : Option (List ℕ)) where
  -- A `SignalException`, which `signal_handler` throws.
  unfoldable pub make_signal : ℕ → List (List ℕ) → Current
  unfolding make_exception
  make_signal signum stack = make_exception name demangled (strsignal signum) stack

  unfoldable pub signal_handler : ℕ → List (List ℕ) → Current
  unfolding make_signal
  signal_handler signum stack = make_signal signum stack

  -- A signal that arrives while these frames are on the stack: what is thrown, if the handler of the
  -- program is called.
  unfoldable pub raise : Handlers → ℕ → List (List ℕ) → Option Current
  raise h signum stack = if h.action signum then some (signal_handler signum stack) else none

-- An exception that nobody catches: what is written and how the process ends, if the handler of the
-- program is called.
unfoldable pub terminate : Loader → Pipes → ℕ → Handlers → Option Current → Option (List ℕ × Ending)
terminate l k fuel h none = none
terminate l k fuel h (some c) = if h.terminates then some (terminate_handler l k fuel c) else none

module _ (l : Loader) (k : Pipes) (healthy : IsHealthy k) (fuel : ℕ) where
  open k use {State}

  -- The text of an exception that nobody catches.
  abbrev pub report_of : List ℕ → List ℕ → Option (List ℕ) → List (Frame × ℕ × State) → List ℕ
  report_of info name demangled fs =
      type_name name demangled
      ++ (codes ": " ++ (info ++ 10 ∷ []))
      ++ (codes "Obtained "
          ++ (l.print_number (length fs)
              ++ (codes " stack frames.\n" ++ (outputs l k healthy fuel fs ++ 10 ∷ []))))
