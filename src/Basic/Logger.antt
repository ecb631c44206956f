-- ===== src/Basic/Logger.antt =====
-- src/basic/Logger.h and src/basic/Logger.cpp: what a logger writes. `fmt::format` and the clock belong to
-- libraries: a formatted text and a time are given as characters.
pub mod Lines
use npp.Common.{ℕ, ◌≡◌, Bool, true, false, Option, none, some, List, [], ◌∷◌, ◌++◌, if◌then◌else◌}
use npp.Basic.Backtrace.{codes}
use npp.Basic.FileName.{file_name}

pub record Logger : Type 0 where
  pub prefix : List ℕ
  pub time : Bool

unfoldable pub create : List ℕ → Bool → Logger
create name show_time = record { prefix = name; time = show_time }

unfoldable pub set_prefix : Logger → List ℕ → Logger
set_prefix l s = record l { prefix = s }

-- The texts that are streamed, in order.
abbrev pub join : List (List ℕ) → List ℕ
join [] = []
join (t ∷ ts) = t ++ join ts

abbrev prefix_texts : List ℕ → List (List ℕ)
prefix_texts [] = []
prefix_texts (c ∷ cs) = (c ∷ cs) ∷ []

-- What `print` writes of a text at a time, one `<<` after the other.
unfoldable pub print_texts : Logger → List ℕ → List ℕ → List (List ℕ)
print_texts l now text =
    prefix_texts l.prefix
    ++ ((if l.time then codes "[" ∷ now ∷ codes "]" ∷ [] else []) ++ text ∷ codes "\n" ∷ [])

-- `info`, `warning`, `error` and `debug`, up to the call of `print` with one text. `line` is the number
-- of the line as it is printed.
pub data Message : Type 0 where
  info warning error : List ℕ → Message
  debug : Option (List ℕ) → List ℕ → List ℕ → Message

unfoldable pub text_of : Message → List ℕ
text_of (info t) = join (codes "[INFO] " ∷ t ∷ [])
text_of (warning t) = join (codes "[WARNING] " ∷ t ∷ [])
text_of (error t) = join (codes "[ERROR] " ∷ t ∷ [])
text_of (debug none line t) = join (codes "[DEBUG] " ∷ t ∷ [])
text_of (debug (some file) line t) =
    join (codes "[DEBUG] " ∷ (file_name file ++ (codes ":" ++ (line ++ codes " "))) ∷ t ∷ [])

-- The stream of all loggers, and who holds `write_lock`: what it still has to write. `begun` is a record
-- of the lines whose printing has begun.
pub record Stream : Type 0 where
  pub holder : Option (List (List ℕ))
  pub output : List ℕ
  pub begun : List (List ℕ)

unfoldable pub start : Stream
start = record { holder = none; output = []; begun = [] }

-- `print` of any logger on any thread: it takes the lock, writes its texts, and releases the lock.
unfoldable pub lock : Stream → Logger → List ℕ → Message → Stream
lock s l now m = elim s.holder [
  | none ↦ record s {
    holder = some (print_texts l now (text_of m));
    begun = s.begun ++ join (print_texts l now (text_of m)) ∷ [];
  }
  | some texts ↦ s
]

unfoldable pub write : Stream → Stream
write s = elim s.holder [
  | none ↦ s
  | some texts ↦ elim texts [
    | [] ↦ record s { holder = none }
    | t ∷ ts ↦ record s { holder = some ts; output = s.output ++ t }
  ]
]

pub data Step (s t : Stream) : Type 0 where
  locks : (l : Logger) (now : List ℕ) (m : Message) → t ≡ lock s l now m → Step s t
  writes : t ≡ write s → Step s t

pub data Reach (s : Stream) : Stream → Type 0 where
  here : Reach s s
  next : {t u : Stream} → Reach s t → Step t u → Reach s u
