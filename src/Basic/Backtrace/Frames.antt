-- ===== src/Basic/Backtrace/Frames.antt =====
-- src/basic/Exception.cpp: the lines of a backtrace that have the form `file(symbol+offset)tail`.
use npp.Common.{
  ℕ, ◌+◌, ◌-◌, ◌%◌, ◌^◌, ◌<◌, ◌≡◌, ◌≢◌, refl, ap, ap₂, ◌∙◌, true, false, Option, none, some, List,
  [], ◌∷◌, ◌++◌, All, length, lt→ltb, ◌==◌, arith,
}
use npp.Common.Outcome.{ok, fault, ◌>>=◌}
use npp.Basic.StackFrame.{open_parenthesis, close_parenthesis, plus, parse_strings, string_at}
use npp.Basic.StackFrame.Parts.{Inner, parse_strings_lem}
use npp.Basic.Command.{Pipes, IsHealthy}
use npp.Basic.Command.Output.{IsText, exec-eq_output}
use npp.Basic.Backtrace.{
  Loader, of_parts, resolve, add_base, calculate_offset, addr2line_command, addr2line_print,
  print_frame, print_frames,
}

pub record Frame : Type 0 where
  pub file : List ℕ
  pub symbol : List ℕ
  pub offset : List ℕ
  pub tail : List ℕ

abbrev pub line : Frame → List ℕ
line f = f.file ++ open_parenthesis ∷ (f.symbol ++ plus ∷ (f.offset ++ close_parenthesis ∷ f.tail))

-- The parts hold no zero and none of the characters that part them.
pub record IsFrame (f : Frame) : Type 0 where
  pub file : Inner f.file
  pub symbol : Inner f.symbol
  pub offset : Inner f.offset
  pub tail : Inner f.tail

module _ (l : Loader) where
  open l use {scan_pointer, dlsym, dladdr}

  of_parts_eq :
      (p : List ℕ × Option ℕ × Option ℕ) (file symbol offset : List ℕ) (i j : ℕ)
      → string_at 0 p.0 ≡ file
      → p.1 ≡ some i
      → string_at i p.0 ≡ symbol
      → p.2 ≡ some j
      → string_at j p.0 ≡ offset
      → of_parts l p ≡ resolve l symbol offset >>= λ v. ok (v, file)
  unfolding of_parts
  of_parts_eq (text, s, none) file symbol offset i j a e b g c = cc
  of_parts_eq (text, none, some j') file symbol offset i j a e b g c = cc
  of_parts_eq (text, some i', some j') file symbol offset i j a e b g c =
      let e' : i' ≡ i = cc in
      let g' : j' ≡ j = cc in
      ap₂ (λ (x y : List ℕ). resolve l x y >>= (λ (v : ℕ). ok (v, string_at 0 text)))
        (ap (λ (n : ℕ). string_at n text) e' ∙ b) (ap (λ (n : ℕ). string_at n text) g' ∙ c)
      ∙ ap (λ (x : List ℕ). resolve l symbol offset >>= (λ (v : ℕ). ok (v, x))) a

  calculate-resolve :
      (f : Frame)
      → IsFrame f
      → calculate_offset l (line f) ≡ resolve l f.symbol f.offset >>= λ v. ok (v, f.file)
  unfolding calculate_offset
  calculate-resolve f h =
      let (first, (i, s, a), (j, o, b)) =
        parse_strings_lem f.file f.symbol f.offset f.tail h.file h.symbol h.offset h.tail in
      of_parts_eq (parse_strings (line f)) f.file f.symbol f.offset i j first s a o b

  -- Where the line has this form and its offset is a number: with no symbol the address is that number;
  -- with a symbol that the loader knows it is the number plus the distance of the symbol from the base of
  -- its object; and where `dladdr` does not know the symbol the message of `dlerror` that is written is a
  -- null pointer, unless one was there before and `dlsym` has found the symbol.
  pub calculate_offset_lem :
      (f : Frame) (v : ℕ)
      → IsFrame f
      → scan_pointer f.offset ≡ some (some v)
      → l.dlopen ≡ true
      → l.has_message ≡ false
      → (f.symbol ≡ [] → calculate_offset l (line f) ≡ ok (v, f.file))
        × (f.symbol ≢ []
            → ((a saddr base : ℕ)
                → dlsym f.symbol ≡ some a
                → dladdr (some a) ≡ some (saddr, base)
                → calculate_offset l (line f) ≡ ok ((saddr + 2 ^ 64 - base + v) % 2 ^ 64, f.file))
              × (dladdr (dlsym f.symbol) ≡ none → calculate_offset l (line f) ≡ fault))
  unfolding resolve add_base
  calculate_offset_lem f v h s o m = rw (calculate-resolve f h) (
    λ e. ground (arith, e, s),
    λ n. (λ a saddr base d b. ground (arith, s, d, b, o, m), λ d. ground (arith, s, d, o, m)),
  )

module _ (l : Loader) (k : Pipes) (healthy : IsHealthy k) (fuel : ℕ) where
  open k use {State, output, popen}

  -- The address of the frame is resolved, the command fits into its buffer and can be started, and
  -- prints text.
  pub record IsPrinted (f : Frame) (address : ℕ) (s : State) : Type 0 where
    pub resolved : calculate_offset l (line f) ≡ ok (address, f.file)
    pub present : (address == 0) ≡ false
    pub fits : length (addr2line_command l address f.file) < 512
    pub starts : popen (addr2line_command l address f.file) ≡ some s
    pub enough : length (output s) < fuel
    pub text : IsText (output s)

  print_frame-output :
      (f : Frame) (address : ℕ) (s : State)
      → IsPrinted f address s
      → print_frame l k fuel (line f) ≡ ok (output s)
  unfolding print_frame addr2line_print
  print_frame-output f address s p =
      rw (p.resolved, p.present, lt→ltb _ 512 p.fits)
        ((exec-eq_output k healthy fuel (addr2line_command l address f.file)).1 s p.starts p.enough
          p.text)

  abbrev pub outputs : List (Frame × ℕ × State) → List ℕ
  outputs [] = []
  outputs ((f, address, s) ∷ fs) = output s ++ outputs fs

  abbrev pub lines_of : List (Frame × ℕ × State) → List (List ℕ)
  lines_of [] = []
  lines_of ((f, address, s) ∷ fs) = line f ∷ lines_of fs

  -- The text of a backtrace whose frames are all resolved is what the commands print for their
  -- addresses, one after the other.
  pub print_frames-outputs :
      (fs : List (Frame × ℕ × State))
      → All (λ (p : Frame × ℕ × State). IsPrinted p.0 p.1 p.2) fs
      → print_frames l k fuel (lines_of fs) ≡ ok (outputs fs)
  unfolding print_frames
  print_frames-outputs [] h = refl
  print_frames-outputs ((f, address, s) ∷ fs) (h, hs) =
      rw (print_frame-output f address s h, print_frames-outputs fs hs) refl
