-- ===== src/Basic/Command/Output.antt =====
-- src/basic/Utils.cpp: what `exec` returns against what the command prints.
use npp.Common.{
  ℕ, zero, suc, ◌<◌, ◌≡◌, ◌≢◌, refl, sym, ap, ◌∙◌, subst, none, some, Option-cases, inl, inr, List,
  [], ◌∷◌, ◌++◌, All, length, length-append, append_assoc, append-nil, arith,
}
use npp.Common.Outcome.{ok, throw}
use npp.Basic.StackFrame.{until_zero}
use npp.Basic.Command.{Pipes, IsHealthy, buffer_size, popen_failed, read_lines, exec}

-- Text has no zero bytes.
abbrev pub IsText : List ℕ → Type 0
IsText = All (λ (c : ℕ). c ≢ 0)

until_zero-IsText : (xs : List ℕ) → IsText xs → until_zero (xs ++ 0 ∷ []) ≡ xs
until_zero-IsText [] h = refl
until_zero-IsText (c ∷ xs) (h, hs) = ground (arith, until_zero-IsText xs hs)

IsText-split : (xs ys : List ℕ) → IsText (xs ++ ys) → IsText xs × IsText ys
IsText-split [] ys h = (tt, h)
IsText-split (c ∷ xs) ys (h, hs) = let (a, b) = IsText-split xs ys hs in ((h, a), b)

module _ (k : Pipes) (healthy : IsHealthy k) where
  open k use {State, output, popen, gets}

  last_pass :
      (fuel : ℕ) (s : State) (result : List ℕ)
      → gets s buffer_size ≡ none
      → read_lines k (suc fuel) s result ≡ ok (result ++ output s)
  unfolding read_lines
  last_pass fuel s result n =
      rw (n, read_lines)
        (ap ok (
          sym (append-nil result) ∙ ap (◌++◌ result) (sym (healthy s buffer_size (omega arith) n))))

  pass :
      (fuel : ℕ) (s s' : State) (result bs : List ℕ)
      → gets s buffer_size ≡ some (bs, s')
      → IsText bs
      → read_lines k (suc fuel) s result ≡ read_lines k fuel s' (result ++ bs)
  unfolding read_lines
  pass fuel s s' result bs e h =
      rw (e, read_lines)
        (ap (λ (l : List ℕ). read_lines k fuel s' (result ++ l)) (until_zero-IsText bs h))

  read_lines-output :
      (fuel : ℕ) (s : State) (result : List ℕ)
      → length (output s) < fuel
      → IsText (output s)
      → read_lines k fuel s result ≡ ok (result ++ output s)
  read_lines-output zero s result f h = absurd (omega arith)
  read_lines-output (suc fuel) s result f h = elim (Option-cases (gets s buffer_size)) [
    | inl n ↦ last_pass fuel s result n
    | inr ((bs, s'), e) ↦
        let (came, fits, sp) = k.gets_some s s' buffer_size bs e in
        let (here, later) = IsText-split bs (output s') (subst IsText sp h) in
        pass fuel s s' result bs e here
        ∙ (read_lines-output fuel s' (result ++ bs)
              (omega (arith, ap length sp, length-append bs (output s'))) later
            ∙ ap ok (append_assoc result bs (output s') ∙ ap (◌++◌ result) (sym sp)))
  ]

  -- Where no read fails, `exec` is the function that gives all that a command prints, if this is text,
  -- and throws where the command cannot be started; as many passes as bytes, and one more, are enough.
  pub exec-eq_output :
      (fuel : ℕ) (cmd : List ℕ)
      → (popen cmd ≡ none → exec k fuel cmd ≡ throw popen_failed)
        × ((s : State)
            → popen cmd ≡ some s
            → length (output s) < fuel
            → IsText (output s)
            → exec k fuel cmd ≡ ok (output s))
  unfolding exec
  exec-eq_output fuel cmd =
      (λ n. rw (n, exec) refl, λ s e f t. rw (e, exec) (read_lines-output fuel s [] f t))
