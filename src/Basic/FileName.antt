-- ===== src/Basic/FileName.antt =====
-- src/basic/Logger.cpp: `file_name`, the last part of a path. A path is its characters before the
-- terminating zero.
use npp.Common.{
  ℕ, ◌≡◌, ◌≢◌, refl, sym, ap, ◌∙◌, ◌⊎◌, inl, inr, List, [], ◌∷◌, ◌++◌, All, ◌==◌, ==_iff,
  if◌then◌else◌, Bool, Bool-cases, append_assoc, subst, arith,
}

abbrev pub separator : ℕ
separator = 47

-- The loop: `file` is the tail that begins behind the last separator that has been passed.
last_part : List ℕ → List ℕ → List ℕ
last_part file [] = file
last_part file (c ∷ path) = last_part (if c == separator then path else file) path

unfoldable pub file_name : List ℕ → List ℕ
unfolding last_part
file_name path = last_part path path

-- `prefix` ends where a name may begin.
abbrev pub EndsPart : List ℕ → Type 0
EndsPart prefix = (prefix ≡ []) ⊎ ((before : List ℕ) × (prefix ≡ before ++ separator ∷ []))

abbrev pub IsPlain : List ℕ → Type 0
IsPlain = All (λ (c : ℕ). c ≢ separator)

All-append : (xs ys : List ℕ) → IsPlain xs → IsPlain ys → IsPlain (xs ++ ys)
All-append [] ys a b = b
All-append (x ∷ xs) ys a b = (a.0, All-append xs ys a.1 b)

abbrev Split : List ℕ → List ℕ → Type 0
Split whole file = (prefix : List ℕ) × (whole ≡ prefix ++ file) × EndsPart prefix × IsPlain file

Split-eq : {w w' f f' : List ℕ} → w ≡ w' → f ≡ f' → Split w f → Split w' f'
Split-eq {w' = w'} {f = f} p q s =
    subst (λ (x : List ℕ). Split w' x) q (subst (λ (x : List ℕ). Split x f) p s)

regroup :
    (prefix seen path : List ℕ) (c : ℕ)
    → ((prefix ++ seen) ++ c ∷ []) ++ path ≡ prefix ++ (seen ++ c ∷ path)
regroup prefix seen path c =
    append_assoc (prefix ++ seen) (c ∷ []) path ∙ append_assoc prefix seen (c ∷ path)

extend : (seen path : List ℕ) (c : ℕ) → (seen ++ c ∷ []) ++ path ≡ seen ++ c ∷ path
extend seen path c = append_assoc seen (c ∷ []) path

-- `prefix ++ (seen ++ path)` has been read up to `path`, with no separator in `seen`.
last_part-Split :
    (prefix seen path : List ℕ)
    → EndsPart prefix
    → IsPlain seen
    → Split (prefix ++ (seen ++ path)) (last_part (seen ++ path) path)
unfolding last_part
last_part-Split prefix seen [] e p = (prefix, refl, e, All-append seen [] p tt)
last_part-Split prefix seen (c ∷ path) e p = elim (Bool-cases (c == separator)) [
  | inl here ↦
      let ends : EndsPart ((prefix ++ seen) ++ c ∷ []) =
        inr (prefix ++ seen, ap (λ (d : ℕ). (prefix ++ seen) ++ d ∷ []) ((==_iff _ _).0 here)) in
      let rest = last_part-Split ((prefix ++ seen) ++ c ∷ []) [] path ends tt in
      Split-eq (regroup prefix seen path c)
        (ap (λ (b : Bool). last_part (if b then path else seen ++ c ∷ path) path) (sym here)) rest
  | inr other ↦
      let plain : IsPlain (seen ++ c ∷ []) =
        All-append seen (c ∷ []) p ((λ same. ground (arith, same, other)), tt) in
      let rest = last_part-Split prefix (seen ++ c ∷ []) path e plain in
      Split-eq (ap (λ (xs : List ℕ). prefix ++ xs) (extend seen path c))
        (ap (λ (xs : List ℕ). last_part xs path) (extend seen path c)
          ∙ ap (λ (b : Bool). last_part (if b then path else seen ++ c ∷ path) path) (sym other))
        rest
]

-- The name is the end of the path; it holds no separator, and what is before it is nothing or ends
-- with a separator.
pub file_name_lem :
    (path : List ℕ)
    → (prefix : List ℕ) × (path ≡ prefix ++ file_name path)
      × EndsPart prefix
      × IsPlain (file_name path)
unfolding file_name
file_name_lem path = last_part-Split [] [] path (inl refl) tt
