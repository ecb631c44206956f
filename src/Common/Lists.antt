-- ===== src/Common/Lists.antt =====
-- Lists measured and indexed by native numbers, under the library's names.
use Prim.Native.Nat.{ℕ, zero, suc, ◌+◌, ◌-◌, ◌≤◌, min}
use mathlib.Core.Path.{◌≡◌, refl, sym, ap, ap₂, ◌∙◌}
use mathlib.Core.List.{List, [], ◌∷◌, ◌++◌, map, append_assoc}
use native.Mathlib.Omega.{arith}

module _ {ℓ} {A : Type ℓ} where
  cons_head : {x y : A} {xs ys : List A} → x ∷ xs ≡ y ∷ ys → x ≡ y
  cons_head e = cc

  cons_tail : {x y : A} {xs ys : List A} → x ∷ xs ≡ y ∷ ys → xs ≡ ys
  cons_tail e = cc

  abbrev pub length : List A → ℕ
  length [] = 0
  length (x ∷ xs) = suc (length xs)

  abbrev pub take : ℕ → List A → List A
  take zero xs = []
  take (suc n) [] = []
  take (suc n) (x ∷ xs) = x ∷ take n xs

  abbrev pub drop : ℕ → List A → List A
  drop zero xs = xs
  drop (suc n) [] = []
  drop (suc n) (x ∷ xs) = drop n xs

  abbrev pub replicate : ℕ → A → List A
  replicate zero a = []
  replicate (suc n) a = a ∷ replicate n a

  abbrev pub All {κ} : (A → Type κ) → List A → Type κ
  All P [] = Unit {κ}
  All P (x ∷ xs) = P x × All P xs

  pub length-append : (xs ys : List A) → length (xs ++ ys) ≡ length xs + length ys
  length-append [] ys = omega arith
  length-append (x ∷ xs) ys = omega (arith, length-append xs ys)

  pub take-append-drop : (n : ℕ) (xs : List A) → take n xs ++ drop n xs ≡ xs
  take-append-drop zero xs = refl
  take-append-drop (suc n) [] = refl
  take-append-drop (suc n) (x ∷ xs) = rw (take-append-drop n xs)

  pub length-take : (n : ℕ) (xs : List A) → length (take n xs) ≡ min n (length xs)
  length-take zero xs = omega arith
  length-take (suc n) [] = omega arith
  length-take (suc n) (x ∷ xs) = omega (arith, length-take n xs)

  pub length-drop : (n : ℕ) (xs : List A) → length (drop n xs) ≡ length xs - n
  length-drop zero xs = omega arith
  length-drop (suc n) [] = omega arith
  length-drop (suc n) (x ∷ xs) = omega (arith, length-drop n xs)

  pub length-replicate : (n : ℕ) (a : A) → length (replicate n a) ≡ n
  length-replicate zero a = refl
  length-replicate (suc n) a = ap suc (length-replicate n a)

  pub take-length-append : (xs ys : List A) → take (length xs) (xs ++ ys) ≡ xs
  take-length-append [] ys = refl
  take-length-append (x ∷ xs) ys = ap (◌∷◌ x) (take-length-append xs ys)

  pub drop-length-append : (xs ys : List A) → drop (length xs) (xs ++ ys) ≡ ys
  drop-length-append [] ys = refl
  drop-length-append (x ∷ xs) ys = drop-length-append xs ys

  pub take-all : (n : ℕ) (xs : List A) → length xs ≤ n → take n xs ≡ xs
  take-all zero [] h = refl
  take-all zero (x ∷ xs) h = absurd (omega arith)
  take-all (suc n) [] h = refl
  take-all (suc n) (x ∷ xs) h = ap (◌∷◌ x) (take-all n xs (omega arith))

  -- Two equations between what went out and what is left, joined.
  pub append_chain :
      (d d' a x y u v : List A)
      → d ++ x ≡ a ++ u
      → d' ++ y ≡ x ++ v
      → (d ++ d') ++ y ≡ a ++ (u ++ v)
  append_chain d d' a x y u v p q =
      append_assoc d d' y
      ∙ (ap (◌++◌ d) q
          ∙ (sym (append_assoc d x v) ∙ (ap (λ (l : List A). l ++ v) p ∙ append_assoc a u v)))

  pub drop-append : (n k : ℕ) (xs ys : List A) → n ≡ length xs → drop (n + k) (xs ++ ys) ≡ drop k ys
  drop-append n k [] ys e = ap (λ (j : ℕ). drop j ys) (omega arith)
  drop-append n k (x ∷ xs) ys e =
      ap (λ (j : ℕ). drop j (x ∷ xs ++ ys)) one_more ∙ drop-append (length xs) k xs ys refl
    where
      one_more : n + k ≡ suc (length xs + k)
      one_more = omega arith

  pub drop-replicate : (k m : ℕ) (a : A) → drop k (replicate (k + m) a) ≡ replicate m a
  drop-replicate zero m a = ap (λ (j : ℕ). replicate j a) (omega arith)
  drop-replicate (suc k) m a =
      ap (λ (j : ℕ). drop (suc k) (replicate j a)) one_more ∙ drop-replicate k m a
    where
      one_more : suc k + m ≡ suc (k + m)
      one_more = omega arith

  -- Where two splits of a list agree, and the second cuts no later than the first.
  pub append_split :
      (xs ys us vs : List A)
      → xs ++ ys ≡ us ++ vs
      → length us ≤ length xs
      → (t : List A) × (xs ≡ us ++ t) × (vs ≡ t ++ ys)
  append_split xs ys [] vs e h = (xs, refl, sym e)
  append_split [] ys (u ∷ us) vs e h = absurd (omega arith)
  append_split (x ∷ xs) ys (u ∷ us) vs e h =
      let (t, p, q) = append_split xs ys us vs (cons_tail e) (omega arith) in
      (t, ap₂ ◌∷◌ (cons_head e) p, q)

module _ {ℓ κ} {A : Type ℓ} {B : Type κ} where
  pub length-map : (f : A → B) (xs : List A) → length (map f xs) ≡ length xs
  length-map f [] = refl
  length-map f (x ∷ xs) = ap suc (length-map f xs)
