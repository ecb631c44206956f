-- ===== src/Task/Scheduler/Minimum.antt =====
-- A priority queue as a list in no order, whose top is the last of the items with the least time.
use mathlib.Core.List.{Perm}
use mathlib.Core.List.Perm
use npp.Common.{
  ℕ, ◌≤◌, ◌≡◌, refl, subst, Option, none, some, List, [], ◌∷◌, All, ltb, if◌then◌else◌, arith,
  Option-cases, inl, inr, Bool-cases,
}
use npp.Task.Scheduler.{DelayedExecutable, PriorityQueue}

abbrev pub Items : Type 0
Items = List DelayedExecutable

abbrev pub minimum : Items → Option DelayedExecutable
minimum [] = none
minimum (x ∷ xs) = elim (minimum xs) [
  | none ↦ some x
  | some y ↦ if ltb x.scheduled_time y.scheduled_time then some x else some y
]

abbrev pub without_minimum : Items → Items
without_minimum [] = []
without_minimum (x ∷ xs) = elim (minimum xs) [
  | none ↦ []
  | some y ↦ if ltb x.scheduled_time y.scheduled_time then xs else x ∷ without_minimum xs
]

pub minimum-none : (q : Items) → minimum q ≡ none → q ≡ []
minimum-none [] h = refl
minimum-none (x ∷ xs) h = ground arith

abbrev pub Least : ℕ → Items → Type 0
Least n q = All (λ (x : DelayedExecutable). n ≤ x.scheduled_time) q

Least-mono : (m n : ℕ) (q : Items) → m ≤ n → Least n q → Least m q
Least-mono m n [] h a = tt
Least-mono m n (x ∷ xs) h a = (omega arith, Least-mono m n xs h a.1)

pub minimum-Least :
    (q : Items) (e : DelayedExecutable) → minimum q ≡ some e → Least e.scheduled_time q
minimum-Least [] e h = cc
minimum-Least (x ∷ xs) e h = elim (Option-cases (minimum xs)) [
  | inl n ↦ ground (arith, n, minimum-none xs n)
  | inr (y, k) ↦
      ground (arith, k, minimum-Least xs y k, Least-mono x.scheduled_time y.scheduled_time xs)
]

perm_eq : {xs ys : Items} → xs ≡ ys → Perm xs ys
perm_eq {xs} e = subst (Perm xs) e (Perm.refl xs)

pub without_minimum-perm :
    (q : Items) (e : DelayedExecutable) → minimum q ≡ some e → Perm q (e ∷ without_minimum q)
without_minimum-perm [] e h = cc
without_minimum-perm (x ∷ xs) e h = elim (Option-cases (minimum xs)) [
  | inl n ↦ perm_eq (ground (arith, n, minimum-none xs n))
  | inr (y, k) ↦ elim (Bool-cases (ltb x.scheduled_time y.scheduled_time)) [
    | inl less ↦ perm_eq (ground (arith, k, less))
    | inr more ↦
        Perm.trans (Perm.cons x (without_minimum-perm xs y k))
          (Perm.trans (Perm.swap y x _) (perm_eq (ground (arith, k, more))))
  ]
]

abbrev pub minimum_queue : PriorityQueue
minimum_queue = record {
  Queue = Items;
  items = λ q. q;
  empty = [];
  top = minimum;
  push = λ q e. e ∷ q;
  pop = without_minimum;
  items-empty = refl;
  top-none = minimum-none;
  top-least = minimum-Least;
  push-perm = λ q e. Perm.refl (e ∷ q);
  pop-perm = without_minimum-perm;
}
