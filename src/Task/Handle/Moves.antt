-- ===== src/Task/Handle/Moves.antt =====
-- src/task/Task.h: what each operation does to the owners of frames.
use npp.Common.{
  ℕ, ◌≡◌, ◌≢◌, refl, ◌⊎◌, inl, inr, Bool, true, false, none, some, List, [], ◌∷◌, ◌||◌, ◌==◌,
  ==_refl, Bool-cases, arith,
}
use npp.Task.Handle.{absent, live, freed, Objects, make_task, move_task, assign_task, set_at}

abbrev pub contains : ℕ → List ℕ → Bool
contains f [] = false
contains f (x ∷ xs) = f == x || contains f xs

pub record IsOwned (s : Objects) : Type 0 where
  pub one_owner : (x y f : ℕ) → s.handle x ≡ some f → s.handle y ≡ some f → x ≡ y
  pub held_live : (x f : ℕ) → s.handle x ≡ some f → s.frames f ≡ live
  pub owned_or_lost :
      (f : ℕ) → s.frames f ≡ live → ((x : ℕ) × (s.handle x ≡ some f)) ⊎ (contains f s.lost ≡ true)
  pub lost_live : (f : ℕ) → contains f s.lost ≡ true → s.frames f ≡ live
  pub lost_for_good : (x f : ℕ) → contains f s.lost ≡ true → s.handle x ≢ some f

pub make-IsOwned :
    (x f : ℕ) (s : Objects)
    → s.handle x ≡ none
    → s.frames f ≡ absent
    → IsOwned s
    → IsOwned (make_task x f s)
unfolding make_task
make-IsOwned x f s h a v = record {
  one_owner = λ y z g p q. ground (arith, v.one_owner y z g, v.held_live y g, v.held_live z g);
  held_live = λ y g p. ground (arith, v.held_live y g);
  owned_or_lost = λ g p. elim (Bool-cases (g == f)) [
    | inl same ↦ inl (x, ground arith)
    | inr other ↦ elim (v.owned_or_lost g (ground arith)) [
      | inl (y, e) ↦ inl (y, ground arith)
      | inr m ↦ inr m
    ]
  ];
  lost_live = λ g m. ground (arith, v.lost_live g);
  lost_for_good = λ y g m p. ground (arith, v.lost_live g, v.lost_for_good y g);
}

pub assign-IsOwned : (x y : ℕ) (s : Objects) → IsOwned s → IsOwned (assign_task x y s)
unfolding assign_task
assign-IsOwned x y s v = record {
  one_owner = λ a b f p q. ground (arith, v.one_owner a b f, v.one_owner a y f, v.one_owner y b f);
  held_live = λ a f p. ground (arith, v.held_live a f, v.held_live y f);
  owned_or_lost = λ f p. elim (v.owned_or_lost f p) [
    | inr m ↦ inr (ground arith)
    | inl (z, e) ↦ elim (Bool-cases (z == y)) [
      | inl from ↦ inl (x, ground arith)
      | inr away ↦ elim (Bool-cases (z == x)) [
        | inl over ↦ inr (ground arith)
        | inr other ↦ inl (z, ground arith)
      ]
    ]
  ];
  lost_live = λ f m. ground (arith, v.lost_live f, v.held_live x f);
  lost_for_good = λ a f m p.
      ground
        (arith, v.lost_for_good a f, v.lost_for_good y f, v.one_owner a x f, v.one_owner y x f);
}

pub move-eq_assign :
    (x y : ℕ) (s : Objects) → s.handle x ≡ none → assign_task x y s ≡ move_task x y s
unfolding assign_task move_task
move-eq_assign x y s h = elim (Bool-cases (x == y)) [
  | inl same ↦ rw same refl
  | inr other ↦ rw (other, h) refl
]

-- The destructor of an object without a frame, and of one that has destroyed its frame.
pub dropped_empty-IsOwned :
    (x : ℕ) (s : Objects)
    → s.handle x ≡ none
    → IsOwned s
    → IsOwned (record s { handle = set_at x none s.handle })
dropped_empty-IsOwned x s h v = record {
  one_owner = λ a b f p q. ground (arith, v.one_owner a b f);
  held_live = λ a f p. ground (arith, v.held_live a f);
  owned_or_lost =
      λ f p. elim (v.owned_or_lost f p) [ inr m ↦ inr m | inl (z, e) ↦ inl (z, ground arith) ];
  lost_live = v.lost_live;
  lost_for_good = λ a f m p. ground (arith, v.lost_for_good a f);
}

pub dropped-IsOwned :
    (x f : ℕ) (s : Objects)
    → s.handle x ≡ some f
    → IsOwned s
    → IsOwned (record s { handle = set_at x none s.handle; frames = set_at f freed s.frames })
dropped-IsOwned x f s h v = record {
  one_owner = λ a b g p q. ground (arith, v.one_owner a b g);
  held_live = λ a g p. ground (arith, v.held_live a g, v.one_owner a x g);
  owned_or_lost = λ g p. elim (v.owned_or_lost g (ground arith)) [
    | inr m ↦ inr m
    | inl (z, e) ↦ inl (z, ground arith)
  ];
  lost_live = λ g m. ground (arith, v.lost_live g, v.lost_for_good x g);
  lost_for_good = λ a g m p. ground (arith, v.lost_for_good a g);
}

pub lost-assign :
    (x y f : ℕ) (s : Objects)
    → contains f s.lost ≡ true
    → contains f (assign_task x y s).lost ≡ true
unfolding assign_task
lost-assign x y f s m = ground arith

-- Writing over the handle of another object loses its frame.
pub overwritten :
    (x y f : ℕ) (s : Objects)
    → s.handle x ≡ some f
    → x ≢ y
    → contains f (assign_task x y s).lost ≡ true
unfolding assign_task
overwritten x y f s h d = ground (arith, ==_refl f)
