-- ===== src/Tests/BasicRuns.antt =====
-- Runs of src/basic/Bytes.cpp.
use npp.Common.{
  ℕ, ◌-◌, ◌≤◌, ◌<◌, ◌^◌, ◌≡◌, ◌≢◌, refl, none, some, [], ◌∷◌, ◌==◌, if◌then◌else◌, arith,
}
use npp.Common.Outcome.{ok, throw, fault, Returns}
use npp.Basic.Exception.{range_exception}
use npp.Basic.Bytes.{Cell, Heap, Bytes, deepcopy, destroy, move_assign, move_assign_self, set_cell}
use npp.Basic.Bytes.Set.{set_cell_checked, set_cell_wraps}
use npp.Basic.Bytes.Ownership.{Owns, deepcopy-Owns, move_assign_leaks}

abbrev three : Cell
three = some 1 ∷ some 2 ∷ none ∷ []

abbrev two : Cell
two = some 8 ∷ some 9 ∷ []

set_middle : set_cell 3 three two 1 ≡ ok (some 1 ∷ some 8 ∷ some 9 ∷ [])
unfolding set_cell
set_middle = refl

set_cell_checked_example :
    (3 ≤ 3 → set_cell 3 three two 1 ≡ ok (some 1 ∷ some 8 ∷ some 9 ∷ []))
    × (3 < 3 → set_cell 3 three two 1 ≡ throw range_exception)
set_cell_checked_example = set_cell_checked three two 1 (omega arith)

set_cell_wraps_example : set_cell 3 three two (2 ^ 64 - 1) ≡ fault
set_cell_wraps_example =
    set_cell_wraps three two (2 ^ 64 - 1) (omega arith) (omega arith) (omega arith) (omega arith)

abbrev heap : Heap
heap = record {
  cell = λ p. if p == 0 then some three else (if p == 1 then some two else none);
  next = 2;
}

abbrev first : Bytes
first = record { size = 3; pointer = some 0 }

abbrev second : Bytes
second = record { size = 2; pointer = some 1 }

first-Owns : Owns heap first 0 three
first-Owns = record { points = refl; allocated = refl; sized = refl; old = omega arith }

second-Owns : Owns heap second 1 two
second-Owns = record { points = refl; allocated = refl; sized = refl; old = omega arith }

deepcopy-Owns_example :
    Returns
      (λ r.
        Owns r.1 r.0 2 three
        × Owns r.1 first 0 three
        × (◌≢◌ {A = ℕ} 0 2)
        × Returns (λ g. Owns g r.0 2 three × (g.cell 0 ≡ none)) (destroy first r.1))
      (deepcopy first heap)
deepcopy-Owns_example = deepcopy-Owns heap first 0 three first-Owns (omega arith)

move_assign_leaks_example :
    let (a', b') = move_assign first second in
    Owns heap a' 1 two
    × (b'.pointer ≡ none)
    × (b'.size ≡ 0)
    × (heap.cell 0 ≡ some three)
    × (a'.pointer ≢ some 0)
    × ((move_assign_self first).pointer ≡ none)
move_assign_leaks_example =
    move_assign_leaks heap first second 0 1 three two first-Owns second-Owns (omega arith)
