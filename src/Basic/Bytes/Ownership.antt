-- ===== src/Basic/Bytes/Ownership.antt =====
-- src/basic/Bytes.cpp: who owns which array.
use npp.Common.{ℕ, suc, ◌<◌, ◌≡◌, ◌≢◌, refl, none, some, length, arith, take-all}
use npp.Common.Outcome.{ok, Returns, Returns-of_eq}
use npp.Basic.Bytes.{Cell, Heap, Bytes, deepcopy, destroy, move_assign, move_assign_self, update}

-- A buffer that owns its array, which is of its size and older than the next one.
pub record Owns (h : Heap) (b : Bytes) (p : ℕ) (c : Cell) : Type 0 where
  pub points : b.pointer ≡ some p
  pub allocated : h.cell p ≡ some c
  pub sized : b.size ≡ length c
  pub old : p < h.next

deepcopy-eq :
    (h : Heap) (b : Bytes) (p : ℕ) (c : Cell)
    → Owns h b p c
    → 0 < length c
    → deepcopy b h
      ≡ ok (
        record { size = length c; pointer = some h.next },
        record { cell = update h.cell h.next (some c); next = suc h.next },
      )
unfolding deepcopy
deepcopy-eq h b p c o n = ground (arith, take-all (length c) c)

destroy-eq :
    (b : Bytes) (h : Heap) (p : ℕ) (c : Cell)
    → b.pointer ≡ some p
    → h.cell p ≡ some c
    → destroy b h ≡ ok (record h { cell = update h.cell p none })
unfolding destroy
destroy-eq b h p c e k = ground arith

-- `deepcopy` of a buffer that owns a non-empty array gives one that owns a new array with the same
-- bytes, and leaves the old one; the original can then be destroyed, and the copy keeps its bytes.
pub deepcopy-Owns :
    (h : Heap) (b : Bytes) (p : ℕ) (c : Cell)
    → Owns h b p c
    → 0 < length c
    → Returns
        (λ r.
          Owns r.1 r.0 h.next c
          × Owns r.1 b p c
          × (p ≢ h.next)
          × Returns (λ g. Owns g r.0 h.next c × (g.cell p ≡ none)) (destroy b r.1))
        (deepcopy b h)
deepcopy-Owns h b p c o n = Returns-of_eq _ (deepcopy-eq h b p c o n) (
  ground arith,
  ground arith,
  omega arith,
  Returns-of_eq _ (destroy-eq b _ p c o.points (ground arith)) (ground arith, ground arith),
)

-- The move assignment of one buffer to another takes over the other's array and leaves the other
-- empty; but the array that the first one owned stays allocated and nobody points to it, and a buffer
-- assigned to itself loses its own array.
pub move_assign_leaks :
    (h : Heap) (a b : Bytes) (p q : ℕ) (c d : Cell)
    → Owns h a p c
    → Owns h b q d
    → p ≢ q
    → let (a', b') = move_assign a b in
      Owns h a' q d
      × (b'.pointer ≡ none)
      × (b'.size ≡ 0)
      × (h.cell p ≡ some c)
      × (a'.pointer ≢ some p)
      × ((move_assign_self a).pointer ≡ none)
unfolding move_assign move_assign_self
move_assign_leaks h a b p q c d oa ob ne = (ob, refl, refl, oa.allocated, ground arith, refl)
