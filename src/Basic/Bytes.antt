-- ===== src/Basic/Bytes.antt =====
-- src/basic/Bytes.h and src/basic/Bytes.cpp: an owned buffer, over an explicit heap. `size_t` has 64
-- bits. A byte that nothing has written yet is `none`.
pub mod Set
pub mod Ownership
use npp.Common.{
  ℕ, suc, ◌+◌, ◌%◌, ◌^◌, Bool, true, false, Option, none, some, List, [], ◌∷◌, ◌++◌, length, take,
  drop, replicate, ltb, leb, ◌==◌, if◌then◌else◌,
}
use npp.Common.Outcome.{Outcome, ok, throw, abort, fault, ◌>>=◌}
use npp.Basic.Exception.{Exception, range_exception}

abbrev pub Cell : Type 0
Cell = List (Option ℕ)

-- The arrays that `new` has given and `delete` has not taken back, by address; `next` is fresh.
pub record Heap : Type 0 where
  pub cell : ℕ → Option Cell
  pub next : ℕ

-- A null `_data` is `none`.
pub record Bytes : Type 0 where
  pub size : ℕ
  pub pointer : Option ℕ

abbrev pub M : Type 0 → Type 0
M A = Heap → Outcome Exception (A × Heap)

abbrev pub update : (ℕ → Option Cell) → ℕ → Option Cell → ℕ → Option Cell
update f p c q = if p == q then c else f q

-- `memcpy` of `source` to the bytes of `target` from `start` on, which must hold it.
unfoldable pub copy_into : Cell → Cell → ℕ → Outcome Exception Cell
copy_into target source start =
    if leb (start + length source) (length target)
    then ok (take start target ++ (source ++ drop (start + length source) target))
    else fault

-- `new unsigned char[size]` with what the constructor writes into it.
allocate : Cell → M Bytes
allocate c h = ok (
  record { size = length c; pointer = some h.next },
  record { cell = update h.cell h.next (some c); next = suc h.next },
)

-- `Bytes()`
unfoldable pub create_empty : Bytes
create_empty = record { size = 0; pointer = none }

-- `Bytes(size_t size)`
unfoldable pub create : ℕ → M Bytes
unfolding allocate
create size h = if ltb 0 size then allocate (replicate size none) h else abort

-- `Bytes(const void *data, size_t size)`, where `source` is what `data` points to, if it is not null.
unfoldable pub create_from : Option Cell → M Bytes
unfolding allocate
create_from source h = elim source [
  | none ↦ abort
  | some c ↦ if ltb 0 (length c) then allocate c h else abort
]

-- The array that a pointer leads to: null and dangling pointers are not to be read.
unfoldable pub deref : Option ℕ → M Cell
deref none h = fault
deref (some p) h = elim (h.cell p) [ none ↦ fault | some c ↦ ok (c, h) ]

-- `deepcopy`: the assertions of the constructor come before the array is read.
unfoldable pub deepcopy : Bytes → M Bytes
unfolding create_from deref
deepcopy b h =
    if ltb 0 b.size
    then elim b.pointer [
      | none ↦ abort
      | some p ↦ deref (some p) h >>= λ r. create_from (some (take b.size r.0)) r.1
    ]
    else abort

-- The move constructor, and the value that it leaves behind.
unfoldable pub move : Bytes → Bytes × Bytes
move other = (other, record { size = 0; pointer = none })

-- `a = std::move(b)`, for two objects and for one object with itself.
unfoldable pub move_assign : Bytes → Bytes → Bytes × Bytes
move_assign this other = (other, record { size = 0; pointer = none })

unfoldable pub move_assign_self : Bytes → Bytes
move_assign_self this = record { size = 0; pointer = none }

-- The destructor: `delete[]` of null does nothing, of what is not allocated it is undefined.
unfoldable pub destroy : Bytes → Heap → Outcome Exception Heap
destroy b h = elim b.pointer [
  | none ↦ ok h
  | some p ↦ elim (h.cell p) [
    | none ↦ fault
    | some c ↦ ok (record h { cell = update h.cell p none })
  ]
]

-- `set`, on the array itself: the sum of the guard wraps.
unfoldable pub set_cell : ℕ → Cell → Cell → ℕ → Outcome Exception Cell
unfolding copy_into
set_cell size target source start =
    if ltb size ((start + length source) % 2 ^ 64)
    then throw range_exception
    else copy_into target source start

unfoldable pub set : Bytes → Cell → ℕ → Heap → Outcome Exception Heap
unfolding deref set_cell
set b source start h = elim b.pointer [
  | none ↦ set_cell b.size [] source start >>= λ c. ok h
  | some p ↦ deref (some p) h >>= λ r.
      set_cell b.size r.0 source start >>= λ c. ok (record h { cell = update h.cell p (some c) })
]
