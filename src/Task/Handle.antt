-- ===== src/Task/Handle.antt =====
-- src/task/Task.h: the objects of class `Task`, which own the frames of coroutines. An object and a frame
-- are addresses; the promise of a frame is found in a store of the promises.
pub mod Moves
pub mod Ownership
use npp.Common.{ℕ, ◌+◌, ◌≡◌, ◌≢◌, Option, none, some, List, [], ◌∷◌, ◌==◌, if◌then◌else◌}
use npp.Common.Outcome.{Outcome, ok, fault, ◌>>=◌}
use npp.Basic.Exception.{Exception}
use npp.Task.Promise.{Promise, get_result, destroy_task}

-- A frame that is not made yet, that is there, or that is destroyed.
pub data Frame : Type 0 where
  absent live freed : Frame

-- `handle` is the member of each object, null for one that does not exist. `lost` is a record of the
-- frames whose handle was written over.
pub record Objects : Type 0 where
  pub handle : ℕ → Option ℕ
  pub frames : ℕ → Frame
  pub lost : List ℕ

unfoldable pub no_objects : Objects
no_objects = record { handle = λ x. none; frames = λ f. absent; lost = [] }

abbrev pub set_at {ℓ} : {B : Type ℓ} → ℕ → B → (ℕ → B) → ℕ → B
set_at x b g y = if y == x then b else g y

-- `Task(std::coroutine_handle)`, for a new frame.
unfoldable pub make_task : ℕ → ℕ → Objects → Objects
make_task x f s = record s { handle = set_at x (some f) s.handle; frames = set_at f live s.frames }

-- `std::exchange(task.handle, {})` gives the handle of `y`, which is null afterwards, and then the
-- member of `x` is written.
unfoldable pub take_handle : ℕ → ℕ → Objects → Objects
take_handle x y s = record s { handle = set_at x (s.handle y) (set_at y none s.handle) }

-- `Task(Task &&)` makes the object `x`; `operator=(Task &&)` is on one that is there.
unfoldable pub move_task : ℕ → ℕ → Objects → Objects
unfolding take_handle
move_task x y s = take_handle x y s

abbrev lose : Option ℕ → List ℕ → List ℕ
lose none fs = fs
lose (some f) fs = f ∷ fs

unfoldable pub assign_task : ℕ → ℕ → Objects → Objects
unfolding take_handle
assign_task x y s = record (take_handle x y s) {
  lost = if x == y then s.lost else lose (s.handle x) s.lost;
}

-- `handle.destroy()`: undefined where the frame is not there.
unfoldable pub destroy_frame : ℕ → Objects → Outcome Exception Objects
destroy_frame f s = elim (s.frames f) [
  | live ↦ ok (record s { frames = set_at f freed s.frames })
  | absent ↦ fault
  | freed ↦ fault
]

module _ {A : Type 0} (promises woken : ℕ → Promise A) where
  -- `~Task`: the object is gone. `woken` has the promises when `get_result` has waited.
  unfoldable pub drop_task : ℕ → Objects → Outcome Exception Objects
  unfolding destroy_frame
  drop_task x s =
      let gone = record s { handle = set_at x none s.handle } in
      elim (s.handle x) [
        | none ↦ ok gone
        | some f ↦ destroy_task (promises f) (woken f) >>= λ _. destroy_frame f gone
      ]

  -- A method of an object; `handle.promise()` of a null handle is undefined.
  unfoldable pub result_of : ℕ → Objects → Outcome Exception A
  result_of x s = elim (s.handle x) [ none ↦ fault | some f ↦ get_result (promises f) (woken f) ]

  -- An object is made only where there is none: at an address with a null handle.
  pub data Step (s t : Objects) : Type 0 where
    makes : (x f : ℕ) → s.handle x ≡ none → s.frames f ≡ absent → t ≡ make_task x f s → Step s t
    moves : (x y : ℕ) → s.handle x ≡ none → t ≡ move_task x y s → Step s t
    assigns : (x y : ℕ) → t ≡ assign_task x y s → Step s t
    drops : (x : ℕ) → drop_task x s ≡ ok t → Step s t

  pub data Reach (s : Objects) : Objects → Type 0 where
    here : Reach s s
    next : {t u : Objects} → Reach s t → Step t u → Reach s u
