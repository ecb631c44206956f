-- ===== src/Task/Handle/Ownership.antt =====
-- src/task/Task.h: who owns the frame of a coroutine.
use npp.Common.{ℕ, ◌≡◌, ◌≢◌, arith, refl, sym, subst, ◌∙◌, true, Option, none, some}
use npp.Common.Outcome.{Outcome, ok, throw, abort, fault, ◌>>=◌}
use npp.Basic.Exception.{Exception}
use npp.Task.Promise.{get_result, Promise, destroy_task}
use npp.Task.Handle.{
  live, freed, Objects, no_objects, make_task, move_task, assign_task, set_at, drop_task, result_of,
  Step, Reach, makes, moves, assigns, drops, here, next,
}
use npp.Task.Handle.Moves.{
  contains, IsOwned, make-IsOwned, assign-IsOwned, move-eq_assign, dropped_empty-IsOwned,
  dropped-IsOwned, lost-assign, overwritten,
}

ok_injective : {s t : Objects} → ◌≡◌ {A = Outcome Exception Objects} (ok s) (ok t) → s ≡ t
ok_injective e = cc

bind_ok :
    {B : Type 0} (o : Outcome Exception B) {s t : Objects} → (o >>= λ (b : B). ok s) ≡ ok t → s ≡ t
bind_ok (ok b) e = cc
bind_ok (throw x) e = cc
bind_ok abort e = cc
bind_ok fault e = cc

module _ {A : Type 0} (promises woken : ℕ → Promise A) where
  -- The state after the destructor of an object with a frame.
  abbrev pub without_task : ℕ → ℕ → Objects → Objects
  without_task x f s = record s {
    handle = set_at x none s.handle;
    frames = set_at f freed s.frames;
  }

  -- The destructor finds the frame of its object.
  drop_owned :
      (x f : ℕ) (s : Objects)
      → IsOwned s
      → s.handle x ≡ some f
      → drop_task promises woken x s
        ≡ (destroy_task (promises f) (woken f) >>= λ _. ok (without_task x f s))
  unfolding drop_task
  drop_owned x f s v h = rw (h, drop_task) (rw (v.held_live x f h) refl)

  drop-cases :
      (x : ℕ) (s t : Objects)
      → IsOwned s
      → drop_task promises woken x s ≡ ok t
      → IsOwned t × (t.lost ≡ s.lost)
  unfolding drop_task
  drop-cases x s t v e = by_handle (s.handle x) refl
    where
      by_handle : (h : Option ℕ) → s.handle x ≡ h → IsOwned t × (t.lost ≡ s.lost)
      by_handle none h =
          let gone : drop_task promises woken x s
              ≡ ok (record s { handle = set_at x none s.handle }) =
            rw (h, drop_task) refl in
          subst (λ (u : Objects). IsOwned u × (u.lost ≡ s.lost)) (ok_injective (sym gone ∙ e))
            (dropped_empty-IsOwned x s h v, refl)
      by_handle (some f) h =
          subst (λ (u : Objects). IsOwned u × (u.lost ≡ s.lost))
            (bind_ok (destroy_task (promises f) (woken f)) (sym (drop_owned x f s v h) ∙ e))
            (dropped-IsOwned x f s h v, refl)

  Step-IsOwned : {s t : Objects} → Step promises woken s t → IsOwned s → IsOwned t
  Step-IsOwned {s} (makes x f h a e) v = rw e (make-IsOwned x f s h a v)
  Step-IsOwned {s} (moves x y h e) v = rw (e, ← (move-eq_assign x y s h)) (assign-IsOwned x y s v)
  Step-IsOwned {s} (assigns x y e) v = rw e (assign-IsOwned x y s v)
  Step-IsOwned {s} {t} (drops x e) v = (drop-cases x s t v e).0

  Step-lost :
      {s t : Objects} (f : ℕ)
      → Step promises woken s t
      → IsOwned s
      → contains f s.lost ≡ true
      → contains f t.lost ≡ true
  unfolding make_task move_task
  Step-lost f (makes x g h a e) v m = rw e m
  Step-lost f (moves x y h e) v m = rw e m
  Step-lost {s} f (assigns x y e) v m = rw e (lost-assign x y f s m)
  Step-lost {s} {t} f (drops x e) v m = rw (drop-cases x s t v e).1 m

  IsOwned-keep : {s t : Objects} → IsOwned s → Reach promises woken s t → IsOwned t
  IsOwned-keep v here = v
  IsOwned-keep v (next r st) = Step-IsOwned st (IsOwned-keep v r)

  lost-keep :
      {s t : Objects} (f : ℕ)
      → IsOwned s
      → contains f s.lost ≡ true
      → Reach promises woken s t
      → contains f t.lost ≡ true
  lost-keep f v m here = m
  lost-keep f v m (next r st) = Step-lost f st (IsOwned-keep v r) (lost-keep f v m r)

  no_objects-IsOwned : IsOwned no_objects
  unfolding no_objects
  no_objects-IsOwned = record {
    one_owner = λ x y f p q. cc;
    held_live = λ x f p. cc;
    owned_or_lost = λ f p. absurd (cc);
    lost_live = λ f m. cc;
    lost_for_good = λ x f m p. cc;
  }

  -- However tasks are made, moved, assigned and dropped: no two objects own the same frame; a frame that
  -- is there is owned, or was lost by a move assignment and is then never owned again; and the
  -- destructor of an object that owns a frame finds it there, so that it destroys this frame, and no
  -- frame is destroyed twice.
  pub Reach-IsOwned :
      {s : Objects}
      → Reach promises woken no_objects s
      → IsOwned s
        × ((x f : ℕ)
            → s.handle x ≡ some f
            → drop_task promises woken x s
              ≡ (destroy_task (promises f) (woken f) >>= λ _. ok (without_task x f s)))
  Reach-IsOwned {s} r =
      let v = IsOwned-keep no_objects-IsOwned r in (v, λ x f h. drop_owned x f s v h)

  -- A move assignment to an object that owns a frame leaks it: whatever happens then, the frame is never
  -- destroyed, and no object has its handle.
  pub assigned_over_leaks :
      {s t : Objects} (x y f : ℕ)
      → Reach promises woken no_objects s
      → s.handle x ≡ some f
      → x ≢ y
      → Reach promises woken (assign_task x y s) t
      → (t.frames f ≡ live) × ((z : ℕ) → t.handle z ≢ some f)
  assigned_over_leaks {s} {t} x y f r h d r' =
      let v = assign-IsOwned x y s (IsOwned-keep no_objects-IsOwned r) in
      let m = lost-keep f v (overwritten x y f s h d) r' in
      let w = IsOwned-keep v r' in (w.lost_live f m, λ z. w.lost_for_good z f m)

  -- A move hands the result over; the object that it was taken from has no promise to ask.
  pub moved_result :
      (x y f : ℕ) (s : Objects)
      → x ≢ y
      → s.handle y ≡ some f
      → (result_of promises woken x (move_task x y s) ≡ get_result (promises f) (woken f))
        × (result_of promises woken y (move_task x y s) ≡ fault)
  unfolding result_of move_task
  moved_result x y f s d h = (ground (arith, h), ground (arith, h))
