-- ===== src/Task/Scheduler/Late.antt =====
-- src/task/Scheduler.h: the jobs of one function are for times from a given time on.
use mathlib.Core.List.{Mem, mem-cons, mem-cons_of_mem, mem-cons_self, not-mem-nil}
use mathlib.Core.List.Perm
use mathlib.Core.Logic.Or
use native.Mathlib.Bridge.{le_prop}
use npp.Common.{
  ℕ, ◌+◌, ◌≤◌, ◌≡◌, ◌≢◌, refl, sym, Bool, if◌then◌else◌, subst, true, false, some, List, [], ◌∷◌,
  ◌++◌, All, Option-cases, Bool-cases, inl, inr, arith,
}
use npp.Task.Scheduler.{
  DelayedExecutable, PriorityQueue, Phase, testing, locking, waiting, woken, exited, faulted, timed,
  running, Scheduler, worker_step, time_out, wake, execute, deactivate, clear_queue, announce,
  Reach, works, times_out, executes, deactivates, clears, announces, notifies, wakes, ticks, here,
  next, delayed, is_early, take_top, has_items,
}

module _ (f : ℕ) {pq : PriorityQueue} where
  -- Nobody queues the job again.
  abbrev pub NoMore : {s t : Scheduler pq} → Reach pq s t → Type 0
  NoMore here = Unit {0}
  NoMore (next r (executes g d l e)) = (g ≢ f) × NoMore r
  NoMore (next r _) = NoMore r

module _ (f from : ℕ) where
  -- If the job is the sleeper's, it is for a time from `from` on.
  abbrev pub Late : DelayedExecutable → Type 0
  Late e = e.func ≡ f → from ≤ e.scheduled_time

  abbrev pub LatePhase : Phase → Type 0
  LatePhase (timed e) = Late e
  LatePhase (running e) = Late e
  LatePhase _ = Unit {0}

  abbrev pub LateRun : DelayedExecutable × ℕ → Type 0
  LateRun (e, at) = Late e

  module _ (pq : PriorityQueue) where
    open pq use {Queue, items, empty, top, push, pop}

    abbrev pub LateQueue : Queue → Type 0
    LateQueue q = (e : DelayedExecutable) → Mem e (items q) → Late e

    push-LateQueue :
        (q : Queue) (e : DelayedExecutable) → LateQueue q → Late e → LateQueue (push q e)
    push-LateQueue q e h l x m same =
        Or.elim le_prop (mem-cons.0 ((Perm.mem_iff (pq.push-perm q e)).0 m))
          (λ eq. subst Late (sym eq) l same) (λ old. h x old same)

    pop-LateQueue :
        (q : Queue) (e : DelayedExecutable)
        → top q ≡ some e
        → LateQueue q
        → LateQueue (pop q) × Late e
    pop-LateQueue q e t h =
        let perm = Perm.symm (pq.pop-perm q e t) in
        (
          λ x m. h x ((Perm.mem_iff perm).0 (mem-cons_of_mem e m)),
          h e ((Perm.mem_iff perm).0 mem-cons_self),
        )

    empty-LateQueue : LateQueue empty
    empty-LateQueue x m = absurd (not-mem-nil (subst (Mem x) pq.items-empty m))

    pub record IsLate (s : Scheduler pq) : Type 0 where
      pub queued : LateQueue s.queue
      pub in_phase : LatePhase s.phase
      pub ran : All LateRun s.executed

    All-snoc :
        (xs : List (DelayedExecutable × ℕ)) (x : DelayedExecutable × ℕ)
        → All LateRun xs
        → LateRun x
        → All LateRun (xs ++ x ∷ [])
    All-snoc [] x a d = (d, tt)
    All-snoc (y ∷ ys) x a d = (a.0, All-snoc ys x a.1 d)

    take_top-IsLate :
        (s : Scheduler pq) (idle : Phase) → LatePhase idle → IsLate s → IsLate (take_top pq s idle)
    unfolding take_top
    take_top-IsLate s idle l v = elim (Option-cases (top s.queue)) [
      | inl n ↦ rw (n, take_top) (record { queued = v.queued; in_phase = l; ran = v.ran })
      | inr (e, t) ↦
          let (rest, late) = pop-LateQueue s.queue e t v.queued in
          elim (Bool-cases (is_early s.now e)) [
            | inl early ↦
                rw (t, take_top)
                  (rw early (record { queued = v.queued; in_phase = late; ran = v.ran }))
            | inr due ↦
                rw (t, take_top) (rw due (record { queued = rest; in_phase = late; ran = v.ran }))
          ]
    ]

    either_way : (b : Bool) → LatePhase (if b then locking else exited)
    either_way true = tt
    either_way false = tt

    worker-IsLate :
        (s : Scheduler pq) (p : Phase) → s.phase ≡ p → IsLate s → IsLate (worker_step pq s)
    unfolding worker_step
    worker-IsLate s locking e v = rw (e, worker_step) (take_top-IsLate s waiting tt v)
    worker-IsLate s woken e v = rw (e, worker_step) (take_top-IsLate s testing tt v)
    worker-IsLate s (running x) e v =
        let late : LatePhase (running x) = subst LatePhase e v.in_phase in
        rw (e, worker_step)
          (record {
            queued = v.queued;
            in_phase = tt;
            ran = All-snoc s.executed (x, s.now) v.ran late;
          })
    worker-IsLate s testing e v =
        rw (e, worker_step) (record { queued = v.queued; in_phase = either_way _; ran = v.ran })
    worker-IsLate s (timed x) e v = rw (e, worker_step) v
    worker-IsLate s waiting e v = rw (e, worker_step) v
    worker-IsLate s exited e v = rw (e, worker_step) v
    worker-IsLate s faulted e v = rw (e, worker_step) v

    time_out-IsLate :
        (s : Scheduler pq) (x : DelayedExecutable)
        → s.phase ≡ timed x
        → IsLate s
        → IsLate (time_out pq s)
    unfolding time_out has_items
    time_out-IsLate s x e v = elim (Option-cases (top s.queue)) [
      | inl n ↦
          rw (e, time_out)
            (rw (n, has_items) (record { queued = v.queued; in_phase = tt; ran = v.ran }))
      | inr (y, t) ↦
          let late : LatePhase (timed x) = subst LatePhase e v.in_phase in
          rw (e, time_out)
            (rw (t, has_items)
              (record {
                queued = (pop-LateQueue s.queue y t v.queued).0;
                in_phase = late;
                ran = v.ran;
              }))
    ]

    wake-IsLate : (s : Scheduler pq) (p : Phase) → s.phase ≡ p → IsLate s → IsLate (wake pq s)
    unfolding wake
    wake-IsLate s waiting e v = ground arith
    wake-IsLate s (timed x) e v = ground arith
    wake-IsLate s testing e v = rw (e, wake) v
    wake-IsLate s _ e v = rw (e, wake) v

    pub execute-IsLate :
        (s : Scheduler pq) (g d l : ℕ)
        → Late (delayed (s.now + l) g d)
        → IsLate s
        → IsLate (execute pq s g d l)
    unfolding execute
    execute-IsLate s g d l n v = elim (Bool-cases s.is_active) [
      | inl a ↦
          rw (a, execute)
            (record {
              queued = push-LateQueue s.queue (delayed (s.now + l) g d) v.queued n;
              in_phase = v.in_phase;
              ran = v.ran;
            })
      | inr a ↦ rw (a, execute) (record { queued = v.queued; in_phase = v.in_phase; ran = v.ran })
    ]

    pub Reach-IsLate : {s t : Scheduler pq} (r : Reach pq s t) → NoMore f r → IsLate s → IsLate t
    unfolding deactivate clear_queue announce
    Reach-IsLate here n v = v
    Reach-IsLate (next {t} r (executes g d l e)) n v =
        rw e (execute-IsLate t g d l (λ same. absurd (n.0 same)) (Reach-IsLate r n.1 v))
    Reach-IsLate (next {t} r (works e)) n v =
        rw e (worker-IsLate t t.phase refl (Reach-IsLate r n v))
    Reach-IsLate (next {t} r (times_out x h d e)) n v =
        rw e (time_out-IsLate t x h (Reach-IsLate r n v))
    Reach-IsLate (next {t} r (wakes e)) n v = rw e (wake-IsLate t t.phase refl (Reach-IsLate r n v))
    Reach-IsLate (next {t} r (deactivates e)) n v =
        let w = Reach-IsLate r n v in
        rw e (record { queued = w.queued; in_phase = w.in_phase; ran = w.ran })
    Reach-IsLate (next {t} r (clears h e)) n v =
        let w = Reach-IsLate r n v in
        rw e (record { queued = empty-LateQueue; in_phase = w.in_phase; ran = w.ran })
    Reach-IsLate (next {t} r (announces h e)) n v =
        let w = Reach-IsLate r n v in
        rw e (record { queued = w.queued; in_phase = w.in_phase; ran = w.ran })
    Reach-IsLate (next {t} r (ticks k e)) n v =
        let w = Reach-IsLate r n v in
        rw e (record { queued = w.queued; in_phase = w.in_phase; ran = w.ran })
    Reach-IsLate (next {t} r (notifies h e)) n v =
        let w = Reach-IsLate r n v in
        rw e (
          wake-IsLate _ t.phase refl
            (record { queued = w.queued; in_phase = w.in_phase; ran = w.ran }))
