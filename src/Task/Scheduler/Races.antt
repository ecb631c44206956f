-- ===== src/Task/Scheduler/Races.antt =====
-- src/task/Scheduler.h: what goes wrong where a wait times out while another thread changes the queue.
use mathlib.Core.List.{Perm, Mem, mem-cons, mem-cons_self, not-mem-nil, Perm-prop}
use mathlib.Core.List.Perm
use mathlib.Core.Logic.Or
use native.Mathlib.Bridge.{le_prop}
use npp.Common.{
  ℕ, ◌+◌, ◌≤◌, ◌<◌, ◌≡◌, sym, subst, true, none, some, List, [], ◌∷◌, All, arith, Option-cases, inl,
  inr,
}
use npp.Task.Scheduler.{
  DelayedExecutable, PriorityQueue, timed, running, faulted, Scheduler, time_out, execute,
  clear_queue, delayed,
}

All-Mem :
    {n : ℕ} (xs : List DelayedExecutable) (x : DelayedExecutable)
    → All (λ (y : DelayedExecutable). n ≤ y.scheduled_time) xs
    → Mem x xs
    → n ≤ x.scheduled_time
All-Mem [] x a m = absurd (not-mem-nil m)
All-Mem {n = n} (y ∷ ys) x a m =
    Or.elim le_prop (mem-cons.0 m)
      (λ e. subst (λ (z : DelayedExecutable). n ≤ z.scheduled_time) (sym e) a.0) (All-Mem ys x a.1)

module _ (pq : PriorityQueue) where
  open pq use {Queue, items, empty, top, push, pop}

  pub top-empty : top empty ≡ none
  top-empty = elim (Option-cases (top empty)) [
    | inl n ↦ n
    | inr (e, h) ↦ absurd (
        not-mem-nil (
          subst (Mem e) pq.items-empty
            ((Perm.mem_iff (Perm.symm (pq.pop-perm empty e h))).0 mem-cons_self)))
  ]

  top-push :
      (q : Queue) (f : DelayedExecutable) → (x : DelayedExecutable) × (top (push q f) ≡ some x)
  top-push q f = elim (Option-cases (top (push q f))) [
    | inl n ↦ absurd (
        not-mem-nil (
          subst (Mem f) (pq.top-none _ n)
            ((Perm.mem_iff (Perm.symm (pq.push-perm q f))).0 mem-cons_self)))
    | inr h ↦ h
  ]

  -- A pop after a push of something earlier than all takes what was pushed.
  pop-push :
      (q : Queue) (e f : DelayedExecutable)
      → top q ≡ some e
      → f.scheduled_time < e.scheduled_time
      → Perm (items (pop (push q f))) (items q)
  pop-push q e f h lt =
      let (x, k) = top-push q f in
      let both : Perm (x ∷ items (pop (push q f))) (f ∷ items q) =
        Perm.trans (Perm.symm (pq.pop-perm _ x k)) (pq.push-perm q f) in
      Or.elim Perm-prop (mem-cons.0 ((Perm.mem_iff both).0 mem-cons_self))
        (λ same. Perm.cons_inv (
          subst (λ (z : DelayedExecutable). Perm (z ∷ items (pop (push q f))) (f ∷ items q)) same
            both))
        (λ old.
          let late : e.scheduled_time ≤ x.scheduled_time =
            All-Mem (items q) x (pq.top-least q e h) old in
          let soon : x.scheduled_time ≤ f.scheduled_time =
            All-Mem (items (push q f)) f (pq.top-least (push q f) x k)
              ((Perm.mem_iff (Perm.symm (pq.push-perm q f))).0 mem-cons_self) in
          absurd (omega arith))

  -- The state after another thread has queued a job, `n` milliseconds have passed and the wait of the
  -- scheduler's thread has timed out.
  pub queued_then_timed_out : Scheduler pq → ℕ → ℕ → ℕ → ℕ → Scheduler pq
  queued_then_timed_out s func delay later n =
      let s' = execute pq s func delay later in time_out pq (record s' { now = s'.now + n })

  -- A job is lost and another runs twice. Where the thread waits for the time of the top `e`, another
  -- thread queues a job with an earlier time, and the wait then times out rather than being notified,
  -- the thread goes on to run `e`, but what it has popped is the new job: the queue holds what it held
  -- before, `e` with it.
  pub timed_out_loses_job :
      (s : Scheduler pq) (e : DelayedExecutable) (func delay later n : ℕ)
      → s.is_active ≡ true
      → s.phase ≡ timed e
      → top s.queue ≡ some e
      → s.now + later + delay < e.scheduled_time
      → let t = queued_then_timed_out s func delay later n in
        (t.phase ≡ running e) × Perm (items t.queue) (items s.queue)
  unfolding queued_then_timed_out execute time_out
  timed_out_loses_job s e func delay later n a p h lt =
      let f = delayed (s.now + later) func delay in
      let (x, k) = top-push s.queue f in
      let popped : (queued_then_timed_out s func delay later n).queue ≡ pop (push s.queue f) =
        ground (arith, k) in
      (
        ground (arith, k),
        subst (λ (q : Queue). Perm (items q) (items s.queue)) (sym popped)
            (pop-push s.queue e f h lt),
      )

  -- Where a `shutdown(false)` has cleared the queue before such a wait times out, the thread pops an
  -- empty queue.
  pub timed_out_after_clear :
      (s : Scheduler pq) (e : DelayedExecutable)
      → s.phase ≡ timed e
      → (time_out pq (clear_queue pq s)).phase ≡ faulted
  unfolding time_out clear_queue
  timed_out_after_clear s e p = ground (arith, top-empty)
