-- ===== src/Task/Elastic/Crew/Once.antt =====
-- src/task/ElasticExecutor.cpp: each queued task is taken by one worker, and run by it once.
use mathlib.Core.List.{map-append}
use npp.Common.{
  ℕ, ◌≡◌, refl, sym, ap, ◌∙◌, List, [], ◌∷◌, ◌++◌, map, append_assoc, append-nil, ◌==◌,
  if◌then◌else◌, inl, inr, Bool-cases, arith,
}
use npp.Task.Elastic.{
  Phase, testing, trying, sleeping, exited, faulted, busy, WorkerThread, init, worker_step, stop,
}
use npp.Task.Elastic.Worker.{IsSound, worker-IsSound}
use npp.Task.Elastic.Crew.{
  Crew, new_crew, view, to_take, with_worker, crew_step, push_task, stop_worker, Step, Reach, works,
  pushes, stops, here, next,
}

abbrev pub task_of : ℕ × ℕ → ℕ
task_of p = p.1

-- What a worker has taken.
abbrev pub by : ℕ → List (ℕ × ℕ) → List ℕ
by i [] = []
by i ((j, e) ∷ l) = if j == i then e ∷ by i l else by i l

by-append : (i : ℕ) (l m : List (ℕ × ℕ)) → by i (l ++ m) ≡ by i l ++ by i m
by-append i [] m = refl
by-append i ((j, e) ∷ l) m = ground (arith, by-append i l m)

by-same : (i j : ℕ) (es : List ℕ) → by i (map (with_worker j) es) ≡ (if j == i then es else [])
by-same i j [] = ground arith
by-same i j (e ∷ es) = ground (arith, by-same i j es)

tasks-with_worker : (i : ℕ) (es : List ℕ) → map task_of (map (with_worker i) es) ≡ es
tasks-with_worker i [] = refl
tasks-with_worker i (e ∷ es) = ap (◌∷◌ e) (tasks-with_worker i es)

-- What a step takes is the front of the queue, and goes to `popped`.
step_takes :
    (w : WorkerThread) (p : Phase)
    → w.phase ≡ p
    → ((worker_step w).popped ≡ w.popped ++ to_take w)
      × (to_take w ++ (worker_step w).task_queue ≡ w.task_queue)
unfolding worker_step to_take
step_takes w testing h = ground (arith, append-nil w.popped)
step_takes w trying h = ground (arith, append-nil w.popped)
step_takes w sleeping h = ground (arith, append-nil w.popped)
step_takes w exited h = ground (arith, append-nil w.popped)
step_takes w faulted h = ground (arith, append-nil w.popped)
step_takes w (busy e) h = ground (arith, append-nil w.popped)

-- Each worker is sound, tasks are taken in the order of the queue, and what a worker has taken is
-- recorded with it.
pub record IsShared (c : Crew) : Type 0 where
  pub sound : (i : ℕ) → IsSound (c.workers i)
  pub in_order : map task_of c.taken ++ c.queue ≡ c.queued
  pub by_worker_taken : (i : ℕ) → by i c.taken ≡ (c.workers i).popped

work-IsShared : (i : ℕ) (c : Crew) → IsShared c → IsShared (crew_step i c)
unfolding crew_step
work-IsShared i c v =
    let w = view i c in
    let (popped, queue) = step_takes w w.phase refl in
    record {
      sound = λ j. elim (Bool-cases (j == i)) [
        | inl same ↦ rw same (worker-IsSound w w.phase refl (v.sound i))
        | inr other ↦ rw other (v.sound j)
      ];
      in_order =
          ap (λ (l : List ℕ). l ++ (worker_step w).task_queue)
            (map-append task_of c.taken (map (with_worker i) (to_take w))
              ∙ ap (λ (l : List ℕ). map task_of c.taken ++ l) (tasks-with_worker i (to_take w)))
          ∙ (append_assoc (map task_of c.taken) (to_take w) (worker_step w).task_queue
              ∙ (ap (λ (l : List ℕ). map task_of c.taken ++ l) queue ∙ v.in_order));
      by_worker_taken = λ j.
          by-append j c.taken (map (with_worker i) (to_take w))
          ∙ ground (
            arith,
            by-same j i (to_take w),
            v.by_worker_taken j,
            v.by_worker_taken i,
            popped,
            append-nil (by j c.taken),
          );
    }

pub Step-IsShared : {c d : Crew} → Step c d → IsShared c → IsShared d
unfolding push_task stop_worker stop
Step-IsShared {c} (works i e) v = rw e (work-IsShared i c v)
Step-IsShared {c} (pushes x e) v = rw e (record {
  sound = v.sound;
  in_order =
      sym (append_assoc (map task_of c.taken) c.queue (x ∷ []))
      ∙ ap (λ (l : List ℕ). l ++ x ∷ []) v.in_order;
  by_worker_taken = v.by_worker_taken;
})
Step-IsShared {c} (stops i e) v = rw e (record {
  sound = λ j. elim (Bool-cases (j == i)) [
    | inl same ↦ rw same (v.sound i)
    | inr other ↦ rw other (v.sound j)
  ];
  in_order = v.in_order;
  by_worker_taken = λ j. ground (arith, v.by_worker_taken j, v.by_worker_taken i);
})

-- Whatever the workers of the executor and the threads that queue tasks do, where it does not shrink:
-- the tasks are taken in the order of queueing, none is lost, each by one worker; and each worker has
-- run what it has taken, once and in this order, but for the one that it runs, and holds its lock just
-- meanwhile.
pub Reach-IsShared : {c : Crew} → Reach new_crew c → IsShared c
unfolding new_crew init
Reach-IsShared here = record {
  sound = λ i. (refl, refl);
  in_order = refl;
  by_worker_taken = λ i. refl;
}
Reach-IsShared (next r st) = Step-IsShared st (Reach-IsShared r)
