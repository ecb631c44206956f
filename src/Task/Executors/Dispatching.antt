-- ===== src/Task/Executors/Dispatching.antt =====
-- src/task/DispatchAwaiter.h: how often a coroutine that is handed to an executor is resumed.
use npp.Common.{
  ℕ, suc, ◌+◌, ◌≡◌, refl, ap, Bool, List, [], ◌∷◌, ◌++◌, map, ◌==◌, if◌then◌else◌, Bool-cases, inl,
  inr, arith,
}
use npp.Task.Looper.{Looper}
use npp.Task.Looper
use npp.Task.Looper.Order.{IsOrdered, current, Step-IsOrdered, Reach-IsOrdered}
use npp.Task.Elastic.Crew.{Crew, push_task}
use npp.Task.Elastic.Crew
use npp.Task.Elastic.Crew.Once.{IsShared, task_of, Step-IsShared, Reach-IsShared}
use npp.Task.Executors.{
  Executor, noop, new_thread, async, looper, elastic, System, new_system, suspend_on, Step, Reach,
  dispatches, thread_runs, looper_steps, crew_steps, here, next,
}

abbrev pub count : ℕ → List ℕ → ℕ
count j [] = 0
count j (x ∷ xs) = if x == j then suc (count j xs) else count j xs

count-append : (j : ℕ) (xs ys : List ℕ) → count j (xs ++ ys) ≡ count j xs + count j ys
count-append j [] ys = omega arith
count-append j (x ∷ xs) ys = ground (arith, count-append j xs ys)

-- Each job that was given is with one executor, as often as it was given.
record IsCounted (s : System) : Type 0 where
  ordered : IsOrdered s.loop
  shared : IsShared s.crew
  counted :
      (j : ℕ)
      → count j s.given
        ≡ count j s.ran
          + count j s.threads
          + count j s.loop.accepted
          + count j s.crew.queued
          + count j s.refused

execute-accepted :
    (l : Looper) (j : ℕ)
    → (Looper.execute l j).accepted ≡ (if l.is_active then l.accepted ++ j ∷ [] else l.accepted)
unfolding Looper.execute
execute-accepted l j = ground arith

push-queued : (j : ℕ) (c : Crew) → (push_task j c).queued ≡ c.queued ++ j ∷ []
unfolding push_task
push-queued j c = refl

module _ (is_deferred : Bool) where
  dispatch-IsCounted :
      (e : Executor) (h : ℕ) (s : System) → IsCounted s → IsCounted (suspend_on is_deferred e h s)
  unfolding suspend_on
  dispatch-IsCounted noop h s v = record {
    ordered = v.ordered;
    shared = v.shared;
    counted = λ j.
        omega (arith, v.counted j, count-append j s.given (h ∷ []), count-append j s.ran (h ∷ []));
  }
  dispatch-IsCounted new_thread h s v = record {
    ordered = v.ordered;
    shared = v.shared;
    counted = λ j.
        omega
          (arith, v.counted j, count-append j s.given (h ∷ []), count-append j s.threads (h ∷ []));
  }
  dispatch-IsCounted async h s v = elim (Bool-cases is_deferred) [
    | inl deferred ↦ rw deferred (record {
      ordered = v.ordered;
      shared = v.shared;
      counted = λ j.
          omega (
            arith,
            v.counted j,
            count-append j s.given (h ∷ []),
            count-append j s.refused (h ∷ []),
          );
    })
    | inr at_once ↦ rw at_once (record {
      ordered = v.ordered;
      shared = v.shared;
      counted = λ j.
          omega
            (arith, v.counted j, count-append j s.given (h ∷ []), count-append j s.ran (h ∷ []));
    })
  ]
  dispatch-IsCounted looper h s v = record {
    ordered = Step-IsOrdered (Looper.executes h refl) v.ordered;
    shared = v.shared;
    counted = λ j. elim (Bool-cases s.loop.is_active) [
      | inl active ↦
          rw (execute-accepted s.loop h, active)
            (omega (
              arith,
              v.counted j,
              count-append j s.given (h ∷ []),
              count-append j s.loop.accepted (h ∷ []),
            ))
      | inr shut ↦
          rw (execute-accepted s.loop h, shut)
            (omega (
              arith,
              v.counted j,
              count-append j s.given (h ∷ []),
              count-append j s.refused (h ∷ []),
            ))
    ];
  }
  dispatch-IsCounted elastic h s v = record {
    ordered = v.ordered;
    shared = Step-IsShared (Crew.pushes h refl) v.shared;
    counted = λ j. rw (push-queued h s.crew) (
        omega (
          arith,
          v.counted j,
          count-append j s.given (h ∷ []),
          count-append j s.crew.queued (h ∷ []),
        ));
  }

  Step-IsCounted : {s t : System} → Step is_deferred s t → IsCounted s → IsCounted t
  Step-IsCounted {s} (dispatches e h eq) v = rw eq (dispatch-IsCounted e h s v)
  Step-IsCounted {s} (thread_runs j before after split eq) v = rw eq (record {
    ordered = v.ordered;
    shared = v.shared;
    counted = λ i. omega (
      arith,
      v.counted i,
      ap (count i) split,
      count-append i before (j ∷ after),
      count-append i (j ∷ []) after,
      count-append i before after,
      count-append i s.ran (j ∷ []),
    );
  })
  Step-IsCounted {s} (looper_steps st same eq) v = rw eq (record {
    ordered = Step-IsOrdered st v.ordered;
    shared = v.shared;
    counted = λ j. omega (arith, v.counted j, ap (count j) same);
  })
  Step-IsCounted {s} (crew_steps st same eq) v = rw eq (record {
    ordered = v.ordered;
    shared = Step-IsShared st v.shared;
    counted = λ j. omega (arith, v.counted j, ap (count j) same);
  })

  Reach-IsCounted : {s : System} → Reach is_deferred new_system s → IsCounted s
  unfolding new_system npp.Task.Looper.init npp.Task.Elastic.Crew.new_crew
  Reach-IsCounted here = record {
    ordered = Reach-IsOrdered Looper.here;
    shared = Reach-IsShared Crew.here;
    counted = λ j. omega arith;
  }
  Reach-IsCounted (next r st) = Step-IsCounted st (Reach-IsCounted r)

-- How often a job has been begun, waits to be, and never will be.
abbrev pub begun : ℕ → System → ℕ
begun j s =
    count j s.ran
    + count j (s.loop.executed ++ current s.loop.phase)
    + count j (map task_of s.crew.taken)

abbrev pub waiting_for : ℕ → System → ℕ
waiting_for j s = count j s.threads + count j s.loop.queue + count j s.crew.queue

abbrev pub lost : ℕ → System → ℕ
lost j s = count j s.refused + count j s.loop.dropped

-- Coroutines suspend themselves by `co_await` of a `DispatchAwaiter` on executors of all kinds, of which the
-- elastic one neither shrinks nor is destroyed. Whatever the threads of these do: each suspension is followed by one resumption at most. It is exactly one, or
-- the handle waits with an executor, or is lost: by a looper that is shut down or throws its queue
-- away, or by a deferred `std::async`.
pub Reach-dispatched_once :
    (is_deferred : Bool) {s : System} (j : ℕ)
    → Reach is_deferred new_system s
    → count j s.given ≡ begun j s + waiting_for j s + lost j s
Reach-dispatched_once is_deferred {s} j r =
    let v = Reach-IsCounted is_deferred r in
    omega (
      arith,
      v.counted j,
      ap (count j) v.ordered.accounted,
      ap (count j) v.shared.in_order,
      count-append j s.loop.executed (current s.loop.phase),
      count-append j s.loop.executed (current s.loop.phase ++ (s.loop.queue ++ s.loop.dropped)),
      count-append j (current s.loop.phase) (s.loop.queue ++ s.loop.dropped),
      count-append j s.loop.queue s.loop.dropped,
      count-append j (map task_of s.crew.taken) s.crew.queue,
    )
