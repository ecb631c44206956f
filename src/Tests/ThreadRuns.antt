-- ===== src/Tests/ThreadRuns.antt =====
-- Runs of the threads of src/basic/Thread.cpp.
use npp.Common.{◌≡◌, refl, true, false, none, some, Bool}
use npp.Basic.Thread.{create, start, begin_run}
use npp.Basic.Thread.Life.{
  Object, new_object, starting, set_body, base, gone, start_thread, begin_body, end_body, work_body,
  Reach, starts, begins, works, destroys_derived, here, next,
}

abbrev started : Object
started = record new_object {
  flags = record create { pending = 1 };
  bodies = set_body 0 starting new_object;
  made = 1;
  thread = some 0;
}

abbrev finished : Object
finished = record (end_body 0 (begin_body 0 started)) { thread = none; part = gone }

module _ (joined : Bool) where
  Reach-started : Reach joined new_object started
  unfolding new_object start_thread start create
  Reach-started = next here (starts refl refl refl)

-- `~ElasticExecutorImpl` does not join: its thread may be in `run`.
abbrev torn : Object
torn = work_body (record (begin_body 0 started) { part = base })

Reach-torn : Reach false new_object torn
unfolding new_object create begin_body work_body begin_run
Reach-torn =
    next
      (next (next (Reach-started false) (begins 0 refl refl))
        (destroys_derived refl refl (λ e. cc) refl))
      (works 0 refl refl)

torn_faults : torn.is_faulted ≡ true
unfolding new_object begin_body work_body
torn_faults = refl
