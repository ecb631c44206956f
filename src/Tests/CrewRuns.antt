-- ===== src/Tests/CrewRuns.antt =====
-- Runs of two workers of src/task/ElasticExecutor.cpp.
use npp.Common.{◌≡◌, refl, [], ◌∷◌}
use npp.Task.Elastic.{init, worker_step}
use npp.Task.Elastic.Crew.{
  Crew, new_crew, to_take, crew_step, push_task, Reach, works, pushes, here, next,
}
use npp.Task.Elastic.Crew.Once.{IsShared, Reach-IsShared}

-- The second worker takes the second task and has run it, while the first is in the first task.
abbrev two_busy : Crew
two_busy =
    crew_step 1
      (crew_step 1 (crew_step 0 (crew_step 1 (crew_step 0 (push_task 6 (push_task 5 new_crew))))))

ran : (two_busy.workers 1).executed ≡ 6 ∷ []
unfolding crew_step push_task new_crew init worker_step to_take
ran = refl

Reach-two_busy : Reach new_crew two_busy
Reach-two_busy =
    next
      (next
        (next
          (next (next (next (next here (pushes 5 refl)) (pushes 6 refl)) (works 0 refl))
            (works 1 refl))
          (works 0 refl))
        (works 1 refl))
      (works 1 refl)

Reach-IsShared_example : IsShared two_busy
Reach-IsShared_example = Reach-IsShared Reach-two_busy
