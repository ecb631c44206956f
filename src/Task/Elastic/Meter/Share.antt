-- ===== src/Task/Elastic/Meter/Share.antt =====
-- src/task/ElasticExecutor.cpp: the measured rates are shares of the time.
use npp.Common.{ℕ, ◌+◌, ◌^◌, ◌≤◌, ◌<◌, ◌≡◌, refl, Bool, true, false, arith}
use npp.Task.Elastic.Meter.{
  Stage, idle, marked, in_task, ending, Meter, Rate, whole, ratio, create, work, checkpoint,
  rate_of, restart, tick, get_occupied_rate, Step, works, measures, ticks, Reach, here, next,
}

-- Outside of tasks what is counted fits between the start and the clock, and from the first use of the
-- clock to the last before the last checkpoint.
abbrev pub Counted : Stage → Meter → Type 0
Counted idle m = m.occupied_time + m.cal_rate_start_time ≤ m.now
Counted _ m = m.occupied_time + m.cal_rate_start_time ≤ m.last_checkpoint_time

abbrev pub Runs : Stage → Bool → Type 0
Runs in_task b = b ≡ true
Runs _ b = b ≡ false

pub record IsTimed (m : Meter) : Type 0 where
  pub clock : m.now < 2 ^ 64
  pub checked : m.last_checkpoint_time ≤ m.now
  pub counted : Counted m.stage m
  pub flag : Runs m.stage m.running_task

-- A rate between 0 and 1.
abbrev pub IsShare : Rate → Type 0
IsShare (whole b) = Unit {0}
IsShare (ratio a b) = (0 < b) × (a ≤ b)

work-IsTimed : (m : Meter) (s : Stage) → m.stage ≡ s → IsTimed m → IsTimed (work m)
unfolding work
work-IsTimed m idle h t = ground arith
work-IsTimed m marked h t = ground arith
work-IsTimed m in_task h t = ground arith
work-IsTimed m ending h t = ground arith

checkpoint-IsTimed : (m : Meter) (s : Stage) → m.stage ≡ s → IsTimed m → IsTimed (checkpoint m)
unfolding checkpoint
checkpoint-IsTimed m idle h t = ground arith
checkpoint-IsTimed m marked h t = ground arith
checkpoint-IsTimed m in_task h t = ground arith
checkpoint-IsTimed m ending h t = ground arith

tick-IsTimed :
    (m : Meter) (s : Stage) (n : ℕ)
    → m.stage ≡ s
    → m.now + n < 2 ^ 64
    → IsTimed m
    → IsTimed (tick n m)
tick-IsTimed m idle n h k t = ground arith
tick-IsTimed m marked n h k t = ground arith
tick-IsTimed m in_task n h k t = ground arith
tick-IsTimed m ending n h k t = ground arith

restart-IsTimed : (m : Meter) (s : Stage) → m.stage ≡ s → IsTimed m → IsTimed (restart m)
unfolding restart
restart-IsTimed m idle h t = ground arith
restart-IsTimed m marked h t = ground arith
restart-IsTimed m in_task h t = ground arith
restart-IsTimed m ending h t = ground arith

rate_of-IsShare : (m : Meter) (s : Stage) → m.stage ≡ s → IsTimed m → IsShare (rate_of m)
unfolding rate_of
rate_of-IsShare m idle h t = ground arith
rate_of-IsShare m marked h t = ground arith
rate_of-IsShare m in_task h t = ground arith
rate_of-IsShare m ending h t = ground arith

checkpoint-now : (m : Meter) → (checkpoint m).now ≡ m.now
unfolding checkpoint
checkpoint-now m = ground arith

measured-IsTimed :
    (m : Meter) (later : ℕ)
    → m.now + later < 2 ^ 64
    → IsTimed m
    → IsTimed (tick later (checkpoint m))
measured-IsTimed m later k t =
    tick-IsTimed (checkpoint m) (checkpoint m).stage later refl (omega (arith, checkpoint-now m))
      (checkpoint-IsTimed m m.stage refl t)

Step-IsTimed : {m n : Meter} → Step m n → IsTimed m → IsTimed n
unfolding get_occupied_rate
Step-IsTimed {m} (works e) t = rw e (work-IsTimed m m.stage refl t)
Step-IsTimed {m} (measures later k e) t =
    rw e (restart-IsTimed _ (tick later (checkpoint m)).stage refl (measured-IsTimed m later k t))
Step-IsTimed {m} (ticks later k e) t = rw e (tick-IsTimed m m.stage later refl k t)

Reach-IsTimed : (now : ℕ) {m : Meter} → now < 2 ^ 64 → Reach (create now) m → IsTimed m
unfolding create
Reach-IsTimed now k here = record {
  clock = k;
  checked = omega arith;
  counted = omega arith;
  flag = refl;
}
Reach-IsTimed now k (next r s) = Step-IsTimed s (Reach-IsTimed now k r)

-- However the worker's steps, the measurements and the clock interleave, a measured rate is between 0
-- and 1: no time is counted twice, although the two threads share the counters without a common lock
-- around a task, and no difference of times wraps around.
pub get_occupied_rate-IsShare :
    (now : ℕ) {m : Meter} (later : ℕ)
    → now < 2 ^ 64
    → Reach (create now) m
    → m.now + later < 2 ^ 64
    → IsShare (get_occupied_rate m later).0
unfolding get_occupied_rate
get_occupied_rate-IsShare now {m} later k r h =
    rate_of-IsShare _ (tick later (checkpoint m)).stage refl
      (measured-IsTimed m later h (Reach-IsTimed now k r))
