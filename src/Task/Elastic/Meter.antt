-- ===== src/Task/Elastic/Meter.antt =====
-- src/task/ElasticExecutor.cpp: how a worker's time is measured. The clock is `get_time`, in milliseconds,
-- and does not run backwards; times are `uint64_t`.
pub mod Share
use npp.Common.{
  ℕ, ◌+◌, ◌-◌, ◌%◌, ◌^◌, ◌≤◌, ◌<◌, ◌≡◌, refl, Bool, true, false, ltb, ◌==◌, if◌then◌else◌, arith,
}

-- Where the worker's loop is: behind the first use of the clock, in the task, and behind it.
pub data Stage : Type 0 where
  idle marked in_task ending : Stage

pub record Meter : Type 0 where
  pub stage : Stage
  pub running_task : Bool
  pub cal_rate_start_time : ℕ
  pub occupied_time : ℕ
  pub last_checkpoint_time : ℕ
  pub now : ℕ

-- `float(occupied_time) / dur`, or `running_task` where `dur` is 0.
pub data Rate : Type 0 where
  whole : Bool → Rate
  ratio : ℕ → ℕ → Rate

abbrev pub occupied_rate_sample_period : ℕ
occupied_rate_sample_period = 5000

abbrev pub add64 : ℕ → ℕ → ℕ
add64 a b = (a + b) % 2 ^ 64

abbrev pub sub64 : ℕ → ℕ → ℕ
sub64 a b = (a + 2 ^ 64 - b) % 2 ^ 64

unfoldable pub create : ℕ → Meter
create now = record {
  stage = idle;
  running_task = false;
  cal_rate_start_time = 0;
  occupied_time = 0;
  last_checkpoint_time = 0;
  now = now;
}

-- The time since the last checkpoint is added.
abbrev add_time : Meter → Meter
add_time m = record m { occupied_time = add64 m.occupied_time (sub64 m.now m.last_checkpoint_time) }

-- A step of the worker around a task.
unfoldable pub work : Meter → Meter
work m = elim m.stage [
  | idle ↦ record m { stage = marked; last_checkpoint_time = m.now }
  | marked ↦ record m { stage = in_task; running_task = true }
  | in_task ↦ record m { stage = ending; running_task = false }
  | ending ↦ record (add_time m) { stage = idle }
]

-- `get_occupied_rate`: the clock is read again for the rate, `later` milliseconds after the first time.
checkpoint : Meter → Meter
checkpoint m = if m.running_task then record (add_time m) { last_checkpoint_time = m.now } else m

rate_of : Meter → Rate
rate_of m =
    let dur = sub64 m.now m.cal_rate_start_time in
    if dur == 0 then whole m.running_task else ratio m.occupied_time dur

restart : Meter → Meter
restart m =
    if ltb occupied_rate_sample_period (sub64 m.now m.cal_rate_start_time)
    then record m { occupied_time = 0; cal_rate_start_time = m.now; last_checkpoint_time = m.now }
    else m

abbrev pub tick : ℕ → Meter → Meter
tick n m = record m { now = m.now + n }

unfoldable pub get_occupied_rate : Meter → ℕ → Rate × Meter
unfolding checkpoint rate_of restart
get_occupied_rate m later = let m' = tick later (checkpoint m) in (rate_of m', restart m')

pub data Step (m n : Meter) : Type 0 where
  works : n ≡ work m → Step m n
  measures : (later : ℕ) → m.now + later < 2 ^ 64 → n ≡ (get_occupied_rate m later).1 → Step m n
  ticks : (later : ℕ) → m.now + later < 2 ^ 64 → n ≡ tick later m → Step m n

pub data Reach (m : Meter) : Meter → Type 0 where
  here : Reach m m
  next : {n o : Meter} → Reach m n → Step n o → Reach m o
