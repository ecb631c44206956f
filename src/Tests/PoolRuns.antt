-- ===== src/Tests/PoolRuns.antt =====
-- Runs of the rates and the workers of src/task/ElasticExecutor.cpp.
use npp.Common.{
  ℕ, suc, ◌+◌, ◌*◌, ◌/◌, ◌≤◌, ◌<◌, ◌≡◌, refl, true, false, [], ◌∷◌, length, ltb, leb, if◌then◌else◌,
  arith,
}
use npp.Task.Elastic.Meter.{
  Rate, whole, ratio, Meter, create, work, tick, get_occupied_rate, Reach, here, next, works, ticks,
}
use npp.Task.Elastic.Meter.Share.{IsShare, get_occupied_rate-IsShare}
use npp.Task.Elastic.Pool.{Float, Pool, average_rate, round, round_lem}

-- In a task since one second.
abbrev busy_second : Meter
busy_second = tick 1000 (work (work (create 1_000_000)))

Reach-busy_second : Reach (create 1_000_000) busy_second
unfolding create work
Reach-busy_second =
    next (next (next here (works refl)) (works refl)) (ticks 1000 (omega arith) refl)

busy_rate : (get_occupied_rate busy_second 0).0 ≡ ratio 1000 1_001_000
unfolding get_occupied_rate create work
busy_rate = refl

get_occupied_rate-IsShare_example : IsShare (get_occupied_rate busy_second 2).0
unfolding create work
get_occupied_rate-IsShare_example =
    get_occupied_rate-IsShare 1_000_000 2 (omega arith) Reach-busy_second (omega arith)

-- In thousandths.
abbrev thousandths : Rate → ℕ
thousandths (whole b) = if b then 1000 else 0
thousandths (ratio a b) = a * 1000 / b

high-low : (x : ℕ) → leb 950 x ≡ true → ltb x 400 ≡ false
high-low x h = ground arith

abbrev float : Float
float = record {
  Value = ℕ;
  zero = 0;
  of_rate = thousandths;
  add = λ a b. a + b;
  divide = λ a n. a / n;
  is_high = λ x. leb 950 x;
  is_low = λ x. ltb x 400;
  zero_low = refl;
  apart = high-low;
}

abbrev two : Pool
two = record { workers = 0 ∷ 1 ∷ []; made = 2 }

third : (round float two (λ w. whole true) 3 (λ w. true)).workers ≡ 0 ∷ 1 ∷ 2 ∷ []
unfolding round average_rate
third = refl

round_lem_example :
    (two.workers ≡ []
      → (round float two (λ w. whole false) 0 (λ w. true)).workers
        ≡ (if ltb 0 0 then 2 ∷ [] else []))
    × (0 < length two.workers
        → let q = round float two (λ w. whole false) 0 (λ w. true) in
          let average = average_rate float (λ w. whole false) two.workers in
          (0 < length q.workers)
          × (length q.workers ≤ 3)
          × (2 ≤ suc (length q.workers))
          × (2 < length q.workers
              → (leb 950 average ≡ true) × (0 < 0) × (q.workers ≡ 0 ∷ 1 ∷ 2 ∷ []))
          × (length q.workers < 2 → ltb average 400 ≡ true))
round_lem_example = round_lem float two (λ w. whole false) 0 (λ w. true)
