-- ===== src/Task/Elastic/Pool.antt =====
-- src/task/ElasticExecutor.cpp: a round of the executor's thread, which adds a worker or erases one.
use npp.Common.{
  ℕ, suc, ◌≤◌, ◌<◌, ◌≡◌, refl, Bool, true, false, ◌&&◌, ◌||◌, List, [], ◌∷◌, ◌++◌, length,
  length-append, ltb, if◌then◌else◌, arith,
}
use npp.Task.Elastic.Meter.{Rate}

-- What the round uses of `float`: the sum and the average of rates, and the comparisons with
-- `expand_threshold` and `expire_threshold`, of which the second is the smaller one.
pub record Float : Type 1 where
  pub Value : Type 0
  pub zero : Value
  pub of_rate : Rate → Value
  pub add : Value → Value → Value
  pub divide : Value → ℕ → Value
  pub is_high : Value → Bool
  pub is_low : Value → Bool
  pub zero_low : is_low zero ≡ true
  pub apart : (x : Value) → is_high x ≡ true → is_low x ≡ false

-- The workers, by the number of the round's worker that was made, and the number of the next.
pub record Pool : Type 0 where
  pub workers : List ℕ
  pub made : ℕ

-- The first worker that `try_pause` pauses is erased.
pub erase_free : (ℕ → Bool) → List ℕ → List ℕ
erase_free free [] = []
erase_free free (w ∷ ws) = if free w then ws else w ∷ erase_free free ws

abbrev pub is_empty : List ℕ → Bool
is_empty [] = true
is_empty (w ∷ ws) = false

module _ (f : Float) where
  open f use {Value, zero, of_rate, add, divide, is_high, is_low}

  total : (ℕ → Rate) → Value → List ℕ → Value
  total rates sum [] = sum
  total rates sum (w ∷ ws) = total rates (add sum (of_rate (rates w))) ws

  unfoldable pub average_rate : (ℕ → Rate) → List ℕ → Value
  unfolding total
  average_rate rates [] = zero
  average_rate rates (w ∷ ws) = divide (total rates zero (w ∷ ws)) (length (w ∷ ws))

  unfoldable pub expand : Pool → Value → ℕ → Pool
  expand p average queued =
      if (is_high average || is_empty p.workers) && ltb 0 queued
      then record p { workers = p.workers ++ p.made ∷ []; made = suc p.made }
      else p

  unfoldable pub expire : Pool → Value → (ℕ → Bool) → Pool
  expire p average free =
      if is_low average && ltb 1 (length p.workers)
      then record p { workers = erase_free free p.workers }
      else p

  -- `rates` are what `get_occupied_rate` gives, `queued` is the size of the queue, and `free` whose lock
  -- is free.
  unfoldable pub round : Pool → (ℕ → Rate) → ℕ → (ℕ → Bool) → Pool
  unfolding expand expire
  round p rates queued free =
      let average = average_rate rates p.workers in expire (expand p average queued) average free

length-erase_free :
    (free : ℕ → Bool) (ws : List ℕ)
    → (length (erase_free free ws) ≤ length ws) × (length ws ≤ suc (length (erase_free free ws)))
unfolding erase_free
length-erase_free free [] = (omega arith, omega arith)
length-erase_free free (w ∷ ws) = ground (arith, length-erase_free free ws)

average-none :
    (f : Float) (rates : ℕ → Rate) (ws : List ℕ) → ws ≡ [] → average_rate f rates ws ≡ f.zero
unfolding average_rate
average-none f rates [] e = refl
average-none f rates (w ∷ ws) e = cc

module _ (f : Float) (p : Pool) (rates : ℕ → Rate) (queued : ℕ) (free : ℕ → Bool) where
  -- Where there is no worker, a round makes one if a task is queued, and none if not; it does not erase
  -- the new one. Where there are workers, at least one stays, whatever the rates; a round changes their
  -- number by at most one, makes a worker only if a task is queued and the average is high, and erases
  -- one only if the average is low.
  pub round_lem :
      (p.workers ≡ []
        → (round f p rates queued free).workers ≡ (if ltb 0 queued then p.made ∷ [] else []))
      × (0 < length p.workers
          → let q = round f p rates queued free in
            let average = average_rate f rates p.workers in
            (0 < length q.workers)
            × (length q.workers ≤ suc (length p.workers))
            × (length p.workers ≤ suc (length q.workers))
            × (length p.workers < length q.workers
                → (f.is_high average ≡ true)
                  × (0 < queued)
                  × (q.workers ≡ p.workers ++ p.made ∷ []))
            × (length q.workers < length p.workers → f.is_low average ≡ true))
  unfolding round
  round_lem = (
    (λ e. ground (arith, e, average-none f rates p.workers e, f.zero_low, f.apart f.zero)),
    λ pos.
        let x = average_rate f rates p.workers in
        ground (
          arith,
          pos,
          f.apart x,
          length-erase_free free p.workers,
          length-erase_free free (p.workers ++ p.made ∷ []),
          length-append p.workers (p.made ∷ []),
        ),
  )
