-- ===== src/Optimizer.antt =====
-- The choice of a start time by the carbon forecast: alignToHalfHour, scoreWindow,
-- findOptimalStart, findBalancedStart and normalizeScore of api/services/schedule_service.go,
-- and sliceBuckets of api/carbonintensity/carbonintensity.go.
pub mod Best
pub mod Optimal
pub mod Candidates
pub mod Balanced
pub mod BalancedStart
use ev_charge_controller.Prelude.{
  ℕ, zero, suc, ◌+◌, ◌-◌, ◌*◌, ◌/◌, ◌%◌, ◌&&◌, List, [], ◌∷◌, ℤ, pos, negsuc, ltb, leb, sub_ℕ,
  if◌then◌else◌,
}
use ev_charge_controller.Clock.{Time, minute}
use ev_charge_controller.Float.{Float, le, eqf, max_of, min_of}
use ev_charge_controller.Models.{zero_f}

-- forecastBucketSize, 30 * time.Minute
abbrev pub bucket_size : ℕ
bucket_size = 30 * minute

pub record ForecastBucket : Type 0 where
  pub from : Time
  pub to : Time
  pub forecast_g_co2 : ℤ

-- time.Time.Truncate counts from the zero Time.
abbrev pub align_to_half_hour : Time → Time
align_to_half_hour t = t / bucket_size * bucket_size

unfoldable pub slice_buckets : List ForecastBucket → Time → Time → List ForecastBucket
slice_buckets [] from to = []
slice_buckets (b ∷ bs) from to =
    if ltb from b.to && ltb b.from to
    then b ∷ slice_buckets bs from to
    else slice_buckets bs from to

abbrev minus : ℕ → ℤ
minus zero = pos 0
minus (suc n) = negsuc n

-- The half-hours from now's to the latest start.
abbrev pub rounds : Time → Time → ℕ
rounds now latest = suc (latest / bucket_size) - now / bucket_size

module _ {A : Type 0} ⦃F : Float A⦄ where
  -- Duration.Minutes(): whole minutes and the rest are converted on their own, both towards zero.
  abbrev minutes_of_ℕ : (ℕ → ℤ) → ℕ → A
  minutes_of_ℕ signed n =
      F.add (F.of_int (signed (n / minute)))
        (F.div (F.of_int (signed (n % minute))) (F.lit minute 1))

  abbrev pub minutes_of : ℤ → A
  minutes_of (pos n) = minutes_of_ℕ pos n
  minutes_of (negsuc n) = minutes_of_ℕ minus (suc n)

  -- One round of the loop over the buckets, on totalWeight and weightedSum.
  abbrev weigh : Time → Time → ForecastBucket → A × A → A × A
  weigh start end b (total_weight, weighted_sum) =
      let overlap_start = if ltb b.from start then start else b.from in
      let overlap_end = if ltb end b.to then end else b.to in
      let weight : A = minutes_of (pos (overlap_end - overlap_start)) in
      if leb overlap_end overlap_start then (total_weight, weighted_sum) else (
        F.add total_weight weight,
        F.add weighted_sum (F.mul (F.of_int b.forecast_g_co2) weight),
      )

  unfoldable pub weigh_all : Time → Time → List ForecastBucket → A × A → A × A
  weigh_all start end [] acc = acc
  weigh_all start end (b ∷ bs) acc = weigh_all start end bs (weigh start end b acc)

  unfoldable pub score_window : List ForecastBucket → Time → Time → A
  unfolding weigh_all
  score_window buckets start end =
      let (total_weight, weighted_sum) = weigh_all start end buckets (zero_f, zero_f) in
      if le total_weight zero_f then F.max_float else F.div weighted_sum total_weight

  -- One round of the loop of findOptimalStart, on bestStart and bestScore.
  unfoldable pub consider : (Time → A) → Time → Time → Time × A → Time × A
  consider score now candidate (best_start, best_score) =
      if ltb candidate now
      then (best_start, best_score)
      else if eqf (score candidate) F.max_float
      then (best_start, best_score)
      else if le (score candidate) best_score
      then (candidate, score candidate)
      else (best_start, best_score)

  -- The loop itself; each round takes one unit of fuel.
  unfoldable pub optimal_loop : (Time → A) → Time → Time → ℕ → Time → Time × A → Time × A
  optimal_loop score now latest zero candidate best = best
  optimal_loop score now latest (suc fuel) candidate best =
      let rest =
        optimal_loop score now latest fuel (candidate + bucket_size)
          (consider score now candidate best) in
      if leb candidate latest then rest else best

module _ (A : Type 0) ⦃F : Float A⦄ where
  -- The zero Time is "no valid candidate".
  unfoldable pub find_optimal_start : List ForecastBucket → Time → Time → ℕ → Time
  unfolding optimal_loop consider
  find_optimal_start buckets now latest d =
      let score : Time → A = λ c. score_window buckets c (c + d) in
      (optimal_loop score now latest (rounds now latest) (align_to_half_hour now)
        (0, F.max_float)).0

pub record BalancedCandidate (A : Type 0) : Type 0 where
  pub start : Time
  pub carbon : A
  pub dwell : A

pub record Ranges (A : Type 0) : Type 0 where
  pub min_carbon : A
  pub max_carbon : A
  pub min_dwell : A
  pub max_dwell : A

module _ {A : Type 0} ⦃F : Float A⦄ where
  -- The first loop of findBalancedStart.
  unfoldable pub balanced_candidates :
      (Time → A) → (Time → A) → Time → Time → ℕ → Time → List (BalancedCandidate A)
  balanced_candidates carbon dwell now latest zero c = []
  balanced_candidates carbon dwell now latest (suc fuel) c =
      let rest = balanced_candidates carbon dwell now latest fuel (c + bucket_size) in
      let kept =
        if ltb c now
        then rest
        else if eqf (carbon c) F.max_float
        then rest
        else record { start = c; carbon = carbon c; dwell = dwell c } ∷ rest in
      if leb c latest then kept else []

  -- The loop over candidates[1:], from the first candidate's values.
  unfoldable pub ranges : Ranges A → List (BalancedCandidate A) → Ranges A
  ranges r [] = r
  ranges r (c ∷ cs) =
      ranges
        (record {
          min_carbon = min_of r.min_carbon c.carbon;
          max_carbon = max_of r.max_carbon c.carbon;
          min_dwell = min_of r.min_dwell c.dwell;
          max_dwell = max_of r.max_dwell c.dwell;
        })
        cs

  unfoldable pub normalize_score : A → A → A → A
  normalize_score v min max = if eqf max min then zero_f else F.div (F.sub v min) (F.sub max min)

  unfoldable pub balance_score : Ranges A → BalancedCandidate A → A
  unfolding normalize_score
  balance_score r c =
      F.add (normalize_score c.carbon r.min_carbon r.max_carbon)
        (normalize_score c.dwell r.min_dwell r.max_dwell)

  -- The last loop, on bestStart and bestScore.
  unfoldable pub best_of :
      (BalancedCandidate A → A) → List (BalancedCandidate A) → Time × A → Time × A
  best_of score [] best = best
  best_of score (c ∷ cs) (best_start, best_score) =
      best_of score cs
        (if le (score c) best_score then (c.start, score c) else (best_start, best_score))

  unfoldable pub pick_balanced : List (BalancedCandidate A) → Time
  unfolding ranges best_of
  pick_balanced [] = 0
  pick_balanced (c ∷ cs) =
      let first : Ranges A = record {
        min_carbon = c.carbon;
        max_carbon = c.carbon;
        min_dwell = c.dwell;
        max_dwell = c.dwell;
      } in
      (best_of (balance_score (ranges first cs)) (c ∷ cs) (0, F.max_float)).0

module _ (A : Type 0) ⦃F : Float A⦄ where
  unfoldable pub find_balanced_start : List ForecastBucket → Time → Time → Time → ℕ → Time
  unfolding balanced_candidates pick_balanced
  find_balanced_start buckets now latest deadline d =
      let carbon : Time → A = λ c. score_window buckets c (c + d) in
      let dwell : Time → A = λ c. minutes_of (sub_ℕ deadline (c + d)) in
      pick_balanced
        (balanced_candidates carbon dwell now latest (rounds now latest) (align_to_half_hour now))
