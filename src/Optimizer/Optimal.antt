-- ===== src/Optimizer/Optimal.antt =====
-- About the half-hour that findOptimalStart finds.
use ev_charge_controller.Prelude.{
  ℕ, zero, suc, ◌+◌, ◌*◌, ◌%◌, ◌≤◌, ◌<◌, ◌≡◌, refl, inl, inr, List, arith, leb, Bool-cases,
}
use ev_charge_controller.Clock.{Time}
use ev_charge_controller.Float.{Float, FloatOrder}
use ev_charge_controller.Optimizer.{
  ForecastBucket, bucket_size, align_to_half_hour, consider, optimal_loop, rounds, score_window,
  find_optimal_start,
}
use ev_charge_controller.Optimizer.Best.{IsBest, consider-IsBest}

module _ {A : Type 0} ⦃F : Float A⦄ (O : FloatOrder F) (score : Time → A) (now latest : Time) where
  -- The loop ends behind the latest start, and has chosen no slot behind it.
  finish :
      {c : Time} {best : Time × A}
      → latest < c
      → best.0 ≤ latest
      → IsBest score now c best
      → IsBest score now (suc latest) best
  finish past within (inl e) = inl (record {
    no_start = e.no_start;
    no_score = e.no_score;
    unscored = λ t s lt. e.unscored t s (omega arith);
  })
  finish past within (inr e) = inr (record {
    slot = e.slot;
    reached = omega arith;
    its_score = e.its_score;
    scored = e.scored;
    least = λ t s lt u. e.least t s (omega arith) u;
    latest = λ t s lt u later. e.latest t s (omega arith) u later;
  })

  consider_within :
      (c : Time) (best : Time × A)
      → c ≤ latest
      → best.0 ≤ latest
      → (consider score now c best).0 ≤ latest
  unfolding consider
  consider_within c best h k = ground arith

  optimal_loop-IsBest :
      (fuel : ℕ) (c : Time) (best : Time × A)
      → c % bucket_size ≡ 0
      → latest < c + fuel * bucket_size
      → best.0 ≤ latest
      → IsBest score now c best
      → IsBest score now (suc latest) (optimal_loop score now latest fuel c best)
  unfolding optimal_loop
  optimal_loop-IsBest zero c best al enough w b = finish (omega arith) w b
  optimal_loop-IsBest (suc fuel) c best al enough w b = elim (Bool-cases (leb c latest)) [
    | inl more ↦ rw more (
        optimal_loop-IsBest fuel (c + bucket_size) (consider score now c best) (omega arith)
          (omega arith) (consider_within c best (ground arith) w)
          (consider-IsBest O score now c al b))
    | inr done ↦ rw done (finish {c = c} (ground arith) w b)
  ]

  start-IsBest : IsBest score now (align_to_half_hour now) (0, F.max_float)
  start-IsBest =
      inl (record { no_start = refl; no_score = refl; unscored = λ t s lt. absurd (omega arith) })

  enough_rounds : latest < align_to_half_hour now + rounds now latest * bucket_size
  enough_rounds = omega arith

-- Over every forecast, findOptimalStart returns the zero Time where no half-hour from now to the
-- latest start has forecast data, and else a half-hour from now to the latest start with forecast
-- data, whose average intensity is the least of all such half-hours, and less than that of
-- every later one. The rounds given to its loop are enough.
pub find_optimal_start-IsBest :
    {A : Type 0} ⦃F : Float A⦄ (O : FloatOrder F) (buckets : List ForecastBucket)
    (now latest : Time) (d : ℕ)
    → (best_score : A) × IsBest
        (λ c. score_window buckets c (c + d))
        now
        (suc latest)
        (find_optimal_start A buckets now latest d, best_score)
unfolding find_optimal_start
find_optimal_start-IsBest {A} ⦃F⦄ O buckets now latest d =
    let score : Time → A = λ c. score_window buckets c (c + d) in
    let found =
      optimal_loop score now latest (rounds now latest) (align_to_half_hour now) (0, F.max_float) in
    (
      found.1,
      optimal_loop-IsBest O score now latest (rounds now latest) (align_to_half_hour now)
          (0, F.max_float) (omega arith) (enough_rounds O score now latest) (omega arith)
          (start-IsBest O score now latest),
    )
