-- ===== src/Activation/Missed.antt =====
-- About the ticks of a carbon-aware schedule between two half-hours.
use ev_charge_controller.Prelude.{
  ℕ, ◌+◌, ◌-◌, ◌*◌, ◌%◌, ◌≤◌, ◌<◌, ◌≡◌, ◌≢◌, inl, inr, false, some, List, arith,
}
use ev_charge_controller.Clock.{Time, minute}
use ev_charge_controller.Float.{Float, FloatOrder}
use ev_charge_controller.Models.{Vehicle}
use ev_charge_controller.Optimizer.{
  ForecastBucket, bucket_size, find_optimal_start, find_balanced_start,
}
use ev_charge_controller.Optimizer.Optimal.{find_optimal_start-IsBest}
use ev_charge_controller.Optimizer.BalancedStart.{find_balanced_start-Outcome}
use ev_charge_controller.Activation.{Services, Scheduler, starts_now}
use ev_charge_controller.Activation.Attempts.{
  forecast_of, try_activate_carbon_aware_single_stage, try_activate_carbon_aware_two_stage,
}

-- A start that is neither the zero Time nor before `now` is not the current bucket.
later_start :
    (now start : Time)
    → now % bucket_size ≢ 0
    → start ≢ 0
    → now ≤ start
    → starts_now now start ≡ false
later_start now start off nonzero le = ground (arith, off, nonzero)

pub optimal_waits :
    {A : Type 0} ⦃F : Float A⦄ (O : FloatOrder F) (buckets : List ForecastBucket)
    (now latest : Time) (d : ℕ)
    → now % bucket_size ≢ 0
    → find_optimal_start A buckets now latest d ≢ 0
    → starts_now now (find_optimal_start A buckets now latest d) ≡ false
optimal_waits {A} O buckets now latest d off found =
    elim (find_optimal_start-IsBest O buckets now latest d).1 [
      | inl e ↦ absurd (found e.no_start)
      | inr e ↦ later_start now (find_optimal_start A buckets now latest d) off found e.slot.1
    ]

pub balanced_waits :
    {A : Type 0} ⦃F : Float A⦄ (O : FloatOrder F) (buckets : List ForecastBucket)
    (now latest deadline : Time) (d : ℕ)
    → bucket_size ≤ now
    → now % bucket_size ≢ 0
    → find_balanced_start A buckets now latest deadline d ≢ 0
    → starts_now now (find_balanced_start A buckets now latest deadline d) ≡ false
balanced_waits {A} O buckets now latest deadline d h off found =
    elim (find_balanced_start-Outcome O buckets now latest deadline d h) [
      | inl e ↦ absurd (found e.0)
      | inr e ↦
          later_start now (find_balanced_start A buckets now latest deadline d) off found
            e.1.candidate.slot.1
    ]

module _ {A W : Type 0} ⦃F : Float A⦄ (O : FloatOrder F) (S : Services A W) (st : Scheduler A W)
    (plug : ℕ) (v : Vehicle A) (now last_act window_end : Time)
    (buckets : List ForecastBucket) where
  -- Before the latest start, with a forecast in which findOptimalStart finds a slot, a check of a
  -- single-stage carbon-aware schedule that does not run exactly on a half-hour changes nothing:
  -- the current slot is never the chosen one.
  pub try_activate_carbon_aware_single_stage-waits :
      (d : ℕ)
      → S.estimator v v.current_percent v.target_percent ≡ some d
      → now < window_end - d * minute
      → forecast_of S.forecaster now window_end ≡ some buckets
      → now % bucket_size ≢ 0
      → find_optimal_start A buckets now (window_end - d * minute) (d * minute) ≢ 0
      → try_activate_carbon_aware_single_stage S st plug v now last_act window_end ≡ st
  unfolding try_activate_carbon_aware_single_stage
  try_activate_carbon_aware_single_stage-waits d est early forecast off found =
      let waits = optimal_waits O buckets now (window_end - d * minute) (d * minute) off found in
      rw (est, forecast, waits) (ground arith)

  -- Before the latest start of its first stage, with a forecast in which findBalancedStart finds a slot,
  -- a check of a two-stage carbon-aware schedule that does not run exactly on a half-hour
  -- changes nothing. The clock must be at least half an hour past the zero Time.
  pub try_activate_carbon_aware_two_stage-waits :
      (hold_percent : A) (d1 d2 : ℕ)
      → bucket_size ≤ now
      → S.estimator v v.current_percent hold_percent ≡ some d1
      → S.estimator v hold_percent v.target_percent ≡ some d2
      → now < window_end - (d1 + d2) * minute
      → forecast_of S.forecaster now window_end ≡ some buckets
      → now % bucket_size ≢ 0
      → find_balanced_start A buckets now (window_end - (d1 + d2) * minute) window_end (d1 * minute)
        ≢ 0
      → try_activate_carbon_aware_two_stage S st plug v now last_act window_end hold_percent ≡ st
  unfolding try_activate_carbon_aware_two_stage
  try_activate_carbon_aware_two_stage-waits hold_percent d1 d2 h est1 est2 early forecast off
        found =
      let latest = window_end - (d1 + d2) * minute in
      let waits = balanced_waits O buckets now latest window_end (d1 * minute) h off found in
      rw (est1, est2, forecast, waits) (ground arith)
