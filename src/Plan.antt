-- ===== src/Plan.antt =====
-- The estimates that are shown for a schedule: EstimateCarbonAwareStart, EstimateCarbonAwareTwoStagePlan
-- and EstimateDailyTwoStagePlan of api/services/schedule_service.go. They read the services of
-- Activation and change nothing. The plans are given as instants first, and then printed.
pub mod Order
use ev_charge_controller.Prelude.{
  ℕ, ◌+◌, ◌-◌, ◌*◌, Bool, true, false, not, ◌&&◌, ◌||◌, Option, none, some, List, [], ◌∷◌, ltb, leb,
  ◌==◌, if◌then◌else◌,
}
use ev_charge_controller.Clock.{Time, minute}
use ev_charge_controller.Hhmm.{Text}
use ev_charge_controller.Window.{resolve_deadline}
use ev_charge_controller.Float.{Float, le}
use ev_charge_controller.Models.{Vehicle, Schedule, ScheduleType, daily, carbon_aware}
use ev_charge_controller.Optimizer.{ForecastBucket, find_optimal_start, find_balanced_start}
use ev_charge_controller.Activation.{
  Services, Scheduler, format_time, two_stage_hold_fraction, load_candidate, worthwhile_two_stage,
  min_two_stage_stage_duration_min,
}
use ev_charge_controller.Activation.Attempts.{forecast_of, window_of}

-- models.TwoStagePlanEstimate, before it is printed and printed.
pub record TwoStagePlan : Type 0 where
  pub stage_1_start : Time
  pub stage_1_end : Time
  pub stage_2_start : Time
  pub stage_2_end : Time

pub record TwoStagePlanEstimate : Type 0 where
  pub stage_1_start_text : Text
  pub stage_1_end_text : Text
  pub stage_2_start_text : Text
  pub stage_2_end_text : Text

abbrev pub is_carbon_aware : ScheduleType → Bool
is_carbon_aware carbon_aware = true
is_carbon_aware daily = false

-- Inside the window only future starts matter.
abbrev pub search_from : Time → Time → Time
search_from now window_start = if ltb window_start now then now else window_start

abbrev pub has_forecaster : Option (Time → Time → Option (List ForecastBucket)) → Bool
has_forecaster none = false
has_forecaster (some get) = true

module _ {A W : Type 0} ⦃F : Float A⦄ (S : Services A W) where
  -- An instant of the optimizer, with the latest start in place of the zero Time.
  abbrev pub or_latest : Time → Time → Option Time
  or_latest latest start = if start == 0 then some latest else some start

  abbrev pub optimal_in : Time → Time → ℕ → Option (List ForecastBucket) → Option Time
  optimal_in search latest d none = none
  optimal_in search latest d (some buckets) =
      or_latest latest (find_optimal_start A buckets search latest (d * minute))

  abbrev pub start_in : Time → Time × Time → Option ℕ → Option Time
  start_in now (window_start, window_end) none = none
  start_in now (window_start, window_end) (some d) =
      let latest = window_end - d * minute in
      let search = search_from now window_start in
      if not (ltb search latest)
      then some latest
      else optimal_in search latest d (forecast_of S.forecaster search window_end)

  abbrev pub start_of : Time → Option (Time × Time) → Option (Vehicle A) → Option Time
  start_of now (some window) (some v) =
      start_in now window (S.estimator v v.current_percent v.target_percent)
  start_of now _ _ = none

  abbrev pub candidate_of : Scheduler A W → Option ℕ → Option (Vehicle A)
  candidate_of st none = none
  candidate_of st (some plug) = load_candidate S st plug

  -- The instant that EstimateCarbonAwareStart prints.
  unfoldable pub carbon_aware_start : Scheduler A W → Schedule → Time → Option Time
  carbon_aware_start st sch now =
      if is_carbon_aware sch.schedule_type && sch.enabled && has_forecaster S.forecaster
      then start_of now (window_of S now sch.window_start sch.window_end)
          (candidate_of st sch.plug_id)
      else none

  abbrev pub printed : Option Time → Option Text
  printed none = none
  printed (some t) = some (format_time S.location t)

  unfoldable pub estimate_carbon_aware_start : Scheduler A W → Schedule → Time → Option Text
  estimate_carbon_aware_start st sch now = printed (carbon_aware_start st sch now)

  abbrev pub balanced_in : Time → Time → Time → ℕ → Option (List ForecastBucket) → Option Time
  balanced_in search latest window_end d none = none
  balanced_in search latest window_end d (some buckets) =
      or_latest latest (find_balanced_start A buckets search latest window_end (d * minute))

  unfoldable pub estimate_balanced_stage_start : Time → Time → Time → ℕ → Option Time
  estimate_balanced_stage_start search latest window_end d =
      if not (ltb search latest)
      then some latest
      else balanced_in search latest window_end d (forecast_of S.forecaster search window_end)

  abbrev pub second_stage : Time → ℕ → ℕ → Time → Option Time → Option TwoStagePlan
  second_stage stage_1_start d1 d2 stage_1_end none = none
  second_stage stage_1_start d1 d2 stage_1_end (some stage_2_start) = some (record {
    stage_1_start = stage_1_start;
    stage_1_end = stage_1_end;
    stage_2_start = stage_2_start;
    stage_2_end = stage_2_start + d2 * minute;
  })

  abbrev pub first_stage : Time → Time → ℕ → ℕ → Option Time → Option TwoStagePlan
  first_stage search window_end d1 d2 none = none
  first_stage search window_end d1 d2 (some stage_1_start) =
      let stage_1_end = stage_1_start + d1 * minute in
      let stage_2_search = if ltb stage_1_end search then search else stage_1_end in
      second_stage stage_1_start d1 d2 stage_1_end
        (estimate_balanced_stage_start stage_2_search (window_end - d2 * minute) window_end d2)

  abbrev pub plan_in : Time → Time × Time → Option ℕ → Option ℕ → Option TwoStagePlan
  plan_in now (window_start, window_end) (some d1) (some d2) =
      let search = search_from now window_start in
      if ltb d2 min_two_stage_stage_duration_min
      then none
      else first_stage search window_end d1 d2
          (estimate_balanced_stage_start search (window_end - (d1 + d2) * minute) window_end d1)
  plan_in now window _ _ = none

  abbrev pub plan_of : Time → Option (Time × Time) → Option (Vehicle A) → Option TwoStagePlan
  plan_of now (some window) (some v) =
      let hold : A = F.mul v.target_percent two_stage_hold_fraction in
      if le hold v.current_percent
      then none
      else plan_in now window (S.estimator v v.current_percent hold)
          (S.estimator v hold v.target_percent)
  plan_of now _ _ = none

  -- The plan that EstimateCarbonAwareTwoStagePlan prints.
  unfoldable pub carbon_aware_two_stage_plan : Scheduler A W → Schedule → Time → Option TwoStagePlan
  carbon_aware_two_stage_plan st sch now =
      if is_carbon_aware sch.schedule_type
        && sch.enabled
        && sch.two_stage
        && has_forecaster S.forecaster
      then plan_of now (window_of S now sch.window_start sch.window_end)
          (candidate_of st sch.plug_id)
      else none

  abbrev pub daily_stages : Time → Option ℕ → Option ℕ → Option Time → Option TwoStagePlan
  daily_stages stage_1_start (some d1) (some d2) (some deadline) = some (record {
    stage_1_start = stage_1_start;
    stage_1_end = stage_1_start + d1 * minute;
    stage_2_start = deadline - d2 * minute;
    stage_2_end = deadline;
  })
  daily_stages stage_1_start _ _ _ = none

  abbrev pub daily_plan_of : Option Text → Option Time → Option (Vehicle A) → Option TwoStagePlan
  daily_plan_of (some ready_by) (some stage_1_start) (some v) =
      let hold : A = F.mul v.target_percent two_stage_hold_fraction in
      if worthwhile_two_stage S v hold
      then daily_stages stage_1_start (S.estimator v v.current_percent hold)
          (S.estimator v hold v.target_percent) (resolve_deadline S.location stage_1_start ready_by)
      else none
  daily_plan_of _ _ _ = none

  -- The plan that EstimateDailyTwoStagePlan prints.
  unfoldable pub daily_two_stage_plan : Scheduler A W → Schedule → Time → Option TwoStagePlan
  daily_two_stage_plan st sch now =
      if not (is_carbon_aware sch.schedule_type) && sch.enabled
      then daily_plan_of sch.ready_by (resolve_deadline S.location now sch.time)
          (candidate_of st sch.plug_id)
      else none

  abbrev pub printed_plan : Option TwoStagePlan → Option TwoStagePlanEstimate
  printed_plan none = none
  printed_plan (some p) = some (record {
    stage_1_start_text = format_time S.location p.stage_1_start;
    stage_1_end_text = format_time S.location p.stage_1_end;
    stage_2_start_text = format_time S.location p.stage_2_start;
    stage_2_end_text = format_time S.location p.stage_2_end;
  })

  unfoldable pub estimate_carbon_aware_two_stage_plan :
      Scheduler A W → Schedule → Time → Option TwoStagePlanEstimate
  estimate_carbon_aware_two_stage_plan st sch now =
      printed_plan (carbon_aware_two_stage_plan st sch now)

  unfoldable pub estimate_daily_two_stage_plan :
      Scheduler A W → Schedule → Time → Option TwoStagePlanEstimate
  estimate_daily_two_stage_plan st sch now = printed_plan (daily_two_stage_plan st sch now)
