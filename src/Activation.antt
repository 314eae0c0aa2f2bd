-- ===== src/Activation.antt =====
-- The activation of schedules in api/services/schedule_service.go. The services and repositories it
-- calls are the record `Services`, over the state `W` of the charge service; a call that returns an
-- error is `none`, and a nil result is an inner `none`. Log lines are left out, and with
-- them the argument throttleExempt, which is only logged.
pub mod Attempts
pub mod Missed
pub mod Deadline
pub mod Admission
pub mod Backoff
pub mod Once
use ev_charge_controller.Prelude.{
  ℕ, ◌+◌, ◌-◌, ◌*◌, ◌/◌, Bool, true, false, not, ◌&&◌, ◌||◌, Option, none, some, List, [], ◌∷◌, ltb,
  leb, ◌==◌, if◌then◌else◌,
}
use ev_charge_controller.Clock.{Time, second, minute, Location}
use ev_charge_controller.Hhmm.{Text, text_eq, format_hhmm}
use ev_charge_controller.Window.{resolve_window}
use ev_charge_controller.Float.{Float, le}
use ev_charge_controller.Models.{Vehicle, Plug, Schedule, ScheduleType, daily, carbon_aware}
use ev_charge_controller.Optimizer.{
  ForecastBucket, align_to_half_hour, find_optimal_start, find_balanced_start,
}
use ev_charge_controller.Estimate.{project_percent}

-- scheduleThrottleDuration
abbrev pub schedule_throttle_duration : ℕ
schedule_throttle_duration = 60 * second

-- MinTwoStageStageDurationMin
abbrev pub min_two_stage_stage_duration_min : ℕ
min_two_stage_stage_duration_min = 15

-- The error of a start: nil, ErrActiveSessionExists, or another one;
-- `started` carries the identifier of the session.
pub data StartResult : Type 0 where
  started : ℕ → StartResult
  active_session_exists start_failed : StartResult

-- chargeService, plugRepo, vehicleRepo, estimator and forecaster. `find_active w plug` tells whether
-- GetActiveByPlug finds a session.
pub record Services (A W : Type 0) : Type 0 where
  pub find_active : W → ℕ → Option Bool
  pub find_plug : W → ℕ → Option (Option Plug)
  pub find_vehicle : W → ℕ → Option (Option (Vehicle A))
  pub start_session : W → ℕ → ℕ → A → A → W × StartResult
  pub start_two_stage_session : W → ℕ → ℕ → A → A → A → Text → Bool → W × StartResult
  pub estimator : Vehicle A → A → A → Option ℕ
  pub forecaster : Option (Time → Time → Option (List ForecastBucket))
  pub has_notifier : Bool
  pub location : Location

-- The arguments of NotifyShortfallProjected.
pub record Shortfall (A : Type 0) : Type 0 where
  pub session_id : ℕ
  pub projected_percent : A
  pub target_percent : A
  pub ready_by : Text

-- lastActivation, lastStartFailure, the state of the charge service, and the notifications sent.
pub record Scheduler (A W : Type 0) : Type 0 where
  pub last_activation : Time
  pub last_start_failure : ℕ → Option Time
  pub world : W
  pub shortfalls : List (Shortfall A)

-- now.Sub(last) < scheduleThrottleDuration
abbrev pub within_throttle : Time → Time → Bool
within_throttle now last = ltb now (last + schedule_throttle_duration)

unfoldable pub failed_recently : Option Time → Time → Bool
failed_recently none now = false
failed_recently (some last) now = within_throttle now last

abbrev pub set_failure : ℕ → Option Time → (ℕ → Option Time) → ℕ → Option Time
set_failure plug value failures other = if other == plug then value else failures other

-- `optimalStart.IsZero() || !optimalStart.After(currentBucket)`
abbrev pub starts_now : Time → Time → Bool
starts_now now optimal_start = optimal_start == 0 || leb optimal_start (align_to_half_hour now)

-- formatTime
abbrev pub format_time : Location → Time → Text
format_time loc t = format_hhmm (loc.hour_of t) (loc.minute_of t)

abbrev pub when_free : {X : Type 0} → Option Bool → Option X → Option X
when_free (some false) v = v
when_free _ _ = none

module _ {A : Type 0} ⦃F : Float A⦄ where
  abbrev pub two_stage_hold_fraction : A
  two_stage_hold_fraction = F.lit 8 10

module _ {A W : Type 0} where
  unfoldable pub start_failure_backoff_active : Scheduler A W → ℕ → Time → Bool
  unfolding failed_recently
  start_failure_backoff_active st plug now = failed_recently (st.last_start_failure plug) now

  abbrev pub record_start_failure : Scheduler A W → ℕ → Time → Scheduler A W
  record_start_failure st plug now = record st {
    last_start_failure = set_failure plug (some now) st.last_start_failure;
  }

  abbrev pub clear_start_failure : Scheduler A W → ℕ → Scheduler A W
  clear_start_failure st plug = record st {
    last_start_failure = set_failure plug none st.last_start_failure;
  }

module _ {A W : Type 0} ⦃F : Float A⦄ (S : Services A W) where
  -- The vehicle of a plug that has a vehicle below its target and no active session.
  abbrev below_target : Option (Option (Vehicle A)) → Option (Vehicle A)
  below_target (some (some v)) = if le v.target_percent v.current_percent then none else some v
  below_target _ = none

  abbrev vehicle_of : W → Option (Option Plug) → Option (Vehicle A)
  vehicle_of w (some (some plug)) = lookup plug.vehicle_id
    where
      lookup : Option ℕ → Option (Vehicle A)
      lookup none = none
      lookup (some id) = below_target (S.find_vehicle w id)
  vehicle_of w _ = none

  unfoldable pub load_candidate : Scheduler A W → ℕ → Option (Vehicle A)
  load_candidate st plug =
      when_free (S.find_active st.world plug) (vehicle_of st.world (S.find_plug st.world plug))

  abbrev long_enough : Option ℕ → Bool
  long_enough none = true
  long_enough (some d) = leb min_two_stage_stage_duration_min d

  unfoldable pub worthwhile_two_stage : Vehicle A → A → Bool
  worthwhile_two_stage v hold_percent =
      if le hold_percent v.current_percent
      then false
      else long_enough (S.estimator v hold_percent v.target_percent)
