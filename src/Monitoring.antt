-- ===== src/Monitoring.antt =====
-- api/services/session_monitoring_service.go: the checks that stop, hold and resume the sessions in
-- progress. Each takes the session `s` as ListActive has read it, the state, and the environment of
-- the call; a plug controller is set. Log lines are left out.
pub mod Idle
pub mod Target
pub mod Resume
use ev_charge_controller.Prelude.{
  ℕ, ◌+◌, ◌-◌, ◌*◌, Bool, true, false, not, ◌&&◌, ◌||◌, Option, none, some, List, [], ◌∷◌, ltb,
  if◌then◌else◌,
}
use ev_charge_controller.Clock.{Time, minute, Location}
use ev_charge_controller.Hhmm.{Text}
use ev_charge_controller.Window.{resolve_deadline}
use ev_charge_controller.Float.{Float, le, eqf}
use ev_charge_controller.Models.{
  SessionStatus, active, conditioning, holding, status_eq, ChargeSession, PowerReading, Vehicle,
  EnergyData, zero_f, hundred,
}
use ev_charge_controller.Energy.{ProgressResult, calculate_progress}
use ev_charge_controller.Optimizer.{ForecastBucket, find_balanced_start}
use ev_charge_controller.Activation.{starts_now}
use ev_charge_controller.Activation.Attempts.{forecast_of}
use ev_charge_controller.Sessions.{
  World, update_status, resume_holding, update_start_total_kwh, update_last_blended_kwh, command,
}
use ev_charge_controller.Sessions.Lifecycle.{Environment}
use ev_charge_controller.Sessions.Stop.{Figures, energy_of, stop_with_percent}

-- IdleSessionTimeout and MinSessionDurationBeforeIdleCheck
abbrev pub idle_session_timeout : ℕ
idle_session_timeout = 15 * minute

abbrev pub min_session_duration_before_idle_check : ℕ
min_session_duration_before_idle_check = 10 * minute

-- The estimator, the forecaster, and the location of the clock.
pub record Planner (A : Type 0) : Type 0 where
  pub estimator : Vehicle A → A → A → Option ℕ
  pub forecaster : Option (Time → Time → Option (List ForecastBucket))
  pub location : Location

module _ {A : Type 0} where
  -- The list from its end, in front of `acc`.
  unfoldable pub reverse_onto :
      List (PowerReading A) → List (PowerReading A) → List (PowerReading A)
  reverse_onto [] acc = acc
  reverse_onto (r ∷ rs) acc = reverse_onto rs (r ∷ acc)

module _ {A : Type 0} ⦃F : Float A⦄ where
  abbrev pub idle_power_threshold_w : A
  idle_power_threshold_w = F.lit 30 1

  abbrev pub is_idle : PowerReading A → Bool
  is_idle r = F.lt r.power idle_power_threshold_w

  -- The loop of idleStreakStart, over the readings from the last one.
  unfoldable pub streak : Time → List (PowerReading A) → Time
  streak start [] = start
  streak start (r ∷ rs) = if is_idle r then streak r.timestamp rs else start

  abbrev pub from_last : List (PowerReading A) → Option Time
  from_last [] = none
  from_last (last ∷ rs) = if is_idle last then some (streak last.timestamp (last ∷ rs)) else none

  -- `none` is isIdle=false; the code does not call it without readings.
  unfoldable pub idle_streak_start : List (PowerReading A) → Option Time
  unfolding streak reverse_onto
  idle_streak_start readings = from_last (reverse_onto readings [])

module _ {A : Type 0} ⦃F : Float A⦄ (env : Environment A) where
  abbrev pub on_confirmed : Bool → World A → World A → World A
  on_confirmed confirmed w w2 = if confirmed then w2 else w

  abbrev pub hold_plug : World A → ℕ → Option ℕ → World A
  hold_plug w id none = w
  hold_plug w id (some plug) =
      let off = command plug false w in
      on_confirmed (env.confirms plug false) off (update_status off id holding)

  unfoldable pub hold_session : World A → ChargeSession A → World A
  hold_session w s = hold_plug w s.id s.plug_id

  abbrev pub resume_plug : World A → ℕ → Option ℕ → World A
  resume_plug w id none = w
  resume_plug w id (some plug) =
      let on = command plug true w in
      on_confirmed (env.confirms plug true) on (resume_holding on id).0

  unfoldable pub resume_holding_session : World A → ChargeSession A → World A
  resume_holding_session w s = resume_plug w s.id s.plug_id

  unfoldable pub backfill_energy_baseline : World A → ℕ → EnergyData A → World A
  backfill_energy_baseline w id e =
      if le e.total zero_f then w else update_start_total_kwh w id e.total

  module _ (fig : Figures A) where
    -- The part of autoStopReachingSession behind the progress.
    abbrev pub after_progress :
        World A → ChargeSession A → Vehicle A → ProgressResult A → Option A → World A
    after_progress w s v progress (some hold_percent) =
        if le (F.div (F.mul v.capacity_kwh hold_percent) hundred) progress.blended_kwh
        then hold_session w s
        else w
    after_progress w s v progress none =
        if le s.target_kwh progress.blended_kwh
        then if eqf s.target_percent hundred
          then update_status w s.id conditioning
          else (stop_with_percent env fig w s progress.current_percent).0
        else w

    abbrev pub with_vehicle :
        World A → ChargeSession A → EnergyData A → Option (Vehicle A) → World A
    with_vehicle w s e none = w
    with_vehicle w s e (some v) =
        let progress = calculate_progress (some s) (some e) (some v) in
        let saved = update_last_blended_kwh w s.id progress.last_blended_kwh in
        if le v.capacity_kwh zero_f then w else after_progress saved s v progress s.hold_percent

    abbrev pub with_baseline : World A → ChargeSession A → EnergyData A → Option A → World A
    with_baseline w s e none = backfill_energy_baseline w s.id e
    with_baseline w s e (some _) = with_vehicle w s e (w.vehicles s.vehicle_id)

    abbrev pub with_energy : World A → ChargeSession A → Option (EnergyData A) → World A
    with_energy w s none = w
    with_energy w s (some e) =
        if eqf e.total zero_f then w else with_baseline w s e s.start_total_kwh

    unfoldable pub auto_stop_reaching_session : World A → ChargeSession A → World A
    auto_stop_reaching_session w s = with_energy w s (energy_of env s.plug_id)

    abbrev pub tapered :
        World A → ChargeSession A → Option (Vehicle A) → Option (EnergyData A) → World A
    tapered w s (some v) (some e) =
        if le v.charger_output_w zero_f
        then w
        else if F.lt e.power (F.mul v.charger_output_w (F.lit 10 100))
        then (stop_with_percent env fig w s s.target_percent).0
        else w
    tapered w s _ _ = w

    unfoldable pub stop_conditioning_session : World A → ChargeSession A → World A
    stop_conditioning_session w s = tapered w s (w.vehicles s.vehicle_id) (energy_of env s.plug_id)

    abbrev pub idle_since : World A → ChargeSession A → Option Time → World A
    idle_since w s none = w
    idle_since w s (some since) =
        if ltb env.now (since + idle_session_timeout)
        then w
        else (stop_with_percent env fig w s hundred).0

    abbrev pub idle_readings : World A → ChargeSession A → Option (List (PowerReading A)) → World A
    idle_readings w s (some (r ∷ rs)) = idle_since w s (idle_streak_start (r ∷ rs))
    idle_readings w s _ = w

    abbrev pub idle_started : World A → ChargeSession A → Option Time → World A
    idle_started w s none = w
    idle_started w s (some started) =
        if ltb env.now (started + min_session_duration_before_idle_check)
        then w
        else idle_readings w s (fig.readings s.id)

    unfoldable pub stop_idle_session : World A → ChargeSession A → World A
    stop_idle_session w s = idle_started w s s.started_at

  module _ (plan : Planner A) where
    abbrev pub by_forecast_resume :
        World A
        → ChargeSession A
        → (List ForecastBucket → Time)
        → Option (List ForecastBucket)
        → World A
    by_forecast_resume w s best none = w
    by_forecast_resume w s best (some buckets) =
        if starts_now env.now (best buckets) then resume_holding_session w s else w

    abbrev pub estimated : World A → ChargeSession A → Time → Option ℕ → World A
    estimated w s deadline none = resume_holding_session w s
    estimated w s deadline (some d) =
        let latest_start = deadline - d * minute in
        if not (ltb env.now latest_start)
        then resume_holding_session w s
        else if not s.carbon_aware_hold
        then w
        else by_forecast_resume w s
            (λ buckets. find_balanced_start A buckets env.now latest_start deadline (d * minute))
            (forecast_of plan.forecaster env.now deadline)

    abbrev pub until_deadline : World A → ChargeSession A → Vehicle A → A → Option Time → World A
    until_deadline w s v hold none = w
    until_deadline w s v hold (some deadline) =
        estimated w s deadline (plan.estimator v hold s.target_percent)

    abbrev pub held :
        World A → ChargeSession A → Option A → Option Text → Option (Vehicle A) → World A
    held w s (some hold) (some ready_by) (some v) =
        until_deadline w s v hold (resolve_deadline plan.location env.now ready_by)
    held w s _ _ _ = w

    unfoldable pub resume_holding_session_if_due : World A → ChargeSession A → World A
    resume_holding_session_if_due w s =
        held w s s.hold_percent s.ready_by_time (w.vehicles s.vehicle_id)
