-- ===== src/Run/Checks.antt =====
-- About the number of sessions in progress and the checks of the monitoring service.
use ev_charge_controller.Prelude.{
  ℕ, ◌≡◌, refl, true, false, not, Option, none, some, List, [], ◌∷◌, arith, if_either, if_cases,
  ltb, ◌*◌, ◌-◌,
}
use ev_charge_controller.Clock.{Time, minute}
use ev_charge_controller.Hhmm.{Text}
use ev_charge_controller.Float.{Float, le, eqf}
use ev_charge_controller.Models.{ChargeSession, PowerReading, Vehicle, EnergyData, zero_f, hundred}
use ev_charge_controller.Optimizer.{ForecastBucket, find_balanced_start}
use ev_charge_controller.Activation.Attempts.{forecast_of}
use ev_charge_controller.Energy.{ProgressResult, calculate_progress}
use ev_charge_controller.Sessions.{World, update_last_blended_kwh, command}
use ev_charge_controller.Sessions.Lifecycle.{Environment}
use ev_charge_controller.Sessions.Stop.{Figures, energy_of, stop_with_percent}
use ev_charge_controller.Sessions.Measure.{
  Tag, Fewer, Fewer-trans, Fewer-same, resume_holding-Fewer, update_start_total_kwh-Fewer,
  update_last_blended_kwh-Fewer, stop_with_percent-Fewer,
}
use ev_charge_controller.Monitoring.{
  Planner, resume_plug, resume_holding_session, backfill_energy_baseline, after_progress,
  with_vehicle, with_baseline, with_energy, auto_stop_reaching_session, tapered,
  stop_conditioning_session, idle_since, idle_readings, idle_started, stop_idle_session,
  idle_streak_start, by_forecast_resume, estimated, until_deadline, held,
  resume_holding_session_if_due,
}

module _ {A : Type 0} ⦃F : Float A⦄ (tag : Tag) (env : Environment A) (w : World A) where
  unchanged : Fewer tag w w
  unchanged = Fewer-same tag w w w refl

  resume_plug-Fewer : (id : ℕ) (plug : Option ℕ) → Fewer tag w (resume_plug env w id plug)
  resume_plug-Fewer id none = unchanged
  resume_plug-Fewer id (some plug) =
      let on : World A = command plug true w in
      if_either (Fewer tag w) (env.confirms plug true)
        (Fewer-trans tag w on _ (Fewer-same tag w on w refl) (resume_holding-Fewer tag on id))
        (Fewer-same tag w on w refl)

  resume-Fewer : (s : ChargeSession A) → Fewer tag w (resume_holding_session env w s)
  unfolding resume_holding_session
  resume-Fewer s = resume_plug-Fewer s.id s.plug_id

  backfill-Fewer : (id : ℕ) (e : EnergyData A) → Fewer tag w (backfill_energy_baseline env w id e)
  unfolding backfill_energy_baseline
  backfill-Fewer id e =
      if_either (Fewer tag w) (le e.total zero_f) unchanged
        (update_start_total_kwh-Fewer tag w id e.total)

  module _ (fig : Figures A) where
    stop-Fewer : (s : ChargeSession A) (p : A) → Fewer tag w (stop_with_percent env fig w s p).0
    stop-Fewer s p = stop_with_percent-Fewer tag env w s fig p

    -- Of a session without a hold point and with a target below 100%.
    after_progress-Fewer :
        (s : ChargeSession A) (v : Vehicle A) (r : ProgressResult A) (hold : Option A)
        → hold ≡ none
        → eqf s.target_percent hundred ≡ false
        → Fewer tag w (after_progress env fig w s v r hold)
    after_progress-Fewer s v r (some hold) e below = absurd (cc e)
    after_progress-Fewer s v r none e below =
        if_either (Fewer tag w) (le s.target_kwh r.blended_kwh)
          (if_cases (Fewer tag w) (eqf s.target_percent hundred)
            (λ full. absurd (ground (arith, full, below))) (λ _. stop-Fewer s r.current_percent))
          unchanged

    tapered-Fewer :
        (s : ChargeSession A) (v : Option (Vehicle A)) (e : Option (EnergyData A))
        → Fewer tag w (tapered env fig w s v e)
    tapered-Fewer s none e = unchanged
    tapered-Fewer s (some v) none = unchanged
    tapered-Fewer s (some v) (some e) =
        if_either (Fewer tag w) (le v.charger_output_w zero_f) unchanged
          (if_either (Fewer tag w) _ (stop-Fewer s s.target_percent) unchanged)

    pub stop_conditioning-Fewer :
        (s : ChargeSession A) → Fewer tag w (stop_conditioning_session env fig w s)
    unfolding stop_conditioning_session
    stop_conditioning-Fewer s = tapered-Fewer s (w.vehicles s.vehicle_id) (energy_of env s.plug_id)

    idle_since-Fewer :
        (s : ChargeSession A) (since : Option Time) → Fewer tag w (idle_since env fig w s since)
    idle_since-Fewer s none = unchanged
    idle_since-Fewer s (some since) = if_either (Fewer tag w) _ unchanged (stop-Fewer s hundred)

    idle_readings-Fewer :
        (s : ChargeSession A) (rs : Option (List (PowerReading A)))
        → Fewer tag w (idle_readings env fig w s rs)
    idle_readings-Fewer s none = unchanged
    idle_readings-Fewer s (some []) = unchanged
    idle_readings-Fewer s (some (r ∷ rs)) = idle_since-Fewer s (idle_streak_start (r ∷ rs))

    idle_started-Fewer :
        (s : ChargeSession A) (since : Option Time) → Fewer tag w (idle_started env fig w s since)
    idle_started-Fewer s none = unchanged
    idle_started-Fewer s (some since) =
        if_either (Fewer tag w) _ unchanged (idle_readings-Fewer s (fig.readings s.id))

    pub stop_idle-Fewer : (s : ChargeSession A) → Fewer tag w (stop_idle_session env fig w s)
    unfolding stop_idle_session
    stop_idle-Fewer s = idle_started-Fewer s s.started_at

  module _ (plan : Planner A) where
    by_forecast-Fewer :
        (s : ChargeSession A) (best : List ForecastBucket → Time) (o : Option (List ForecastBucket))
        → Fewer tag w (by_forecast_resume env plan w s best o)
    by_forecast-Fewer s best none = unchanged
    by_forecast-Fewer s best (some buckets) = if_either (Fewer tag w) _ (resume-Fewer s) unchanged

    estimated-Fewer :
        (s : ChargeSession A) (deadline : Time) (o : Option ℕ)
        → Fewer tag w (estimated env plan w s deadline o)
    estimated-Fewer s deadline none = resume-Fewer s
    estimated-Fewer s deadline (some d) =
        if_either (Fewer tag w) (not (ltb env.now (deadline - d * minute))) (resume-Fewer s) (
          if_either (Fewer tag w) (not s.carbon_aware_hold) unchanged (
            by_forecast-Fewer s
              (λ buckets.
                find_balanced_start A buckets env.now (deadline - d * minute) deadline (d * minute))
              (forecast_of plan.forecaster env.now deadline)))

    until-Fewer :
        (s : ChargeSession A) (v : Vehicle A) (hold : A) (deadline : Option Time)
        → Fewer tag w (until_deadline env plan w s v hold deadline)
    until-Fewer s v hold none = unchanged
    until-Fewer s v hold (some deadline) = estimated-Fewer s deadline _

    held-Fewer :
        (s : ChargeSession A) (hold : Option A) (ready_by : Option Text) (v : Option (Vehicle A))
        → Fewer tag w (held env plan w s hold ready_by v)
    held-Fewer s none ready_by v = unchanged
    held-Fewer s (some hold) none v = unchanged
    held-Fewer s (some hold) (some ready_by) none = unchanged
    held-Fewer s (some hold) (some ready_by) (some v) = until-Fewer s v hold _

    pub resume_if_due-Fewer :
        (s : ChargeSession A) → Fewer tag w (resume_holding_session_if_due env plan w s)
    unfolding resume_holding_session_if_due
    resume_if_due-Fewer s = held-Fewer s s.hold_percent s.ready_by_time (w.vehicles s.vehicle_id)

module _ {A : Type 0} ⦃F : Float A⦄ (tag : Tag) (env : Environment A) (fig : Figures A)
    (w : World A) (s : ChargeSession A) (single : s.hold_percent ≡ none)
    (below : eqf s.target_percent hundred ≡ false) where
  with_vehicle-Fewer :
      (e : EnergyData A) (v : Option (Vehicle A)) → Fewer tag w (with_vehicle env fig w s e v)
  with_vehicle-Fewer e none = unchanged tag env w
  with_vehicle-Fewer e (some v) =
      let progress = calculate_progress (some s) (some e) (some v) in
      let saved = update_last_blended_kwh w s.id progress.last_blended_kwh in
      if_either (Fewer tag w) (le v.capacity_kwh zero_f) (unchanged tag env w) (
        Fewer-trans tag w saved _
          (update_last_blended_kwh-Fewer tag w s.id progress.last_blended_kwh)
          (after_progress-Fewer tag env saved fig s v progress s.hold_percent single below))

  with_baseline-Fewer :
      (e : EnergyData A) (t : Option A) → Fewer tag w (with_baseline env fig w s e t)
  with_baseline-Fewer e none = backfill-Fewer tag env w s.id e
  with_baseline-Fewer e (some t) = with_vehicle-Fewer e (w.vehicles s.vehicle_id)

  with_energy-Fewer : (e : Option (EnergyData A)) → Fewer tag w (with_energy env fig w s e)
  with_energy-Fewer none = unchanged tag env w
  with_energy-Fewer (some e) =
      if_either (Fewer tag w) (eqf e.total zero_f) (unchanged tag env w)
        (with_baseline-Fewer e s.start_total_kwh)

  pub auto_stop-Fewer : Fewer tag w (auto_stop_reaching_session env fig w s)
  unfolding auto_stop_reaching_session
  auto_stop-Fewer = with_energy-Fewer (energy_of env s.plug_id)
