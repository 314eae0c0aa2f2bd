-- ===== src/Manual.antt =====
-- External changes of a relay: HandleManualPowerToggle of api/services/charge_session_service.go, with
-- handleManualPowerOff and handleManualPowerOn, the current percent of buildSessionView, and CheckAndCancelDisconnectedSession. A plug
-- repository and a plug controller are set; log lines are left out.
pub mod Tracked
use ev_charge_controller.Prelude.{
  ℕ, Bool, true, false, not, ◌&&◌, ◌||◌, Option, none, some, List, [], ◌∷◌, if◌then◌else◌,
}
use ev_charge_controller.Float.{Float, le}
use ev_charge_controller.Models.{
  pending, active, conditioning, holding, status_eq, ChargeSession, Vehicle, EnergyData, Plug,
  zero_f,
}
use ev_charge_controller.Energy.{epsilon_kwh, calculate_progress, current_percent_from_blended}
use ev_charge_controller.Sessions.{World, resume_holding, command}
use ev_charge_controller.Sessions.Lifecycle.{Environment, start_session}
use ev_charge_controller.Sessions.Scheduled.{single}
use ev_charge_controller.Sessions.Stop.{Figures, energy_of}
use ev_charge_controller.Sessions.Cancel.{list_active, cancel_active_session}
use ev_charge_controller.Sessions.Change.{stop}
use ev_charge_controller.Lwt.{get_active_by_plug, is_charging_plug}

module _ {A : Type 0} ⦃F : Float A⦄ (env : Environment A) where
  abbrev pub live_percent :
      ChargeSession A → EnergyData A → Option (Vehicle A) → Option A → Option A
  live_percent s e (some v) (some _) =
      if le v.capacity_kwh zero_f
      then none
      else some (calculate_progress (some s) (some e) (some v)).current_percent
  live_percent s e _ _ = none

  abbrev pub metered_percent :
      ChargeSession A → Option (Vehicle A) → Option (EnergyData A) → Option A
  metered_percent s v none = current_percent_from_blended (some s) v
  metered_percent s v (some e) =
      if le e.power zero_f
      then current_percent_from_blended (some s) v
      else live_percent s e v s.start_total_kwh

  -- The CurrentPercent that buildSessionView puts into the view.
  unfoldable pub view_current_percent : World A → ChargeSession A → Option A
  view_current_percent w s =
      if status_eq s.status pending
      then none
      else metered_percent s (w.vehicles s.vehicle_id) (energy_of env s.plug_id)

  module _ (fig : Figures A) where
    abbrev pub handle_manual_power_off : World A → Option (ChargeSession A) → World A
    handle_manual_power_off w none = w
    handle_manual_power_off w (some s) =
        if status_eq s.status holding then w else (stop env fig w s (view_current_percent w s)).0

  abbrev pub start_for : World A → Plug → Option (Vehicle A) → World A
  start_for w plug none = command plug.id false w
  start_for w plug (some v) =
      if le v.target_percent v.current_percent
      then command plug.id false w
      else (start_session env w plug.id v.id v.current_percent v.target_percent single).0

  abbrev pub start_assigned : World A → Plug → Option ℕ → World A
  start_assigned w plug none = command plug.id false w
  start_assigned w plug (some vehicle) = start_for w plug (w.vehicles vehicle)

  abbrev pub handle_manual_power_on : World A → Plug → Option (ChargeSession A) → World A
  handle_manual_power_on w plug none = start_assigned w plug plug.vehicle_id
  handle_manual_power_on w plug (some s) =
      if status_eq s.status holding then (resume_holding w s.id).0 else w

  module _ (fig : Figures A) where
    abbrev pub toggle_plug : World A → ℕ → Bool → Option Plug → World A
    toggle_plug w plug on none = w
    toggle_plug w plug on (some p) =
        let session = get_active_by_plug env.user w plug in
        if not (is_charging_plug (some p))
        then w
        else if on
        then handle_manual_power_on w p session
        else handle_manual_power_off fig w session

    unfoldable pub handle_manual_power_toggle : World A → ℕ → Bool → World A
    handle_manual_power_toggle w plug on = toggle_plug w plug on (env.find_plug plug)

  abbrev pub has_charged : Option A → Bool
  has_charged none = false
  has_charged (some kwh) = not (le kwh epsilon_kwh)

  -- The loop of CheckAndCancelDisconnectedSession.
  unfoldable pub disconnect_each : List (ChargeSession A) → World A → World A
  disconnect_each [] w = w
  disconnect_each (s ∷ ss) w =
      let next =
        if (status_eq s.status active || status_eq s.status conditioning)
          && has_charged s.last_blended_kwh
        then (cancel_active_session env w s).0
        else w in
      disconnect_each ss next

  unfoldable pub check_and_cancel_disconnected_session : World A → World A
  check_and_cancel_disconnected_session w = disconnect_each (list_active env.user w) w
