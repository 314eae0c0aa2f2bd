-- ===== src/Sessions/Change.antt =====
-- Stopping, retargeting and deleting a session on request: Stop, StopWithPercent, UpdateTarget and
-- DeleteSession of api/services/session_lifecycle_service.go, with UpdateTarget and Delete of
-- api/repository/charge_session.go and DecrementLifetimeStats of api/repository/vehicle.go. A plug
-- controller is set. The tables of readings and snapshots, which Delete empties of the
-- session too, are not part of World.
pub mod Retarget
pub mod Deletion
use ev_charge_controller.Prelude.{
  ℕ, zero, suc, Bool, true, false, not, ◌&&◌, ◌||◌, Option, none, some, List, [], ◌∷◌, ℤ, pos,
  negsuc, if◌then◌else◌,
}
use ev_charge_controller.Float.{Float, le, eqf, max_of}
use ev_charge_controller.Models.{
  pending, active, conditioning, status_eq, ChargeSession, Vehicle, EnergyData, zero_f, hundred,
}
use ev_charge_controller.Energy.{calculate_progress, calculate_end_percent, value_or}
use ev_charge_controller.Sessions.{
  World, update_where, any_row, by_id, by_id_and_status, set_sessions, find_by_id,
}
use ev_charge_controller.Sessions.Lifecycle.{Environment}
use ev_charge_controller.Sessions.Stop.{
  Figures, StopResult, energy_of, stop_with_percent, update_vehicle,
}
use ev_charge_controller.Sessions.Cancel.{owned, cancel_pending_session}

pub data TargetError : Type 0 where
  session_not_found session_not_active target_out_of_range target_below_start : TargetError
  vehicle_config_missing target_below_current update_failed : TargetError

pub data TargetOutcome : Type 0 where
  changed : TargetOutcome
  not_changed : TargetError → TargetOutcome

pub data DeleteOutcome : Type 0 where
  deleted cannot_delete_active no_such_session : DeleteOutcome

-- MAX(n - 1, 0)
abbrev pub decrement : ℤ → ℤ
decrement (pos (suc n)) = pos n
decrement _ = pos 0

module _ {A : Type 0} ⦃F : Float A⦄ (env : Environment A) (fig : Figures A) where
  abbrev pub by_meter :
      ChargeSession A → A → Option (EnergyData A) → Option A → Option (Vehicle A) → A
  by_meter s fallback (some e) (some _) (some v) =
      if F.lt zero_f e.total && F.lt zero_f v.capacity_kwh
      then calculate_end_percent (some s) (some e) (some v)
      else fallback
  by_meter s fallback _ _ _ = fallback

  -- calculateEndPercent; `current` is the CurrentPercent of the view.
  unfoldable pub session_end_percent : World A → ChargeSession A → Option A → A
  session_end_percent w s current =
      by_meter s (value_or s.target_percent current) (energy_of env s.plug_id) s.start_total_kwh
        (w.vehicles s.vehicle_id)

  -- Stop, of a session that the caller has read; without one it is ErrSessionNotFound.
  unfoldable pub stop : World A → ChargeSession A → Option A → World A × StopResult
  stop w s current =
      if status_eq s.status pending
      then cancel_pending_session env w s
      else stop_with_percent env fig w s (session_end_percent w s current)

  abbrev pub stop_found : World A → A → Option (ChargeSession A) → World A × Option StopResult
  stop_found w end_percent none = (w, none)
  stop_found w end_percent (some s) =
      let (w2, r) =
        if status_eq s.status pending
        then cancel_pending_session env w s
        else stop_with_percent env fig w s end_percent in
      (w2, some r)

  -- StopWithPercent, with `none` for ErrSessionNotFound.
  unfoldable pub stop_by_id : World A → ℕ → A → World A × Option StopResult
  stop_by_id w id end_percent = stop_found w end_percent (find_by_id w id)

module _ {A : Type 0} where
  abbrev pub is_some : Option (Vehicle A) → Bool
  is_some none = false
  is_some (some _) = true

  unfoldable pub delete_where :
      (ChargeSession A → Bool) → List (ChargeSession A) → List (ChargeSession A)
  delete_where p [] = []
  delete_where p (s ∷ ss) = if p s then delete_where p ss else s ∷ delete_where p ss

  unfoldable pub delete : World A → ℕ → World A
  unfolding delete_where
  delete w id = set_sessions w (delete_where (by_id id) w.sessions)

module _ {A : Type 0} ⦃F : Float A⦄ where
  abbrev pub target_kwh_of : ChargeSession A → A → Option (Vehicle A) → A
  target_kwh_of s percent none = s.target_kwh
  target_kwh_of s percent (some v) = F.div (F.mul v.capacity_kwh percent) hundred

  abbrev pub with_target : World A → A → ChargeSession A → ChargeSession A
  with_target w percent s = record s {
    target_percent = percent;
    target_kwh = target_kwh_of s percent (w.vehicles s.vehicle_id);
  }

  -- UpdateTarget of the repository: `none` where a row has no vehicle, since target_kwh is NOT NULL.
  unfoldable pub update_target : World A → ℕ → A → Option (World A × Bool)
  unfolding update_where any_row
  update_target w id percent =
      let p = by_id_and_status id active in
      if any_row (λ s. p s && not (is_some (w.vehicles s.vehicle_id))) w.sessions
      then none
      else some
          (set_sessions w (update_where p (with_target w percent) w.sessions), any_row p w.sessions)

  unfoldable pub decrement_lifetime_stats : World A → ℕ → A → A → A → A → World A
  decrement_lifetime_stats w id battery wall co2 cost = update_vehicle w id (λ v. record v {
    total_sessions = decrement v.total_sessions;
    total_battery_kwh = max_of (F.sub v.total_battery_kwh battery) zero_f;
    total_wall_kwh = max_of (F.sub v.total_wall_kwh wall) zero_f;
    total_co2_grams = max_of (F.sub v.total_co2_grams co2) zero_f;
    total_cost_pence = max_of (F.sub v.total_cost_pence cost) zero_f;
  })

module _ {A : Type 0} ⦃F : Float A⦄ (env : Environment A) where
  abbrev pub start_guard : ChargeSession A → A → Option TargetError
  start_guard s percent = if le percent s.start_percent then some target_below_start else none

  abbrev pub progress_guard :
      ChargeSession A → EnergyData A → A → Option (Vehicle A) → Option TargetError
  progress_guard s e percent none = some vehicle_config_missing
  progress_guard s e percent (some v) =
      if le v.capacity_kwh zero_f
      then some vehicle_config_missing
      else if le percent (calculate_progress (some s) (some e) (some v)).current_percent
      then some target_below_current
      else none

  abbrev pub meter_guard :
      ChargeSession A
      → A
      → Option (Vehicle A)
      → Option (EnergyData A)
      → Option A
      → Option TargetError
  meter_guard s percent v (some e) (some _) =
      if eqf e.total zero_f then start_guard s percent else progress_guard s e percent v
  meter_guard s percent v _ _ = start_guard s percent

  -- The guards of UpdateTarget on the session that it has found.
  unfoldable pub target_guard : World A → ChargeSession A → A → Option TargetError
  target_guard w s percent =
      if not (owned env.user s.user_id)
      then some session_not_found
      else if not (status_eq s.status active)
      then some session_not_active
      else if F.lt percent zero_f || F.lt hundred percent
      then some target_out_of_range
      else meter_guard s percent (w.vehicles s.vehicle_id) (energy_of env s.plug_id)
          s.start_total_kwh

  abbrev pub written : World A → Option (World A × Bool) → World A × TargetOutcome
  written w none = (w, not_changed update_failed)
  written w (some (w2, false)) = (w2, not_changed session_not_active)
  written w (some (w2, true)) = (w2, changed)

  abbrev pub guarded : World A → ℕ → A → Option TargetError → World A × TargetOutcome
  guarded w id percent (some e) = (w, not_changed e)
  guarded w id percent none = written w (update_target w id percent)

  abbrev pub retarget_found : World A → ℕ → A → Option (ChargeSession A) → World A × TargetOutcome
  retarget_found w id percent none = (w, not_changed session_not_found)
  retarget_found w id percent (some s) = guarded w id percent (target_guard w s percent)

  -- UpdateTarget of the service.
  unfoldable pub retarget : World A → ℕ → A → World A × TargetOutcome
  retarget w id percent = retarget_found w id percent (find_by_id w id)

  abbrev pub uncounted : World A → ChargeSession A → Option A → World A
  uncounted w s none = w
  uncounted w s (some battery) =
      decrement_lifetime_stats w s.vehicle_id battery (value_or zero_f s.wall_kwh)
        (value_or zero_f s.co2_grams) (value_or zero_f s.cost_pence)

  abbrev pub delete_found : World A → ℕ → Option (ChargeSession A) → World A × DeleteOutcome
  delete_found w id none = (w, no_such_session)
  delete_found w id (some s) =
      if not (owned env.user s.user_id)
      then (w, no_such_session)
      else if status_eq s.status active
          || status_eq s.status pending
          || status_eq s.status conditioning
      then (w, cannot_delete_active)
      else (delete (uncounted w s s.battery_kwh) id, deleted)

  -- DeleteSession
  unfoldable pub delete_session : World A → ℕ → World A × DeleteOutcome
  delete_session w id = delete_found w id (find_by_id w id)
