-- ===== src/Sessions/Lifecycle.antt =====
-- Starting and activating a session: startSession and ActivatePending of
-- api/services/session_lifecycle_service.go, with a plug controller and a plug repository set. Each
-- runs under the session lock, so it is one step. Notifications and log lines are left out.
use ev_charge_controller.Prelude.{
  ℕ, Bool, true, false, not, Option, none, some, ◌==◌, if◌then◌else◌,
}
use ev_charge_controller.Clock.{Time}
use ev_charge_controller.Hhmm.{Text}
use ev_charge_controller.Float.{Float, le}
use ev_charge_controller.Models.{
  pending, status_eq, ChargeSession, Vehicle, EnergyData, Plug, zero_f, hundred,
}
use ev_charge_controller.Sessions.{
  World, is_some_of, has_active, has_active_by_plug, create, find_by_id, activate_pending,
  cancel_pending, update_start_total_kwh, command,
}

-- The user of the context, the clock, the identifier that the database assigns, the plug
-- repository, the plug cache before and after the power confirmation, whether a plug confirms a
-- power command in time, and whether the broker takes a command for a plug.
pub record Environment (A : Type 0) : Type 0 where
  pub user : Option ℕ
  pub now : Time
  pub new_id : ℕ
  pub find_plug : ℕ → Option Plug
  pub first_plug : ℕ → Option ℕ
  pub cached_energy : ℕ → Option (EnergyData A)
  pub last_energy : ℕ → Option (EnergyData A)
  pub confirms : ℕ → Bool → Bool
  pub publishes : ℕ → Bool

pub data StartError : Type 0 where
  vehicle_not_found vehicle_has_no_battery plug_not_found active_session_exists : StartError
  user_id_required power_confirmation_failed : StartError

pub data StartOutcome : Type 0 where
  started : ℕ → StartOutcome
  refused : StartError → StartOutcome

-- What ActivatePending returns: the new baseline (0 for none), or an error.
pub data ActivateOutcome (A : Type 0) : Type 0 where
  baseline : A → ActivateOutcome A
  session_not_found wrong_state : ActivateOutcome A

-- What a two-stage start adds.
pub record TwoStage (A : Type 0) : Type 0 where
  pub hold_percent : Option A
  pub ready_by_time : Option Text
  pub carbon_aware_hold : Bool

-- The owner of a new session: the user of the context, or else that of the vehicle.
abbrev pub or_else : Option ℕ → Option ℕ → Option ℕ
or_else none other = other
or_else (some a) other = some a

abbrev pub total_of : {A : Type 0} → Option (EnergyData A) → Option A
total_of none = none
total_of (some e) = some e.total

abbrev pub owned_by : Option ℕ → Option ℕ → Bool
owned_by none owner = true
owned_by (some u) owner = is_some_of owner u

abbrev pub either_error : Option StartError → Option StartError → Option StartError
either_error none e = e
either_error (some e) _ = some e

module _ {A : Type 0} where
  -- The baseline that the power confirmation brought, if there was none.
  abbrev pub backfill : World A → ℕ → Option A → Option (EnergyData A) → World A
  backfill w id none (some e) = update_start_total_kwh w id e.total
  backfill w id _ _ = w

  -- The baseline that ActivatePending takes, in place of any former one.
  abbrev pub recapture : World A → ℕ → Option (EnergyData A) → World A
  recapture w id none = w
  recapture w id (some e) = update_start_total_kwh w id e.total

module _ {A : Type 0} ⦃F : Float A⦄ where
  -- What ActivatePending returns after the statement.
  abbrev pub activated : World A × Bool → Option (EnergyData A) → World A × ActivateOutcome A
  activated (w, false) e = (w, wrong_state)
  activated (w, true) none = (w, baseline zero_f)
  activated (w, true) (some e) = (w, baseline e.total)

module _ {A : Type 0} ⦃F : Float A⦄ (env : Environment A) where
  abbrev pub validate_vehicle : Option (Vehicle A) → Option StartError
  validate_vehicle none = some vehicle_not_found
  validate_vehicle (some v) =
      if le v.capacity_kwh zero_f
      then some vehicle_has_no_battery
      else if owned_by env.user v.user_id
      then none
      else some vehicle_not_found

  abbrev pub check_plug : Option Plug → Option StartError
  check_plug none = some plug_not_found
  check_plug (some plug) =
      if owned_by env.user (some plug.user_id) then none else some plug_not_found

  abbrev pub validate_plug_ownership : ℕ → Option StartError
  validate_plug_ownership plug = if plug == 0 then none else check_plug (env.find_plug plug)

  -- captureEnergyBaseline
  abbrev pub capture_energy_baseline : ℕ → Option A
  capture_energy_baseline plug = if plug == 0 then none else total_of (env.cached_energy plug)

  abbrev pub new_session : Vehicle A → ℕ → ℕ → A → A → TwoStage A → Option A → ChargeSession A
  new_session v user plug start_percent target_percent stages total = record {
    id = env.new_id;
    vehicle_id = v.id;
    user_id = some user;
    plug_id = some plug;
    created_at = env.now;
    started_at = none;
    ended_at = none;
    start_kwh = F.div (F.mul v.capacity_kwh start_percent) hundred;
    end_kwh = none;
    target_kwh = F.div (F.mul v.capacity_kwh target_percent) hundred;
    start_percent = start_percent;
    end_percent = none;
    target_percent = target_percent;
    status = pending;
    start_total_kwh = total;
    last_blended_kwh = none;
    battery_kwh = none;
    wall_kwh = none;
    avg_carbon_intensity = none;
    co2_grams = none;
    cost_pence = none;
    off_peak_kwh = none;
    hold_percent = stages.hold_percent;
    ready_by_time = stages.ready_by_time;
    carbon_aware_hold = stages.carbon_aware_hold;
  }

  -- The part of startSession behind the creation of the pending session `s` for `plug`.
  unfoldable pub confirm_power : World A → ChargeSession A → ℕ → World A × StartOutcome
  confirm_power w s plug =
      let on = command plug true w in
      if env.confirms plug true
      then (
        (activate_pending (backfill on s.id s.start_total_kwh (env.last_energy plug)) s.id
            env.now).0,
        started s.id,
      )
      else (
        command plug false (cancel_pending on s.id env.now).0,
        refused power_confirmation_failed,
      )

  abbrev pub start_new :
      World A
      → Vehicle A
      → A
      → A
      → TwoStage A
      → Option A
      → Option ℕ
      → Option ℕ
      → World A × StartOutcome
  start_new w v start_percent target_percent stages total none plug = (w, refused user_id_required)
  start_new w v start_percent target_percent stages total (some user) none =
      (w, refused plug_not_found)
  start_new w v start_percent target_percent stages total (some user) (some plug) =
      let s = new_session v user plug start_percent target_percent stages total in
      confirm_power (create w s) s plug

  -- The plug of the session: the given one, or else the user's first.
  abbrev pub resolve_plug : ℕ → Option ℕ → Option ℕ
  resolve_plug plug none = none
  resolve_plug plug (some user) = if plug == 0 then env.first_plug user else some plug

  -- ensureNoActiveSessionForPlug
  abbrev pub busy : World A → ℕ → Bool
  busy w plug = if plug == 0 then has_active env.user w else has_active_by_plug env.user w plug

  abbrev pub start_checked :
      World A
      → ℕ
      → A
      → A
      → TwoStage A
      → Option StartError
      → Option (Vehicle A)
      → World A × StartOutcome
  start_checked w plug start_percent target_percent stages (some e) v = (w, refused e)
  start_checked w plug start_percent target_percent stages none none =
      (w, refused vehicle_not_found)
  start_checked w plug start_percent target_percent stages none (some v) =
      let user = or_else env.user v.user_id in
      if busy w plug
      then (w, refused active_session_exists)
      else start_new w v start_percent target_percent stages (capture_energy_baseline plug) user
          (resolve_plug plug user)

  unfoldable pub start_session : World A → ℕ → ℕ → A → A → TwoStage A → World A × StartOutcome
  start_session w plug vehicle start_percent target_percent stages =
      start_checked w plug start_percent target_percent stages
        (either_error (validate_vehicle (w.vehicles vehicle)) (validate_plug_ownership plug))
        (w.vehicles vehicle)

  abbrev pub energy_at : Option ℕ → Option (EnergyData A)
  energy_at none = none
  energy_at (some plug) = env.last_energy plug

  abbrev pub activate_found : World A → Option (ChargeSession A) → World A × ActivateOutcome A
  activate_found w none = (w, session_not_found)
  activate_found w (some s) =
      let energy = energy_at s.plug_id in
      if not (status_eq s.status pending)
      then (w, baseline zero_f)
      else activated (activate_pending (recapture w s.id energy) s.id env.now) energy

  -- ActivatePending
  unfoldable pub activate : World A → ℕ → World A × ActivateOutcome A
  activate w id = activate_found w (find_by_id w id)
