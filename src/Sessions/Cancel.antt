-- ===== src/Sessions/Cancel.antt =====
-- Cancelling sessions: CancelPending, CancelPendingIfTimedOut, cancelPendingSession,
-- CancelActiveSession and cancelEndPercent of api/services/session_lifecycle_service.go, and
-- ListActive of api/repository/charge_session.go. A plug controller is set; log lines are left out.
pub mod Expiry
pub mod Percent
use ev_charge_controller.Prelude.{
  ℕ, ◌+◌, Bool, true, false, not, ◌&&◌, ◌||◌, Option, none, some, List, [], ◌∷◌, ltb, leb, ◌==◌,
  if◌then◌else◌,
}
use ev_charge_controller.Float.{Float, le}
use ev_charge_controller.Models.{
  pending, status_eq, is_active_status, ChargeSession, Vehicle, EnergyData, zero_f,
}
use ev_charge_controller.Energy.{calculate_progress, current_percent_from_blended}
use ev_charge_controller.Sessions.{
  World, sees, is_some_of, cancel_pending, update_cancel_data, command,
}
use ev_charge_controller.Sessions.Lifecycle.{Environment}
use ev_charge_controller.Sessions.Stop.{StopResult, energy_of, power_off, update_percents}

module _ {A : Type 0} where
  -- ORDER BY created_at ASC
  unfoldable pub insert_created : ChargeSession A → List (ChargeSession A) → List (ChargeSession A)
  insert_created s [] = s ∷ []
  insert_created s (x ∷ xs) =
      if leb s.created_at x.created_at then s ∷ x ∷ xs else x ∷ insert_created s xs

  unfoldable pub listed : (ChargeSession A → Bool) → List (ChargeSession A) → List (ChargeSession A)
  unfolding insert_created
  listed p [] = []
  listed p (s ∷ ss) = if p s then insert_created s (listed p ss) else listed p ss

  unfoldable pub list_active : Option ℕ → World A → List (ChargeSession A)
  unfolding listed
  list_active user w = listed (λ s. is_active_status s.status && sees user s.user_id) w.sessions

  -- OFF to the plug of a session, unless there is none or it is the empty text.
  abbrev pub cut_power : World A → Option ℕ → World A
  cut_power w none = w
  cut_power w (some plug) = if plug == 0 then w else command plug false w

  -- What follows CancelPending: the row was there, or the session is left out.
  abbrev pub cancelled_row : Option ℕ → Bool → World A × Bool → World A × Bool
  cancelled_row plug any (w, false) = (w, any)
  cancelled_row plug any (w, true) = (cut_power w plug, true)

module _ {A : Type 0} (env : Environment A) where
  -- A pending session that is older than the timeout.
  abbrev pub timed_out : ℕ → ChargeSession A → Bool
  timed_out timeout s = status_eq s.status pending && ltb (s.created_at + timeout) env.now

  -- One turn of the loop of CancelPendingIfTimedOut, with cancelledAny.
  unfoldable pub expire : ℕ → ChargeSession A → World A × Bool → World A × Bool
  expire timeout s (w, any) =
      if timed_out timeout s
      then cancelled_row s.plug_id any (cancel_pending w s.id env.now)
      else (w, any)

  unfoldable pub expire_each : ℕ → List (ChargeSession A) → World A × Bool → World A × Bool
  unfolding expire
  expire_each timeout [] r = r
  expire_each timeout (s ∷ ss) r = expire_each timeout ss (expire timeout s r)

  unfoldable pub cancel_pending_if_timed_out : World A → ℕ → World A × Bool
  unfolding expire_each list_active
  cancel_pending_if_timed_out w timeout = expire_each timeout (list_active env.user w) (w, false)

abbrev pub owned : Option ℕ → Option ℕ → Bool
owned none owner = true
owned (some u) owner = is_some_of owner u

module _ {A : Type 0} ⦃F : Float A⦄ (env : Environment A) where
  abbrev pub best_blended : Option A → A
  best_blended none = zero_f
  best_blended (some pct) = pct

  abbrev pub higher : A → A → A
  higher best live = if F.lt best live then live else best

  -- The live meter reading, where it is higher.
  abbrev pub best_live : ChargeSession A → Vehicle A → A → Option (EnergyData A) → Option A → A
  best_live s v best (some energy) (some _) =
      if F.lt zero_f energy.total
      then higher best (calculate_progress (some s) (some energy) (some v)).current_percent
      else best
  best_live s v best _ _ = best

  abbrev pub progressed : ChargeSession A → A → Option A
  progressed s best = if le best s.start_percent then none else some best

  abbrev pub end_percent_of : ChargeSession A → Option (Vehicle A) → Option A
  end_percent_of s none = none
  end_percent_of s (some v) =
      if le v.capacity_kwh zero_f
      then none
      else progressed s (
          best_live s v (best_blended (current_percent_from_blended (some s) (some v)))
            (energy_of env s.plug_id) s.start_total_kwh)

  -- SetPower with OFF, which does not wait for the plug.
  abbrev pub publish_off : World A → Option ℕ → World A × StopResult
  publish_off w none = (w, record { stopped = true })
  publish_off w (some plug) = (command plug false w, record { stopped = env.publishes plug })

  -- UpdateCancelData without an end percent, then OFF to the plug.
  unfoldable pub cancel_pending_session : World A → ChargeSession A → World A × StopResult
  cancel_pending_session w s = publish_off (update_cancel_data w s.id env.now none) s.plug_id

  unfoldable pub cancel_end_percent : World A → ChargeSession A → Option A
  cancel_end_percent w s = end_percent_of s (w.vehicles s.vehicle_id)

  -- The vehicle's percent is advanced, never lowered.
  abbrev pub advance_vehicle : World A → ℕ → Option A → Option (Vehicle A) → World A
  advance_vehicle w id (some end_percent) (some v) =
      if F.lt v.current_percent end_percent
      then update_percents w id end_percent v.target_percent
      else w
  advance_vehicle w id _ _ = w

  abbrev pub cancel_owned : World A → ChargeSession A → Option A → World A
  cancel_owned w s end_percent =
      let off = (power_off env (update_cancel_data w s.id env.now end_percent) s.plug_id).0 in
      advance_vehicle off s.vehicle_id end_percent (off.vehicles s.vehicle_id)

  -- CancelActiveSession, with `false` for ErrSessionNotFound.
  unfoldable pub cancel_active_session : World A → ChargeSession A → World A × Bool
  cancel_active_session w s =
      if owned env.user s.user_id
      then (cancel_owned w s (cancel_end_percent w s), true)
      else (w, false)
