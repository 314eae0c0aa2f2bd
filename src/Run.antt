-- ===== src/Run.antt =====
-- The server as a state machine on the session table: each step is one of the operations of
-- api/services/session_lifecycle_service.go and api/services/session_monitoring_service.go, whoever
-- calls it (a handler, a worker or the MQTT dispatcher), with its own environment. A step runs as
-- a whole; a session that it is given may have been read long before. The target check of a session with
-- a hold point or a target of 100% is not a step: it writes a status without a guard.
pub mod Fewer
pub mod Checks
pub mod Invariants
use ev_charge_controller.Prelude.{ℕ, ◌≡◌, ◌≢◌, Bool, false, Option, none}
use ev_charge_controller.Float.{Float, eqf}
use ev_charge_controller.Models.{ChargeSession, hundred}
use ev_charge_controller.Sessions.{World, cancel_pending}
use ev_charge_controller.Sessions.Lifecycle.{Environment, TwoStage, start_session, activate}
use ev_charge_controller.Sessions.Unique.{AllVisible}
use ev_charge_controller.Sessions.Stop.{Figures}
use ev_charge_controller.Sessions.Cancel.{
  cancel_pending_session, cancel_active_session, cancel_pending_if_timed_out,
}
use ev_charge_controller.Sessions.Change.{stop, stop_by_id, retarget, delete_session}
use ev_charge_controller.Monitoring.{
  Planner, auto_stop_reaching_session, stop_conditioning_session, stop_idle_session,
  resume_holding_session_if_due,
}

module _ {A : Type 0} ⦃F : Float A⦄ where
  -- The operations that start no session.
  pub data Change : World A → World A → Type 0 where
    activating : (env : Environment A) (w : World A) (id : ℕ) → Change w (activate env w id).0
    cancelling :
        (env : Environment A) (w : World A) (id : ℕ) → Change w (cancel_pending w id env.now).0
    expiring :
        (env : Environment A) (w : World A) (timeout : ℕ)
        → Change w (cancel_pending_if_timed_out env w timeout).0
    stopping :
        (env : Environment A) (fig : Figures A) (w : World A) (s : ChargeSession A)
        (current : Option A)
        → Change w (stop env fig w s current).0
    stopping_by_id :
        (env : Environment A) (fig : Figures A) (w : World A) (id : ℕ) (percent : A)
        → Change w (stop_by_id env fig w id percent).0
    disconnecting :
        (env : Environment A) (w : World A) (s : ChargeSession A)
        → Change w (cancel_active_session env w s).0
    retargeting :
        (env : Environment A) (w : World A) (id : ℕ) (percent : A)
        → Change w (retarget env w id percent).0
    deleting : (env : Environment A) (w : World A) (id : ℕ) → Change w (delete_session env w id).0
    checking_target :
        (env : Environment A) (fig : Figures A) (w : World A) (s : ChargeSession A)
        → s.hold_percent ≡ none
        → eqf s.target_percent hundred ≡ false
        → Change w (auto_stop_reaching_session env fig w s)
    checking_taper :
        (env : Environment A) (fig : Figures A) (w : World A) (s : ChargeSession A)
        → Change w (stop_conditioning_session env fig w s)
    checking_idle :
        (env : Environment A) (fig : Figures A) (w : World A) (s : ChargeSession A)
        → Change w (stop_idle_session env fig w s)
    checking_hold :
        (env : Environment A) (plan : Planner A) (w : World A) (s : ChargeSession A)
        → Change w (resume_holding_session_if_due env plan w s)

  -- `used` are the identifiers that the database has assigned before.
  pub data Step (used : ℕ → Bool) : World A → World A → Type 0 where
    starting :
        (env : Environment A) (w : World A) (plug vehicle : ℕ) (from to : A) (stages : TwoStage A)
        → used env.new_id ≡ false
        → plug ≢ 0
        → AllVisible env.user plug w
        → Step used w (start_session env w plug vehicle from to stages).0
    changing : {w w2 : World A} → Change w w2 → Step used w w2

  -- The states that the server can reach from `w`.
  pub data Reach (used : ℕ → Bool) (w : World A) : World A → Type 0 where
    here : Reach used w w
    next : {w2 w3 : World A} → Reach used w w2 → Step used w2 w3 → Reach used w w3
