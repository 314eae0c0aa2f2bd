-- ===== src/Monitoring/Resume.antt =====
-- When a holding session resumes.
use ev_charge_controller.Prelude.{
  ℕ, ◌-◌, ◌*◌, ◌%◌, ◌≤◌, ◌<◌, ◌≡◌, ◌≢◌, refl, ◌∙◌, true, false, none, some, List, [], ◌∷◌, arith,
}
use ev_charge_controller.Clock.{Time, minute}
use ev_charge_controller.Hhmm.{Text}
use ev_charge_controller.Window.{resolve_deadline}
use ev_charge_controller.Float.{Float, FloatOrder}
use ev_charge_controller.Models.{active, holding, status_eq, ChargeSession, Vehicle}
use ev_charge_controller.Optimizer.{ForecastBucket, bucket_size, find_balanced_start}
use ev_charge_controller.Activation.{starts_now}
use ev_charge_controller.Activation.Attempts.{forecast_of}
use ev_charge_controller.Activation.Missed.{balanced_waits}
use ev_charge_controller.Sessions.{
  World, by_id, by_id_and_status, first_where, update_where, find_by_id, as_resumed, resume_holding,
  command,
}
use ev_charge_controller.Sessions.Lifecycle.{Environment}
use ev_charge_controller.Monitoring.{
  Planner, estimated, resume_holding_session, resume_holding_session_if_due,
}

module _ {A : Type 0} where
  first_where-resumed :
      (id : ℕ) (ss : List (ChargeSession A)) (row : ChargeSession A)
      → status_eq row.status holding ≡ true
      → first_where (by_id id) ss ≡ some row
      → first_where (by_id id) (update_where (by_id_and_status id holding) as_resumed ss)
        ≡ some (as_resumed row)
  unfolding first_where update_where
  first_where-resumed id [] row h e = absurd (cc e)
  first_where-resumed id (x ∷ ss) row h e = ground (arith, first_where-resumed id ss row h)

  resume_holding-find :
      (w : World A) (id : ℕ) (row : ChargeSession A)
      → status_eq row.status holding ≡ true
      → find_by_id w id ≡ some row
      → find_by_id (resume_holding w id).0 id ≡ some (as_resumed row)
  unfolding find_by_id resume_holding
  resume_holding-find w id row h e = first_where-resumed id w.sessions row h e

module _ {A : Type 0} ⦃F : Float A⦄ (env : Environment A) (plan : Planner A) (w : World A)
    (s : ChargeSession A) where
  -- A session with its hold fields and a vehicle, whose deadline is `deadline`, and whose second stage is
  -- estimated to take `d` minutes.
  pub record IsWaiting (deadline : Time) (d : ℕ) : Type 0 where
    pub hold : A
    pub has_hold : s.hold_percent ≡ some hold
    pub ready_by : Text
    pub has_ready_by : s.ready_by_time ≡ some ready_by
    pub v : Vehicle A
    pub vehicle : w.vehicles s.vehicle_id ≡ some v
    pub resolved : resolve_deadline plan.location env.now ready_by ≡ some deadline
    pub estimate : plan.estimator v hold s.target_percent ≡ some d

  waiting-check :
      (deadline : Time) (d : ℕ)
      → IsWaiting deadline d
      → resume_holding_session_if_due env plan w s ≡ estimated env plan w s deadline (some d)
  unfolding resume_holding_session_if_due
  waiting-check deadline d h =
      ground (arith, h.has_hold, h.has_ready_by, h.vehicle, h.resolved, h.estimate)

  late-check :
      (deadline : Time) (d : ℕ)
      → deadline - d * minute ≤ env.now
      → estimated env plan w s deadline (some d) ≡ resume_holding_session env w s
  late-check deadline d late = ground arith

  resumed :
      (plug : ℕ)
      → s.plug_id ≡ some plug
      → env.confirms plug true ≡ true
      → resume_holding_session env w s ≡ (resume_holding (command plug true w) s.id).0
  unfolding resume_holding_session
  resumed plug plugged confirmed = rw (plugged, confirmed) refl

  early-check :
      (deadline : Time) (d : ℕ) (buckets : List ForecastBucket)
      → env.now < deadline - d * minute
      → s.carbon_aware_hold ≡ true
      → forecast_of plan.forecaster env.now deadline ≡ some buckets
      → starts_now env.now
          (find_balanced_start A buckets env.now (deadline - d * minute) deadline (d * minute))
        ≡ false
      → estimated env plan w s deadline (some d) ≡ w
  early-check deadline d buckets early aware forecast waits = rw (forecast, waits) (ground arith)

  -- When a session waits with its hold fields and a vehicle, the time left until the deadline is not more than the estimate for the second stage, and the plug
  -- confirms ON, a session whose row is holding becomes active with its hold point cleared,
  -- whatever the forecast says, and the plug was sent ON.
  pub resume_holding_session_if_due-deadline :
      (deadline : Time) (d plug : ℕ) (row : ChargeSession A)
      → IsWaiting deadline d
      → deadline - d * minute ≤ env.now
      → s.plug_id ≡ some plug
      → env.confirms plug true ≡ true
      → status_eq row.status holding ≡ true
      → find_by_id w s.id ≡ some row
      → (find_by_id (resume_holding_session_if_due env plan w s) s.id
          ≡ some (record row { status = active; hold_percent = none }))
        × ((resume_holding_session_if_due env plan w s).commands ≡ (plug, true) ∷ w.commands)
  resume_holding_session_if_due-deadline deadline d plug row h late plugged confirmed is found =
      rw (waiting-check deadline d h ∙ late-check deadline d late ∙ resumed plug plugged confirmed)
        (
          resume_holding-find (command plug true w) s.id row is (unfold find_by_id in found),
          unfold resume_holding in refl,
        )

  -- While more time is left until the deadline than the estimate, with a forecast in which
  -- findBalancedStart finds a half-hour, a check of a carbon-aware holding session that does not
  -- run exactly on a half-hour changes nothing: the current half-hour is never the chosen one.
  -- The clock must be at least half an hour past the zero Time.
  pub resume_holding_session_if_due-waits :
      (O : FloatOrder F) (deadline : Time) (d : ℕ) (buckets : List ForecastBucket)
      → IsWaiting deadline d
      → bucket_size ≤ env.now
      → env.now < deadline - d * minute
      → s.carbon_aware_hold ≡ true
      → forecast_of plan.forecaster env.now deadline ≡ some buckets
      → env.now % bucket_size ≢ 0
      → find_balanced_start A buckets env.now (deadline - d * minute) deadline (d * minute) ≢ 0
      → resume_holding_session_if_due env plan w s ≡ w
  resume_holding_session_if_due-waits O deadline d buckets h past early aware forecast off found =
      let waits =
        balanced_waits O buckets env.now (deadline - d * minute) deadline (d * minute) past off
          found in
      waiting-check deadline d h ∙ early-check deadline d buckets early aware forecast waits
