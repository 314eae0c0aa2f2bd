-- ===== src/Activation/Deadline.antt =====
-- The deadline guard of the carbon-aware schedules.
use ev_charge_controller.Prelude.{ℕ, ◌-◌, ◌*◌, ◌≤◌, ◌<◌, ◌≡◌, ap, ◌∙◌, false, some, arith}
use ev_charge_controller.Clock.{Time, minute}
use ev_charge_controller.Hhmm.{Text}
use ev_charge_controller.Window.{resolve_window}
use ev_charge_controller.Float.{Float}
use ev_charge_controller.Models.{Vehicle, Schedule}
use ev_charge_controller.Activation.{
  Services, Scheduler, start_failure_backoff_active, load_candidate,
}
use ev_charge_controller.Activation.Backoff.{start_carbon_aware_session-world}
use ev_charge_controller.Activation.Attempts.{
  start_carbon_aware_session, try_activate_carbon_aware_single_stage, try_activate_carbon_aware,
}

module _ {A W : Type 0} ⦃F : Float A⦄ (S : Services A W) (st : Scheduler A W) (sch : Schedule)
    (plug : ℕ) (now : Time) where
  -- `now` is in the schedule's window, which ends at `window_end`, and `v` is the vehicle to charge.
  pub record IsDue (window_end : Time) (v : Vehicle A) : Type 0 where
    pub window_start : Time
    pub start_text : Text
    pub end_text : Text
    pub has_start : sch.window_start ≡ some start_text
    pub has_end : sch.window_end ≡ some end_text
    pub resolved :
        resolve_window S.location now start_text end_text ≡ some (window_start, window_end)
    pub reached : window_start ≤ now
    pub not_over : now < window_end
    pub candidate : load_candidate S st plug ≡ some v

  due_attempt :
      (window_end : Time) (v : Vehicle A) (last_act : Time)
      → IsDue window_end v
      → sch.two_stage ≡ false
      → try_activate_carbon_aware S st sch plug now last_act
        ≡ try_activate_carbon_aware_single_stage S st plug v now last_act window_end
  unfolding try_activate_carbon_aware
  due_attempt window_end v last_act due single =
      rw (due.has_start, due.has_end, due.resolved, single, due.candidate)
        (ground (arith, due.reached, due.not_over))

  single_stage-guard :
      (window_end : Time) (v : Vehicle A) (last_act : Time) (d : ℕ)
      → S.estimator v v.current_percent v.target_percent ≡ some d
      → window_end - d * minute ≤ now
      → try_activate_carbon_aware_single_stage S st plug v now last_act window_end
        ≡ start_carbon_aware_session S st plug v now window_end d
  unfolding try_activate_carbon_aware_single_stage
  single_stage-guard window_end v last_act d est late = rw est (ground arith)

  -- When a single-stage carbon-aware schedule is due (the clock is inside its window, and the plug has
  -- a vehicle below target and no active session), no start failed within the last 60 seconds, and
  -- the time left in the window is not more than the estimate, the charge service is
  -- asked to start, whatever the forecast and the throttle say.
  pub try_activate_carbon_aware-deadline :
      (window_end : Time) (v : Vehicle A) (last_act : Time) (d : ℕ)
      → IsDue window_end v
      → sch.two_stage ≡ false
      → S.estimator v v.current_percent v.target_percent ≡ some d
      → window_end - d * minute ≤ now
      → start_failure_backoff_active st plug now ≡ false
      → (try_activate_carbon_aware S st sch plug now last_act).world
        ≡ (S.start_session st.world plug v.id v.current_percent v.target_percent).0
  try_activate_carbon_aware-deadline window_end v last_act d due single est late calm =
      ap (λ (s : Scheduler A W). s.world)
        (due_attempt window_end v last_act due single
          ∙ single_stage-guard window_end v last_act d est late)
      ∙ start_carbon_aware_session-world S st plug v now window_end d calm
