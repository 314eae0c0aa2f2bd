-- ===== src/Activation/Backoff.antt =====
-- The pause after a failed start.
use ev_charge_controller.Prelude.{
  ℕ, ◌+◌, ◌≤◌, ◌<◌, ◌≡◌, refl, ap, ◌∙◌, true, false, some, List, arith, ltb,
}
use ev_charge_controller.Clock.{Time}
use ev_charge_controller.Float.{Float}
use ev_charge_controller.Models.{Vehicle}
use ev_charge_controller.Activation.{
  StartResult, started, active_session_exists, start_failed, Services, Shortfall, Scheduler,
  schedule_throttle_duration, failed_recently, start_failure_backoff_active,
}
use ev_charge_controller.Activation.Attempts.{after_start, start_carbon_aware_session}

module _ {A W : Type 0} where
  after_start-world :
      (st : Scheduler A W) (plug : ℕ) (now : Time) (notify : ℕ → List (Shortfall A))
      (r : W × StartResult)
      → (after_start st plug now notify r).world ≡ r.0
  after_start-world st plug now notify (w, started _) = refl
  after_start-world st plug now notify (w, active_session_exists) = refl
  after_start-world st plug now notify (w, start_failed) = refl

module _ {A W : Type 0} ⦃F : Float A⦄ (S : Services A W) (st : Scheduler A W) (plug : ℕ)
    (v : Vehicle A) where
  pub start_carbon_aware_session-world :
      (now window_end : Time) (d : ℕ)
      → start_failure_backoff_active st plug now ≡ false
      → (start_carbon_aware_session S st plug v now window_end d).world
        ≡ (S.start_session st.world plug v.id v.current_percent v.target_percent).0
  unfolding start_carbon_aware_session
  start_carbon_aware_session-world now window_end d calm =
      rw calm (after_start-world st plug now _ _)

  paused :
      (now window_end : Time) (d : ℕ)
      → start_failure_backoff_active st plug now ≡ true
      → start_carbon_aware_session S st plug v now window_end d ≡ st
  unfolding start_carbon_aware_session
  paused now window_end d busy = rw busy refl

  backoff_of :
      (now failed : Time)
      → st.last_start_failure plug ≡ some failed
      → start_failure_backoff_active st plug now ≡ ltb now (failed + schedule_throttle_duration)
  unfolding start_failure_backoff_active failed_recently
  backoff_of now failed e = rw e refl

module _ {A W : Type 0} ⦃F : Float A⦄ (S : Services A W) (st : Scheduler A W) (plug : ℕ)
    (v : Vehicle A) where
  failed_state :
      (now window_end : Time) (d : ℕ) (w : W)
      → start_failure_backoff_active st plug now ≡ false
      → S.start_session st.world plug v.id v.current_percent v.target_percent ≡ (w, start_failed)
      → ((start_carbon_aware_session S st plug v now window_end d).last_start_failure plug
          ≡ some now)
        × ((start_carbon_aware_session S st plug v now window_end d).world ≡ w)
  unfolding start_carbon_aware_session
  failed_state now window_end d w calm failed = rw (calm, failed) (ground arith)

  -- After a start that failed at `now`, a further attempt for the plug within 60 seconds changes
  -- nothing: neither the sessions nor the time of the failure.
  pub start_carbon_aware_session-pauses :
      (now window_end : Time) (d : ℕ) (w : W) (later later_end : Time) (later_d : ℕ)
      → start_failure_backoff_active st plug now ≡ false
      → S.start_session st.world plug v.id v.current_percent v.target_percent ≡ (w, start_failed)
      → later < now + schedule_throttle_duration
      → start_carbon_aware_session S
          (start_carbon_aware_session S st plug v now window_end d)
          plug
          v
          later
          later_end
          later_d
        ≡ start_carbon_aware_session S st plug v now window_end d
  start_carbon_aware_session-pauses now window_end d w later later_end later_d calm failed soon =
      let st2 = start_carbon_aware_session S st plug v now window_end d in
      let recorded = (failed_state now window_end d w calm failed).0 in
      paused S st2 plug v later later_end later_d
        (backoff_of S st2 plug v later now recorded ∙ ground arith)

  -- After a start that failed at `now`, an attempt for the plug 60 seconds later, or at any time after
  -- that, asks the charge service again.
  pub start_carbon_aware_session-retries :
      (now window_end : Time) (d : ℕ) (w : W) (later later_end : Time) (later_d : ℕ)
      → start_failure_backoff_active st plug now ≡ false
      → S.start_session st.world plug v.id v.current_percent v.target_percent ≡ (w, start_failed)
      → now + schedule_throttle_duration ≤ later
      → (start_carbon_aware_session S
          (start_carbon_aware_session S st plug v now window_end d)
          plug
          v
          later
          later_end
          later_d).world
        ≡ (S.start_session w plug v.id v.current_percent v.target_percent).0
  start_carbon_aware_session-retries now window_end d w later later_end later_d calm failed over =
      let st2 = start_carbon_aware_session S st plug v now window_end d in
      let (recorded, world) = failed_state now window_end d w calm failed in
      start_carbon_aware_session-world S st2 plug v later later_end later_d
        (backoff_of S st2 plug v later now recorded ∙ ground arith)
      ∙ ap (λ x. (S.start_session x plug v.id v.current_percent v.target_percent).0) world
