-- ===== src/Activation/Admission.antt =====
-- Which starts a check of the schedules asks for.
use ev_charge_controller.Prelude.{
  ℕ, ◌+◌, ◌-◌, ◌*◌, not, ltb, ◌≡◌, refl, Bool, true, false, Option, none, some, List, [], ◌∷◌,
  if_either,
}
use ev_charge_controller.Clock.{Time, minute}
use ev_charge_controller.Hhmm.{Text}
use ev_charge_controller.Float.{Float}
use ev_charge_controller.Models.{Vehicle, Schedule, ScheduleType, daily, carbon_aware}
use ev_charge_controller.Optimizer.{ForecastBucket, find_optimal_start, find_balanced_start}
use ev_charge_controller.Activation.{
  StartResult, started, active_session_exists, start_failed, Services, Shortfall, Scheduler,
  load_candidate, when_free, within_throttle,
}
use ev_charge_controller.Activation.Attempts.{
  forecast_of, after_start, after_daily, by_forecast, single_stage, two_stage, activate, in_window,
  daily_start, activate_daily, by_type, listed, start_carbon_aware_session,
  start_carbon_aware_two_stage_session, try_activate_carbon_aware_single_stage,
  try_activate_carbon_aware_two_stage, try_activate_carbon_aware, try_activate_daily, check_plug,
  check_each, check_and_activate_all,
}

when_free-free :
    {X : Type 0} (active : Option Bool) (v : Option X) {x : X}
    → when_free active v ≡ some x
    → active ≡ some false
when_free-free none v e = absurd (cc e)
when_free-free (some true) v e = absurd (cc e)
when_free-free (some false) v e = refl

load_candidate-free :
    {A W : Type 0} ⦃F : Float A⦄ (S : Services A W) (st : Scheduler A W) (plug : ℕ) (v : Vehicle A)
    → load_candidate S st plug ≡ some v
    → S.find_active st.world plug ≡ some false
unfolding load_candidate
load_candidate-free S st plug v = when_free-free (S.find_active st.world plug) _

module _ {A W : Type 0} ⦃F : Float A⦄ (S : Services A W) (P : W → Type 0)
    (start_keeps : (w : W) (plug id : ℕ) (from to : A)
      → S.find_active w plug ≡ some false
      → P w
      → P (S.start_session w plug id from to).0)
    (start_two_stage_keeps : (w : W) (plug id : ℕ) (from to hold : A) (ready_by : Text)
        (carbon : Bool)
      → S.find_active w plug ≡ some false
      → P w
      → P (S.start_two_stage_session w plug id from to hold ready_by carbon).0) where
  record Keeps (st : Scheduler A W) : Type 0 where
    holds : P st.world

  after_start-Keeps :
      (st : Scheduler A W) (plug : ℕ) (now : Time) (notify : ℕ → List (Shortfall A))
      (r : W × StartResult)
      → P r.0
      → Keeps (after_start st plug now notify r)
  after_start-Keeps st plug now notify (w, started _) h = record { holds = h }
  after_start-Keeps st plug now notify (w, active_session_exists) h = record { holds = h }
  after_start-Keeps st plug now notify (w, start_failed) h = record { holds = h }

  after_daily-Keeps :
      (st : Scheduler A W) (now : Time) (r : W × StartResult) → P r.0 → Keeps (after_daily st now r)
  after_daily-Keeps st now (w, started _) h = record { holds = h }
  after_daily-Keeps st now (w, active_session_exists) h = record { holds = h }
  after_daily-Keeps st now (w, start_failed) h = record { holds = h }

  module _ (st : Scheduler A W) (plug : ℕ) (v : Vehicle A)
      (free : S.find_active st.world plug ≡ some false) (kept : Keeps st) where
    single_start-Keeps :
        (now window_end : Time) (d : ℕ)
        → Keeps (start_carbon_aware_session S st plug v now window_end d)
    unfolding start_carbon_aware_session
    single_start-Keeps now window_end d =
        if_either Keeps _ kept
          (after_start-Keeps st plug now _ _ (start_keeps st.world plug _ _ _ free kept.holds))

    two_stage_start-Keeps :
        (now window_end : Time) (hold : A)
        → Keeps (start_carbon_aware_two_stage_session S st plug v now window_end hold)
    unfolding start_carbon_aware_two_stage_session
    two_stage_start-Keeps now window_end hold = if_either Keeps _ kept (
        after_start-Keeps st plug now (λ _. []) _
          (start_two_stage_keeps st.world plug _ _ _ _ _ _ free kept.holds))

    waiting-Keeps :
        (best : List ForecastBucket → Time) (now : Time) (start : Scheduler A W)
        (buckets : Option (List ForecastBucket))
        → Keeps start
        → Keeps (by_forecast st best now start buckets)
    waiting-Keeps best now start none h = kept
    waiting-Keeps best now start (some buckets) h = if_either Keeps _ h kept

    single_stage-Keeps :
        (now last_act window_end : Time) (d : Option ℕ)
        → Keeps (single_stage S st plug v now last_act window_end d)
    single_stage-Keeps now last_act window_end none = single_start-Keeps now window_end 0
    single_stage-Keeps now last_act window_end (some d) =
        let latest = window_end - d * minute in
        if_either Keeps (not (ltb now latest)) (single_start-Keeps now window_end d) (
          if_either Keeps (within_throttle now last_act) kept (
            waiting-Keeps (λ buckets. find_optimal_start A buckets now latest (d * minute)) now _
              (forecast_of S.forecaster now window_end) (single_start-Keeps now window_end d)))

    two_stage-Keeps :
        (now last_act window_end : Time) (start : Scheduler A W) (d1 d2 : Option ℕ)
        → Keeps start
        → Keeps (two_stage S st now last_act window_end start d1 d2)
    two_stage-Keeps now last_act window_end start none d2 h = h
    two_stage-Keeps now last_act window_end start (some d1) none h = h
    two_stage-Keeps now last_act window_end start (some d1) (some d2) h =
        let latest = window_end - (d1 + d2) * minute in
        if_either Keeps (not (ltb now latest)) h (
          if_either Keeps (within_throttle now last_act) kept (
            waiting-Keeps
              (λ buckets. find_balanced_start A buckets now latest window_end (d1 * minute)) now
              start (forecast_of S.forecaster now window_end) h))

    daily_start-P : (ready_by : Option Text) → P (daily_start S st plug v ready_by).0
    daily_start-P none = start_keeps st.world plug _ _ _ free kept.holds
    daily_start-P (some t) =
        if_either (λ (r : W × StartResult). P r.0) _
          (start_two_stage_keeps st.world plug _ _ _ _ _ _ free kept.holds)
          (start_keeps st.world plug _ _ _ free kept.holds)

  module _ (st : Scheduler A W) (plug : ℕ) (kept : Keeps st) where
    activate-Keeps :
        (staged : Bool) (now last_act window_end : Time) (v : Option (Vehicle A))
        → load_candidate S st plug ≡ v
        → Keeps (activate S st staged plug now last_act window_end v)
    unfolding try_activate_carbon_aware_single_stage try_activate_carbon_aware_two_stage
    activate-Keeps staged now last_act window_end none e = kept
    activate-Keeps staged now last_act window_end (some v) e =
        let free = load_candidate-free S st plug v e in
        if_either Keeps _
          (two_stage-Keeps st plug v free kept now last_act window_end _ _ _
            (two_stage_start-Keeps st plug v free kept now window_end _))
          (single_stage-Keeps st plug v free kept now last_act window_end _)

    in_window-Keeps :
        (staged : Bool) (now last_act : Time) (window : Option (Time × Time))
        → Keeps (in_window S st staged plug now last_act window)
    in_window-Keeps staged now last_act none = kept
    in_window-Keeps staged now last_act (some (start, end)) =
        if_either Keeps _ kept (activate-Keeps staged now last_act end _ refl)

    activate_daily-Keeps :
        (sch : Schedule) (now : Time) (v : Option (Vehicle A))
        → load_candidate S st plug ≡ v
        → Keeps (activate_daily S st sch plug now v)
    activate_daily-Keeps sch now none e = kept
    activate_daily-Keeps sch now (some v) e =
        after_daily-Keeps st now _
          (daily_start-P st plug v (load_candidate-free S st plug v e) kept sch.ready_by)

    by_type-Keeps :
        (t : ScheduleType) (sch : Schedule) (now last_act : Time)
        → Keeps (by_type S t st sch plug now last_act)
    unfolding try_activate_carbon_aware try_activate_daily
    by_type-Keeps carbon_aware sch now last_act = in_window-Keeps sch.two_stage now last_act _
    by_type-Keeps daily sch now last_act =
        if_either Keeps _ kept (if_either Keeps _ kept (activate_daily-Keeps sch now _ refl))

  check_plug-Keeps :
      (st : Scheduler A W) (sch : Schedule) (now last_act : Time) (plug : Option ℕ)
      → Keeps st
      → Keeps (check_plug S st sch now last_act plug)
  check_plug-Keeps st sch now last_act none holds = holds
  check_plug-Keeps st sch now last_act (some plug) holds =
      if_either Keeps _ (by_type-Keeps st plug holds sch.schedule_type sch now last_act) holds

  check_each-Keeps :
      (schs : List Schedule) (now last_act : Time) (st : Scheduler A W)
      → Keeps st
      → Keeps (check_each S schs now last_act st)
  unfolding check_each
  check_each-Keeps [] now last_act st holds = holds
  check_each-Keeps (sch ∷ schs) now last_act st holds =
      check_each-Keeps schs now last_act _ (check_plug-Keeps st sch now last_act sch.plug_id holds)

  listed-Keeps :
      (schs : Option (List Schedule)) (now : Time) (st : Scheduler A W)
      → Keeps st
      → Keeps (listed S schs now st)
  listed-Keeps none now st holds = holds
  listed-Keeps (some schs) now st holds = check_each-Keeps schs now st.last_activation st holds

  -- A check of all schedules keeps every property of the charge service that its two start
  -- operations keep when they are called for a plug without an active session.
  pub check_and_activate_all-keeps :
      (schs : Option (List Schedule)) (now : Time) (st : Scheduler A W)
      → P st.world
      → P (check_and_activate_all S schs now st).world
  unfolding check_and_activate_all
  check_and_activate_all-keeps schs now st h =
      (listed-Keeps schs now st (record { holds = h })).holds
