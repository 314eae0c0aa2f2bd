-- ===== src/Activation/Attempts.antt =====
-- tryActivateDaily, tryActivateCarbonAware with its two forms, and CheckAndActivateAll of
-- api/services/schedule_service.go.
use ev_charge_controller.Prelude.{
  ℕ, ◌+◌, ◌-◌, ◌*◌, ◌/◌, Bool, true, false, not, ◌&&◌, ◌||◌, Option, none, some, List, [], ◌∷◌,
  ◌++◌, pos, ltb, if◌then◌else◌,
}
use ev_charge_controller.Clock.{Time, minute}
use ev_charge_controller.Hhmm.{Text, text_eq}
use ev_charge_controller.Window.{resolve_window}
use ev_charge_controller.Float.{Float}
use ev_charge_controller.Models.{Vehicle, Schedule, ScheduleType, daily, carbon_aware}
use ev_charge_controller.Optimizer.{ForecastBucket, find_optimal_start, find_balanced_start}
use ev_charge_controller.Estimate.{project_percent}
use ev_charge_controller.Activation.{
  StartResult, started, active_session_exists, start_failed, Services, Shortfall, Scheduler,
  within_throttle, starts_now, format_time, two_stage_hold_fraction, start_failure_backoff_active,
  record_start_failure, clear_start_failure, load_candidate, worthwhile_two_stage,
}

-- GetForecast: no forecaster, an error, and an empty forecast all are `none`.
abbrev nonempty : Option (List ForecastBucket) → Option (List ForecastBucket)
nonempty (some (b ∷ bs)) = some (b ∷ bs)
nonempty _ = none

abbrev pub forecast_of :
    Option (Time → Time → Option (List ForecastBucket)) → Time → Time → Option (List ForecastBucket)
forecast_of none from to = none
forecast_of (some get) from to = nonempty (get from to)

module _ {A W : Type 0} where
  abbrev pub after_start :
      Scheduler A W → ℕ → Time → (ℕ → List (Shortfall A)) → W × StartResult → Scheduler A W
  after_start st plug now notify (w, started session) = record (clear_start_failure st plug) {
    last_activation = now;
    world = w;
    shortfalls = notify session ++ st.shortfalls;
  }
  after_start st plug now notify (w, active_session_exists) = record st { world = w }
  after_start st plug now notify (w, start_failed) = record (record_start_failure st plug now) {
    world = w;
  }

  -- The start of a daily schedule; its failure is only logged.
  abbrev pub after_daily : Scheduler A W → Time → W × StartResult → Scheduler A W
  after_daily st now (w, started _) = record st { last_activation = now; world = w }
  after_daily st now (w, _) = record st { world = w }

  -- The last part of both forms: wait for the best start.
  abbrev pub by_forecast :
      Scheduler A W
      → (List ForecastBucket → Time)
      → Time
      → Scheduler A W
      → Option (List ForecastBucket)
      → Scheduler A W
  by_forecast st best now start none = st
  by_forecast st best now start (some buckets) = if starts_now now (best buckets) then start else st

module _ {A W : Type 0} ⦃F : Float A⦄ (S : Services A W) where
  -- The notifications of a session that was just started.
  abbrev shortfall : Vehicle A → Time → Time → ℕ → ℕ → List (Shortfall A)
  shortfall v now window_end d session =
      let available = (window_end - now) / minute in
      if S.has_notifier && ltb 0 d && ltb available d
      then record {
        session_id = session;
        projected_percent = project_percent v v.current_percent (pos available);
        target_percent = v.target_percent;
        ready_by = format_time S.location window_end;
      }
        ∷ []
      else []

  unfoldable pub start_carbon_aware_session :
      Scheduler A W → ℕ → Vehicle A → Time → Time → ℕ → Scheduler A W
  start_carbon_aware_session st plug v now window_end d =
      if start_failure_backoff_active st plug now
      then st
      else after_start st plug now (shortfall v now window_end d)
          (S.start_session st.world plug v.id v.current_percent v.target_percent)

  unfoldable pub start_carbon_aware_two_stage_session :
      Scheduler A W → ℕ → Vehicle A → Time → Time → A → Scheduler A W
  start_carbon_aware_two_stage_session st plug v now window_end hold_percent =
      if start_failure_backoff_active st plug now
      then st
      else after_start st plug now (λ _. [])
          (S.start_two_stage_session st.world plug v.id v.current_percent v.target_percent
            hold_percent (format_time S.location window_end) true)

  abbrev pub single_stage :
      Scheduler A W → ℕ → Vehicle A → Time → Time → Time → Option ℕ → Scheduler A W
  single_stage st plug v now last_act window_end none =
      start_carbon_aware_session st plug v now window_end 0
  single_stage st plug v now last_act window_end (some d) =
      let latest_start = window_end - d * minute in
      let start = start_carbon_aware_session st plug v now window_end d in
      if not (ltb now latest_start)
      then start
      else if within_throttle now last_act
      then st
      else by_forecast st (λ buckets. find_optimal_start A buckets now latest_start (d * minute))
          now start (forecast_of S.forecaster now window_end)

  unfoldable pub try_activate_carbon_aware_single_stage :
      Scheduler A W → ℕ → Vehicle A → Time → Time → Time → Scheduler A W
  try_activate_carbon_aware_single_stage st plug v now last_act window_end =
      single_stage st plug v now last_act window_end
        (S.estimator v v.current_percent v.target_percent)

  abbrev pub two_stage :
      Scheduler A W → Time → Time → Time → Scheduler A W → Option ℕ → Option ℕ → Scheduler A W
  two_stage st now last_act window_end start (some d1) (some d2) =
      let stage_1_latest_start = window_end - (d1 + d2) * minute in
      if not (ltb now stage_1_latest_start)
      then start
      else if within_throttle now last_act
      then st
      else by_forecast st
          (λ buckets.
            find_balanced_start A buckets now stage_1_latest_start window_end (d1 * minute))
          now start (forecast_of S.forecaster now window_end)
  two_stage st now last_act window_end start _ _ = start

  unfoldable pub try_activate_carbon_aware_two_stage :
      Scheduler A W → ℕ → Vehicle A → Time → Time → Time → A → Scheduler A W
  try_activate_carbon_aware_two_stage st plug v now last_act window_end hold_percent =
      two_stage st now last_act window_end
        (start_carbon_aware_two_stage_session st plug v now window_end hold_percent)
        (S.estimator v v.current_percent hold_percent) (S.estimator v hold_percent v.target_percent)

  abbrev pub activate :
      Scheduler A W → Bool → ℕ → Time → Time → Time → Option (Vehicle A) → Scheduler A W
  activate st staged plug now last_act window_end none = st
  activate st staged plug now last_act window_end (some v) =
      let hold_percent : A = F.mul v.target_percent two_stage_hold_fraction in
      if staged && worthwhile_two_stage S v hold_percent
      then try_activate_carbon_aware_two_stage st plug v now last_act window_end hold_percent
      else try_activate_carbon_aware_single_stage st plug v now last_act window_end

  abbrev pub in_window :
      Scheduler A W → Bool → ℕ → Time → Time → Option (Time × Time) → Scheduler A W
  in_window st staged plug now last_act none = st
  in_window st staged plug now last_act (some (window_start, window_end)) =
      if ltb now window_start || not (ltb now window_end)
      then st
      else activate st staged plug now last_act window_end (load_candidate S st plug)

  abbrev pub window_of : Time → Option Text → Option Text → Option (Time × Time)
  window_of now (some window_start) (some window_end) =
      resolve_window S.location now window_start window_end
  window_of now _ _ = none

  unfoldable pub try_activate_carbon_aware :
      Scheduler A W → Schedule → ℕ → Time → Time → Scheduler A W
  try_activate_carbon_aware st sch plug now last_act =
      in_window st sch.two_stage plug now last_act (window_of now sch.window_start sch.window_end)

  abbrev pub daily_start : Scheduler A W → ℕ → Vehicle A → Option Text → W × StartResult
  daily_start st plug v none = S.start_session st.world plug v.id v.current_percent v.target_percent
  daily_start st plug v (some ready_by) =
      let hold_percent : A = F.mul v.target_percent two_stage_hold_fraction in
      if worthwhile_two_stage S v hold_percent
      then S.start_two_stage_session st.world plug v.id v.current_percent v.target_percent
          hold_percent ready_by false
      else S.start_session st.world plug v.id v.current_percent v.target_percent

  abbrev pub activate_daily :
      Scheduler A W → Schedule → ℕ → Time → Option (Vehicle A) → Scheduler A W
  activate_daily st sch plug now none = st
  activate_daily st sch plug now (some v) = after_daily st now (daily_start st plug v sch.ready_by)

  unfoldable pub try_activate_daily : Scheduler A W → Schedule → ℕ → Time → Time → Scheduler A W
  try_activate_daily st sch plug now last_act =
      if not (text_eq sch.time (format_time S.location now))
      then st
      else if within_throttle now last_act
      then st
      else activate_daily st sch plug now (load_candidate S st plug)

  abbrev pub by_type : ScheduleType → Scheduler A W → Schedule → ℕ → Time → Time → Scheduler A W
  by_type carbon_aware = try_activate_carbon_aware
  by_type daily = try_activate_daily

  abbrev pub check_plug : Scheduler A W → Schedule → Time → Time → Option ℕ → Scheduler A W
  check_plug st sch now last_act none = st
  check_plug st sch now last_act (some plug) =
      if sch.enabled then by_type sch.schedule_type st sch plug now last_act else st

  -- The loop over the schedules; `last_act` is read once, before it.
  unfoldable pub check_each : List Schedule → Time → Time → Scheduler A W → Scheduler A W
  check_each [] now last_act st = st
  check_each (sch ∷ schs) now last_act st =
      check_each schs now last_act (check_plug st sch now last_act sch.plug_id)

  abbrev pub listed : Option (List Schedule) → Time → Scheduler A W → Scheduler A W
  listed none now st = st
  listed (some schs) now st = check_each schs now st.last_activation st

  -- The first argument is ListAll's result.
  unfoldable pub check_and_activate_all :
      Option (List Schedule) → Time → Scheduler A W → Scheduler A W
  check_and_activate_all schedules now st = listed schedules now st
