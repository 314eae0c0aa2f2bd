-- ===== src/Sessions/Scheduled.antt =====
-- The charge service of the schedules: a check of the schedules runs in a background context, with
-- no user, on the session table itself.
use ev_charge_controller.Prelude.{
  ℕ, ◌≡◌, refl, subst, Bool, true, false, Option, none, some, List, [], ◌∷◌, All, inl, inr, arith,
  ◌==◌, if_cases, Bool-cases,
}
use ev_charge_controller.Clock.{Time, Location}
use ev_charge_controller.Hhmm.{Text}
use ev_charge_controller.Float.{Float}
use ev_charge_controller.Models.{ChargeSession, Vehicle, Schedule}
use ev_charge_controller.Optimizer.{ForecastBucket}
use ev_charge_controller.Activation.{StartResult, Services, Scheduler}
use ev_charge_controller.Activation.Attempts.{check_and_activate_all}
use ev_charge_controller.Activation.Admission.{check_and_activate_all-keeps}
use ev_charge_controller.Estimate.{estimate_minutes}
use ev_charge_controller.Sessions.{World, occupies, has_active, has_active_by_plug}
use ev_charge_controller.Sessions.Counting.{count_active, no_row-count}
use ev_charge_controller.Sessions.Lifecycle.{
  Environment, StartError, StartOutcome, started, refused, active_session_exists, TwoStage,
  start_new, start_checked, start_session, busy, resolve_plug, capture_energy_baseline,
}
use ev_charge_controller.Sessions.Unique.{IsUnique, start_session-IsUnique, start_new-count}

-- StartSession and StartTwoStageSession differ in these.
abbrev pub single : {A : Type 0} → TwoStage A
single = record { hold_percent = none; ready_by_time = none; carbon_aware_hold = false }

abbrev pub staged : {A : Type 0} → A → Text → Bool → TwoStage A
staged hold ready_by carbon = record {
  hold_percent = some hold;
  ready_by_time = some ready_by;
  carbon_aware_hold = carbon;
}

-- errors.Is(err, ErrActiveSessionExists)
abbrev pub result_of : StartOutcome → StartResult
result_of (started id) = ev_charge_controller.Activation.started id
result_of (refused active_session_exists) = ev_charge_controller.Activation.active_session_exists
result_of (refused _) = ev_charge_controller.Activation.start_failed

-- The environment in a background context.
abbrev pub background : {A : Type 0} → Environment A → Environment A
background env = record env { user = none }

abbrev pub with_result : {A : Type 0} → World A × StartOutcome → World A × StartResult
with_result (w, r) = (w, result_of r)

-- `env w` is the environment of a call in the state `w`.
module _ {A : Type 0} ⦃F : Float A⦄ (env : World A → Environment A) (location : Location)
    (forecaster : Option (Time → Time → Option (List ForecastBucket))) (has_notifier : Bool) where
  abbrev pub start : World A → ℕ → ℕ → A → A → TwoStage A → World A × StartResult
  start w plug vehicle from to stages =
      with_result (start_session (background (env w)) w plug vehicle from to stages)

  -- chargeService and the repositories, as the ScheduleService is given them.
  abbrev pub charge_service : Services A (World A)
  charge_service = record {
    find_active = λ w plug. some (has_active_by_plug none w plug);
    find_plug = λ w plug. some ((env w).find_plug plug);
    find_vehicle = λ w id. some (w.vehicles id);
    start_session = λ w plug vehicle from to. start w plug vehicle from to single;
    start_two_stage_session = λ w plug vehicle from to hold ready_by carbon.
        start w plug vehicle from to (staged hold ready_by carbon);
    estimator = estimate_minutes;
    forecaster = forecaster;
    has_notifier = has_notifier;
    location = location;
  }

  -- A start in the background, for any plug identifier, the empty one included.
  module _ (w : World A) (v : Vehicle A) (from to : A) (stages : TwoStage A) (u : IsUnique w) where
    first_plug-IsUnique :
        (total : Option A) (user : Option ℕ) (plug : Option ℕ)
        → ((q : ℕ) → count_active q w.sessions ≡ 0)
        → IsUnique (start_new (background (env w)) w v from to stages total user plug).0
    first_plug-IsUnique total none plug free = u
    first_plug-IsUnique total (some user) none free = u
    first_plug-IsUnique total (some user) (some plug) free = λ q.
        start_new-count (background (env w)) q w v from to stages total (some user) plug (free plug)
          (u q)

  All-visible :
      (plug : ℕ) (ss : List (ChargeSession A)) → All (λ s. occupies plug s ≡ true → true ≡ true) ss
  All-visible plug [] = tt
  All-visible plug (s ∷ ss) = (λ _. refl, All-visible plug ss)

  empty_checked :
      (w : World A) (from to : A) (stages : TwoStage A) (e : Option StartError)
      (v : Option (Vehicle A))
      → IsUnique w
      → IsUnique (start_checked (background (env w)) w 0 from to stages e v).0
  unfolding has_active
  empty_checked w from to stages (some e) v u = u
  empty_checked w from to stages none none u = u
  empty_checked w from to stages none (some v) u =
      let b = background (env w) in
      if_cases (λ (r : World A × StartOutcome). IsUnique r.0) (busy b w 0) (λ _. u)
        (λ free.
          first_plug-IsUnique w v from to stages u (capture_energy_baseline b 0) v.user_id
            (resolve_plug b 0 v.user_id) (λ q. no_row-count q w.sessions free))

  background-IsUnique :
      (w : World A) (plug vehicle : ℕ) (from to : A) (stages : TwoStage A)
      → IsUnique w
      → IsUnique (start w plug vehicle from to stages).0
  unfolding start_session
  background-IsUnique w plug vehicle from to stages u = elim (Bool-cases (plug == 0)) [
    | inl empty ↦
        subst (λ p. IsUnique (start w p vehicle from to stages).0) {x = 0} (ground arith)
          (empty_checked w from to stages _ (w.vehicles vehicle) u)
    | inr given ↦
        start_session-IsUnique (background (env w)) w plug vehicle from to stages (ground arith)
          (All-visible plug w.sessions) u
  ]

  -- However many schedules fall due at a check, and whatever the plugs answer, every plug has at most
  -- one session in progress after it, if there was at most one before.
  pub check_and_activate_all-IsUnique :
      (schedules : Option (List Schedule)) (now : Time) (st : Scheduler A (World A))
      → IsUnique st.world
      → IsUnique (check_and_activate_all charge_service schedules now st).world
  check_and_activate_all-IsUnique =
      check_and_activate_all-keeps charge_service IsUnique
        (λ w plug id from to free u. background-IsUnique w plug id from to single u)
        (λ w plug id from to hold ready_by carbon free u.
          background-IsUnique w plug id from to (staged hold ready_by carbon) u)
