-- ===== src/Sessions/Outcome.antt =====
-- What each outcome of startSession leaves behind.
use ev_charge_controller.Prelude.{
  ℕ, ◌≡◌, ◌≢◌, refl, sym, subst, ◌∙◌, Bool, true, false, Option, none, some, ◌∷◌, arith, ap,
  if_cases, if_either, ◌==◌,
}
use ev_charge_controller.Float.{Float, le}
use ev_charge_controller.Models.{zero_f, pending, ChargeSession, Vehicle, EnergyData, Plug}
use ev_charge_controller.Sessions.{
  World, by_id_and_status, as_cancelled, create, activate_pending, cancel_pending,
  update_start_total_kwh, update_where, command,
}
use ev_charge_controller.Sessions.Counting.{
  count_active, activate_pending-count, update_where-count,
}
use ev_charge_controller.Sessions.Lifecycle.{
  Environment, StartError, StartOutcome, started, refused, power_confirmation_failed,
  vehicle_not_found, vehicle_has_no_battery, plug_not_found, active_session_exists,
  user_id_required, TwoStage, new_session, backfill, confirm_power, start_new, start_checked,
  start_session, busy, either_error, validate_vehicle, validate_plug_ownership, check_plug,
  owned_by, or_else, capture_energy_baseline,
}
use ev_charge_controller.Sessions.Unique.{AllVisible, backfill-count, busy-count, resolved}

module _ {A : Type 0} where
  -- The sessions in progress on the plug and the power commands after a start.
  abbrev pub Ended : World A → ℕ → World A × StartOutcome → Type 0
  Ended w plug (w2, started _) =
      (count_active plug w2.sessions ≡ 1) × (w2.commands ≡ (plug, true) ∷ w.commands)
  Ended w plug (w2, refused power_confirmation_failed) =
      (count_active plug w2.sessions ≡ 0)
      × (w2.commands ≡ (plug, false) ∷ (plug, true) ∷ w.commands)
  Ended w plug (w2, refused _) = w2 ≡ w

  backfill_commands :
      (w : World A) (id : ℕ) (total : Option A) (e : Option (EnergyData A))
      → (backfill w id total e).commands ≡ w.commands
  unfolding update_start_total_kwh
  backfill_commands w id none none = refl
  backfill_commands w id none (some e) = refl
  backfill_commands w id (some t) e = refl

module _ {A : Type 0} ⦃F : Float A⦄ (env : Environment A) (w : World A) (v : Vehicle A)
    (from to : A) (stages : TwoStage A) (total : Option A) (user plug : ℕ)
    (free : count_active plug w.sessions ≡ 0) where
  abbrev s : ChargeSession A
  s = new_session env v user plug from to stages total

  created-count : count_active plug (create w s).sessions ≡ 1
  unfolding create count_active
  created-count = ground (arith, free)

  abbrev filled : World A
  filled = backfill (command plug true (create w s)) env.new_id total (env.last_energy plug)

  filled-commands : filled.commands ≡ (plug, true) ∷ w.commands
  unfolding create
  filled-commands = backfill_commands _ env.new_id total (env.last_energy plug)

  confirmed : Ended w plug ((activate_pending filled env.new_id env.now).0, started env.new_id)
  unfolding activate_pending
  confirmed = (
    activate_pending-count plug filled env.new_id env.now
        ∙ backfill-count plug _ env.new_id total (env.last_energy plug)
        ∙ created-count,
    filled-commands,
  )

  cancelled-count :
      count_active plug
        (cancel_pending (command plug true (create w s)) env.new_id env.now).0.sessions
      ≡ 0
  unfolding cancel_pending create count_active update_where
  cancelled-count =
      let p : ChargeSession A → Bool = by_id_and_status env.new_id pending in
      ground (
        arith,
        free,
        update_where-count plug p (as_cancelled env.now) (λ x e. ground arith) w.sessions,
      )

  unconfirmed : Ended w plug (
    command plug false (cancel_pending (command plug true (create w s)) env.new_id env.now).0,
    refused power_confirmation_failed,
  )
  unfolding cancel_pending create
  unconfirmed = (cancelled-count, refl)

  confirm_power-Ended : Ended w plug (confirm_power env (create w s) s plug)
  unfolding confirm_power
  confirm_power-Ended = if_either (Ended w plug) (env.confirms plug true) confirmed unconfirmed

module _ {A : Type 0} ⦃F : Float A⦄ (env : Environment A) (w : World A) where
  start_new-Ended :
      (v : Vehicle A) (from to : A) (stages : TwoStage A) (total : Option A) (user : Option ℕ)
      (plug : ℕ)
      → count_active plug w.sessions ≡ 0
      → Ended w plug (start_new env w v from to stages total user (some plug))
  start_new-Ended v from to stages total none plug free = refl
  start_new-Ended v from to stages total (some user) plug free =
      confirm_power-Ended env w v from to stages total user plug free

  refused-Ended :
      (plug : ℕ) (e : StartError) → e ≢ power_confirmation_failed → Ended w plug (w, refused e)
  refused-Ended plug vehicle_not_found ne = refl
  refused-Ended plug vehicle_has_no_battery ne = refl
  refused-Ended plug plug_not_found ne = refl
  refused-Ended plug active_session_exists ne = refl
  refused-Ended plug user_id_required ne = refl
  refused-Ended plug power_confirmation_failed ne = absurd (ne refl)

  start_checked-Ended :
      (plug : ℕ) (from to : A) (stages : TwoStage A) (e : Option StartError)
      (v : Option (Vehicle A))
      → e ≢ some power_confirmation_failed
      → plug ≢ 0
      → AllVisible env.user plug w
      → Ended w plug (start_checked env w plug from to stages e v)
  start_checked-Ended plug from to stages (some e) v sound given visible =
      refused-Ended plug e (λ q. sound (ap some q))
  start_checked-Ended plug from to stages none none sound given visible = refl
  start_checked-Ended plug from to stages none (some v) sound given visible =
      let user = or_else env.user v.user_id in
      let total = capture_energy_baseline env plug in
      if_cases (Ended w plug) (busy env w plug) (λ _. refl)
        (λ free.
          subst (Ended w plug) (sym (resolved env w v from to stages total user plug given)) (
            start_new-Ended v from to stages total user plug
              (busy-count env w plug given visible free)))

  -- The guards never refuse with the power error.
  abbrev IsGuard : Option StartError → Type 0
  IsGuard e = e ≢ some power_confirmation_failed

  either-IsGuard : (a b : Option StartError) → IsGuard a → IsGuard b → IsGuard (either_error a b)
  either-IsGuard none b h k = k
  either-IsGuard (some a) b h k = h

  vehicle-IsGuard : (v : Option (Vehicle A)) → IsGuard (validate_vehicle env v)
  vehicle-IsGuard none = λ e. cc e
  vehicle-IsGuard (some v) =
      if_either IsGuard (le v.capacity_kwh zero_f) {x = some vehicle_has_no_battery} (λ e. cc e)
        (if_either IsGuard (owned_by env.user v.user_id) {x = none} {y = some vehicle_not_found}
          (λ e. cc e) (λ e. cc e))

  plug-IsGuard : (p : Option Plug) → IsGuard (check_plug env p)
  plug-IsGuard none = λ e. cc e
  plug-IsGuard (some p) =
      if_either IsGuard (owned_by env.user (some p.user_id)) {x = none} {y = some plug_not_found}
        (λ e. cc e) (λ e. cc e)

  -- A start for a plug ends in one of three ways. It returns a session, and the plug has exactly one in
  -- progress and was sent one power command, ON. It fails for lack of a power confirmation,
  -- and the plug has none in progress and was sent ON and then OFF. Or it is refused
  -- otherwise, and nothing has changed. The user must see the sessions in progress on the plug.
  pub start_session-Ended :
      (plug vehicle : ℕ) (from to : A) (stages : TwoStage A)
      → plug ≢ 0
      → AllVisible env.user plug w
      → Ended w plug (start_session env w plug vehicle from to stages)
  unfolding start_session
  start_session-Ended plug vehicle from to stages given visible =
      start_checked-Ended plug from to stages _ _
        (either-IsGuard (validate_vehicle env (w.vehicles vehicle))
          (validate_plug_ownership env plug) (vehicle-IsGuard (w.vehicles vehicle))
          (if_either IsGuard (plug == 0) {x = none} (λ e. cc e)
            (plug-IsGuard (env.find_plug plug))))
        given visible
