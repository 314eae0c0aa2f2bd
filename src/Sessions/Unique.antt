-- ===== src/Sessions/Unique.antt =====
-- About the number of sessions in progress on a plug.
use ev_charge_controller.Prelude.{
  ℕ, ◌≤◌, ◌≡◌, ◌≢◌, refl, sym, subst, true, false, Option, none, some, All, inl, inr, arith, ◌==◌,
  if_cases, Bool-cases,
}
use ev_charge_controller.Float.{Float}
use ev_charge_controller.Models.{ChargeSession, Vehicle, EnergyData}
use ev_charge_controller.Sessions.{World, sees, occupies, create, has_active_by_plug, command}
use ev_charge_controller.Sessions.Counting.{
  count_active, any_row-count, activate_pending-count, cancel_pending-count,
  update_start_total_kwh-count,
}
use ev_charge_controller.Sessions.Lifecycle.{
  Environment, StartError, StartOutcome, TwoStage, new_session, backfill, confirm_power, start_new,
  start_checked, start_session, busy, resolve_plug, or_else, capture_energy_baseline,
}

module _ {A : Type 0} where
  abbrev pub IsUnique : World A → Type 0
  IsUnique w = (plug : ℕ) → count_active plug w.sessions ≤ 1

  -- A user sees the sessions in progress on the plug.
  abbrev pub AllVisible : Option ℕ → ℕ → World A → Type 0
  AllVisible user plug w = All (λ s. occupies plug s ≡ true → sees user s.user_id ≡ true) w.sessions

  pub backfill-count :
      (plug : ℕ) (w : World A) (id : ℕ) (total : Option A) (e : Option (EnergyData A))
      → count_active plug (backfill w id total e).sessions ≡ count_active plug w.sessions
  backfill-count plug w id none none = refl
  backfill-count plug w id none (some e) = update_start_total_kwh-count plug w id e.total
  backfill-count plug w id (some t) e = refl

module _ {A : Type 0} ⦃F : Float A⦄ (env : Environment A) where
  pub confirm_power-count :
      (q : ℕ) (w : World A) (s : ChargeSession A) (plug : ℕ)
      → count_active q (confirm_power env w s plug).0.sessions ≤ count_active q w.sessions
  unfolding confirm_power
  confirm_power-count q w s plug =
      let on = command plug true w in
      let filled = backfill on s.id s.start_total_kwh (env.last_energy plug) in
      ground (
        arith,
        activate_pending-count q filled s.id env.now,
        backfill-count q on s.id s.start_total_kwh (env.last_energy plug),
        cancel_pending-count q on s.id env.now,
      )

  -- A new session for a plug without one.
  created-count :
      (q : ℕ) (w : World A) (v : Vehicle A) (from to : A) (stages : TwoStage A) (total : Option A)
      (user plug : ℕ)
      → count_active plug w.sessions ≡ 0
      → count_active q w.sessions ≤ 1
      → count_active q (create w (new_session env v user plug from to stages total)).sessions ≤ 1
  unfolding create count_active
  created-count q w v from to stages total user plug free h = elim (Bool-cases (plug == q)) [
    | inl same ↦
        let e : plug ≡ q = ground arith in
        ground (arith, subst (λ x. count_active x w.sessions ≡ 0) e free)
    | inr other ↦ ground arith
  ]

  pub start_new-count :
      (q : ℕ) (w : World A) (v : Vehicle A) (from to : A) (stages : TwoStage A) (total : Option A)
      (user : Option ℕ) (plug : ℕ)
      → count_active plug w.sessions ≡ 0
      → count_active q w.sessions ≤ 1
      → count_active q (start_new env w v from to stages total user (some plug)).0.sessions ≤ 1
  start_new-count q w v from to stages total none plug free h = h
  start_new-count q w v from to stages total (some user) plug free h =
      let s = new_session env v user plug from to stages total in
      omega (
        arith,
        confirm_power-count q (create w s) s plug,
        created-count q w v from to stages total user plug free h,
      )

  pub resolved :
      (w : World A) (v : Vehicle A) (from to : A) (stages : TwoStage A) (total : Option A)
      (user : Option ℕ) (plug : ℕ)
      → plug ≢ 0
      → start_new env w v from to stages total user (resolve_plug env plug user)
        ≡ start_new env w v from to stages total user (some plug)
  resolved w v from to stages total none plug given = refl
  resolved w v from to stages total (some user) plug given = ground (arith, given)

  -- A plug that is not found busy has no session in progress.
  pub busy-count :
      (w : World A) (plug : ℕ)
      → plug ≢ 0
      → AllVisible env.user plug w
      → busy env w plug ≡ false
      → count_active plug w.sessions ≡ 0
  unfolding has_active_by_plug
  busy-count w plug given visible free =
      any_row-count plug env.user w.sessions (ground (arith, given)) visible

  start_checked-IsUnique :
      (w : World A) (plug : ℕ) (from to : A) (stages : TwoStage A) (e : Option StartError)
      (v : Option (Vehicle A))
      → plug ≢ 0
      → AllVisible env.user plug w
      → IsUnique w
      → IsUnique (start_checked env w plug from to stages e v).0
  start_checked-IsUnique w plug from to stages (some e) v given visible u = u
  start_checked-IsUnique w plug from to stages none none given visible u = u
  start_checked-IsUnique w plug from to stages none (some v) given visible u = λ q.
      let user = or_else env.user v.user_id in
      let total = capture_energy_baseline env plug in
      if_cases (λ (r : World A × StartOutcome). count_active q r.0.sessions ≤ 1) (busy env w plug)
        (λ _. u q)
        (λ free.
          subst (λ (r : World A × StartOutcome). count_active q r.0.sessions ≤ 1)
            (sym (resolved w v from to stages total user plug given))
            (start_new-count q w v from to stages total user plug
              (busy-count w plug given visible free) (u q)))

  -- Starting a session for a plug, whatever the outcome, leaves every plug with at most one session in
  -- progress, if there was at most one before and the user sees those on the plug.
  pub start_session-IsUnique :
      (w : World A) (plug vehicle : ℕ) (from to : A) (stages : TwoStage A)
      → plug ≢ 0
      → AllVisible env.user plug w
      → IsUnique w
      → IsUnique (start_session env w plug vehicle from to stages).0
  unfolding start_session
  start_session-IsUnique w plug vehicle from to stages given visible u =
      start_checked-IsUnique w plug from to stages _ _ given visible u
