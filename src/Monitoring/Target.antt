-- ===== src/Monitoring/Target.antt =====
-- What the target check does to a session.
use ev_charge_controller.Prelude.{
  ℕ, suc, ◌≡◌, refl, ap, ◌∙◌, true, false, Option, none, some, ◌∷◌, arith,
}
use ev_charge_controller.Float.{Float, le, eqf}
use ev_charge_controller.Models.{
  SessionStatus, conditioning, holding, completed, ChargeSession, Vehicle, EnergyData, zero_f,
  hundred,
}
use ev_charge_controller.Energy.{ProgressResult, calculate_progress}
use ev_charge_controller.Sessions.{
  World, find_by_id, update_status, update_last_blended_kwh, command,
}
use ev_charge_controller.Sessions.Lifecycle.{Environment}
use ev_charge_controller.Sessions.Stop.{Figures, energy_of}
use ev_charge_controller.Sessions.Stopped.{
  first_where-update_where_same, stop_with_percent-effect, with_off,
}
use ev_charge_controller.Monitoring.{after_progress, hold_session, auto_stop_reaching_session}

module _ {A : Type 0} where
  abbrev pub status_of : Option (ChargeSession A) → Option SessionStatus
  status_of none = none
  status_of (some s) = some s.status

  update_status-find :
      (w : World A) (id : ℕ) (row : ChargeSession A) (status : SessionStatus)
      → find_by_id w id ≡ some row
      → status_of (find_by_id (update_status w id status) id) ≡ some status
  unfolding find_by_id update_status
  update_status-find w id row status e = ap status_of (
      first_where-update_where_same id (λ s. record s { status = status }) w.sessions row
        (λ x. refl) e)

  update_last_blended_kwh-find :
      (w : World A) (id : ℕ) (row : ChargeSession A) (kwh : A)
      → find_by_id w id ≡ some row
      → find_by_id (update_last_blended_kwh w id kwh) id
        ≡ some (record row { last_blended_kwh = some kwh })
  unfolding find_by_id update_last_blended_kwh
  update_last_blended_kwh-find w id row kwh e =
      first_where-update_where_same id (λ s. record s { last_blended_kwh = some kwh }) w.sessions
        row (λ x. refl) e

  blended_same :
      (w : World A) (id : ℕ) (kwh : A)
      → ((update_last_blended_kwh w id kwh).vehicles ≡ w.vehicles)
        × ((update_last_blended_kwh w id kwh).commands ≡ w.commands)
  unfolding update_last_blended_kwh
  blended_same w id kwh = (refl, refl)

module _ {A : Type 0} ⦃F : Float A⦄ (env : Environment A) (fig : Figures A) (w : World A)
    (s : ChargeSession A) (e : EnergyData A) (v : Vehicle A) where
  -- A session in the table, with energy data, a baseline, and a vehicle that has a battery.
  pub record IsMeasured : Type 0 where
    pub row : ChargeSession A
    pub found : find_by_id w s.id ≡ some row
    pub energy : energy_of env s.plug_id ≡ some e
    pub reporting : eqf e.total zero_f ≡ false
    pub baseline : A
    pub has_baseline : s.start_total_kwh ≡ some baseline
    pub vehicle : w.vehicles s.vehicle_id ≡ some v
    pub capacity : le v.capacity_kwh zero_f ≡ false

  abbrev pub progress : ProgressResult A
  progress = calculate_progress (some s) (some e) (some v)

  abbrev saved : World A
  saved = update_last_blended_kwh w s.id progress.last_blended_kwh

  measured-check :
      IsMeasured
      → auto_stop_reaching_session env fig w s
        ≡ after_progress env fig saved s v progress s.hold_percent
  unfolding auto_stop_reaching_session
  measured-check m = rw (m.energy, m.reporting, m.has_baseline, m.vehicle, m.capacity) refl

  saved-found :
      (m : IsMeasured)
      → find_by_id saved s.id
        ≡ some (record (m.row) { last_blended_kwh = some progress.last_blended_kwh })
  saved-found m = update_last_blended_kwh-find w s.id m.row progress.last_blended_kwh m.found

  single_step :
      IsMeasured
      → s.hold_percent ≡ none
      → auto_stop_reaching_session env fig w s ≡ after_progress env fig saved s v progress none
  single_step m single = measured-check m ∙ ap (after_progress env fig saved s v progress) single

  hold_session-held :
      (x : World A) (row : ChargeSession A) (plug : ℕ)
      → find_by_id x s.id ≡ some row
      → s.plug_id ≡ some plug
      → env.confirms plug false ≡ true
      → (status_of (find_by_id (hold_session env x s) s.id) ≡ some holding)
        × ((hold_session env x s).commands ≡ (plug, false) ∷ x.commands)
  unfolding hold_session
  hold_session-held x row plug found plugged confirmed =
      rw (plugged, confirmed)
        (
          update_status-find (command plug false x) s.id row holding (unfold find_by_id in found),
          unfold update_status in refl,
        )

  -- For a session in the table with energy data, a baseline and a vehicle that has a battery: when it has
  -- no hold point, its energy has reached its target, and the target is not 100 percent, the
  -- check completes it and sends OFF to its plug.
  pub auto_stop_reaching_session-completes :
      IsMeasured
      → s.hold_percent ≡ none
      → le s.target_kwh progress.blended_kwh ≡ true
      → eqf s.target_percent hundred ≡ false
      → (status_of (find_by_id (auto_stop_reaching_session env fig w s) s.id) ≡ some completed)
        × ((auto_stop_reaching_session env fig w s).commands ≡ with_off s.plug_id w.commands)
  auto_stop_reaching_session-completes m single reached partial =
      let same = blended_same w s.id progress.last_blended_kwh in
      let vehicle : saved.vehicles s.vehicle_id ≡ some v =
        ap (λ (f : ℕ → Option (Vehicle A)). f s.vehicle_id) same.0 ∙ m.vehicle in
      let effect =
        stop_with_percent-effect env fig saved s progress.current_percent v _ (suc s.id)
          (λ q. absurd (omega arith)) (saved-found m) vehicle in
      rw (single_step m single, reached, partial)
        (ap status_of effect.0, effect.2 ∙ ap (with_off s.plug_id) same.1)

  -- For a session in the table with energy data, a baseline, a vehicle that has a battery, and no hold point, whose energy has reached a target of 100 percent, the check
  -- moves the session to conditioning and sends no command.
  pub auto_stop_reaching_session-conditions :
      IsMeasured
      → s.hold_percent ≡ none
      → le s.target_kwh progress.blended_kwh ≡ true
      → eqf s.target_percent hundred ≡ true
      → (status_of (find_by_id (auto_stop_reaching_session env fig w s) s.id) ≡ some conditioning)
        × ((auto_stop_reaching_session env fig w s).commands ≡ w.commands)
  auto_stop_reaching_session-conditions m single reached full =
      rw (single_step m single, reached, full)
        (
          update_status-find saved s.id _ conditioning (saved-found m),
          unfold update_status in (blended_same w s.id progress.last_blended_kwh).1,
        )

  -- For a session in the table with energy data, a baseline and a vehicle that has a battery: when its
  -- energy has reached its hold point and the plug confirms OFF, the check moves its row to
  -- holding, even if the target is reached too, and whatever the status of the row is by then.
  pub auto_stop_reaching_session-holds :
      (hold_percent : A) (plug : ℕ)
      → IsMeasured
      → s.hold_percent ≡ some hold_percent
      → le (F.div (F.mul v.capacity_kwh hold_percent) hundred) progress.blended_kwh ≡ true
      → s.plug_id ≡ some plug
      → env.confirms plug false ≡ true
      → (status_of (find_by_id (auto_stop_reaching_session env fig w s) s.id) ≡ some holding)
        × ((auto_stop_reaching_session env fig w s).commands ≡ (plug, false) ∷ w.commands)
  auto_stop_reaching_session-holds hold_percent plug m staged reached plugged confirmed =
      let held = hold_session-held saved _ plug (saved-found m) plugged confirmed in
      rw (measured-check m ∙ ap (after_progress env fig saved s v progress) staged, reached)
        (
          held.0,
          held.1 ∙ ap (λ cs. (plug, false) ∷ cs) (blended_same w s.id progress.last_blended_kwh).1,
        )
