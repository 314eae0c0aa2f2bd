-- ===== src/Sessions/Cancel/Percent.antt =====
-- About what a cancellation records.
use ev_charge_controller.Prelude.{
  ℕ, ◌≡◌, ◌≢◌, refl, ap, ◌∙◌, Bool, true, Option, none, some, arith, Bool-cases, inl, inr, subst,
  sym,
}
use ev_charge_controller.Float.{Float, FloatOrder, le}
use ev_charge_controller.FloatLaws.{le_refl, le_of_lt}
use ev_charge_controller.Models.{cancelled, ChargeSession, Vehicle, EnergyData}
use ev_charge_controller.Energy.{calculate_progress, current_percent_from_blended}
use ev_charge_controller.Sessions.{
  World, update_where, first_where, find_by_id, by_id, as_cancelled_at, update_cancel_data,
}
use ev_charge_controller.Sessions.Lifecycle.{Environment}
use ev_charge_controller.Sessions.Stop.{energy_of, power_off, update_percents}
use ev_charge_controller.Sessions.Stopped.{
  first_where-update_where_same, first_where-update_where_other, with_off, percent_of,
}
use ev_charge_controller.Sessions.Cancel.{
  owned, best_live, progressed, end_percent_of, cancel_end_percent, advance_vehicle, cancel_owned,
  cancel_active_session,
}

module _ {A : Type 0} ⦃F : Float A⦄ (env : Environment A) (w : World A) (s : ChargeSession A) where
  advance-sessions :
      (x : World A) (id : ℕ) (p : Option A) (v : Option (Vehicle A))
      → (advance_vehicle env x id p v).sessions ≡ x.sessions
  unfolding update_percents
  advance-sessions x id none v = refl
  advance-sessions x id (some p) none = refl
  advance-sessions x id (some p) (some v) = ground arith

  advance-commands :
      (x : World A) (id : ℕ) (p : Option A) (v : Option (Vehicle A))
      → (advance_vehicle env x id p v).commands ≡ x.commands
  unfolding update_percents
  advance-commands x id none v = refl
  advance-commands x id (some p) none = refl
  advance-commands x id (some p) (some v) = ground arith

  off-sessions : (x : World A) (plug : Option ℕ) → (power_off env x plug).0.sessions ≡ x.sessions
  off-sessions x none = refl
  off-sessions x (some plug) = refl

  off-vehicles : (x : World A) (plug : Option ℕ) → (power_off env x plug).0.vehicles ≡ x.vehicles
  off-vehicles x none = refl
  off-vehicles x (some plug) = refl

  off-commands :
      (x : World A) (plug : Option ℕ) → (power_off env x plug).0.commands ≡ with_off plug x.commands
  off-commands x none = refl
  off-commands x (some plug) = refl

  -- The vehicle's percent is `u`, not below what it was.
  abbrev pub IsKept : A → Option A → Type 0
  IsKept before after = (u : A) × (after ≡ some u) × (le before u ≡ true)

  advance-vehicle :
      FloatOrder F
      → (x : World A) (id : ℕ) (p : Option A) (v : Vehicle A) → x.vehicles id ≡ some v
      → IsKept v.current_percent (percent_of ((advance_vehicle env x id p (some v)).vehicles id))
  unfolding update_percents
  advance-vehicle O x id none v e = (v.current_percent, ap percent_of e, le_refl O _)
  advance-vehicle O x id (some p) v e = elim (Bool-cases (F.lt v.current_percent p)) [
    | inl raised ↦ (p, ground (arith, e, raised), le_of_lt O _ _ raised)
    | inr kept ↦ (v.current_percent, ground (arith, e, kept), le_refl O _)
  ]

  pub cancel_owned-sessions :
      (p : Option A)
      → (cancel_owned env w s p).sessions
        ≡ update_where (by_id s.id) (as_cancelled_at env.now p) w.sessions
  unfolding update_cancel_data
  cancel_owned-sessions p = advance-sessions _ _ p _ ∙ off-sessions _ s.plug_id

  cancel_owned-commands :
      (p : Option A) → (cancel_owned env w s p).commands ≡ with_off s.plug_id w.commands
  unfolding update_cancel_data
  cancel_owned-commands p = advance-commands _ _ p _ ∙ off-commands _ s.plug_id

  cancel_owned-vehicle :
      FloatOrder F
      → (p : Option A) (v : Vehicle A) → w.vehicles s.vehicle_id ≡ some v
      → IsKept v.current_percent (percent_of ((cancel_owned env w s p).vehicles s.vehicle_id))
  unfolding update_cancel_data
  cancel_owned-vehicle O p v e =
      let off : World A = (power_off env (update_cancel_data w s.id env.now p) s.plug_id).0 in
      let same : off.vehicles s.vehicle_id ≡ some v =
        ap (λ (f : ℕ → Option (Vehicle A)). f s.vehicle_id) (off-vehicles _ s.plug_id) ∙ e in
      subst
        (λ o.
          IsKept v.current_percent
            (percent_of ((advance_vehicle env off s.vehicle_id p o).vehicles s.vehicle_id)))
        (sym same) (advance-vehicle O off s.vehicle_id p v same)

  pub cancel_of_owned :
      owned env.user s.user_id ≡ true
      → cancel_active_session env w s ≡ (cancel_owned env w s (cancel_end_percent env w s), true)
  unfolding cancel_active_session
  cancel_of_owned mine = ground (arith, mine)

  -- Cancelling a session that the user owns writes into its row the status cancelled, the time, and the
  -- end percent that cancelEndPercent computes, and nothing else, changes no other row, sends OFF to its plug, and does not
  -- lower the vehicle's current percent. The row and the vehicle must be there.
  pub cancel_active_session-effect :
      FloatOrder F
      → (v : Vehicle A) (row : ChargeSession A) (other : ℕ) → owned env.user s.user_id ≡ true
      → other ≢ s.id
      → find_by_id w s.id ≡ some row
      → w.vehicles s.vehicle_id ≡ some v
      → (find_by_id (cancel_active_session env w s).0 s.id
          ≡ some (record row {
            status = cancelled;
            ended_at = some env.now;
            end_percent = cancel_end_percent env w s;
          }))
        × (find_by_id (cancel_active_session env w s).0 other ≡ find_by_id w other)
        × ((cancel_active_session env w s).0.commands ≡ with_off s.plug_id w.commands)
        × IsKept v.current_percent
            (percent_of ((cancel_active_session env w s).0.vehicles s.vehicle_id))
  unfolding find_by_id
  cancel_active_session-effect O v row other mine ne found vehicle =
      let p = cancel_end_percent env w s in
      let f : ChargeSession A → ChargeSession A = as_cancelled_at env.now p in
      let e = ap (λ (r : World A × Bool). r.0) (cancel_of_owned mine) in
      let sessions = ap (λ (x : World A). x.sessions) e ∙ cancel_owned-sessions p in
      (
        ap (first_where (by_id s.id)) sessions
            ∙ first_where-update_where_same s.id f w.sessions row (λ x. refl) found,
        ap (first_where (by_id other)) sessions
            ∙ first_where-update_where_other s.id other f w.sessions (λ x. refl) ne,
        ap (λ (x : World A). x.commands) e ∙ cancel_owned-commands p,
        subst (λ (x : World A). IsKept v.current_percent (percent_of (x.vehicles s.vehicle_id)))
            (sym e) (cancel_owned-vehicle O p v vehicle),
      )

  -- An end percent that is at least `p`.
  abbrev pub IsAtLeast : A → Option A → Type 0
  IsAtLeast p end_percent = (q : A) × (end_percent ≡ some q) × (le p q ≡ true)

  best_live-le :
      FloatOrder F
      → (v : Vehicle A) (p : A) (e : Option (EnergyData A)) (t : Option A)
      → le p (best_live env s v p e t) ≡ true
  best_live-le O v p none t = le_refl O p
  best_live-le O v p (some e) none = le_refl O p
  best_live-le O v p (some e) (some t) =
      let live = (calculate_progress (some s) (some e) (some v)).current_percent in
      ground (arith, le_refl O p, O.asym p live)

  -- The progress that was last stored for a session, where it is above the start, is not lost by a
  -- cancellation: the end percent that it records is there and is at least the stored one,
  -- whatever the plug reports. The vehicle must be there and have a capacity.
  pub cancel_end_percent-keeps :
      FloatOrder F
      → (v : Vehicle A) (p : A) → w.vehicles s.vehicle_id ≡ some v
      → F.lt (F.lit 0 1) v.capacity_kwh ≡ true
      → current_percent_from_blended (some s) (some v) ≡ some p
      → F.lt s.start_percent p ≡ true
      → IsAtLeast p (cancel_end_percent env w s)
  unfolding cancel_end_percent
  cancel_end_percent-keeps O v p vehicle capacity stored above =
      let q : A = best_live env s v p (energy_of env s.plug_id) s.start_total_kwh in
      let le_q : le p q ≡ true = best_live-le O v p (energy_of env s.plug_id) s.start_total_kwh in
      let found : end_percent_of env s (some v) ≡ progressed env s q =
        ground (arith, stored, O.asym (F.lit 0 1) v.capacity_kwh capacity) in
      let past : progressed env s q ≡ some q = ground (arith, O.trans p q s.start_percent) in
      (q, ap (end_percent_of env s) vehicle ∙ found ∙ past, le_q)
