-- ===== src/Sessions/Stopped.antt =====
-- What a stop leaves behind.
use ev_charge_controller.Prelude.{
  ℕ, ◌≡◌, ◌≢◌, refl, ap, ◌∙◌, Bool, true, false, Option, none, some, List, [], ◌∷◌, arith,
  if_either,
}
use ev_charge_controller.Float.{Float, FloatOrder, le, max_of}
use ev_charge_controller.FloatLaws.{le_refl, le_of_lt, le-max_left, clamp_le}
use ev_charge_controller.Models.{completed, ChargeSession, Vehicle, EnergyData, zero_f, hundred}
use ev_charge_controller.Sessions.{World, update_where, first_where, find_by_id, by_id}
use ev_charge_controller.Sessions.Lifecycle.{Environment}
use ev_charge_controller.Sessions.Stop.{
  Figures, EndStats, as_completed, update_end_with_stats, update_percents, increment_lifetime_stats,
  end_from_energy, guarded_end, compute_end_from_energy, calculate_end_data, get_session_carbon,
  compute_session_cost, charging_efficiency_of, energy_of, end_stats, power_off, stop_with_percent,
}

module _ {A : Type 0} where
  pub first_where-update_where_same :
      (id : ℕ) (f : ChargeSession A → ChargeSession A) (ss : List (ChargeSession A))
      (s : ChargeSession A)
      → ((x : ChargeSession A) → (f x).id ≡ x.id)
      → first_where (by_id id) ss ≡ some s
      → first_where (by_id id) (update_where (by_id id) f ss) ≡ some (f s)
  unfolding first_where update_where
  first_where-update_where_same id f [] s h e = absurd (cc e)
  first_where-update_where_same id f (x ∷ ss) s h e =
      ground (arith, h x, first_where-update_where_same id f ss s h)

  pub first_where-update_where_other :
      (id other : ℕ) (f : ChargeSession A → ChargeSession A) (ss : List (ChargeSession A))
      → ((x : ChargeSession A) → (f x).id ≡ x.id)
      → other ≢ id
      → first_where (by_id other) (update_where (by_id id) f ss) ≡ first_where (by_id other) ss
  unfolding first_where update_where
  first_where-update_where_other id other f [] h ne = refl
  first_where-update_where_other id other f (x ∷ ss) h ne =
      ground (arith, h x, first_where-update_where_other id other f ss h ne)

-- OFF to the plug, if there is one.
abbrev pub with_off : Option ℕ → List (ℕ × Bool) → List (ℕ × Bool)
with_off none cs = cs
with_off (some plug) cs = (plug, false) ∷ cs

abbrev pub percent_of : {A : Type 0} → Option (Vehicle A) → Option A
percent_of none = none
percent_of (some v) = some v.current_percent

module _ {A : Type 0} ⦃F : Float A⦄ where
  abbrev pub IsPercent : A → Type 0
  IsPercent p = (le zero_f p ≡ true) × (le p hundred ≡ true)

module _ {A : Type 0} ⦃F : Float A⦄ (O : FloatOrder F) (positive : F.lt zero_f hundred ≡ true) where
  zero-IsPercent : IsPercent {A = A} zero_f
  zero-IsPercent = (le_refl O zero_f, le_of_lt O zero_f hundred positive)

  end_from_energy-IsPercent :
      (s : ChargeSession A) (v : Vehicle A) (e : EnergyData A) (t : A)
      → IsPercent (end_from_energy s v e t).1
  unfolding end_from_energy
  end_from_energy-IsPercent s v e t =
      if_either (λ (r : A × A). IsPercent r.1) _ zero-IsPercent
        (le-max_left O _ _, clamp_le O _ _ _ (le_of_lt O zero_f hundred positive))

  guarded_end-IsPercent :
      (s : ChargeSession A) (e : Option (EnergyData A)) (t : Option A) (v : Option (Vehicle A))
      → IsPercent (guarded_end s e t v).1
  guarded_end-IsPercent s none t v = zero-IsPercent
  guarded_end-IsPercent s (some e) none v = zero-IsPercent
  guarded_end-IsPercent s (some e) (some t) none = zero-IsPercent
  guarded_end-IsPercent s (some e) (some t) (some v) =
      if_either (λ (r : A × A). IsPercent r.1) _ (end_from_energy-IsPercent s v e t) zero-IsPercent

  -- The percent that a stop records is between 0 and 100, if the percent it was asked to fall back on
  -- is, whatever the meter, the baseline and the vehicle say.
  pub end_stats-IsPercent :
      (env : Environment A) (fig : Figures A) (s : ChargeSession A) (v : Option (Vehicle A)) (p : A)
      → IsPercent p
      → IsPercent (end_stats env fig s v p).end_percent
  unfolding end_stats calculate_end_data compute_end_from_energy
  end_stats-IsPercent env fig s v p h =
      if_either (λ (r : A × A). IsPercent r.1) _ h
        (guarded_end-IsPercent s (energy_of env s.plug_id) s.start_total_kwh v)

module _ {A : Type 0} ⦃F : Float A⦄ (env : Environment A) (fig : Figures A) (w : World A)
    (s : ChargeSession A) (p : A) where
  abbrev pub stats : EndStats A
  stats = end_stats env fig s (w.vehicles s.vehicle_id) p

  -- What the figures are: the end that calculateEndData finds, what it adds to the start, not below
  -- zero, the same at the wall, and the carbon and the cost of it.
  abbrev pub AreFigures : EndStats A → Type 0
  AreFigures e =
      let v = w.vehicles s.vehicle_id in
      let end = calculate_end_data s (energy_of env s.plug_id) v p in
      let carbon = get_session_carbon fig s.id e.wall_kwh in
      let cost = compute_session_cost fig s in
      (e.end_kwh ≡ end.0)
      × (e.end_percent ≡ end.1)
      × (e.battery_kwh ≡ max_of zero_f (F.sub e.end_kwh s.start_kwh))
      × (e.wall_kwh ≡ F.div e.battery_kwh (charging_efficiency_of v))
      × (e.avg_carbon_intensity ≡ carbon.0)
      × (e.co2_grams ≡ carbon.1)
      × (e.cost_pence ≡ cost.0)
      × (e.off_peak_kwh ≡ cost.1)

  stats-AreFigures : AreFigures stats
  unfolding end_stats
  stats-AreFigures = (refl, refl, refl, refl, refl, refl, refl, refl)

  off_commands :
      (plug : Option ℕ)
      → (power_off env (update_end_with_stats w s.id env.now stats) plug).0.commands
        ≡ with_off plug w.commands
  unfolding update_end_with_stats
  off_commands none = refl
  off_commands (some plug) = refl

  off_sessions : (x : World A) (plug : Option ℕ) → (power_off env x plug).0.sessions ≡ x.sessions
  off_sessions x none = refl
  off_sessions x (some plug) = refl

  off_vehicles : (x : World A) (plug : Option ℕ) → (power_off env x plug).0.vehicles ≡ x.vehicles
  off_vehicles x none = refl
  off_vehicles x (some plug) = refl

  pub stop-sessions :
      (stop_with_percent env fig w s p).0.sessions
      ≡ update_where (by_id s.id) (as_completed env.now stats) w.sessions
  unfolding stop_with_percent update_end_with_stats update_percents increment_lifetime_stats
  stop-sessions = off_sessions _ s.plug_id

  stop-vehicle :
      (v : Vehicle A)
      → w.vehicles s.vehicle_id ≡ some v
      → percent_of ((stop_with_percent env fig w s p).0.vehicles s.vehicle_id)
        ≡ some stats.end_percent
  unfolding stop_with_percent update_percents increment_lifetime_stats
  stop-vehicle v e =
      let off = (power_off env (update_end_with_stats w s.id env.now stats) s.plug_id).0 in
      let same : off.vehicles s.vehicle_id ≡ some v =
        ap (λ (f : ℕ → Option (Vehicle A)). f s.vehicle_id) (off_vehicles _ s.plug_id)
        ∙ (unfold update_end_with_stats in e) in
      ground (arith, same)

  stop-commands : (stop_with_percent env fig w s p).0.commands ≡ with_off s.plug_id w.commands
  unfolding stop_with_percent update_end_with_stats update_percents increment_lifetime_stats
  stop-commands = off_commands s.plug_id

  -- Stopping a session, as it was read before, writes into its row the status completed, the time and
  -- eight figures, and nothing else, leaves every other session as it is, sends OFF to its plug,
  -- and records the percent it came to as the vehicle's current percent, whether or not the plug
  -- confirms. The figures are the end that calculateEndData finds, the battery energy since the
  -- start, not below zero, that energy at the wall, and the carbon and the cost of it. The row
  -- and the vehicle must be there.
  pub stop_with_percent-effect :
      (v : Vehicle A) (row : ChargeSession A) (other : ℕ)
      → other ≢ s.id
      → find_by_id w s.id ≡ some row
      → w.vehicles s.vehicle_id ≡ some v
      → (find_by_id (stop_with_percent env fig w s p).0 s.id
          ≡ some (record row {
            ended_at = some env.now;
            end_kwh = some stats.end_kwh;
            end_percent = some stats.end_percent;
            status = completed;
            battery_kwh = some stats.battery_kwh;
            wall_kwh = some stats.wall_kwh;
            avg_carbon_intensity = stats.avg_carbon_intensity;
            co2_grams = some stats.co2_grams;
            cost_pence = some stats.cost_pence;
            off_peak_kwh = some stats.off_peak_kwh;
          }))
        × (find_by_id (stop_with_percent env fig w s p).0 other ≡ find_by_id w other)
        × ((stop_with_percent env fig w s p).0.commands ≡ with_off s.plug_id w.commands)
        × (percent_of ((stop_with_percent env fig w s p).0.vehicles s.vehicle_id)
            ≡ some stats.end_percent)
        × AreFigures stats
  unfolding find_by_id
  stop_with_percent-effect v row other ne found vehicle =
      let f : ChargeSession A → ChargeSession A = as_completed env.now stats in
      (
        ap (first_where (by_id s.id)) stop-sessions
            ∙ first_where-update_where_same s.id f w.sessions row (λ x. refl) found,
        ap (first_where (by_id other)) stop-sessions
            ∙ first_where-update_where_other s.id other f w.sessions (λ x. refl) ne,
        stop-commands,
        stop-vehicle v vehicle,
        stats-AreFigures,
      )
