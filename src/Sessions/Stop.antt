-- ===== src/Sessions/Stop.antt =====
-- Stopping a session: stopWithPercent of api/services/session_lifecycle_service.go with the functions
-- that compute its figures, UpdateEndWithStats of api/repository/charge_session.go, and
-- UpdatePercents and IncrementLifetimeStats of api/repository/vehicle.go, of the fields that Vehicle
-- has. A plug controller is set; the notification is left out.
use ev_charge_controller.Prelude.{
  ℕ, suc, zero, Bool, true, false, ◌&&◌, Option, none, some, List, ℤ, pos, negsuc, ◌==◌,
  if◌then◌else◌,
}
use ev_charge_controller.Clock.{Time, Location}
use ev_charge_controller.Float.{Float, le, eqf, max_of, min_of}
use ev_charge_controller.Models.{
  completed, ChargeSession, PowerReading, Vehicle, EnergyData, TariffSettings, zero_f, hundred,
  default_charging_efficiency,
}
use ev_charge_controller.Energy.{epsilon_kwh, efficiency_of}
use ev_charge_controller.Cost.{calculate_session_cost}
use ev_charge_controller.Sessions.{World, update_where, by_id, set_sessions, command}
use ev_charge_controller.Sessions.Lifecycle.{Environment}

-- GetAvgCarbonIntensityForSessions for one session, EffectiveTariffForUser, and GetPowerReadings; an
-- error is `none`. `location` is that of the readings' timestamps.
pub record Figures (A : Type 0) : Type 0 where
  pub avg_carbon : ℕ → Option A
  pub tariff : ℕ → Option (TariffSettings A)
  pub readings : ℕ → Option (List (PowerReading A))
  pub location : Location

-- The arguments of UpdateEndWithStats.
pub record EndStats (A : Type 0) : Type 0 where
  pub end_kwh : A
  pub end_percent : A
  pub battery_kwh : A
  pub wall_kwh : A
  pub co2_grams : A
  pub avg_carbon_intensity : Option A
  pub cost_pence : A
  pub off_peak_kwh : A

-- StopResult, without the text of the error.
pub record StopResult : Type 0 where
  pub stopped : Bool

abbrev increment : ℤ → ℤ
increment (pos n) = pos (suc n)
increment (negsuc zero) = pos 0
increment (negsuc (suc n)) = negsuc n

module _ {A : Type 0} where
  abbrev pub as_completed : Time → EndStats A → ChargeSession A → ChargeSession A
  as_completed ended_at e s = record s {
    ended_at = some ended_at;
    end_kwh = some e.end_kwh;
    end_percent = some e.end_percent;
    status = completed;
    battery_kwh = some e.battery_kwh;
    wall_kwh = some e.wall_kwh;
    avg_carbon_intensity = e.avg_carbon_intensity;
    co2_grams = some e.co2_grams;
    cost_pence = some e.cost_pence;
    off_peak_kwh = some e.off_peak_kwh;
  }

  unfoldable pub update_end_with_stats : World A → ℕ → Time → EndStats A → World A
  update_end_with_stats w id ended_at e =
      set_sessions w (update_where (by_id id) (as_completed ended_at e) w.sessions)

  abbrev pub map_vehicle : (Vehicle A → Vehicle A) → Option (Vehicle A) → Option (Vehicle A)
  map_vehicle f none = none
  map_vehicle f (some v) = some (f v)

  -- `UPDATE vehicles SET f WHERE id = ?`
  abbrev pub update_vehicle : World A → ℕ → (Vehicle A → Vehicle A) → World A
  update_vehicle w id f = record w {
    vehicles = λ n. if n == id then map_vehicle f (w.vehicles n) else w.vehicles n;
  }

  unfoldable pub update_percents : World A → ℕ → A → A → World A
  update_percents w id current target =
      update_vehicle w id (λ v. record v { current_percent = current; target_percent = target })

  abbrev pub energy_of : Environment A → Option ℕ → Option (EnergyData A)
  energy_of env none = none
  energy_of env (some plug) = env.last_energy plug

module _ {A : Type 0} ⦃F : Float A⦄ where
  unfoldable pub increment_lifetime_stats : World A → ℕ → EndStats A → World A
  increment_lifetime_stats w id e = update_vehicle w id (λ v. record v {
    total_sessions = increment v.total_sessions;
    total_battery_kwh = F.add v.total_battery_kwh e.battery_kwh;
    total_wall_kwh = F.add v.total_wall_kwh e.wall_kwh;
    total_co2_grams = F.add v.total_co2_grams e.co2_grams;
    total_cost_pence = F.add v.total_cost_pence e.cost_pence;
  })

  -- The part of computeEndFromEnergy behind its guards.
  unfoldable pub end_from_energy : ChargeSession A → Vehicle A → EnergyData A → A → A × A
  end_from_energy s v energy start_total =
      let session_energy_kwh = F.mul (F.sub energy.total start_total) (efficiency_of v) in
      let end_kwh = max_of zero_f (min_of v.capacity_kwh (F.add s.start_kwh session_energy_kwh)) in
      if le session_energy_kwh epsilon_kwh
      then (zero_f, zero_f)
      else (end_kwh, max_of zero_f (min_of hundred (F.mul (F.div end_kwh v.capacity_kwh) hundred)))

  abbrev pub guarded_end :
      ChargeSession A → Option (EnergyData A) → Option A → Option (Vehicle A) → A × A
  guarded_end s (some energy) (some start_total) (some v) =
      if F.lt zero_f energy.total && F.lt zero_f v.capacity_kwh
      then end_from_energy s v energy start_total
      else (zero_f, zero_f)
  guarded_end s _ _ _ = (zero_f, zero_f)

  unfoldable pub compute_end_from_energy :
      ChargeSession A → Option (EnergyData A) → Option (Vehicle A) → A × A
  compute_end_from_energy s energy v = guarded_end s energy s.start_total_kwh v

  unfoldable pub compute_end_from_percent : Option (Vehicle A) → A → A
  compute_end_from_percent none end_percent = zero_f
  compute_end_from_percent (some v) end_percent =
      if le v.capacity_kwh zero_f then zero_f else F.div (F.mul v.capacity_kwh end_percent) hundred

  unfoldable pub calculate_end_data :
      ChargeSession A → Option (EnergyData A) → Option (Vehicle A) → A → A × A
  calculate_end_data s energy v end_percent =
      let (end_kwh, actual_end_percent) = compute_end_from_energy s energy v in
      if eqf end_kwh zero_f
      then (compute_end_from_percent v end_percent, end_percent)
      else (end_kwh, actual_end_percent)

  -- getChargingEfficiency
  abbrev pub charging_efficiency_of : Option (Vehicle A) → A
  charging_efficiency_of none = default_charging_efficiency
  charging_efficiency_of (some v) = efficiency_of v

  abbrev pub carbon_of : A → Option A → Option A × A
  carbon_of wall_kwh none = (none, zero_f)
  carbon_of wall_kwh (some avg) = (some avg, F.mul wall_kwh avg)

  unfoldable pub get_session_carbon : Figures A → ℕ → A → Option A × A
  get_session_carbon fig id wall_kwh =
      if eqf wall_kwh zero_f then (none, zero_f) else carbon_of wall_kwh (fig.avg_carbon id)

  abbrev pub cost_of :
      Figures A
      → ChargeSession A
      → Option A
      → Option (TariffSettings A)
      → Option (List (PowerReading A))
      → A × A
  cost_of fig s (some start_total) (some tariff) (some readings) =
      calculate_session_cost fig.location start_total readings tariff
  cost_of fig s _ _ _ = (zero_f, zero_f)

  abbrev pub tariff_of : Figures A → Option ℕ → Option (TariffSettings A)
  tariff_of fig none = none
  tariff_of fig (some user) = fig.tariff user

  unfoldable pub compute_session_cost : Figures A → ChargeSession A → A × A
  compute_session_cost fig s =
      cost_of fig s s.start_total_kwh (tariff_of fig s.user_id) (fig.readings s.id)

  -- The figures that stopWithPercent writes.
  unfoldable pub end_stats :
      Environment A → Figures A → ChargeSession A → Option (Vehicle A) → A → EndStats A
  end_stats env fig s v end_percent =
      let (end_kwh, actual_end_percent) =
        calculate_end_data s (energy_of env s.plug_id) v end_percent in
      let battery_kwh = max_of zero_f (F.sub end_kwh s.start_kwh) in
      let wall_kwh = F.div battery_kwh (charging_efficiency_of v) in
      let (avg_carbon, co2_grams) = get_session_carbon fig s.id wall_kwh in
      let (cost_pence, off_peak_kwh) = compute_session_cost fig s in
      record {
        end_kwh = end_kwh;
        end_percent = actual_end_percent;
        battery_kwh = battery_kwh;
        wall_kwh = wall_kwh;
        co2_grams = co2_grams;
        avg_carbon_intensity = avg_carbon;
        cost_pence = cost_pence;
        off_peak_kwh = off_peak_kwh;
      }

  abbrev pub power_off : Environment A → World A → Option ℕ → World A × StopResult
  power_off env w none = (w, record { stopped = true })
  power_off env w (some plug) = (command plug false w, record { stopped = env.confirms plug false })

  -- `s` is the session as it was read before.
  unfoldable pub stop_with_percent :
      Environment A → Figures A → World A → ChargeSession A → A → World A × StopResult
  stop_with_percent env fig w s end_percent =
      let e = end_stats env fig s (w.vehicles s.vehicle_id) end_percent in
      let (off, result) = power_off env (update_end_with_stats w s.id env.now e) s.plug_id in
      (
        increment_lifetime_stats (update_percents off s.vehicle_id e.end_percent s.target_percent)
            s.vehicle_id e,
        result,
      )
