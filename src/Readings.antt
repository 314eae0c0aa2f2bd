-- ===== src/Readings.antt =====
-- The storing of power readings: saveReadingLocked and shouldStorePowerReading of
-- api/services/session_monitoring_service.go, with GetLastPowerReading and CreatePowerReading of
-- api/repository/charge_session.go. The table is a list, the newest insertion first.
pub mod Current
use ev_charge_controller.Prelude.{
  ℕ, ◌+◌, ◌*◌, Bool, true, false, not, ◌||◌, Option, none, some, List, [], ◌∷◌, ltb, ◌==◌,
  if◌then◌else◌,
}
use ev_charge_controller.Clock.{Time, minute}
use ev_charge_controller.Float.{Float, eqf}
use ev_charge_controller.Models.{
  ChargeSession, EnergyData, PowerReading, SessionStatus, active, conditioning, status_eq,
}
use ev_charge_controller.Sessions.{World}
use ev_charge_controller.Lwt.{get_active_by_plug}

abbrev pub stale_reading_threshold : ℕ
stale_reading_threshold = 30 * minute

abbrev pub is_metered : SessionStatus → Bool
is_metered status = status_eq status active || status_eq status conditioning

module _ {A : Type 0} ⦃F : Float A⦄ where
  abbrev pub newer_reading : PowerReading A → Option (PowerReading A) → Option (PowerReading A)
  newer_reading r none = some r
  newer_reading r (some x) = if ltb r.timestamp x.timestamp then some x else some r

  -- ORDER BY timestamp DESC LIMIT 1
  unfoldable pub get_last_power_reading : ℕ → List (PowerReading A) → Option (PowerReading A)
  get_last_power_reading id [] = none
  get_last_power_reading id (r ∷ rs) =
      let last = get_last_power_reading id rs in
      if r.session_id == id then newer_reading r last else last

  abbrev pub carbon_intensity_differs : Option A → Option A → Bool
  carbon_intensity_differs none none = false
  carbon_intensity_differs (some a) (some b) = not (eqf a b)
  carbon_intensity_differs _ _ = true

  abbrev pub should_store_power_reading : Time → Option (PowerReading A) → PowerReading A → Bool
  should_store_power_reading now none next = true
  should_store_power_reading now (some last) next =
      if not (ltb now (last.timestamp + stale_reading_threshold))
      then true
      else if not (eqf last.power next.power)
          || not (eqf last.voltage next.voltage)
          || not (eqf last.current next.current)
      then true
      else carbon_intensity_differs last.carbon_intensity next.carbon_intensity

  abbrev pub reading_of : ChargeSession A → Time → EnergyData A → Option A → PowerReading A
  reading_of s now energy carbon = record {
    session_id = s.id;
    timestamp = now;
    voltage = energy.voltage;
    current = energy.current;
    power = energy.power;
    energy_kwh = energy.total;
    carbon_intensity = carbon;
  }

  abbrev pub save_found :
      Option (ChargeSession A)
      → Time
      → EnergyData A
      → Option A
      → List (PowerReading A)
      → List (PowerReading A) × Option (ChargeSession A)
  save_found none now energy carbon readings = (readings, none)
  save_found (some s) now energy carbon readings =
      let reading = reading_of s now energy carbon in
      if not (is_metered s.status)
      then (readings, none)
      else if should_store_power_reading now (get_last_power_reading s.id readings) reading
      then (reading ∷ readings, some s)
      else (readings, some s)

  unfoldable pub save_reading_locked :
      Option ℕ
      → World A
      → Time
      → ℕ
      → EnergyData A
      → Option A
      → List (PowerReading A)
      → List (PowerReading A) × Option (ChargeSession A)
  save_reading_locked user w now plug energy carbon readings =
      save_found (get_active_by_plug user w plug) now energy carbon readings
