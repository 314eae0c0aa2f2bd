-- ===== src/Cost.antt =====
-- api/services/cost_calculator.go, and validateTariff of api/services/tariff_service.go. A reading's
-- time of day is taken in the location `loc` of its timestamp. sort.SliceStable is an insertion
-- sort; every stable sort gives the same list.
pub mod Order
pub mod Validity
use ev_charge_controller.Prelude.{
  ℕ, ◌+◌, ◌*◌, Bool, true, false, ◌||◌, not, Option, none, some, List, [], ◌∷◌, ltb, if◌then◌else◌,
}
use ev_charge_controller.Clock.{Time, Location}
use ev_charge_controller.Hhmm.{parse_hhmm, text_eq, is_some}
use ev_charge_controller.Window.{within_window}
use ev_charge_controller.Float.{Float, le}
use ev_charge_controller.Models.{PowerReading, OffPeakWindow, TariffSettings, zero_f}

-- The running values prevKwh, totalPence and offPeakWallKwh.
pub record Bill (A : Type 0) : Type 0 where
  pub prev_kwh : A
  pub total_pence : A
  pub off_peak_wall_kwh : A

module _ {A : Type 0} ⦃F : Float A⦄ where
  -- The loop over the windows.
  unfoldable pub first_rate : A → ℕ → List (OffPeakWindow A) → A × Bool
  first_rate base minutes [] = (base, false)
  first_rate base minutes (w ∷ ws) =
      if within_window minutes w.start w.end
      then (w.rate_pence, true)
      else first_rate base minutes ws

  unfoldable pub applicable_rate_pence : Location → TariffSettings A → Time → A × Bool
  unfolding first_rate
  applicable_rate_pence loc tariff t =
      first_rate tariff.base_rate_pence (loc.hour_of t * 60 + loc.minute_of t)
        tariff.off_peak_windows

  pub insert_reading : PowerReading A → List (PowerReading A) → List (PowerReading A)
  insert_reading x [] = x ∷ []
  insert_reading x (y ∷ ys) =
      if ltb y.timestamp x.timestamp then y ∷ insert_reading x ys else x ∷ y ∷ ys

  unfoldable pub sort_readings : List (PowerReading A) → List (PowerReading A)
  unfolding insert_reading
  sort_readings [] = []
  sort_readings (x ∷ xs) = insert_reading x (sort_readings xs)

  abbrev charged : Bill A → A → A → A × Bool → Bill A
  charged b kwh delta (rate, is_off_peak) = record {
    prev_kwh = kwh;
    total_pence = F.add b.total_pence (F.mul delta rate);
    off_peak_wall_kwh =
        if is_off_peak then F.add b.off_peak_wall_kwh delta else b.off_peak_wall_kwh;
  }

  unfoldable pub bill_reading : Location → TariffSettings A → Bill A → PowerReading A → Bill A
  unfolding applicable_rate_pence
  bill_reading loc tariff b reading =
      let delta = F.sub reading.energy_kwh b.prev_kwh in
      if le delta zero_f
      then record b { prev_kwh = reading.energy_kwh }
      else charged b reading.energy_kwh delta (applicable_rate_pence loc tariff reading.timestamp)

  unfoldable pub bill_all : Location → TariffSettings A → List (PowerReading A) → Bill A → Bill A
  unfolding bill_reading
  bill_all loc tariff [] b = b
  bill_all loc tariff (r ∷ rs) b = bill_all loc tariff rs (bill_reading loc tariff b r)

  abbrev pub opening : A → Bill A
  opening start = record { prev_kwh = start; total_pence = zero_f; off_peak_wall_kwh = zero_f }

  -- The total pence and the off-peak energy. Without readings the loop leaves both at 0.
  unfoldable pub calculate_session_cost :
      Location → A → List (PowerReading A) → TariffSettings A → A × A
  unfolding sort_readings bill_all
  calculate_session_cost loc start_total_kwh readings tariff =
      let b = bill_all loc tariff (sort_readings readings) (opening start_total_kwh) in
      (b.total_pence, b.off_peak_wall_kwh)

  -- ErrInvalidTariff is `false`.
  unfoldable pub valid_windows : List (OffPeakWindow A) → Bool
  valid_windows [] = true
  valid_windows (w ∷ ws) =
      if not (is_some (parse_hhmm w.start))
      then false
      else if not (is_some (parse_hhmm w.end))
      then false
      else if text_eq w.start w.end
      then false
      else if F.lt w.rate_pence zero_f
      then false
      else valid_windows ws

  unfoldable pub validate_tariff : TariffSettings A → Bool
  unfolding valid_windows
  validate_tariff settings =
      if F.lt settings.base_rate_pence zero_f
      then false
      else valid_windows settings.off_peak_windows
