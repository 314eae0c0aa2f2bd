-- ===== src/Cost/Validity.antt =====
-- What a tariff that passes validateTariff promises of the cost.
use ev_charge_controller.Prelude.{ℕ, ◌≡◌, true, false, List, [], ◌∷◌, All, arith}
use ev_charge_controller.Clock.{Location}
use ev_charge_controller.Hhmm.{parse_hhmm, is_some, text_eq}
use ev_charge_controller.Float.{Float, FloatOrder, FloatNonneg}
use ev_charge_controller.FloatLaws.{lt_irrefl}
use ev_charge_controller.Models.{PowerReading, OffPeakWindow, TariffSettings, zero_f}
use ev_charge_controller.Cost.{
  Bill, first_rate, applicable_rate_pence, bill_reading, bill_all, opening, sort_readings,
  calculate_session_cost, valid_windows, validate_tariff,
}

module _ {A : Type 0} ⦃F : Float A⦄ where
  -- Both ends parse, they are not the same text, and the rate is not negative.
  pub record IsWindow (w : OffPeakWindow A) : Type 0 where
    pub start_parses : is_some (parse_hhmm w.start) ≡ true
    pub end_parses : is_some (parse_hhmm w.end) ≡ true
    pub distinct : text_eq w.start w.end ≡ false
    pub rate_nonneg : F.lt w.rate_pence zero_f ≡ false

  valid_windows-All : (ws : List (OffPeakWindow A)) → valid_windows ws ≡ true → All IsWindow ws
  unfolding valid_windows
  valid_windows-All [] h = tt
  valid_windows-All (w ∷ ws) h = (ground arith, valid_windows-All ws (ground arith))

  first_rate-nonneg :
      (base : A) (minutes : ℕ) (ws : List (OffPeakWindow A))
      → F.lt base zero_f ≡ false
      → All IsWindow ws
      → F.lt (first_rate base minutes ws).0 zero_f ≡ false
  unfolding first_rate
  first_rate-nonneg base minutes [] h all = h
  first_rate-nonneg base minutes (w ∷ ws) h all =
      ground (arith, all.0.rate_nonneg, first_rate-nonneg base minutes ws h all.1)

module _ {A : Type 0} ⦃F : Float A⦄ (O : FloatOrder F) (N : FloatNonneg F) (loc : Location)
    (tariff : TariffSettings A) (valid : validate_tariff tariff ≡ true) where
  abbrev IsNonneg : Bill A → Type 0
  IsNonneg b = (F.lt b.total_pence zero_f ≡ false) × (F.lt b.off_peak_wall_kwh zero_f ≡ false)

  applicable_rate-nonneg : (t : ℕ) → F.lt (applicable_rate_pence loc tariff t).0 zero_f ≡ false
  unfolding applicable_rate_pence validate_tariff
  applicable_rate-nonneg t =
      first_rate-nonneg tariff.base_rate_pence _ tariff.off_peak_windows (ground arith)
        (valid_windows-All tariff.off_peak_windows (ground arith))

  bill_reading-IsNonneg :
      (b : Bill A) (r : PowerReading A) → IsNonneg b → IsNonneg (bill_reading loc tariff b r)
  unfolding bill_reading
  bill_reading-IsNonneg b r h =
      let delta : A = F.sub r.energy_kwh b.prev_kwh in
      let rate : A = (applicable_rate_pence loc tariff r.timestamp).0 in
      ground (
        arith,
        h,
        applicable_rate-nonneg r.timestamp,
        O.asym zero_f delta,
        N.mul_nonneg delta rate,
        N.add_nonneg b.total_pence (F.mul delta rate),
        N.add_nonneg b.off_peak_wall_kwh delta,
      )

  bill_all-IsNonneg :
      (rs : List (PowerReading A)) (b : Bill A) → IsNonneg b → IsNonneg (bill_all loc tariff rs b)
  unfolding bill_all
  bill_all-IsNonneg [] b h = h
  bill_all-IsNonneg (r ∷ rs) b h =
      bill_all-IsNonneg rs (bill_reading loc tariff b r) (bill_reading-IsNonneg b r h)

  -- For a tariff that passes validateTariff, neither the cost nor the off-peak energy of a session
  -- is negative, whatever the readings are.
  pub calculate_session_cost-nonneg :
      (start : A) (readings : List (PowerReading A))
      → (F.lt (calculate_session_cost loc start readings tariff).0 zero_f ≡ false)
        × (F.lt (calculate_session_cost loc start readings tariff).1 zero_f ≡ false)
  unfolding calculate_session_cost
  calculate_session_cost-nonneg start readings =
      bill_all-IsNonneg (sort_readings readings) (opening start)
        (lt_irrefl O zero_f, lt_irrefl O zero_f)
