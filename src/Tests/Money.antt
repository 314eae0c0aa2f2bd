-- ===== src/Tests/Money.antt =====
-- The cost of three readings, one of them in an off-peak window from 00:00 to 05:00.
use mathlib.Core.List.{Permᴰ}
use ev_charge_controller.Prelude.{ℕ, ◌+◌, ◌*◌, ◌≡◌, refl, true, false, none, [], ◌∷◌, arith}
use ev_charge_controller.Clock.{Time, hour, day, utc}
use ev_charge_controller.Hhmm.{Text, colon, parse_hhmm, text_eq}
use ev_charge_controller.Window.{within_window}
use ev_charge_controller.Fixed.{fixed, fixed-FloatOrder, fixed-FloatNonneg}
use ev_charge_controller.Models.{PowerReading, TariffSettings, zero_f}
use ev_charge_controller.Cost.{calculate_session_cost, validate_tariff}
use ev_charge_controller.Cost.Order.{calculate_session_cost-perm}
use ev_charge_controller.Cost.Validity.{calculate_session_cost-nonneg}

abbrev at : Time → ℕ → PowerReading ℕ
at t kwh = record {
  session_id = 9;
  timestamp = t;
  voltage = 230000;
  current = 9000;
  power = 2000000;
  energy_kwh = kwh;
  carbon_intensity = none;
}

abbrev five : Text
five = b'0' ∷ b'5' ∷ colon ∷ b'0' ∷ b'0' ∷ []

abbrev midnight : Text
midnight = b'0' ∷ b'0' ∷ colon ∷ b'0' ∷ b'0' ∷ []

abbrev tariff : TariffSettings ℕ
tariff = record {
  base_rate_pence = 25000;
  off_peak_windows = record { start = midnight; end = five; rate_pence = 7000 } ∷ [];
}

abbrev r1 : PowerReading ℕ
r1 = at (23 * hour) 501000

abbrev r2 : PowerReading ℕ
r2 = at (day + hour) 503000

abbrev r3 : PowerReading ℕ
r3 = at (day + 6 * hour) 504000

tariff_valid : validate_tariff tariff ≡ true
unfolding validate_tariff parse_hhmm text_eq
tariff_valid = refl

-- 1 kWh at 25p, 2 kWh at 7p, 1 kWh at 25p.
sixty_four_pence : calculate_session_cost utc 500000 (r3 ∷ r1 ∷ r2 ∷ []) tariff ≡ (64000, 2000)
unfolding calculate_session_cost within_window parse_hhmm
sixty_four_pence = refl

calculate_session_cost-perm_example :
    calculate_session_cost utc 500000 (r1 ∷ r2 ∷ r3 ∷ []) tariff
    ≡ calculate_session_cost utc 500000 (r2 ∷ r1 ∷ r3 ∷ []) tariff
calculate_session_cost-perm_example =
    calculate_session_cost-perm utc 500000 tariff (Permᴰ.swap refl refl) (
      (λ e. absurd (omega arith), (λ e. absurd (omega arith), tt)),
      ((λ e. absurd (omega arith), tt), (tt, tt)),
    )

calculate_session_cost-nonneg_example :
    (fixed.lt (calculate_session_cost utc 500000 (r1 ∷ r2 ∷ r3 ∷ []) tariff).0 zero_f ≡ false)
    × (fixed.lt (calculate_session_cost utc 500000 (r1 ∷ r2 ∷ r3 ∷ []) tariff).1 zero_f ≡ false)
calculate_session_cost-nonneg_example =
    calculate_session_cost-nonneg fixed-FloatOrder fixed-FloatNonneg utc tariff tariff_valid 500000
      (r1 ∷ r2 ∷ r3 ∷ [])
