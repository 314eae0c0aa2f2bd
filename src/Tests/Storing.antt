-- ===== src/Tests/Storing.antt =====
-- A plug reports the same figures again, a minute and half an hour after a reading was stored.
use ev_charge_controller.Prelude.{ℕ, ◌+◌, ◌*◌, ◌≡◌, refl, none, some, [], List, ◌∷◌, arith}
use ev_charge_controller.Clock.{minute, day}
use ev_charge_controller.Fixed.{fixed, fixed-FloatOrder}
use ev_charge_controller.Models.{EnergyData, PowerReading}
use ev_charge_controller.Sessions.{World}
use ev_charge_controller.Lwt.{get_active_by_plug}
use ev_charge_controller.Readings.{get_last_power_reading, reading_of, save_reading_locked}
use ev_charge_controller.Readings.Current.{IsCurrent, save_reading_locked-IsCurrent}
use ev_charge_controller.Tests.Charge.{charge}
use ev_charge_controller.Tests.Starts.{world}

abbrev running : World ℕ
running = record world { sessions = charge ∷ [] }

abbrev figures : EnergyData ℕ
figures = record { total = 505000; power = 2000000; voltage = 230000; current = 9000 }

abbrev before : List (PowerReading ℕ)
before = reading_of charge day figures none ∷ []

not_repeated : (save_reading_locked none running (day + minute) 7 figures none before).0 ≡ before
unfolding save_reading_locked get_last_power_reading get_active_by_plug
not_repeated = refl

repeated :
    (save_reading_locked none running (day + 30 * minute) 7 figures none before).0
    ≡ reading_of charge (day + 30 * minute) figures none ∷ before
unfolding save_reading_locked get_last_power_reading get_active_by_plug
repeated = refl

save_reading_locked-IsCurrent_example :
    let after = save_reading_locked none running (day + 30 * minute) 7 figures none before in
    (after.1 ≡ some charge)
    × (get_last_power_reading 10 after.0 ≡ get_last_power_reading 10 before)
    × (r : PowerReading ℕ) × (get_last_power_reading 9 after.0 ≡ some r)
    × IsCurrent fixed-FloatOrder (day + 30 * minute) figures none r
unfolding get_active_by_plug
save_reading_locked-IsCurrent_example =
    save_reading_locked-IsCurrent fixed-FloatOrder none running (day + 30 * minute) 7 figures none
      before charge 10 (omega arith, tt) refl refl refl
