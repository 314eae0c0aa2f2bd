-- ===== src/Tests/Charge.antt =====
-- A charge of a 40 kWh battery from 50% to 80%, with 80% efficiency.
use ev_charge_controller.Prelude.{ℕ, ◌≡◌, refl, true, false, none, some, pos}
use ev_charge_controller.Float.{le}
use ev_charge_controller.Fixed.{fixed, fixed-FloatOrder}
use ev_charge_controller.Models.{ChargeSession, active, Vehicle, EnergyData}
use ev_charge_controller.Energy.{calculate_progress}
use ev_charge_controller.Energy.Progress.{persisted, calculate_progress_monotone}
use ev_charge_controller.Estimate.{project_percent}
use ev_charge_controller.Estimate.Conservative.{Fits, project_percent-Fits}

abbrev pub car : Vehicle ℕ
car = record {
  id = 1;
  user_id = some 4;
  current_percent = 50000;
  target_percent = 80000;
  capacity_kwh = 40000;
  charger_output_w = 2000000;
  charging_efficiency = 800;
  time_0_to_100_min = none;
  time_0_to_80_min = none;
  time_20_to_80_min = none;
  time_20_to_100_min = none;
  total_sessions = pos 0;
  total_battery_kwh = 0;
  total_wall_kwh = 0;
  total_co2_grams = 0;
  total_cost_pence = 0;
}

abbrev pub charge : ChargeSession ℕ
charge = record {
  id = 9;
  vehicle_id = 1;
  user_id = some 4;
  plug_id = some 7;
  created_at = 100;
  started_at = some 100;
  ended_at = none;
  start_kwh = 20000;
  end_kwh = none;
  target_kwh = 32000;
  start_percent = 50000;
  end_percent = none;
  target_percent = 80000;
  status = active;
  start_total_kwh = some 500000;
  last_blended_kwh = none;
  battery_kwh = none;
  wall_kwh = none;
  avg_carbon_intensity = none;
  co2_grams = none;
  cost_pence = none;
  off_peak_kwh = none;
  hold_percent = none;
  ready_by_time = none;
  carbon_aware_hold = false;
}

abbrev reading : EnergyData ℕ
reading = record { total = 505000; power = 2000000; voltage = 230000; current = 9000 }

-- The plug has restarted its counter.
abbrev restarted : EnergyData ℕ
restarted = record { total = 1000; power = 2000000; voltage = 230000; current = 9000 }

-- 5 kWh at the wall are 4 kWh in the battery: 24 of 40 kWh.
sixty_percent : (calculate_progress (some charge) (some reading) (some car)).current_percent ≡ 60000
unfolding calculate_progress
sixty_percent = refl

abbrev polled : ChargeSession ℕ
polled = persisted charge 24000

calculate_progress_monotone_example :
    (le
        (calculate_progress (some polled) (some reading) (some car)).blended_kwh
        (calculate_progress
          (some (
            persisted polled
              (calculate_progress (some polled) (some reading) (some car)).last_blended_kwh))
          (some restarted)
          (some car)).blended_kwh
      ≡ true)
    × (le
          (calculate_progress (some polled) (some reading) (some car)).last_blended_kwh
          (calculate_progress
            (some (
              persisted polled
                (calculate_progress (some polled) (some reading) (some car)).last_blended_kwh))
            (some restarted)
            (some car)).last_blended_kwh
        ≡ true)
calculate_progress_monotone_example =
    calculate_progress_monotone fixed-FloatOrder polled reading restarted car refl refl

project_percent-Fits_example : Fits car 50000 (pos 120) (project_percent car 50000 (pos 120))
project_percent-Fits_example = project_percent-Fits car 50000 (pos 120)
