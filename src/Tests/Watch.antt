-- ===== src/Tests/Watch.antt =====
-- Runs of the monitoring checks on the charge of Charge, at plug 7, which confirms its commands.
use ev_charge_controller.Prelude.{
  ℕ, ◌+◌, ◌-◌, ◌*◌, ◌≡◌, refl, true, false, none, some, [], ◌∷◌, ◌++◌, arith,
}
use ev_charge_controller.Clock.{Time, minute, hour, utc}
use ev_charge_controller.Hhmm.{parse_hhmm}
use ev_charge_controller.Window.{resolve_deadline}
use ev_charge_controller.Fixed.{fixed}
use ev_charge_controller.Models.{
  ChargeSession, PowerReading, EnergyData, active, holding, completed,
}
use ev_charge_controller.Energy.{calculate_progress}
use ev_charge_controller.Optimizer.{find_balanced_start, score_window, balance_score}
use ev_charge_controller.Sessions.{World, find_by_id}
use ev_charge_controller.Sessions.Lifecycle.{Environment}
use ev_charge_controller.Sessions.Stop.{Figures, as_completed, end_stats, stop_with_percent}
use ev_charge_controller.Sessions.Stopped.{percent_of, AreFigures, stop_with_percent-effect}
use ev_charge_controller.Monitoring.{
  Planner, idle_streak_start, auto_stop_reaching_session, resume_holding_session_if_due,
}
use ev_charge_controller.Monitoring.Idle.{idle_streak_start-last}
use ev_charge_controller.Monitoring.Target.{
  IsMeasured, status_of, auto_stop_reaching_session-completes,
}
use ev_charge_controller.Monitoring.Resume.{IsWaiting, resume_holding_session_if_due-deadline}
use ev_charge_controller.Tests.Charge.{car, charge}
use ev_charge_controller.Tests.Slots.{now, today, six, six_text, forecast}
use ev_charge_controller.Tests.Starts.{environment, world}

-- 30 kWh at the wall are 24 kWh in the battery.
abbrev reading : EnergyData ℕ
reading = record { total = 530000; power = 2000000; voltage = 230000; current = 9000 }

abbrev env : Environment ℕ
env = record environment { last_energy = λ p. some reading }

abbrev pub fig : Figures ℕ
fig = record {
  avg_carbon = λ id. some 200000;
  tariff = λ user. none;
  readings = λ id. none;
  location = utc;
}

abbrev table : ChargeSession ℕ → World ℕ
table s = record world { sessions = s ∷ [] }

abbrev full : ChargeSession ℕ
full = record charge { target_percent = 100000; target_kwh = 40000 }

abbrev staged : ChargeSession ℕ
staged = record charge { hold_percent = some 64000 }

abbrev held : ChargeSession ℕ
held = record charge {
  status = holding;
  hold_percent = some 64000;
  ready_by_time = some six_text;
  carbon_aware_hold = true;
}

in_table : (s : ChargeSession ℕ) → s.id ≡ 9 → find_by_id (table s) 9 ≡ some s
unfolding find_by_id
in_table s e = ground (arith, e)

stop_with_percent-effect_example :
    (find_by_id (stop_with_percent env fig (table charge) charge 80000).0 9
      ≡ some (as_completed now (end_stats env fig charge (some car) 80000) charge))
    × (find_by_id (stop_with_percent env fig (table charge) charge 80000).0 10
        ≡ find_by_id (table charge) 10)
    × ((stop_with_percent env fig (table charge) charge 80000).0.commands ≡ (7, false) ∷ [])
    × (percent_of ((stop_with_percent env fig (table charge) charge 80000).0.vehicles 1)
        ≡ some (end_stats env fig charge (some car) 80000).end_percent)
    × AreFigures env fig (table charge) charge 80000 (end_stats env fig charge (some car) 80000)
stop_with_percent-effect_example =
    stop_with_percent-effect env fig (table charge) charge 80000 car charge 10
      (λ e. absurd (omega arith)) (in_table charge refl) refl

abbrev drawing : Time → ℕ → PowerReading ℕ
drawing t power = record {
  session_id = 9;
  timestamp = t;
  voltage = 230000;
  current = 0;
  power = power;
  energy_kwh = 0;
  carbon_intensity = none;
}

idle_streak_start-last_example :
    (idle_streak_start
        ((drawing 1 2000 ∷ []) ++ (drawing 2 2000000 ∷ drawing 3 1000 ∷ drawing 4 2000 ∷ []))
      ≡ some 3)
    × (idle_streak_start ((drawing 1 2000 ∷ []) ++ (drawing 2 2000000 ∷ [])) ≡ none)
idle_streak_start-last_example =
    idle_streak_start-last (drawing 1 2000 ∷ []) (drawing 4 2000 ∷ []) (drawing 2 2000000)
      (drawing 3 1000) refl (refl, (refl, tt))

charge_measured : IsMeasured env fig (table charge) charge reading car
charge_measured = record {
  row = charge;
  found = in_table charge refl;
  energy = refl;
  reporting = refl;
  baseline = 500000;
  has_baseline = refl;
  vehicle = refl;
  capacity = refl;
}

full_measured : IsMeasured env fig (table full) full reading car
full_measured = record {
  row = full;
  found = in_table full refl;
  energy = refl;
  reporting = refl;
  baseline = 500000;
  has_baseline = refl;
  vehicle = refl;
  capacity = refl;
}

staged_measured : IsMeasured env fig (table staged) staged reading car
staged_measured = record {
  row = staged;
  found = in_table staged refl;
  energy = refl;
  reporting = refl;
  baseline = 500000;
  has_baseline = refl;
  vehicle = refl;
  capacity = refl;
}

auto_stop_reaching_session-completes_example :
    (status_of (find_by_id (auto_stop_reaching_session env fig (table charge) charge) 9)
      ≡ some completed)
    × ((auto_stop_reaching_session env fig (table charge) charge).commands ≡ (7, false) ∷ [])
unfolding calculate_progress
auto_stop_reaching_session-completes_example =
    auto_stop_reaching_session-completes env fig (table charge) charge reading car charge_measured
      refl refl refl

abbrev plan : Planner ℕ
plan = record {
  estimator = λ v from to. some 60;
  forecaster = some (λ from to. some forecast);
  location = utc;
}

abbrev at_five : Environment ℕ
at_five = record env { now = today + 5 * hour + 10 * minute }

due_soon : IsWaiting at_five plan (table held) held six 60
unfolding resolve_deadline parse_hhmm
due_soon = record {
  hold = 64000;
  has_hold = refl;
  ready_by = six_text;
  has_ready_by = refl;
  v = car;
  vehicle = refl;
  resolved = refl;
  estimate = refl;
}

due_later : IsWaiting env plan (table held) held six 60
unfolding resolve_deadline parse_hhmm
due_later = record {
  hold = 64000;
  has_hold = refl;
  ready_by = six_text;
  has_ready_by = refl;
  v = car;
  vehicle = refl;
  resolved = refl;
  estimate = refl;
}

resume_holding_session_if_due-deadline_example :
    (find_by_id (resume_holding_session_if_due at_five plan (table held) held) 9
      ≡ some (record held { status = active; hold_percent = none }))
    × ((resume_holding_session_if_due at_five plan (table held) held).commands ≡ (7, true) ∷ [])
resume_holding_session_if_due-deadline_example =
    resume_holding_session_if_due-deadline at_five plan (table held) held six 60 7 held due_soon
      (omega arith) refl refl refl (in_table held refl)

latest_five :
    find_balanced_start ℕ forecast now (six - 60 * minute) six (60 * minute) ≡ today + 5 * hour
unfolding find_balanced_start score_window balance_score
latest_five = refl
