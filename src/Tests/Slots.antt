-- ===== src/Tests/Slots.antt =====
-- Runs of the optimizer and of the activation of schedules: ten past midnight, a window that ends at
-- six, a forecast that is high until three and low afterwards.
use ev_charge_controller.Prelude.{
  ℕ, ◌+◌, ◌-◌, ◌*◌, ◌<◌, ◌≡◌, refl, Bool, true, false, none, some, List, [], ◌∷◌, pos, sub_ℕ, arith,
  if◌then◌else◌,
}
use ev_charge_controller.Clock.{Time, minute, hour, day, utc, utc-IsPlainDay}
use ev_charge_controller.Hhmm.{Text, colon, text_eq, format_hhmm, parse_hhmm}
use ev_charge_controller.Window.{place_window, resolve_window}
use ev_charge_controller.Fixed.{fixed, fixed-FloatOrder}
use ev_charge_controller.Models.{charging, Schedule, daily, carbon_aware}
use ev_charge_controller.Optimizer.{
  ForecastBucket, minutes_of, score_window, balance_score, find_optimal_start, find_balanced_start,
}
use ev_charge_controller.Optimizer.Best.{IsBest}
use ev_charge_controller.Optimizer.Optimal.{find_optimal_start-IsBest}
use ev_charge_controller.Optimizer.BalancedStart.{Outcome, find_balanced_start-Outcome}
use ev_charge_controller.Activation.{
  started, start_failed, Services, Scheduler, start_failure_backoff_active, load_candidate,
}
use ev_charge_controller.Activation.Attempts.{
  start_carbon_aware_session, try_activate_carbon_aware_single_stage, try_activate_carbon_aware,
  try_activate_daily, check_and_activate_all,
}
use ev_charge_controller.Activation.Missed.{try_activate_carbon_aware_single_stage-waits}
use ev_charge_controller.Activation.Deadline.{IsDue, try_activate_carbon_aware-deadline}
use ev_charge_controller.Activation.Backoff.{start_carbon_aware_session-pauses}
use ev_charge_controller.Activation.Admission.{check_and_activate_all-keeps}
use ev_charge_controller.Activation.Once.{try_activate_daily-once}
use ev_charge_controller.Tests.Charge.{car}

abbrev pub today : Time
today = 10 * day

abbrev pub now : Time
now = today + 10 * minute

abbrev pub six : Time
six = today + 6 * hour

abbrev pub forecast : List ForecastBucket
forecast =
    record { from = today; to = today + 3 * hour; forecast_g_co2 = pos 200 }
    ∷ record { from = today + 3 * hour; to = six; forecast_g_co2 = pos 100 }
    ∷ []

-- The charge takes an hour.
abbrev latest : Time
latest = six - 60 * minute

best_at_five : find_optimal_start ℕ forecast now latest (60 * minute) ≡ today + 5 * hour
unfolding find_optimal_start score_window
best_at_five = refl

balanced_at_four :
    find_balanced_start ℕ forecast now (six - (60 + 60) * minute) six (60 * minute)
    ≡ today + 4 * hour
unfolding find_balanced_start score_window balance_score
balanced_at_four = refl

find_optimal_start-IsBest_example :
    (best_score : ℕ) × IsBest
      (λ c. score_window forecast c (c + 60 * minute))
      now
      (latest + 1)
      (find_optimal_start ℕ forecast now latest (60 * minute), best_score)
find_optimal_start-IsBest_example =
    find_optimal_start-IsBest fixed-FloatOrder forecast now latest (60 * minute)

find_balanced_start-Outcome_example :
    Outcome {A = ℕ}
      (λ c. score_window forecast c (c + 60 * minute))
      (λ c. minutes_of (sub_ℕ six (c + 60 * minute)))
      now
      latest
      (find_balanced_start ℕ forecast now latest six (60 * minute))
find_balanced_start-Outcome_example =
    find_balanced_start-Outcome fixed-FloatOrder forecast now latest six (60 * minute) (omega arith)

-- The state of the charge service counts the starts.
abbrev pub services : Bool → Services ℕ ℕ
services works = record {
  find_active = λ w plug. some false;
  find_plug = λ w plug. some (
      some (record {
        id = 7;
        user_id = 4;
        vehicle_id = some 1;
        plug_type = charging;
        last_offline_notified_at = none;
      }));
  find_vehicle = λ w id. some (some car);
  start_session = λ w plug vehicle from to. if works then (w + 1, started w) else (w, start_failed);
  start_two_stage_session = λ w plug vehicle from to hold ready_by carbon. (w + 1, started w);
  estimator = λ v from to. some 60;
  forecaster = some (λ from to. some forecast);
  has_notifier = false;
  location = utc;
}

abbrev pub fresh : Scheduler ℕ ℕ
fresh = record {
  last_activation = 0;
  last_start_failure = λ plug. none;
  world = 5;
  shortfalls = [];
}

abbrev midnight_text : Text
midnight_text = b'0' ∷ b'0' ∷ colon ∷ b'0' ∷ b'0' ∷ []

abbrev pub six_text : Text
six_text = b'0' ∷ b'6' ∷ colon ∷ b'0' ∷ b'0' ∷ []

abbrev ten_past : Text
ten_past = b'0' ∷ b'0' ∷ colon ∷ b'1' ∷ b'0' ∷ []

abbrev pub overnight : Schedule
overnight = record {
  plug_id = some 7;
  user_id = some 4;
  schedule_type = carbon_aware;
  time = [];
  window_start = some midnight_text;
  window_end = some six_text;
  ready_by = none;
  two_stage = false;
  enabled = true;
}

abbrev pub every_day : Schedule
every_day = record overnight { schedule_type = daily; time = ten_past }

try_activate_carbon_aware_single_stage-waits_example :
    try_activate_carbon_aware_single_stage (services true) fresh 7 car now 0 six ≡ fresh
try_activate_carbon_aware_single_stage-waits_example =
    try_activate_carbon_aware_single_stage-waits fixed-FloatOrder (services true) fresh 7 car now 0
      six forecast 60 refl (omega arith) refl (λ e. absurd (omega arith))
      (λ e. absurd (omega (arith, best_at_five, e)))

abbrev guard_time : Time
guard_time = today + 5 * hour + 10 * minute

loads : load_candidate (services true) fresh 7 ≡ some car
unfolding load_candidate
loads = refl

due : IsDue (services true) fresh overnight 7 guard_time six car
unfolding resolve_window parse_hhmm place_window
due = record {
  window_start = today;
  start_text = midnight_text;
  end_text = six_text;
  has_start = refl;
  has_end = refl;
  resolved = refl;
  reached = omega arith;
  not_over = omega arith;
  candidate = loads;
}

calm : start_failure_backoff_active fresh 7 guard_time ≡ false
unfolding start_failure_backoff_active
calm = refl

try_activate_carbon_aware-deadline_example :
    (try_activate_carbon_aware (services true) fresh overnight 7 guard_time guard_time).world ≡ 6
try_activate_carbon_aware-deadline_example =
    try_activate_carbon_aware-deadline (services true) fresh overnight 7 guard_time six car
      guard_time 60 due refl refl (omega arith) calm

abbrev after_failure : Scheduler ℕ ℕ
after_failure = start_carbon_aware_session (services false) fresh 7 car guard_time six 60

start_carbon_aware_session-pauses_example :
    start_carbon_aware_session (services false) after_failure 7 car (guard_time + 5000000000) six 60
    ≡ after_failure
start_carbon_aware_session-pauses_example =
    start_carbon_aware_session-pauses (services false) fresh 7 car guard_time six 60 5
      (guard_time + 5000000000) six 60 calm refl (omega arith)

check_and_activate_all-keeps_example :
    0 < (check_and_activate_all (services true) (some (every_day ∷ overnight ∷ [])) now fresh).world
check_and_activate_all-keeps_example =
    check_and_activate_all-keeps (services true) (λ w. 0 < w)
      (λ w plug id from to free h. omega arith)
      (λ w plug id from to hold ready_by carbon free h. omega arith)
      (some (every_day ∷ overnight ∷ [])) now fresh (omega arith)

try_activate_daily-once_example :
    let after : Scheduler ℕ ℕ = try_activate_daily (services true) fresh every_day 7 now 0 in
    (after.last_activation ≡ now)
    × (after.world ≡ 6)
    × (try_activate_daily (services true) after every_day 7 (now + 5000000000) after.last_activation
        ≡ after)
unfolding text_eq format_hhmm
try_activate_daily-once_example =
    try_activate_daily-once (services true) fresh every_day 7 now 0 (now + 5000000000) car 6 5 refl
      refl loads refl (utc-IsPlainDay now) (utc-IsPlainDay (now + 5000000000)) refl
