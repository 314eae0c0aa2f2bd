-- ===== src/Tests/Starts.antt =====
-- Runs of startSession: plug 7 confirms power commands, plug 8 does not.
use ev_charge_controller.Prelude.{
  true, ℕ, ◌≡◌, refl, false, none, some, [], ◌∷◌, ◌==◌, arith, if◌then◌else◌,
}
use ev_charge_controller.Clock.{utc}
use ev_charge_controller.Fixed.{fixed}
use ev_charge_controller.Models.{charging, completed}
use ev_charge_controller.Activation.{Scheduler}
use ev_charge_controller.Activation.Attempts.{check_and_activate_all}
use ev_charge_controller.Sessions.{
  World, has_active_by_plug, create, activate_pending, update_start_total_kwh,
}
use ev_charge_controller.Sessions.Counting.{count_active}
use ev_charge_controller.Sessions.Lifecycle.{
  Environment, started, refused, active_session_exists, power_confirmation_failed, start_session,
  confirm_power,
}
use ev_charge_controller.Sessions.Unique.{IsUnique}
use ev_charge_controller.Sessions.Outcome.{Ended, start_session-Ended}
use ev_charge_controller.Sessions.Scheduled.{
  single, charge_service, check_and_activate_all-IsUnique,
}
use ev_charge_controller.Tests.Charge.{car, charge}
use ev_charge_controller.Tests.Slots.{now, every_day, overnight}

abbrev pub environment : Environment ℕ
environment = record {
  user = some 4;
  now = now;
  new_id = 20;
  find_plug = λ p. some (record {
    id = p;
    user_id = 4;
    vehicle_id = some 1;
    plug_type = charging;
    last_offline_notified_at = none;
  });
  first_plug = λ user. none;
  cached_energy = λ p. none;
  last_energy = λ p. some (record { total = 500; power = 0; voltage = 0; current = 0 });
  confirms = λ p on. p == 7;
  publishes = λ p. true;
}

-- One session, and it is over.
abbrev pub world : World ℕ
world = record {
  sessions = record charge { status = completed } ∷ [];
  vehicles = λ id. if id == 1 then some car else none;
  commands = [];
}

confirmed : (start_session environment world 7 1 50000 80000 single).1 ≡ started 20
unfolding start_session has_active_by_plug confirm_power
confirmed = refl

unconfirmed :
    (start_session environment world 8 1 50000 80000 single).1 ≡ refused power_confirmation_failed
unfolding start_session has_active_by_plug confirm_power
unconfirmed = refl

twice :
    (start_session environment
      (start_session environment world 7 1 50000 80000 single).0
      7
      1
      50000
      80000
      single).1
    ≡ refused active_session_exists
unfolding start_session has_active_by_plug confirm_power create activate_pending
    update_start_total_kwh
twice = refl

pub world-IsUnique : IsUnique world
unfolding count_active
world-IsUnique = λ plug. omega arith

start_session-Ended_example : Ended world 8 (start_session environment world 8 1 50000 80000 single)
start_session-Ended_example =
    start_session-Ended environment world 8 1 50000 80000 single (λ e. absurd (omega arith))
      (λ e. refl, tt)

abbrev idle_scheduler : Scheduler ℕ (World ℕ)
idle_scheduler = record {
  last_activation = 0;
  last_start_failure = λ plug. none;
  world = world;
  shortfalls = [];
}

check_and_activate_all-IsUnique_example :
    IsUnique
      (check_and_activate_all
        (charge_service (λ w. environment) utc none false)
        (some (every_day ∷ overnight ∷ []))
        now
        idle_scheduler).world
check_and_activate_all-IsUnique_example =
    check_and_activate_all-IsUnique (λ w. environment) utc none false
      (some (every_day ∷ overnight ∷ [])) now idle_scheduler world-IsUnique
