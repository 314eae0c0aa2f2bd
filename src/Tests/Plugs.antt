-- ===== src/Tests/Plugs.antt =====
-- Runs of what the plugs report: their last wills, topics, relay states and manual toggles.
use ev_charge_controller.Prelude.{ℕ, ◌+◌, ◌≡◌, refl, true, false, none, some, List, [], ◌∷◌, arith}
use ev_charge_controller.Clock.{Time, minute}
use ev_charge_controller.Fixed.{fixed}
use ev_charge_controller.Hhmm.{codes}
use ev_charge_controller.Models.{charging, Plug}
use ev_charge_controller.Sessions.{World}
use ev_charge_controller.Sessions.Counting.{count_active}
use ev_charge_controller.Sessions.Lifecycle.{Environment}
use ev_charge_controller.Sessions.Unique.{IsUnique}
use ev_charge_controller.Lwt.{
  Timer, LwtManager, LwtRun, initial, receive_offline, expire, confirm, offline_received,
  timer_expired, offline_confirmed, handle_online, handle_offline, confirm_offline,
}
use ev_charge_controller.Lwt.Cooldown.{AreSpaced, run-AreSpaced}
use ev_charge_controller.Lwt.Offline.{reconciled, confirm_offline-frees, handle_online-reconciled}
use ev_charge_controller.Mqtt.Topic.{ParsedTopic, parse_topic, cut_prefix, split_n, cut}
use ev_charge_controller.Mqtt.Relay.{
  Dispatcher, WaitEvent, report, woken, deadline, confirmed, timed_out, received, wait,
  set_power_and_wait, dispatch_stat_power, register_power_confirm, remove_power_confirm,
}
use ev_charge_controller.Mqtt.Relay.Waiting.{is_reported, set_power_and_wait-reported}
use ev_charge_controller.Manual.{handle_manual_power_toggle}
use ev_charge_controller.Manual.Tracked.{Tracked, handle_manual_power_toggle-Tracked}
use ev_charge_controller.Tests.Charge.{charge}
use ev_charge_controller.Tests.Slots.{now}
use ev_charge_controller.Tests.Starts.{environment, world}
use ev_charge_controller.Tests.Watch.{fig}

abbrev at : Time → Environment ℕ
at t = record environment { now = t }

-- A charge is running on plug 7.
abbrev running : World ℕ
running = record world { sessions = charge ∷ [] }

abbrev quiet : LwtManager ℕ
quiet = record {
  timers = λ plug. none;
  made = 0;
  running = [];
  expired = [];
  online = λ plug. true;
  last_offline_notified_at = λ plug. none;
  initialized = λ plug. true;
  world = running;
  settings = [];
  sent = [];
}

-- Plug 7 goes offline and stays away for a minute.
abbrev silent : LwtManager ℕ
silent = handle_offline (at now) quiet 7 false

abbrev gone : LwtManager ℕ
gone = confirm_offline (at (now + minute)) (record silent { running = []; expired = [] }) 7 false

abbrev timer : Timer
timer = record { id = 0; plug = 7; due = now + minute; retained = false }

lost :
    LwtRun
      ((now + minute, offline_confirmed 7)
        ∷ (now + minute, timer_expired 7)
        ∷ (now, offline_received 7)
        ∷ [])
      gone
unfolding handle_offline
lost = confirm (at (now + minute)) timer [] [] refl (
    expire (now + minute) timer [] [] refl (omega arith)
      (receive_offline (at now) 7 false (initial quiet (λ plug. refl) refl refl refl)))

run-AreSpaced_example : AreSpaced gone.sent
run-AreSpaced_example = run-AreSpaced lost

running-IsUnique : IsUnique running
unfolding count_active
running-IsUnique = λ plug. ground arith

confirm_offline-frees_example :
    count_active 7 (confirm_offline environment quiet 7 false).world.sessions ≡ 0
confirm_offline-frees_example =
    confirm_offline-frees environment 7 quiet false running-IsUnique ((λ e. refl), tt)

handle_online-reconciled_example :
    (handle_online environment quiet 7).world ≡ reconciled environment 7 true running
handle_online-reconciled_example =
    handle_online-reconciled environment 7 quiet (λ p e. ground (arith, e)) ((λ e. refl), tt)

abbrev garage : ParsedTopic
garage = record {
  namespace = codes "ns1";
  prefix = codes "stat";
  slug = codes "garage";
  leaf = codes "POWER";
}

parsed : parse_topic (codes "evcc/ns1/stat/garage/POWER") ≡ some garage
unfolding parse_topic cut_prefix split_n cut
parsed = refl

abbrev idle : Dispatcher
idle = record {
  last_power_states = λ plug. some false;
  confirmers = λ plug. none;
  next_channel = 0;
  signals = [];
  external = [];
}

-- Plug 8 is switched on by hand, plug 7 reports its old state, and then the commanded one.
abbrev seen : List WaitEvent
seen =
    report 8 true false ∷ report 7 false false ∷ woken ∷ report 7 true false ∷ woken ∷ deadline ∷ []

in_time : (set_power_and_wait idle 7 true seen).1 ≡ confirmed
unfolding set_power_and_wait wait dispatch_stat_power register_power_confirm received
in_time = refl

one_toggle : (set_power_and_wait idle 7 true seen).0.external ≡ (8, true) ∷ []
unfolding set_power_and_wait wait dispatch_stat_power register_power_confirm remove_power_confirm
    received
one_toggle = refl

-- The publisher registers anew only after the commanded state was reported too: the report is taken for a
-- switch-on by hand, and the wait times out.
abbrev missed : List WaitEvent
missed = report 7 false false ∷ report 7 true false ∷ woken ∷ woken ∷ deadline ∷ []

missed_report :
    ((set_power_and_wait idle 7 true missed).1 ≡ timed_out)
    × ((set_power_and_wait idle 7 true missed).0.external ≡ (7, true) ∷ [])
unfolding set_power_and_wait wait dispatch_stat_power register_power_confirm remove_power_confirm
    received
missed_report = (refl, refl)

set_power_and_wait-reported_example : is_reported 7 true seen ≡ true
set_power_and_wait-reported_example =
    set_power_and_wait-reported idle 7 true seen
      (record { registered = λ p c e. absurd (cc e); sent = tt }) in_time

abbrev plug : Plug
plug = record {
  id = 7;
  user_id = 4;
  vehicle_id = some 1;
  plug_type = charging;
  last_offline_notified_at = none;
}

handle_manual_power_toggle-Tracked_example :
    Tracked environment plug world (handle_manual_power_toggle environment fig world 7 true)
handle_manual_power_toggle-Tracked_example =
    handle_manual_power_toggle-Tracked environment world plug (λ e. absurd (omega arith))
      ((λ e. refl), tt) fig refl refl
