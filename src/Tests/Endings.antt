-- ===== src/Tests/Endings.antt =====
-- Runs of the operations that end or change a session, and a path of the state machine.
use ev_charge_controller.Prelude.{ℕ, ◌-◌, ◌*◌, ◌≡◌, refl, false, some, [], ◌∷◌, ◌==◌, arith}
use ev_charge_controller.Clock.{minute}
use ev_charge_controller.Fixed.{fixed, fixed-FloatOrder}
use ev_charge_controller.Models.{pending, cancelled, ChargeSession}
use ev_charge_controller.Energy.{calculate_progress, current_percent_from_blended}
use ev_charge_controller.Sessions.{
  World, update_where, first_where, find_by_id, as_cancelled, cancel_pending,
}
use ev_charge_controller.Sessions.Lifecycle.{start_session}
use ev_charge_controller.Sessions.Unique.{IsUnique}
use ev_charge_controller.Sessions.Stopped.{percent_of}
use ev_charge_controller.Sessions.Cancel.{
  cancel_pending_if_timed_out, cancel_active_session, cancel_end_percent, list_active, expire_each,
}
use ev_charge_controller.Sessions.Cancel.Expiry.{overdue, cancel_pending_if_timed_out-sessions}
use ev_charge_controller.Sessions.Cancel.Percent.{
  IsKept, IsAtLeast, cancel_active_session-effect, cancel_end_percent-keeps,
}
use ev_charge_controller.Sessions.Change.{retarget, changed, update_target, target_guard}
use ev_charge_controller.Sessions.Change.Retarget.{Retargeted, retarget-Retargeted}
use ev_charge_controller.Run.{Reach, here, next, starting, changing, expiring}
use ev_charge_controller.Run.Invariants.{IsOver, Reach-IsOver, Reach-IsUnique}
use ev_charge_controller.Sessions.Scheduled.{single}
use ev_charge_controller.Tests.Charge.{car, charge}
use ev_charge_controller.Tests.Slots.{now}
use ev_charge_controller.Tests.Starts.{environment, world, world-IsUnique}

-- Two sessions that wait for power, one of them for twenty minutes.
abbrev late : ChargeSession ℕ
late = record charge { status = pending; created_at = now - 20 * minute }

abbrev recent : ChargeSession ℕ
recent = record charge { id = 10; plug_id = some 8; status = pending; created_at = now - minute }

abbrev waiting : World ℕ
waiting = record world { sessions = late ∷ recent ∷ [] }

cancel_pending_if_timed_out-sessions_example :
    (cancel_pending_if_timed_out environment waiting (15 * minute)).0.sessions
    ≡ update_where (overdue environment (15 * minute)) (as_cancelled now) waiting.sessions
cancel_pending_if_timed_out-sessions_example =
    cancel_pending_if_timed_out-sessions environment (15 * minute) waiting
      (((λ e. absurd (omega arith)), tt), (tt, tt))

expired :
    (cancel_pending_if_timed_out environment waiting (15 * minute)).0.commands ≡ (7, false) ∷ []
unfolding cancel_pending_if_timed_out list_active expire_each cancel_pending
expired = refl

-- A charge that has come from 50% to 60%.
abbrev charging : ChargeSession ℕ
charging = record charge { last_blended_kwh = some 24000 }

abbrev busy_table : World ℕ
busy_table = record world { sessions = charging ∷ [] }

found : find_by_id busy_table 9 ≡ some charging
unfolding find_by_id first_where
found = refl

cancel_active_session-effect_example :
    (find_by_id (cancel_active_session environment busy_table charging).0 9
      ≡ some (record charging {
        status = cancelled;
        ended_at = some now;
        end_percent = cancel_end_percent environment busy_table charging;
      }))
    × (find_by_id (cancel_active_session environment busy_table charging).0 10
        ≡ find_by_id busy_table 10)
    × ((cancel_active_session environment busy_table charging).0.commands ≡ (7, false) ∷ [])
    × IsKept environment busy_table charging 50000
        (percent_of ((cancel_active_session environment busy_table charging).0.vehicles 1))
cancel_active_session-effect_example =
    cancel_active_session-effect environment busy_table charging fixed-FloatOrder car charging 10
      refl (λ e. absurd (omega arith)) found refl

cancel_end_percent-keeps_example :
    IsAtLeast environment busy_table charging 60000
      (cancel_end_percent environment busy_table charging)
unfolding current_percent_from_blended
cancel_end_percent-keeps_example =
    cancel_end_percent-keeps environment busy_table charging fixed-FloatOrder car 60000 refl refl
      refl refl

retarget-Retargeted_example :
    Retargeted environment busy_table 9 90000 (retarget environment busy_table 9 90000)
retarget-Retargeted_example = retarget-Retargeted environment busy_table 9 90000

raised : (retarget environment busy_table 9 90000).1 ≡ changed
unfolding retarget find_by_id target_guard update_target calculate_progress
raised = refl

-- A start, and then a check of the pending sessions.
abbrev after : World ℕ
after =
    (cancel_pending_if_timed_out environment
      (start_session environment world 7 1 50000 80000 single).0 (15 * minute)).0

path : Reach (λ n. n == 9) world after
path =
    next
      (next here (
        starting environment world 7 1 50000 80000 single refl (λ e. absurd (omega arith))
          (λ e. refl, tt)))
      (changing (
        expiring environment (start_session environment world 7 1 50000 80000 single).0
          (15 * minute)))

Reach-IsOver_example : IsOver 9 after
Reach-IsOver_example = Reach-IsOver (λ n. n == 9) 9 refl path ((λ e. refl), tt)

Reach-IsUnique_example : IsUnique after
Reach-IsUnique_example = Reach-IsUnique (λ n. n == 9) path world-IsUnique
