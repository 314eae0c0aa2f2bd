-- ===== src/Tests/Plans.antt =====
-- The estimates for a carbon-aware schedule, at ten past midnight for a window up to six.
use ev_charge_controller.Prelude.{◌+◌, ◌*◌, ◌≡◌, refl, true, some, arith}
use ev_charge_controller.Clock.{hour}
use ev_charge_controller.Fixed.{fixed, fixed-FloatOrder}
use ev_charge_controller.Hhmm.{parse_hhmm}
use ev_charge_controller.Window.{place_window, resolve_window}
use ev_charge_controller.Models.{Schedule}
use ev_charge_controller.Optimizer.{score_window, balance_score, find_balanced_start}
use ev_charge_controller.Activation.{load_candidate}
use ev_charge_controller.Activation.Attempts.{window_of}
use ev_charge_controller.Plan.{
  TwoStagePlan, estimate_balanced_stage_start, carbon_aware_two_stage_plan,
}
use ev_charge_controller.Plan.Order.{IsOrdered, carbon_aware_two_stage_plan-IsOrdered}
use ev_charge_controller.Tests.Slots.{now, today, six, services, fresh, overnight}

abbrev staged : Schedule
staged = record overnight { two_stage = true }

abbrev plan : TwoStagePlan
plan = record {
  stage_1_start = today + 4 * hour;
  stage_1_end = today + 5 * hour;
  stage_2_start = today + 5 * hour;
  stage_2_end = six;
}

in_window :
    window_of (services true) now overnight.window_start overnight.window_end ≡ some (today, six)
unfolding resolve_window parse_hhmm place_window
in_window = refl

planned : carbon_aware_two_stage_plan (services true) fresh staged now ≡ some plan
unfolding carbon_aware_two_stage_plan resolve_window parse_hhmm place_window load_candidate
    estimate_balanced_stage_start find_balanced_start score_window balance_score
planned = refl

carbon_aware_two_stage_plan-IsOrdered_example : IsOrdered six plan
carbon_aware_two_stage_plan-IsOrdered_example =
    carbon_aware_two_stage_plan-IsOrdered fixed-FloatOrder (services true) fresh staged now today
      six plan (omega arith) (λ v from to d e. ground (arith, e)) in_window planned
