-- ===== src/Energy.antt =====
-- api/services/energy_calculator.go, and CalcBlendedKwh of api/services/charge_session_service.go.
-- The inputs are pointers, so they are Options; log lines are left out.
pub mod Progress
use ev_charge_controller.Prelude.{Bool, true, false, not, ◌&&◌, Option, none, some, if◌then◌else◌}
use ev_charge_controller.Float.{Float, le, max_of, min_of}
use ev_charge_controller.Models.{
  ChargeSession, Vehicle, EnergyData, zero_f, hundred, default_charging_efficiency,
}

pub record ProgressResult (A : Type 0) : Type 0 where
  pub blended_kwh : A
  pub current_percent : A
  pub has_tick : Bool
  pub last_blended_kwh : A

module _ {A : Type 0} ⦃F : Float A⦄ where
  -- the noise floor 0.002 of the plug's energy counter
  abbrev pub epsilon_kwh : A
  epsilon_kwh = F.lit 2 1000

  -- The vehicle's efficiency, or the default where it is not positive.
  abbrev pub efficiency_of : Vehicle A → A
  efficiency_of v =
      if le v.charging_efficiency zero_f then default_charging_efficiency else v.charging_efficiency

  unfoldable pub calc_blended_kwh : A → A → EnergyData A → A → A × Bool
  calc_blended_kwh start_kwh start_total_kwh energy efficiency =
      let session_energy_kwh = F.mul (F.sub energy.total start_total_kwh) efficiency in
      if le energy.power zero_f
      then (start_kwh, false)
      else if F.lt epsilon_kwh session_energy_kwh
      then (F.add start_kwh session_energy_kwh, true)
      else (start_kwh, false)

  unfoldable pub clamp_monotonic : A → A → A
  clamp_monotonic kwh last_blended_kwh = if F.lt kwh last_blended_kwh then last_blended_kwh else kwh

  abbrev present :
      ChargeSession A
      → EnergyData A
      → Vehicle A
      → Option A
      → Option (ChargeSession A × EnergyData A × Vehicle A × A)
  present s e v none = none
  present s e v (some t) = if F.lt zero_f v.capacity_kwh then some (s, e, v, t) else none

  -- hasEnergyInputs, with what it has found to be there.
  unfoldable pub energy_inputs :
      Option (ChargeSession A)
      → Option (EnergyData A)
      → Option (Vehicle A)
      → Option (ChargeSession A × EnergyData A × Vehicle A × A)
  energy_inputs (some s) (some e) (some v) = present s e v s.start_total_kwh
  energy_inputs _ _ _ = none

  abbrev pub value_or : A → Option A → A
  value_or d none = d
  value_or d (some a) = a

  -- The clamps and the percent, from the blended energy on.
  unfoldable pub clamped : ChargeSession A → Vehicle A → A × Bool → ProgressResult A
  unfolding clamp_monotonic
  clamped s v (blended, has_tick) =
      let post_clamp = clamp_monotonic blended (value_or s.start_kwh s.last_blended_kwh) in
      let final = max_of s.start_kwh (min_of s.target_kwh post_clamp) in
      record {
        blended_kwh = final;
        current_percent = F.mul (F.div final v.capacity_kwh) hundred;
        has_tick = has_tick;
        last_blended_kwh = post_clamp;
      }

  abbrev no_progress : ProgressResult A
  no_progress = record {
    blended_kwh = zero_f;
    current_percent = zero_f;
    has_tick = false;
    last_blended_kwh = zero_f;
  }

  abbrev progress_from : Option (ChargeSession A × EnergyData A × Vehicle A × A) → ProgressResult A
  progress_from none = no_progress
  progress_from (some (s, e, v, start_total)) =
      clamped s v (calc_blended_kwh s.start_kwh start_total e (efficiency_of v))

  unfoldable pub calculate_progress :
      Option (ChargeSession A) → Option (EnergyData A) → Option (Vehicle A) → ProgressResult A
  unfolding energy_inputs clamped calc_blended_kwh
  calculate_progress session energy vehicle = progress_from (energy_inputs session energy vehicle)

  unfoldable pub calculate_current_percent :
      Option (ChargeSession A) → Option (EnergyData A) → Option (Vehicle A) → A
  unfolding calculate_progress
  calculate_current_percent session energy vehicle =
      (calculate_progress session energy vehicle).current_percent

  abbrev percent_from : ChargeSession A → Vehicle A → Option A → Option A
  percent_from s v none = none
  percent_from s v (some last) =
      if le v.capacity_kwh zero_f
      then none
      else some
          (F.mul (F.div (max_of s.start_kwh (min_of s.target_kwh last)) v.capacity_kwh) hundred)

  -- `none` is ok=false.
  unfoldable pub current_percent_from_blended :
      Option (ChargeSession A) → Option (Vehicle A) → Option A
  current_percent_from_blended (some s) (some v) = percent_from s v s.last_blended_kwh
  current_percent_from_blended _ _ = none

  abbrev end_from : Option (ChargeSession A × EnergyData A × Vehicle A × A) → A
  end_from none = zero_f
  end_from (some (s, e, v, start_total)) =
      let wall_energy_kwh = F.sub e.total start_total in
      let end_kwh = F.add s.start_kwh (F.mul wall_energy_kwh (efficiency_of v)) in
      let pct = F.mul (F.div end_kwh v.capacity_kwh) hundred in max_of zero_f (min_of hundred pct)

  unfoldable pub calculate_end_percent :
      Option (ChargeSession A) → Option (EnergyData A) → Option (Vehicle A) → A
  unfolding energy_inputs
  calculate_end_percent session energy vehicle = end_from (energy_inputs session energy vehicle)
