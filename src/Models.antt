-- ===== src/Models.antt =====
-- The records of api/models and tasmota.EnergyData, with the fields that the modelled code reads or
-- writes. An identifier is a number, the empty text is 0; an optional pointer field is an Option.
use ev_charge_controller.Prelude.{ℕ, ℤ, Bool, true, false, Option, List}
use ev_charge_controller.Clock.{Time}
use ev_charge_controller.Hhmm.{Text}
use ev_charge_controller.Float.{Float}

-- The SessionStatus constants; `idle` is written by no code.
pub data SessionStatus : Type 0 where
  idle pending active conditioning holding completed cancelled : SessionStatus

abbrev pub status_eq : SessionStatus → SessionStatus → Bool
status_eq idle idle = true
status_eq pending pending = true
status_eq active active = true
status_eq conditioning conditioning = true
status_eq holding holding = true
status_eq completed completed = true
status_eq cancelled cancelled = true
status_eq _ _ = false

-- Membership in ActiveSessionStatuses.
abbrev pub is_active_status : SessionStatus → Bool
is_active_status active = true
is_active_status pending = true
is_active_status conditioning = true
is_active_status holding = true
is_active_status _ = false

pub record ChargeSession (A : Type 0) : Type 0 where
  pub id : ℕ
  pub vehicle_id : ℕ
  pub user_id : Option ℕ
  pub plug_id : Option ℕ
  pub created_at : Time
  pub started_at : Option Time
  pub ended_at : Option Time
  pub start_kwh : A
  pub end_kwh : Option A
  pub target_kwh : A
  pub start_percent : A
  pub end_percent : Option A
  pub target_percent : A
  pub status : SessionStatus
  pub start_total_kwh : Option A
  pub last_blended_kwh : Option A
  pub battery_kwh : Option A
  pub wall_kwh : Option A
  pub avg_carbon_intensity : Option A
  pub co2_grams : Option A
  pub cost_pence : Option A
  pub off_peak_kwh : Option A
  pub hold_percent : Option A
  pub ready_by_time : Option Text
  pub carbon_aware_hold : Bool

pub record PowerReading (A : Type 0) : Type 0 where
  pub session_id : ℕ
  pub timestamp : Time
  pub voltage : A
  pub current : A
  pub power : A
  pub energy_kwh : A
  pub carbon_intensity : Option A

pub record Vehicle (A : Type 0) : Type 0 where
  pub id : ℕ
  pub user_id : Option ℕ
  pub current_percent : A
  pub target_percent : A
  pub capacity_kwh : A
  pub charger_output_w : A
  pub charging_efficiency : A
  pub time_0_to_100_min : Option ℤ
  pub time_0_to_80_min : Option ℤ
  pub time_20_to_80_min : Option ℤ
  pub time_20_to_100_min : Option ℤ
  pub total_sessions : ℤ
  pub total_battery_kwh : A
  pub total_wall_kwh : A
  pub total_co2_grams : A
  pub total_cost_pence : A

-- tasmota.EnergyData
pub record EnergyData (A : Type 0) : Type 0 where
  pub total : A
  pub power : A
  pub voltage : A
  pub current : A

pub record OffPeakWindow (A : Type 0) : Type 0 where
  pub start : Text
  pub end : Text
  pub rate_pence : A

pub record TariffSettings (A : Type 0) : Type 0 where
  pub base_rate_pence : A
  pub off_peak_windows : List (OffPeakWindow A)

pub data PlugType : Type 0 where
  charging maintenance : PlugType

pub record Plug : Type 0 where
  pub id : ℕ
  pub user_id : ℕ
  pub vehicle_id : Option ℕ
  pub plug_type : PlugType
  pub last_offline_notified_at : Option Time

pub data ScheduleType : Type 0 where
  daily carbon_aware : ScheduleType

pub record Schedule : Type 0 where
  pub plug_id : Option ℕ
  pub user_id : Option ℕ
  pub schedule_type : ScheduleType
  pub time : Text
  pub window_start : Option Text
  pub window_end : Option Text
  pub ready_by : Option Text
  pub two_stage : Bool
  pub enabled : Bool

module _ {A : Type 0} ⦃F : Float A⦄ where
  abbrev pub zero_f : A
  zero_f = F.lit 0 1

  abbrev pub hundred : A
  hundred = F.lit 100 1

  -- DefaultChargingEfficiency
  abbrev pub default_charging_efficiency : A
  default_charging_efficiency = F.lit 8 10
