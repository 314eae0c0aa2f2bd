-- ===== src/Schedules.antt =====
-- The table of schedules (UpsertByPlugID, GetByPlugID and ListAll of api/repository/schedule.go) and the
-- requests that write it: UpsertByPlugID and UpsertCarbonAware of api/services/schedule_service.go.
-- The plug table is an argument, with `none` for an error of the query.
pub mod Usable
pub mod Stored
use ev_charge_controller.Prelude.{
  ℕ, Bool, true, false, not, ◌&&◌, ◌||◌, Option, none, some, List, [], ◌∷◌, ◌==◌, if◌then◌else◌,
}
use ev_charge_controller.Hhmm.{Text, is_valid_time_format, text_eq}
use ev_charge_controller.Models.{
  Plug, PlugType, charging, maintenance, Schedule, daily, carbon_aware,
}

-- A row of the table.
pub record Row : Type 0 where
  pub id : ℕ
  pub schedule : Schedule

pub data ScheduleError : Type 0 where
  invalid_schedule_time ready_by_equals_time user_id_required find_plug : ScheduleError
  maintenance_plug_schedule window_required window_equal : ScheduleError

pub data UpsertOutcome : Type 0 where
  persisted : Row → UpsertOutcome
  rejected : ScheduleError → UpsertOutcome

-- Two keys that conflict; NULL conflicts with nothing.
abbrev pub same_plug : Option ℕ → Option ℕ → Bool
same_plug (some p) (some q) = p == q
same_plug _ _ = false

-- DO UPDATE SET: the key, the plug and the user of the row stay.
abbrev pub with_excluded : Row → Row → Row
with_excluded new old = record old {
  schedule = record new.schedule { plug_id = old.schedule.plug_id; user_id = old.schedule.user_id };
}

unfoldable pub upsert : Row → List Row → List Row
upsert new [] = new ∷ []
upsert new (r ∷ rs) =
    let rest = upsert new rs in
    if same_plug r.schedule.plug_id new.schedule.plug_id then with_excluded new r ∷ rs else r ∷ rest

unfoldable pub get_by_plug_id : ℕ → List Row → Option Row
get_by_plug_id plug [] = none
get_by_plug_id plug (r ∷ rs) =
    let rest = get_by_plug_id plug rs in
    if same_plug r.schedule.plug_id (some plug) then some r else rest

abbrev listed_before : Option ℕ → Schedule → List Schedule → List Schedule
listed_before none s rest = rest
listed_before (some plug) s rest = s ∷ rest

unfoldable pub list_all : List Row → List Schedule
list_all [] = []
list_all (r ∷ rs) = listed_before r.schedule.plug_id r.schedule (list_all rs)

abbrev pub is_maintenance : PlugType → Bool
is_maintenance maintenance = true
is_maintenance charging = false

abbrev pub reject_maintenance_plug : Option (Option Plug) → Option ScheduleError
reject_maintenance_plug none = some find_plug
reject_maintenance_plug (some none) = none
reject_maintenance_plug (some (some plug)) =
    if is_maintenance plug.plug_type then some maintenance_plug_schedule else none

-- The re-fetched row, or the one that was inserted.
abbrev pub persisted_or : Row → Option Row → UpsertOutcome
persisted_or new none = persisted new
persisted_or new (some row) = persisted row

abbrev pub write : Option ScheduleError → Row → ℕ → List Row → List Row × UpsertOutcome
write (some e) new plug rows = (rows, rejected e)
write none new plug rows =
    let after = upsert new rows in (after, persisted_or new (get_by_plug_id plug after))

abbrev pub ready_by_error : Text → Option Text → Option ScheduleError → Option ScheduleError
ready_by_error time none rest = rest
ready_by_error time (some ready_by) rest =
    if not (is_valid_time_format ready_by)
    then some invalid_schedule_time
    else if text_eq ready_by time
    then some ready_by_equals_time
    else rest

abbrev pub daily_error : Option (Option Plug) → ℕ → Text → Option Text → Option ScheduleError
daily_error plug user time ready_by =
    if not (is_valid_time_format time)
    then some invalid_schedule_time
    else ready_by_error time ready_by
        (if user == 0 then some user_id_required else reject_maintenance_plug plug)

abbrev pub daily_row : ℕ → ℕ → ℕ → Text → Option Text → Bool → Row
daily_row id plug user time ready_by enabled = record {
  id = id;
  schedule = record {
    plug_id = some plug;
    user_id = some user;
    schedule_type = daily;
    time = time;
    window_start = none;
    window_end = none;
    ready_by = ready_by;
    two_stage = false;
    enabled = enabled;
  };
}

abbrev pub window_error : Text → Text → Option ScheduleError
window_error window_start window_end =
    if not (is_valid_time_format window_start) || not (is_valid_time_format window_end)
    then some window_required
    else if text_eq window_start window_end
    then some window_equal
    else none

abbrev pub first_error : Option ScheduleError → Option ScheduleError → Option ScheduleError
first_error (some e) rest = some e
first_error none rest = rest

abbrev pub carbon_aware_error : Option (Option Plug) → ℕ → Text → Text → Option ScheduleError
carbon_aware_error plug user window_start window_end =
    if user == 0
    then some user_id_required
    else first_error (reject_maintenance_plug plug) (window_error window_start window_end)

abbrev pub carbon_aware_row : ℕ → ℕ → ℕ → Text → Text → Bool → Bool → Row
carbon_aware_row id plug user window_start window_end two_stage enabled = record {
  id = id;
  schedule = record {
    plug_id = some plug;
    user_id = some user;
    schedule_type = carbon_aware;
    time = window_start;
    window_start = some window_start;
    window_end = some window_end;
    ready_by = none;
    two_stage = two_stage;
    enabled = enabled;
  };
}

module _ (find_by_id : ℕ → Option (Option Plug)) where
  unfoldable pub upsert_by_plug_id :
      ℕ → ℕ → ℕ → Text → Option Text → Bool → List Row → List Row × UpsertOutcome
  upsert_by_plug_id id plug user time ready_by enabled rows =
      write (daily_error (find_by_id plug) user time ready_by)
        (daily_row id plug user time ready_by enabled) plug rows

  unfoldable pub upsert_carbon_aware :
      ℕ → ℕ → ℕ → Text → Text → Bool → Bool → List Row → List Row × UpsertOutcome
  upsert_carbon_aware id plug user window_start window_end two_stage enabled rows =
      write (carbon_aware_error (find_by_id plug) user window_start window_end)
        (carbon_aware_row id plug user window_start window_end two_stage enabled) plug rows

-- The two requests, in the order of their arguments above.
pub data Request : Type 0 where
  daily_request : ℕ → ℕ → ℕ → Text → Option Text → Bool → Request
  carbon_aware_request : ℕ → ℕ → ℕ → Text → Text → Bool → Bool → Request

abbrev pub handle : (ℕ → Option (Option Plug)) → Request → List Row → List Row × UpsertOutcome
handle find_by_id (daily_request id plug user time ready_by enabled) rows =
    upsert_by_plug_id find_by_id id plug user time ready_by enabled rows
handle find_by_id (carbon_aware_request id plug user window_start window_end two_stage enabled)
      rows =
    upsert_carbon_aware find_by_id id plug user window_start window_end two_stage enabled rows
