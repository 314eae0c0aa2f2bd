-- ===== src/Tests/Tables.antt =====
-- Writing the table of schedules: a plug gets a daily schedule, then a carbon-aware one, and a time
-- that is not HH:MM is refused.
use ev_charge_controller.Prelude.{ℕ, ◌≡◌, refl, true, Option, none, some, List, [], ◌∷◌}
use ev_charge_controller.Clock.{utc}
use ev_charge_controller.Hhmm.{codes, split, valid_parts, is_valid_time_format, text_eq}
use ev_charge_controller.Models.{Plug, charging}
use ev_charge_controller.Schedules.{
  Request, daily_request, carbon_aware_request, handle, upsert, upsert_by_plug_id,
  upsert_carbon_aware, carbon_aware_row,
}
use ev_charge_controller.Schedules.Usable.{IsSound, handle_all, handle_all-IsSound}
use ev_charge_controller.Schedules.Stored.{IsAnswered, handle-IsAnswered}

abbrev find_plug : ℕ → Option (Option Plug)
find_plug plug = some (
    some (record {
      id = plug;
      user_id = 1;
      vehicle_id = some 2;
      plug_type = charging;
      last_offline_notified_at = none;
    }))

abbrev change_over : Request
change_over = carbon_aware_request 12 4 2 (codes "22:00") (codes "06:00") true true

abbrev requests : List Request
requests =
    daily_request 11 4 1 (codes "01:00") (some (codes "07:00")) true
    ∷ daily_request 13 5 1 (codes "1:00") none true
    ∷ change_over
    ∷ []

handled :
    handle_all find_plug requests []
    ≡ carbon_aware_row 11 4 1 (codes "22:00") (codes "06:00") true true ∷ []
unfolding upsert_by_plug_id upsert_carbon_aware is_valid_time_format split valid_parts text_eq
    upsert
handled = refl

handle_all-IsSound_example : IsSound utc 0 (handle_all find_plug requests [])
handle_all-IsSound_example = handle_all-IsSound find_plug utc 0 requests [] (tt, tt)

handle-IsAnswered_example :
    IsAnswered none 4 5
      (carbon_aware_row 12 4 2 (codes "22:00") (codes "06:00") true true)
      []
      (handle find_plug change_over [])
unfolding is_valid_time_format split valid_parts text_eq
handle-IsAnswered_example = handle-IsAnswered find_plug change_over 5 [] refl
