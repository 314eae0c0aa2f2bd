-- ===== src/Window.antt =====
-- Time windows given by HH:MM texts: resolveWindow and resolveDeadline of
-- api/services/schedule_service.go, withinWindow of api/services/cost_calculator.go.
pub mod Bounds
pub mod Agreement
use ev_charge_controller.Prelude.{
  ℕ, ◌+◌, ◌-◌, ◌*◌, Bool, true, false, ◌&&◌, ◌||◌, Option, none, some, ltb, leb, ◌==◌,
  if◌then◌else◌,
}
use ev_charge_controller.Clock.{Time, minute, hour, day, Location}
use ev_charge_controller.Hhmm.{Text, parse_hhmm}

-- The part of resolveWindow behind the parsing; `today` is the local midnight of `now`.
unfoldable pub place_window : Time → Time → ℕ → ℕ → ℕ → ℕ → Time × Time
place_window now today start_h start_m end_h end_m =
    let start = today + (start_h * hour + start_m * minute) in
    let end_of_day = today + (end_h * hour + end_m * minute) in
    let end = if leb end_of_day start then end_of_day + day else end_of_day in
    if ltb now start && ltb now (end - day)
    then (start - day, end - day)
    else if leb end now
    then (start + day, end + day)
    else (start, end)

abbrev place_parsed : Location → Time → Option (ℕ × ℕ) → Option (ℕ × ℕ) → Option (Time × Time)
place_parsed loc now (some (start_h, start_m)) (some (end_h, end_m)) =
    some (place_window now (loc.date now 0 0) start_h start_m end_h end_m)
place_parsed _ _ _ _ = none

unfoldable pub resolve_window : Location → Time → Text → Text → Option (Time × Time)
resolve_window loc now window_start window_end =
    place_parsed loc now (parse_hhmm window_start) (parse_hhmm window_end)

abbrev next_at : Location → Time → Option (ℕ × ℕ) → Option Time
next_at loc now none = none
next_at loc now (some (h, m)) =
    let deadline = loc.date now h m in some (if ltb deadline now then deadline + day else deadline)

unfoldable pub resolve_deadline : Location → Time → Text → Option Time
resolve_deadline loc now hhmm = next_at loc now (parse_hhmm hhmm)

abbrev in_minutes : ℕ → Option (ℕ × ℕ) → Option (ℕ × ℕ) → Bool
in_minutes minutes (some (start_h, start_m)) (some (end_h, end_m)) =
    let start = start_h * 60 + start_m in
    let end = end_h * 60 + end_m in
    if start == end
    then false
    else if ltb start end
    then leb start minutes && ltb minutes end
    else leb start minutes || ltb minutes end
in_minutes _ _ _ = false

unfoldable pub within_window : ℕ → Text → Text → Bool
within_window minutes start_hhmm end_hhmm =
    in_minutes minutes (parse_hhmm start_hhmm) (parse_hhmm end_hhmm)
