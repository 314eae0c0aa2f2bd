-- ===== src/Tests/Times.antt =====
-- Runs of the time texts and windows, at 02:00 on the third day of the calendar.
use ev_charge_controller.Prelude.{◌+◌, ◌*◌, ◌≡◌, refl, some, [], ◌∷◌, arith, leb}
use ev_charge_controller.Clock.{Time, day, hour, minute, utc, utc-IsPlainDay}
use ev_charge_controller.Hhmm.{Text, colon, parse_hhmm}
use ev_charge_controller.Window.{place_window, resolve_window, within_window}
use ev_charge_controller.Window.Agreement.{place_window-within_window}

abbrev now : Time
now = 2 * day + 2 * hour

-- 23:30 and 05:30
abbrev late : Text
late = b'2' ∷ b'3' ∷ colon ∷ b'3' ∷ b'0' ∷ []

abbrev early : Text
early = b'0' ∷ b'5' ∷ colon ∷ b'3' ∷ b'0' ∷ []

late_parses : parse_hhmm late ≡ some (23, 30)
unfolding parse_hhmm
late_parses = refl

early_parses : parse_hhmm early ≡ some (5, 30)
unfolding parse_hhmm
early_parses = refl

overnight :
    resolve_window utc now late early
    ≡ some (day + 23 * hour + 30 * minute, 2 * day + 5 * hour + 30 * minute)
unfolding resolve_window parse_hhmm place_window
overnight = refl

place_window-within_window_example :
    leb (place_window now (utc.date now 0 0) 23 30 5 30).0 now
    ≡ within_window (utc.hour_of now * 60 + utc.minute_of now) late early
place_window-within_window_example =
    place_window-within_window utc now late early (utc-IsPlainDay now) (omega arith) late_parses
      early_parses (λ e. absurd (omega arith))
