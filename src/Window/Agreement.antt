-- ===== src/Window/Agreement.antt =====
-- About the scheduler's window and the tariff's window.
use ev_charge_controller.Prelude.{ℕ, ◌+◌, ◌*◌, ◌≤◌, ◌≡◌, ◌≢◌, some, arith, leb}
use ev_charge_controller.Clock.{Time, day, Location, IsPlainDay}
use ev_charge_controller.Hhmm.{Text, parse_hhmm}
use ev_charge_controller.Window.{place_window, within_window}
use ev_charge_controller.Window.Bounds.{parse_hhmm_range}

-- On a day without a clock change that is not the first of the calendar, for two texts that name
-- different clock times, the window that resolveWindow places has begun by now exactly if
-- withinWindow accepts now's minutes of the day.
pub place_window-within_window :
    (loc : Location) (now : Time) (window_start window_end : Text) {sh sm eh em : ℕ}
    → IsPlainDay loc now
    → day ≤ loc.date now 0 0
    → parse_hhmm window_start ≡ some (sh, sm)
    → parse_hhmm window_end ≡ some (eh, em)
    → sh * 60 + sm ≢ eh * 60 + em
    → leb (place_window now (loc.date now 0 0) sh sm eh em).0 now
      ≡ within_window (loc.hour_of now * 60 + loc.minute_of now) window_start window_end
unfolding place_window within_window
place_window-within_window loc now ws we p d ps pe ne =
    ground (arith, parse_hhmm_range ws ps, parse_hhmm_range we pe)
