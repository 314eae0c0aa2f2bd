-- ===== src/Window/Bounds.antt =====
-- Where the resolved windows and deadlines lie.
use ev_charge_controller.Prelude.{
  ℕ, ◌+◌, ◌≤◌, ◌<◌, ◌≡◌, ◌⊎◌, some, List, [], ◌∷◌, ltb, if◌then◌else◌, arith,
}
use ev_charge_controller.Clock.{Time, day, Location, IsPlainDay}
use ev_charge_controller.Hhmm.{Text, parse_hhmm, parse_parts, split, colon}
use ev_charge_controller.Window.{place_window, resolve_window, resolve_deadline}

parse_parts_range : (ps : List Text) {h m : ℕ} → parse_parts ps ≡ some (h, m) → (h < 24) × (m < 60)
unfolding parse_parts
parse_parts_range [] e = ground arith
parse_parts_range (h ∷ []) e = ground arith
parse_parts_range (h ∷ m ∷ []) e = ground arith
parse_parts_range (h ∷ m ∷ x ∷ ps) e = ground arith

-- A text that parseHHMM accepts names an hour below 24 and a minute below 60.
pub parse_hhmm_range : (s : Text) {h m : ℕ} → parse_hhmm s ≡ some (h, m) → (h < 24) × (m < 60)
unfolding parse_hhmm
parse_hhmm_range s e = parse_parts_range (split colon s) e

module _ (now today sh sm eh em : ℕ) (after_midnight : today ≤ now) (same_day : now < today + day)
    (second_day : day ≤ today) (start_range : (sh < 24) × (sm < 60))
    (end_range : (eh < 24) × (em < 60)) where
  place_window_ordered :
      (place_window now today sh sm eh em).0 < (place_window now today sh sm eh em).1
  unfolding place_window
  place_window_ordered = ground arith

  place_window_short :
      (place_window now today sh sm eh em).1 ≤ (place_window now today sh sm eh em).0 + day
  unfolding place_window
  place_window_short = ground arith

  place_window_open : now < (place_window now today sh sm eh em).1
  unfolding place_window
  place_window_open = ground arith

  place_window_soon : (place_window now today sh sm eh em).1 ≤ now + day
  unfolding place_window
  place_window_soon = ground arith

-- On a day without a clock change, the window that resolveWindow finds for two texts that parse is
-- not empty, lasts 24 hours at most, has not ended, and ends within the next 24 hours. The day
-- must not be the first of the calendar.
resolve_window_bounds :
    (loc : Location) (now : Time) (window_start window_end : Text) {sh sm eh em : ℕ}
    → IsPlainDay loc now
    → day ≤ loc.date now 0 0
    → parse_hhmm window_start ≡ some (sh, sm)
    → parse_hhmm window_end ≡ some (eh, em)
    → (s : Time) × (e : Time) × (resolve_window loc now window_start window_end ≡ some (s, e))
      × (s < e)
      × (e ≤ s + day)
      × (now < e)
      × (e ≤ now + day)
unfolding resolve_window
resolve_window_bounds loc now ws we {sh} {sm} {eh} {em} p d ps pe =
    let today = loc.date now 0 0 in
    let (s, e) = place_window now today sh sm eh em in
    let a = parse_hhmm_range ws ps in
    let b = parse_hhmm_range we pe in
    (
      s,
      e,
      ground arith,
      place_window_ordered now today sh sm eh em p.midnight_le p.lt_midnight d a b,
      place_window_short now today sh sm eh em p.midnight_le p.lt_midnight d a b,
      place_window_open now today sh sm eh em p.midnight_le p.lt_midnight d a b,
      place_window_soon now today sh sm eh em p.midnight_le p.lt_midnight d a b,
    )

-- On a day without a clock change, resolveDeadline finds for a text that parses the instant of
-- that clock time today, or a day later where that has passed: at or after now, and less than
-- 24 hours away.
pub resolve_deadline_first :
    (loc : Location) (now : Time) (hhmm : Text) {h m : ℕ}
    → IsPlainDay loc now
    → parse_hhmm hhmm ≡ some (h, m)
    → (t : Time) × (resolve_deadline loc now hhmm ≡ some t)
      × ((t ≡ loc.date now h m) ⊎ (t ≡ loc.date now h m + day))
      × (now ≤ t)
      × (t < now + day)
unfolding resolve_deadline
resolve_deadline_first loc now hhmm {h} {m} p e =
    let t = loc.date now h m in
    let r = if ltb t now then t + day else t in
    let range = parse_hhmm_range hhmm e in
    let place = p.date_eq h m in
    (r, ground arith, ground arith, ground (arith, place, range), ground (arith, place, range))
