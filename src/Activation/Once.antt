-- ===== src/Activation/Once.antt =====
-- About a daily schedule within its minute.
use ev_charge_controller.Prelude.{
  ℕ, ◌+◌, ◌<◌, ◌≡◌, refl, sym, ap, ◌∙◌, true, false, some, inl, inr, Bool-cases, arith,
}
use ev_charge_controller.Clock.{Time, Location, IsPlainDay, minute}
use ev_charge_controller.Hhmm.{text_eq, text_eq_sound, parse_hhmm}
use ev_charge_controller.Hhmm.RoundTrip.{parse_hhmm-format}
use ev_charge_controller.Float.{Float}
use ev_charge_controller.Models.{Vehicle, Schedule}
use ev_charge_controller.Activation.{
  started, Services, Scheduler, within_throttle, format_time, load_candidate,
}
use ev_charge_controller.Activation.Attempts.{daily_start, try_activate_daily}

-- Two times of one day that print the same are less than a minute apart.
same_minute :
    (loc : Location) (now later : Time)
    → IsPlainDay loc now
    → IsPlainDay loc later
    → loc.date later 0 0 ≡ loc.date now 0 0
    → format_time loc later ≡ format_time loc now
    → later < now + minute
same_minute loc now later p q day e =
    let parsed =
      sym (parse_hhmm-format (loc.hour_of later) (loc.minute_of later) q.hour_lt q.minute_lt).0
      ∙ ap parse_hhmm e
      ∙ (parse_hhmm-format (loc.hour_of now) (loc.minute_of now) p.hour_lt p.minute_lt).0 in
    let hours : loc.hour_of later ≡ loc.hour_of now = cc parsed in
    let minutes : loc.minute_of later ≡ loc.minute_of now = cc parsed in
    omega (arith, hours, minutes, day, p.clock_le, q.clock_lt)

module _ {A W : Type 0} ⦃F : Float A⦄ (S : Services A W) (st : Scheduler A W) (sch : Schedule)
    (plug : ℕ) where
  quiet_after :
      (now later : Time)
      → IsPlainDay S.location now
      → IsPlainDay S.location later
      → S.location.date later 0 0 ≡ S.location.date now 0 0
      → text_eq sch.time (format_time S.location now) ≡ true
      → st.last_activation ≡ now
      → try_activate_daily S st sch plug later st.last_activation ≡ st
  unfolding try_activate_daily
  quiet_after now later p q day fired last =
      elim (Bool-cases (text_eq sch.time (format_time S.location later))) [
        | inl again ↦
            let near =
              same_minute S.location now later p q day
                (sym (text_eq_sound _ _ again) ∙ text_eq_sound _ _ fired) in
            rw (again, last) (ground arith)
        | inr differs ↦ rw differs refl
      ]

  fires :
      (now last_act : Time) (v : Vehicle A) (w : W) (session : ℕ)
      → text_eq sch.time (format_time S.location now) ≡ true
      → within_throttle now last_act ≡ false
      → load_candidate S st plug ≡ some v
      → daily_start S st plug v sch.ready_by ≡ (w, started session)
      → try_activate_daily S st sch plug now last_act
        ≡ record st { last_activation = now; world = w }
  unfolding try_activate_daily
  fires now last_act v w session due calm candidate result = rw (due, calm, candidate, result) refl

module _ {A W : Type 0} ⦃F : Float A⦄ (S : Services A W) (st : Scheduler A W) (sch : Schedule)
    (plug : ℕ) where
  -- When a daily schedule starts a session at `now`, lastActivation is `now`, and in the state that this
  -- leaves, a check of the schedule at any time of the same day changes nothing, if the day
  -- has no clock change.
  pub try_activate_daily-once :
      (now last_act later : Time) (v : Vehicle A) (w : W) (session : ℕ)
      → text_eq sch.time (format_time S.location now) ≡ true
      → within_throttle now last_act ≡ false
      → load_candidate S st plug ≡ some v
      → daily_start S st plug v sch.ready_by ≡ (w, started session)
      → IsPlainDay S.location now
      → IsPlainDay S.location later
      → S.location.date later 0 0 ≡ S.location.date now 0 0
      → let after : Scheduler A W = try_activate_daily S st sch plug now last_act in
        (after.last_activation ≡ now)
        × (after.world ≡ w)
        × (try_activate_daily S after sch plug later after.last_activation ≡ after)
  try_activate_daily-once now last_act later v w session due calm candidate result p q day =
      rw (fires S st sch plug now last_act v w session due calm candidate result)
        (refl, refl, quiet_after S _ sch plug now later p q day due refl)
