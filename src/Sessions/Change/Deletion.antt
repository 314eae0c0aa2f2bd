-- ===== src/Sessions/Change/Deletion.antt =====
-- What a deletion does.
use ev_charge_controller.Prelude.{ℕ, ◌≡◌, ◌≢◌, refl, Bool, true, false, Option, none, some, ℤ, ◌||◌}
use ev_charge_controller.Float.{Float}
use ev_charge_controller.Models.{
  active, pending, conditioning, status_eq, SessionStatus, ChargeSession, Vehicle,
}
use ev_charge_controller.Sessions.{World, find_by_id}
use ev_charge_controller.Sessions.Lifecycle.{Environment}
use ev_charge_controller.Sessions.Cancel.{owned}
use ev_charge_controller.Sessions.Change.{
  DeleteOutcome, deleted, cannot_delete_active, no_such_session, decrement,
  decrement_lifetime_stats, uncounted,
}

-- A charge of this session may still be running or be about to start.
abbrev pub is_charging : SessionStatus → Bool
is_charging st = status_eq st active || status_eq st pending || status_eq st conditioning

abbrev pub count_of : {A : Type 0} → Option (Vehicle A) → Option ℤ
count_of none = none
count_of (some v) = some v.total_sessions

-- The vehicle's number of sessions after a deletion: one less if the session was counted.
abbrev pub discounted : {A : Type 0} → Option A → Option ℤ → Option ℤ
discounted none n = n
discounted (some _) none = none
discounted (some _) (some n) = some (decrement n)

module _ {A : Type 0} ⦃F : Float A⦄ (env : Environment A) (w : World A) (id : ℕ) where
  abbrev pub Gone : World A → ChargeSession A → Type 0
  Gone w2 s =
      (find_by_id w id ≡ some s)
      × (owned env.user s.user_id ≡ true)
      × (is_charging s.status ≡ false)
      × (find_by_id w2 id ≡ none)
      × ((other : ℕ) → other ≢ id → find_by_id w2 other ≡ find_by_id w other)
      × (count_of (w2.vehicles s.vehicle_id)
          ≡ discounted s.battery_kwh (count_of (w.vehicles s.vehicle_id)))

  -- There is no session, or the user does not see it.
  abbrev pub IsHidden : Option (ChargeSession A) → Type 0
  IsHidden none = Unit
  IsHidden (some s) = owned env.user s.user_id ≡ false

  abbrev pub Deleted : World A × DeleteOutcome → Type 0
  Deleted (w2, deleted) = (s : ChargeSession A) × Gone w2 s
  Deleted (w2, cannot_delete_active) =
      (s : ChargeSession A) × (find_by_id w id ≡ some s)
      × (owned env.user s.user_id ≡ true)
      × (is_charging s.status ≡ true)
      × (w2 ≡ w)
  Deleted (w2, no_such_session) = IsHidden (find_by_id w id) × (w2 ≡ w)

  pub uncounted-sessions :
      (s : ChargeSession A) (b : Option A) → (uncounted env w s b).sessions ≡ w.sessions
  unfolding decrement_lifetime_stats
  uncounted-sessions s none = refl
  uncounted-sessions s (some b) = refl
