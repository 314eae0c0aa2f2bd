-- ===== src/Sessions.antt =====
-- The charge_sessions table with the statements of api/repository/charge_session.go that read or
-- change it. A statement that the database driver refuses is not modelled; what a statement returns
-- is whether it affected a row, where the code asks (ErrSessionWrongState is `false`).
pub mod Lifecycle
pub mod Counting
pub mod Unique
pub mod Outcome
pub mod Stop
pub mod Stopped
pub mod Scheduled
pub mod Cancel
pub mod Change
pub mod Measure
use ev_charge_controller.Prelude.{
  ℕ, ◌+◌, Bool, true, false, not, ◌&&◌, ◌||◌, Option, none, some, List, [], ◌∷◌, ◌==◌,
  if◌then◌else◌,
}
use ev_charge_controller.Clock.{Time, whole_seconds}
use ev_charge_controller.Models.{
  SessionStatus, pending, active, holding, completed, cancelled, status_eq, is_active_status,
  ChargeSession, Vehicle,
}

-- The database, and the power commands given to the plugs, the newest first.
pub record World (A : Type 0) : Type 0 where
  pub sessions : List (ChargeSession A)
  pub vehicles : ℕ → Option (Vehicle A)
  pub commands : List (ℕ × Bool)

abbrev pub is_some_of : Option ℕ → ℕ → Bool
is_some_of none n = false
is_some_of (some m) n = m == n

-- andUserClause: with a user in the context, only that user's rows are seen.
abbrev pub sees : Option ℕ → Option ℕ → Bool
sees none owner = true
sees (some u) owner = is_some_of owner u

module _ {A : Type 0} where
  -- `UPDATE charge_sessions SET f WHERE p`, and RowsAffected() > 0.
  unfoldable pub update_where :
      (ChargeSession A → Bool)
      → (ChargeSession A → ChargeSession A)
      → List (ChargeSession A)
      → List (ChargeSession A)
  update_where p f [] = []
  update_where p f (s ∷ ss) = (if p s then f s else s) ∷ update_where p f ss

  unfoldable pub any_row : (ChargeSession A → Bool) → List (ChargeSession A) → Bool
  any_row p [] = false
  any_row p (s ∷ ss) = p s || any_row p ss

  abbrev pub set_sessions : World A → List (ChargeSession A) → World A
  set_sessions w ss = record w { sessions = ss }

  abbrev pub by_id : ℕ → ChargeSession A → Bool
  by_id id s = s.id == id

  abbrev pub by_id_and_status : ℕ → SessionStatus → ChargeSession A → Bool
  by_id_and_status id status s = by_id id s && status_eq s.status status

  unfoldable pub first_where :
      (ChargeSession A → Bool) → List (ChargeSession A) → Option (ChargeSession A)
  first_where p [] = none
  first_where p (s ∷ ss) = if p s then some s else first_where p ss

  unfoldable pub find_by_id : World A → ℕ → Option (ChargeSession A)
  unfolding first_where
  find_by_id w id = first_where (by_id id) w.sessions

  -- The rows that GetActive and GetActiveByPlug select; 0 is the empty plug identifier.
  abbrev pub occupies : ℕ → ChargeSession A → Bool
  occupies plug s = is_active_status s.status && is_some_of s.plug_id plug

  unfoldable pub has_active : Option ℕ → World A → Bool
  unfolding any_row
  has_active user w = any_row (λ s. is_active_status s.status && sees user s.user_id) w.sessions

  unfoldable pub has_active_by_plug : Option ℕ → World A → ℕ → Bool
  unfolding any_row
  has_active_by_plug user w plug = any_row (λ s. occupies plug s && sees user s.user_id) w.sessions

  unfoldable pub create : World A → ChargeSession A → World A
  create w s = set_sessions w (s ∷ w.sessions)

  unfoldable pub update_status : World A → ℕ → SessionStatus → World A
  unfolding update_where
  update_status w id status =
      set_sessions w (update_where (by_id id) (λ s. record s { status = status }) w.sessions)

  abbrev pub as_active : Time → ChargeSession A → ChargeSession A
  as_active started_at s = record s { started_at = some started_at; status = active }

  abbrev pub as_resumed : ChargeSession A → ChargeSession A
  as_resumed s = record s { status = active; hold_percent = none }

  abbrev pub with_start_total : A → ChargeSession A → ChargeSession A
  with_start_total total s = record s { start_total_kwh = some total }

  abbrev pub as_cancelled : Time → ChargeSession A → ChargeSession A
  as_cancelled ended_at s = record s { status = cancelled; ended_at = some ended_at }

  abbrev pub as_cancelled_at : Time → Option A → ChargeSession A → ChargeSession A
  as_cancelled_at ended_at end_percent s = record s {
    status = cancelled;
    ended_at = some ended_at;
    end_percent = end_percent;
  }

  -- Format(time.RFC3339) cuts an instant down to its second.
  unfoldable pub activate_pending : World A → ℕ → Time → World A × Bool
  unfolding update_where any_row
  activate_pending w id started_at =
      let p = by_id_and_status id pending in
      (
        set_sessions w (update_where p (as_active (whole_seconds started_at)) w.sessions),
        any_row p w.sessions,
      )

  unfoldable pub resume_holding : World A → ℕ → World A × Bool
  unfolding update_where any_row
  resume_holding w id =
      let p = by_id_and_status id holding in
      (set_sessions w (update_where p as_resumed w.sessions), any_row p w.sessions)

  unfoldable pub update_start_total_kwh : World A → ℕ → A → World A
  unfolding update_where
  update_start_total_kwh w id total =
      set_sessions w (update_where (by_id id) (with_start_total total) w.sessions)

  unfoldable pub update_last_blended_kwh : World A → ℕ → A → World A
  unfolding update_where
  update_last_blended_kwh w id kwh =
      set_sessions w
        (update_where (by_id id) (λ s. record s { last_blended_kwh = some kwh }) w.sessions)

  unfoldable pub update_cancel_data : World A → ℕ → Time → Option A → World A
  unfolding update_where
  update_cancel_data w id ended_at end_percent =
      set_sessions w (update_where (by_id id) (as_cancelled_at ended_at end_percent) w.sessions)

  unfoldable pub cancel_pending : World A → ℕ → Time → World A × Bool
  unfolding update_where any_row
  cancel_pending w id ended_at =
      let p = by_id_and_status id pending in
      (set_sessions w (update_where p (as_cancelled ended_at) w.sessions), any_row p w.sessions)

  -- A power command to a plug.
  abbrev pub command : ℕ → Bool → World A → World A
  command plug on w = record w { commands = (plug, on) ∷ w.commands }
