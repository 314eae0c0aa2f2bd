-- ===== src/Sessions/Counting.antt =====
-- The number of sessions that occupy a plug, and what the statements of the table do to it.
use ev_charge_controller.Prelude.{
  ℕ, ◌+◌, ◌≤◌, ◌≡◌, refl, Bool, true, false, ◌&&◌, Option, none, List, [], ◌∷◌, All, arith,
  if◌then◌else◌,
}
use ev_charge_controller.Clock.{Time, whole_seconds}
use ev_charge_controller.Models.{
  SessionStatus, idle, pending, active, conditioning, holding, completed, cancelled, status_eq,
  is_active_status, ChargeSession,
}
use ev_charge_controller.Sessions.{
  World, sees, update_where, any_row, occupies, activate_pending, resume_holding, cancel_pending,
  update_start_total_kwh, update_cancel_data, by_id, by_id_and_status, as_active, as_resumed,
  with_start_total, as_cancelled, as_cancelled_at,
}

abbrev pub weight : Bool → ℕ
weight b = if b then 1 else 0

pub is_pending-active : (s : SessionStatus) → status_eq s pending ≡ true → is_active_status s ≡ true
is_pending-active idle e = absurd (cc e)
is_pending-active pending e = refl
is_pending-active active e = absurd (cc e)
is_pending-active conditioning e = absurd (cc e)
is_pending-active holding e = absurd (cc e)
is_pending-active completed e = absurd (cc e)
is_pending-active cancelled e = absurd (cc e)

pub is_holding-active : (s : SessionStatus) → status_eq s holding ≡ true → is_active_status s ≡ true
is_holding-active idle e = absurd (cc e)
is_holding-active pending e = absurd (cc e)
is_holding-active active e = absurd (cc e)
is_holding-active conditioning e = absurd (cc e)
is_holding-active holding e = refl
is_holding-active completed e = absurd (cc e)
is_holding-active cancelled e = absurd (cc e)

module _ {A : Type 0} where
  unfoldable pub count_active : ℕ → List (ChargeSession A) → ℕ
  count_active plug [] = 0
  count_active plug (s ∷ ss) = weight (occupies plug s) + count_active plug ss

  -- Where the statement is applied, it puts no session on the plug.
  pub update_where-count :
      (plug : ℕ) (p : ChargeSession A → Bool) (f : ChargeSession A → ChargeSession A)
      → ((s : ChargeSession A)
          → p s ≡ true
          → weight (occupies plug (f s)) ≤ weight (occupies plug s))
      → (ss : List (ChargeSession A))
      → count_active plug (update_where p f ss) ≤ count_active plug ss
  unfolding update_where count_active
  update_where-count plug p f h [] = ground arith
  update_where-count plug p f h (s ∷ ss) = ground (arith, h s, update_where-count plug p f h ss)

  -- Where no visible session occupies the plug, and every session that does is visible, none does.
  pub any_row-count :
      (plug : ℕ) (user : Option ℕ) (ss : List (ChargeSession A))
      → any_row (λ s. occupies plug s && sees user s.user_id) ss ≡ false
      → All (λ s. occupies plug s ≡ true → sees user s.user_id ≡ true) ss
      → count_active plug ss ≡ 0
  unfolding any_row count_active
  any_row-count plug user [] h all = ground arith
  any_row-count plug user (s ∷ ss) h all =
      ground (arith, all.0, any_row-count plug user ss (ground arith) all.1)

  -- Where no session is in progress, none occupies a plug.
  pub no_row-count :
      (plug : ℕ) (ss : List (ChargeSession A))
      → any_row (λ s. is_active_status s.status && sees none s.user_id) ss ≡ false
      → count_active plug ss ≡ 0
  unfolding any_row count_active
  no_row-count plug [] h = ground arith
  no_row-count plug (s ∷ ss) h = ground (arith, no_row-count plug ss (ground arith))

  -- The same, where it takes none away.
  update_where-count_eq :
      (plug : ℕ) (p : ChargeSession A → Bool) (f : ChargeSession A → ChargeSession A)
      → ((s : ChargeSession A)
          → p s ≡ true
          → weight (occupies plug (f s)) ≡ weight (occupies plug s))
      → (ss : List (ChargeSession A))
      → count_active plug (update_where p f ss) ≡ count_active plug ss
  unfolding update_where count_active
  update_where-count_eq plug p f h [] = ground arith
  update_where-count_eq plug p f h (s ∷ ss) =
      ground (arith, h s, update_where-count_eq plug p f h ss)

  pub activate_pending-count :
      (plug : ℕ) (w : World A) (id : ℕ) (t : Time)
      → count_active plug (activate_pending w id t).0.sessions ≡ count_active plug w.sessions
  unfolding activate_pending
  activate_pending-count plug w id t =
      update_where-count_eq plug (by_id_and_status id pending) (as_active (whole_seconds t))
        (λ s e. ground (arith, is_pending-active s.status)) w.sessions

  pub resume_holding-count :
      (plug : ℕ) (w : World A) (id : ℕ)
      → count_active plug (resume_holding w id).0.sessions ≡ count_active plug w.sessions
  unfolding resume_holding
  resume_holding-count plug w id =
      update_where-count_eq plug (by_id_and_status id holding) as_resumed
        (λ s e. ground (arith, is_holding-active s.status)) w.sessions

  pub update_start_total_kwh-count :
      (plug : ℕ) (w : World A) (id : ℕ) (total : A)
      → count_active plug (update_start_total_kwh w id total).sessions
        ≡ count_active plug w.sessions
  unfolding update_start_total_kwh
  update_start_total_kwh-count plug w id total =
      update_where-count_eq plug (by_id id) (with_start_total total) (λ s e. ground arith)
        w.sessions

  pub cancel_pending-count :
      (plug : ℕ) (w : World A) (id : ℕ) (t : Time)
      → count_active plug (cancel_pending w id t).0.sessions ≤ count_active plug w.sessions
  unfolding cancel_pending
  cancel_pending-count plug w id t =
      update_where-count plug (by_id_and_status id pending) (as_cancelled t) (λ s e. ground arith)
        w.sessions

  pub update_cancel_data-count :
      (plug : ℕ) (w : World A) (id : ℕ) (t : Time) (percent : Option A)
      → count_active plug (update_cancel_data w id t percent).sessions
        ≤ count_active plug w.sessions
  unfolding update_cancel_data
  update_cancel_data-count plug w id t percent =
      update_where-count plug (by_id id) (as_cancelled_at t percent) (λ s e. ground arith)
        w.sessions
