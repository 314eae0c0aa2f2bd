-- ===== src/Sessions/Measure.antt =====
-- About the number of sessions in progress among those that a tag selects, by identifier and plug.
use ev_charge_controller.Prelude.{
  ℕ, ◌+◌, ◌≤◌, ◌≡◌, ap, Bool, true, ◌&&◌, Option, some, List, [], ◌∷◌, All, arith,
}
use ev_charge_controller.Clock.{Time, whole_seconds}
use ev_charge_controller.Float.{Float}
use ev_charge_controller.Models.{pending, holding, is_active_status, ChargeSession}
use ev_charge_controller.Sessions.{
  World, update_where, by_id, by_id_and_status, as_active, as_resumed, with_start_total,
  as_cancelled, as_cancelled_at, activate_pending, resume_holding, update_start_total_kwh,
  update_last_blended_kwh, update_cancel_data, cancel_pending,
}
use ev_charge_controller.Sessions.Counting.{weight, is_pending-active, is_holding-active}
use ev_charge_controller.Sessions.Lifecycle.{Environment}
use ev_charge_controller.Sessions.Stop.{Figures, as_completed, stop_with_percent}
use ev_charge_controller.Sessions.Stopped.{stats, stop-sessions}

-- A tag of sessions by identifier and plug.
abbrev pub Tag : Type 0
Tag = ℕ → Option ℕ → Bool

module _ {A : Type 0} where
  abbrev pub in_progress : Tag → ChargeSession A → Bool
  in_progress tag s = is_active_status s.status && tag s.id s.plug_id

  unfoldable pub count_in : Tag → List (ChargeSession A) → ℕ
  count_in tag [] = 0
  count_in tag (s ∷ ss) = weight (in_progress tag s) + count_in tag ss

  pub update_where-count_in :
      (tag : Tag) (p : ChargeSession A → Bool) (f : ChargeSession A → ChargeSession A)
      (ss : List (ChargeSession A))
      → All (λ s. p s ≡ true → weight (in_progress tag (f s)) ≤ weight (in_progress tag s)) ss
      → count_in tag (update_where p f ss) ≤ count_in tag ss
  unfolding update_where count_in
  update_where-count_in tag p f [] h = ground arith
  update_where-count_in tag p f (s ∷ ss) h =
      ground (arith, h.0, update_where-count_in tag p f ss h.1)

  All-intro :
      (P : ChargeSession A → Type 0) (ss : List (ChargeSession A))
      → ((s : ChargeSession A) → P s)
      → All P ss
  All-intro P [] h = tt
  All-intro P (s ∷ ss) h = (h s, All-intro P ss h)

  -- The same, of an update that adds to the count of no row.
  pub update_where-count :
      (tag : Tag) (p : ChargeSession A → Bool) (f : ChargeSession A → ChargeSession A)
      (ss : List (ChargeSession A))
      → ((s : ChargeSession A)
          → p s ≡ true
          → weight (in_progress tag (f s)) ≤ weight (in_progress tag s))
      → count_in tag (update_where p f ss) ≤ count_in tag ss
  update_where-count tag p f ss h = update_where-count_in tag p f ss (All-intro _ ss h)

module _ {A : Type 0} (tag : Tag) (w : World A) where
  -- The second state has no more such sessions than the first.
  pub record Fewer (w2 : World A) : Type 0 where
    pub le : count_in tag w2.sessions ≤ count_in tag w.sessions

  pub activate_pending-Fewer : (id : ℕ) (t : Time) → Fewer (activate_pending w id t).0
  unfolding activate_pending
  activate_pending-Fewer id t = record {
    le =
        update_where-count tag (by_id_and_status id pending) (as_active (whole_seconds t))
          w.sessions (λ s e. ground (arith, is_pending-active s.status));
  }

  pub resume_holding-Fewer : (id : ℕ) → Fewer (resume_holding w id).0
  unfolding resume_holding
  resume_holding-Fewer id = record {
    le =
        update_where-count tag (by_id_and_status id holding) as_resumed w.sessions
          (λ s e. ground (arith, is_holding-active s.status));
  }

  pub update_start_total_kwh-Fewer :
      (id : ℕ) (total : A) → Fewer (update_start_total_kwh w id total)
  unfolding update_start_total_kwh
  update_start_total_kwh-Fewer id total = record {
    le =
        update_where-count tag (by_id id) (with_start_total total) w.sessions (λ s e. ground arith);
  }

  pub update_last_blended_kwh-Fewer : (id : ℕ) (kwh : A) → Fewer (update_last_blended_kwh w id kwh)
  unfolding update_last_blended_kwh
  update_last_blended_kwh-Fewer id kwh = record {
    le =
        update_where-count tag (by_id id) (λ s. record s { last_blended_kwh = some kwh }) w.sessions
          (λ s e. ground arith);
  }

  pub cancel_pending-Fewer : (id : ℕ) (t : Time) → Fewer (cancel_pending w id t).0
  unfolding cancel_pending
  cancel_pending-Fewer id t = record {
    le =
        update_where-count tag (by_id_and_status id pending) (as_cancelled t) w.sessions
          (λ s e. ground arith);
  }

  pub update_cancel_data-Fewer :
      (id : ℕ) (t : Time) (p : Option A) → Fewer (update_cancel_data w id t p)
  unfolding update_cancel_data
  update_cancel_data-Fewer id t p = record {
    le = update_where-count tag (by_id id) (as_cancelled_at t p) w.sessions (λ s e. ground arith);
  }

module _ {A : Type 0} (tag : Tag) (w w2 w3 : World A) where
  pub Fewer-trans : Fewer tag w w2 → Fewer tag w2 w3 → Fewer tag w w3
  Fewer-trans h k = record { le = omega (arith, h.le, k.le) }

  -- Only the sessions count.
  pub Fewer-same : w2.sessions ≡ w.sessions → Fewer tag w w2
  Fewer-same e = record { le = ground (arith, ap (count_in tag) e) }

module _ {A : Type 0} ⦃F : Float A⦄ (tag : Tag) (env : Environment A) (w : World A)
    (s : ChargeSession A) where
  pub stop_with_percent-Fewer :
      (fig : Figures A) (p : A) → Fewer tag w (stop_with_percent env fig w s p).0
  stop_with_percent-Fewer fig p = record {
    le = ground (
      arith,
      ap (count_in tag) (stop-sessions env fig w s p),
      update_where-count tag (by_id s.id) (as_completed env.now (stats env fig w s p)) w.sessions
          (λ x e. ground arith),
    );
  }
