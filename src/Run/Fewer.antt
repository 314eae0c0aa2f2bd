-- ===== src/Run/Fewer.antt =====
-- About the number of sessions in progress and the lifecycle operations.
use ev_charge_controller.Prelude.{
  ℕ, ◌≤◌, ◌≡◌, refl, sym, ap, subst, Bool, true, false, not, Option, none, some, List, [], ◌∷◌,
  arith, if_either, if◌then◌else◌,
}
use ev_charge_controller.Float.{Float}
use ev_charge_controller.Models.{pending, active, status_eq, ChargeSession, EnergyData}
use ev_charge_controller.Sessions.{
  World, any_row, by_id, by_id_and_status, as_cancelled, as_cancelled_at, activate_pending,
  find_by_id,
}
use ev_charge_controller.Sessions.Lifecycle.{
  Environment, ActivateOutcome, recapture, energy_at, activated, activate_found, activate,
}
use ev_charge_controller.Sessions.Stop.{Figures, power_off, stop_with_percent}
use ev_charge_controller.Sessions.Cancel.{
  owned, publish_off, cancel_owned, cancel_active_session, cancel_end_percent,
  cancel_pending_session, cancel_pending_if_timed_out, list_active,
}
use ev_charge_controller.Sessions.Cancel.Expiry.{hit, expire_each-sessions}
use ev_charge_controller.Sessions.Cancel.Percent.{cancel_owned-sessions}
use ev_charge_controller.Sessions.Change.{
  DeleteOutcome, stop, stop_found, stop_by_id, retarget, retarget_found, delete_session,
  delete_found, delete, uncounted, delete_where, target_guard, guarded, written, update_target,
  with_target, TargetError,
}
use ev_charge_controller.Sessions.Change.Deletion.{is_charging, uncounted-sessions}
use ev_charge_controller.Sessions.Measure.{
  Tag, count_in, Fewer, Fewer-trans, Fewer-same, update_where-count, activate_pending-Fewer,
  update_start_total_kwh-Fewer, update_cancel_data-Fewer, stop_with_percent-Fewer,
}

module _ {A : Type 0} (tag : Tag) (w : World A) where
  recapture-Fewer : (id : ℕ) (e : Option (EnergyData A)) → Fewer tag w (recapture w id e)
  recapture-Fewer id none = Fewer-same tag w w w refl
  recapture-Fewer id (some e) = update_start_total_kwh-Fewer tag w id e.total

  delete_where-count :
      (p : ChargeSession A → Bool) (ss : List (ChargeSession A))
      → count_in tag (delete_where p ss) ≤ count_in tag ss
  unfolding delete_where count_in
  delete_where-count p [] = ground arith
  delete_where-count p (s ∷ ss) = ground (arith, delete_where-count p ss)

  delete-Fewer : (id : ℕ) → Fewer tag w (delete w id)
  unfolding delete
  delete-Fewer id = record { le = delete_where-count (by_id id) w.sessions }

module _ {A : Type 0} ⦃F : Float A⦄ (tag : Tag) (env : Environment A) (w : World A) where
  activated-world : (r : World A × Bool) (e : Option (EnergyData A)) → (activated r e).0 ≡ r.0
  activated-world (x, false) e = refl
  activated-world (x, true) none = refl
  activated-world (x, true) (some e) = refl

  activate_found-Fewer : (o : Option (ChargeSession A)) → Fewer tag w (activate_found env w o).0
  activate_found-Fewer none = Fewer-same tag w w w refl
  activate_found-Fewer (some s) =
      let e = energy_at env s.plug_id in
      let filled : World A = recapture w s.id e in
      let active : World A × Bool = activate_pending filled s.id env.now in
      if_either (λ (r : World A × ActivateOutcome A). Fewer tag w r.0) _ (Fewer-same tag w w w refl)
        (subst (Fewer tag w) (sym (activated-world active e)) (
          Fewer-trans tag w filled active.0 (recapture-Fewer tag w s.id e)
            (activate_pending-Fewer tag filled s.id env.now)))

  pub activate-Fewer : (id : ℕ) → Fewer tag w (activate env w id).0
  unfolding activate
  activate-Fewer id = activate_found-Fewer (find_by_id w id)

  pub expire-Fewer : (timeout : ℕ) → Fewer tag w (cancel_pending_if_timed_out env w timeout).0
  unfolding cancel_pending_if_timed_out
  expire-Fewer timeout = record {
    le = ground (
      arith,
      ap (count_in tag) (expire_each-sessions env timeout (list_active env.user w) (w, false)),
      update_where-count tag (hit env timeout (list_active env.user w)) (as_cancelled env.now)
          w.sessions (λ s e. ground arith),
    );
  }

  off-sessions : (x : World A) (plug : Option ℕ) → (power_off env x plug).0.sessions ≡ x.sessions
  off-sessions x none = refl
  off-sessions x (some plug) = refl

  published-sessions :
      (x : World A) (plug : Option ℕ) → (publish_off env x plug).0.sessions ≡ x.sessions
  published-sessions x none = refl
  published-sessions x (some plug) = refl

  pub cancel_pending_session-Fewer :
      (s : ChargeSession A) → Fewer tag w (cancel_pending_session env w s).0
  unfolding cancel_pending_session
  cancel_pending_session-Fewer s =
      Fewer-trans tag w _ _ (update_cancel_data-Fewer tag w s.id env.now none)
        (Fewer-same tag _ _ w (published-sessions _ s.plug_id))

  cancel_owned-Fewer : (s : ChargeSession A) (p : Option A) → Fewer tag w (cancel_owned env w s p)
  cancel_owned-Fewer s p = record {
    le = ground (
      arith,
      ap (count_in tag) (cancel_owned-sessions env w s p),
      update_where-count tag (by_id s.id) (as_cancelled_at env.now p) w.sessions
          (λ x e. ground arith),
    );
  }

  pub cancel_active_session-Fewer :
      (s : ChargeSession A) → Fewer tag w (cancel_active_session env w s).0
  unfolding cancel_active_session
  cancel_active_session-Fewer s =
      if_either (λ (r : World A × Bool). Fewer tag w r.0) (owned env.user s.user_id)
        (cancel_owned-Fewer s (cancel_end_percent env w s)) (Fewer-same tag w w w refl)

  module _ (fig : Figures A) where
    stop_either :
        (s : ChargeSession A) (p : A) (b : Bool)
        → Fewer tag w
            (if b then cancel_pending_session env w s else stop_with_percent env fig w s p).0
    stop_either s p true = cancel_pending_session-Fewer s
    stop_either s p false = stop_with_percent-Fewer tag env w s fig p

    pub stop-Fewer :
        (s : ChargeSession A) (current : Option A) → Fewer tag w (stop env fig w s current).0
    unfolding stop
    stop-Fewer s current = stop_either s _ (status_eq s.status pending)

    stop_found-Fewer :
        (p : A) (o : Option (ChargeSession A)) → Fewer tag w (stop_found env fig w p o).0
    stop_found-Fewer p none = Fewer-same tag w w w refl
    stop_found-Fewer p (some s) = stop_either s p (status_eq s.status pending)

    pub stop_by_id-Fewer : (id : ℕ) (p : A) → Fewer tag w (stop_by_id env fig w id p).0
    unfolding stop_by_id
    stop_by_id-Fewer id p = stop_found-Fewer p (find_by_id w id)

  delete_found-Fewer :
      (id : ℕ) (o : Option (ChargeSession A)) → Fewer tag w (delete_found env w id o).0
  delete_found-Fewer id none = Fewer-same tag w w w refl
  delete_found-Fewer id (some s) =
      let P = λ (r : World A × DeleteOutcome). Fewer tag w r.0 in
      let same = Fewer-same tag w w w refl in
      if_either P (not (owned env.user s.user_id)) same (
        if_either P (is_charging s.status) same (
          Fewer-trans tag w _ _ (Fewer-same tag w _ w (uncounted-sessions env w id s s.battery_kwh))
            (delete-Fewer tag (uncounted env w s s.battery_kwh) id)))

  pub delete_session-Fewer : (id : ℕ) → Fewer tag w (delete_session env w id).0
  unfolding delete_session
  delete_session-Fewer id = delete_found-Fewer id (find_by_id w id)

  written-Fewer :
      (missing hit : Bool) (x : World A)
      → Fewer tag w x
      → Fewer tag w (written env w (if missing then none else some (x, hit))).0
  written-Fewer true hit x h = Fewer-same tag w w w refl
  written-Fewer false false x h = h
  written-Fewer false true x h = h

  update_target-Fewer : (id : ℕ) (p : A) → Fewer tag w (written env w (update_target w id p)).0
  unfolding update_target
  update_target-Fewer id p =
      written-Fewer _ (any_row (by_id_and_status id active) w.sessions) _ (record {
        le =
            update_where-count tag (by_id_and_status id active) (with_target w p) w.sessions
              (λ s e. ground arith);
      })

  guarded-Fewer : (id : ℕ) (p : A) (g : Option TargetError) → Fewer tag w (guarded env w id p g).0
  guarded-Fewer id p (some e) = Fewer-same tag w w w refl
  guarded-Fewer id p none = update_target-Fewer id p

  retarget_found-Fewer :
      (id : ℕ) (p : A) (o : Option (ChargeSession A)) → Fewer tag w (retarget_found env w id p o).0
  retarget_found-Fewer id p none = Fewer-same tag w w w refl
  retarget_found-Fewer id p (some s) = guarded-Fewer id p (target_guard env w s p)

  pub retarget-Fewer : (id : ℕ) (p : A) → Fewer tag w (retarget env w id p).0
  unfolding retarget
  retarget-Fewer id p = retarget_found-Fewer id p (find_by_id w id)
