-- ===== src/Manual/Tracked.antt =====
-- About the relay and the session after an external switch-on, refused starts included.
use ev_charge_controller.Prelude.{
  ℕ, ◌≤◌, ◌≡◌, ◌≢◌, refl, sym, ap, subst, Bool, true, false, not, Option, none, some, List, [], ◌∷◌,
  arith, inl, inr, ◌⊎◌, if_cases, if_either,
}
use ev_charge_controller.Float.{Float, le}
use ev_charge_controller.Models.{holding, status_eq, ChargeSession, Vehicle, Plug}
use ev_charge_controller.Sessions.{World, command}
use ev_charge_controller.Sessions.Counting.{count_active, resume_holding-count}
use ev_charge_controller.Sessions.Lifecycle.{
  Environment, StartError, StartOutcome, started, refused, power_confirmation_failed,
  vehicle_not_found, vehicle_has_no_battery, plug_not_found, active_session_exists,
  user_id_required, start_session,
}
use ev_charge_controller.Sessions.Scheduled.{single}
use ev_charge_controller.Sessions.Unique.{AllVisible}
use ev_charge_controller.Sessions.Outcome.{Ended, start_session-Ended}
use ev_charge_controller.Sessions.Stop.{Figures}
use ev_charge_controller.Lwt.{get_active_by_plug, is_charging_plug}
use ev_charge_controller.Lwt.Offline.{cancelled-count}
use ev_charge_controller.Manual.{
  start_for, start_assigned, handle_manual_power_on, toggle_plug, handle_manual_power_toggle,
}

module _ {A : Type 0} where
  abbrev pub last_command : World A → Option (ℕ × Bool)
  last_command w = head_of w.commands
    where
      head_of : List (ℕ × Bool) → Option (ℕ × Bool)
      head_of [] = none
      head_of (c ∷ cs) = some c

  -- A session is in progress on the plug, or the last command is to switch it off.
  abbrev pub IsSafe : ℕ → World A → Type 0
  IsSafe plug w = (1 ≤ count_active plug w.sessions) ⊎ (last_command w ≡ some (plug, false))

  IsSafe-off : (w : World A) (plug : ℕ) → IsSafe plug (command plug false w)
  IsSafe-off w plug = inr refl

module _ {A : Type 0} ⦃F : Float A⦄ (env : Environment A) where
  -- The start of a session for the vehicle was refused, and nothing has changed.
  abbrev pub IsRefusedFor : ℕ → World A → World A → Vehicle A → Type 0
  IsRefusedFor plug w w2 v =
      (F.lt v.current_percent v.target_percent ≡ true)
      × (e : StartError) × ((start_session env w plug v.id v.current_percent v.target_percent
            single).1
          ≡ refused e)
      × (w2 ≡ w)

  -- The plug has a vehicle that is there and below its target, and its start was refused.
  abbrev pub IsRefused : Plug → World A → World A → Type 0
  IsRefused p w w2 =
      (id : ℕ) × (v : Vehicle A) × (p.vehicle_id ≡ some id)
      × (w.vehicles id ≡ some v)
      × IsRefusedFor p.id w w2 v

  abbrev pub Tracked : Plug → World A → World A → Type 0
  Tracked p w w2 = IsSafe p.id w2 ⊎ IsRefused p w w2

  abbrev Followed : ℕ → World A → Vehicle A → World A → Type 0
  Followed plug w v w2 = IsSafe plug w2 ⊎ IsRefusedFor plug w w2 v

  Ended-Followed :
      (w : World A) (plug : ℕ) (v : Vehicle A) (r : World A × StartOutcome)
      → F.lt v.current_percent v.target_percent ≡ true
      → start_session env w plug v.id v.current_percent v.target_percent single ≡ r
      → Ended w plug r
      → Followed plug w v r.0
  Ended-Followed w plug v (w2, started id) b q h = inl (inl (omega (arith, h.0)))
  Ended-Followed w plug v (w2, refused power_confirmation_failed) b q h =
      inl (inr (ground (arith, h.1)))
  Ended-Followed w plug v (w2, refused vehicle_not_found) b q h = inr (b, _, ap (λ r. r.1) q, h)
  Ended-Followed w plug v (w2, refused vehicle_has_no_battery) b q h =
      inr (b, _, ap (λ r. r.1) q, h)
  Ended-Followed w plug v (w2, refused plug_not_found) b q h = inr (b, _, ap (λ r. r.1) q, h)
  Ended-Followed w plug v (w2, refused active_session_exists) b q h = inr (b, _, ap (λ r. r.1) q, h)
  Ended-Followed w plug v (w2, refused user_id_required) b q h = inr (b, _, ap (λ r. r.1) q, h)

  module _ (w : World A) (p : Plug) (given : p.id ≢ 0) (visible : AllVisible env.user p.id w) where
    start_for-Followed : (v : Vehicle A) → Followed p.id w v (start_for env w p (some v))
    start_for-Followed v =
        if_cases (Followed p.id w v) (le v.target_percent v.current_percent)
          (λ _. inl (IsSafe-off w p.id))
          (λ above. Ended-Followed w p.id v _ (ground (arith, above)) refl (
            start_session-Ended env w p.id v.id v.current_percent v.target_percent single given
              visible))

    start_for-Tracked :
        (id : ℕ) (o : Option (Vehicle A))
        → p.vehicle_id ≡ some id
        → w.vehicles id ≡ o
        → Tracked p w (start_for env w p o)
    start_for-Tracked id none assigned e = inl (IsSafe-off w p.id)
    start_for-Tracked id (some v) assigned e = elim (start_for-Followed v) [
      | inl safe ↦ inl safe
      | inr refusal ↦ inr (id, v, assigned, e, refusal)
    ]

    start_assigned-Tracked :
        (o : Option ℕ) → p.vehicle_id ≡ o → Tracked p w (start_assigned env w p o)
    start_assigned-Tracked none e = inl (IsSafe-off w p.id)
    start_assigned-Tracked (some id) e = start_for-Tracked id (w.vehicles id) e refl

    power_on-Tracked :
        (o : Option (ChargeSession A))
        → get_active_by_plug env.user w p.id ≡ o
        → Tracked p w (handle_manual_power_on env w p o)
    power_on-Tracked none e = start_assigned-Tracked p.vehicle_id refl
    power_on-Tracked (some s) e =
        let running : 1 ≤ count_active p.id w.sessions =
          omega (arith, cancelled-count env p.id w s e) in
        if_either (Tracked p w) (status_eq s.status holding)
          (inl (inl (omega (arith, running, resume_holding-count p.id w s.id)))) (inl (inl running))

    -- After a charging plug has been switched on by hand, a session is in progress on it or the last
    -- power command is to switch it off, unless the plug has a vehicle that is there and below its
    -- target, and the start of a session for it was refused; then nothing has changed, and
    -- the current flows untracked. The plug must be there, with an identifier that is not empty,
    -- and the user must see the sessions in progress on it.
    pub handle_manual_power_toggle-Tracked :
        (fig : Figures A)
        → env.find_plug p.id ≡ some p
        → is_charging_plug (some p) ≡ true
        → Tracked p w (handle_manual_power_toggle env fig w p.id true)
    unfolding handle_manual_power_toggle
    handle_manual_power_toggle-Tracked fig found kind =
        subst (λ o. Tracked p w (toggle_plug env fig w p.id true o)) (sym found)
          (if_cases (Tracked p w) (not (is_charging_plug (some p)))
            (λ other. absurd (ground (arith, other, kind)))
            (λ _. power_on-Tracked (get_active_by_plug env.user w p.id) refl))
