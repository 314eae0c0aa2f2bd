-- ===== src/Sessions/Change/Retarget.antt =====
-- What a change of the target does.
use ev_charge_controller.Prelude.{
  ℕ, ◌≡◌, refl, ap, ◌∙◌, Bool, true, false, not, ◌⊎◌, inl, inr, Option, none, some, List, [], ◌∷◌,
  arith, Bool-cases, ◌==◌, if◌then◌else◌,
}
use ev_charge_controller.Float.{Float, le, eqf}
use ev_charge_controller.Models.{
  active, status_eq, ChargeSession, Vehicle, EnergyData, hundred, zero_f,
}
use ev_charge_controller.Energy.{calculate_progress}
use ev_charge_controller.Sessions.{
  World, set_sessions, update_where, any_row, first_where, find_by_id, by_id, by_id_and_status,
}
use ev_charge_controller.Sessions.Lifecycle.{Environment}
use ev_charge_controller.Sessions.Stop.{energy_of}
use ev_charge_controller.Sessions.Change.{
  TargetError, TargetOutcome, changed, not_changed, update_target, with_target, meter_guard,
  target_guard, target_kwh_of, written, guarded, retarget_found, retarget,
}

module _ {A : Type 0} where
  -- A conditional update by identifier and status, on a first row of that identifier and status.
  first_where-update_active :
      (id : ℕ) (f : ChargeSession A → ChargeSession A) (ss : List (ChargeSession A))
      (s : ChargeSession A)
      → ((x : ChargeSession A) → (f x).id ≡ x.id)
      → status_eq s.status active ≡ true
      → first_where (by_id id) ss ≡ some s
      → first_where (by_id id) (update_where (by_id_and_status id active) f ss) ≡ some (f s)
  unfolding first_where update_where
  first_where-update_active id f [] s h a e = absurd (cc e)
  first_where-update_active id f (x ∷ ss) s h a e = elim (Bool-cases (x.id == id)) [
    | inl same ↦
        let found : x ≡ s = ground (arith, e, same) in
        let status : status_eq x.status active ≡ true =
          ap (λ y. status_eq y.status active) found ∙ a in
        ground (arith, h x, same, status, ap f found)
    | inr other ↦ ground (arith, other, e, first_where-update_active id f ss s h a)
  ]

  -- A statement that affects no row changes nothing.
  update_where-no_row :
      (p : ChargeSession A → Bool) (f : ChargeSession A → ChargeSession A)
      (ss : List (ChargeSession A))
      → any_row p ss ≡ false
      → update_where p f ss ≡ ss
  unfolding any_row update_where
  update_where-no_row p f [] h = refl
  update_where-no_row p f (s ∷ ss) h = ground (arith, update_where-no_row p f ss)

module _ {A : Type 0} ⦃F : Float A⦄ where
  -- The percent of the vehicle's capacity, in kWh.
  abbrev pub kwh_at : ChargeSession A → A → Option (Vehicle A) → A
  kwh_at s percent none = s.target_kwh
  kwh_at s percent (some v) = F.div (F.mul v.capacity_kwh percent) hundred

  target_kwh_of-kwh_at :
      (s : ChargeSession A) (percent : A) (v : Option (Vehicle A))
      → target_kwh_of s percent v ≡ kwh_at s percent v
  target_kwh_of-kwh_at s percent none = refl
  target_kwh_of-kwh_at s percent (some v) = refl

module _ {A : Type 0} ⦃F : Float A⦄ (env : Environment A) where
  -- The plug has reported a reading that is not zero, and the session has a baseline.
  abbrev pub is_metered : Option (EnergyData A) → Option A → Bool
  is_metered (some e) (some t) = not (eqf e.total zero_f)
  is_metered _ _ = false

  -- The target is above what the meter says the charge has come to, or, without a reading, above the
  -- start.
  abbrev pub IsAbove :
      ChargeSession A → A → Option (Vehicle A) → Option (EnergyData A) → Option A → Type 0
  IsAbove s percent v e t =
      ((is_metered e t ≡ false) × (F.lt s.start_percent percent ≡ true))
      ⊎ ((is_metered e t ≡ true)
          × (F.lt (calculate_progress (some s) e v).current_percent percent ≡ true))

  meter_guard-IsAbove :
      (s : ChargeSession A) (percent : A) (v : Option (Vehicle A)) (e : Option (EnergyData A))
      (t : Option A)
      → meter_guard env s percent v e t ≡ none
      → IsAbove s percent v e t
  meter_guard-IsAbove s percent v none t h = inl (refl, ground arith)
  meter_guard-IsAbove s percent v (some e) none h = inl (refl, ground arith)
  meter_guard-IsAbove s percent none (some e) (some t) h = inl (ground arith, ground arith)
  meter_guard-IsAbove s percent (some v) (some e) (some t) h =
      elim (Bool-cases (eqf e.total zero_f)) [
        | inl unread ↦ inl (ground arith, ground arith)
        | inr read ↦ inr (ground arith, ground arith)
      ]

  -- The session that was there, with the guards that it has passed, and the row that is now there.
  abbrev pub Changed : World A → World A → ℕ → A → ChargeSession A → Type 0
  Changed w w2 id percent s =
      (find_by_id w id ≡ some s)
      × (status_eq s.status active ≡ true)
      × (le zero_f percent ≡ true)
      × (le percent hundred ≡ true)
      × IsAbove s percent (w.vehicles s.vehicle_id) (energy_of env s.plug_id) s.start_total_kwh
      × (find_by_id w2 id
          ≡ some (record s {
            target_percent = percent;
            target_kwh = kwh_at s percent (w.vehicles s.vehicle_id);
          }))

  abbrev pub Retargeted : World A → ℕ → A → World A × TargetOutcome → Type 0
  Retargeted w id percent (w2, changed) = (s : ChargeSession A) × Changed w w2 id percent s
  Retargeted w id percent (w2, not_changed _) = w2.sessions ≡ w.sessions

  branch :
      (w : World A) (id : ℕ) (percent : A) (s : ChargeSession A) (missing hit : Bool)
      (ss : List (ChargeSession A))
      → (hit ≡ false → ss ≡ w.sessions)
      → (hit ≡ true → Changed w (set_sessions w ss) id percent s)
      → Retargeted w id percent
          (written env w (if missing then none else some (set_sessions w ss, hit)))
  branch w id percent s true hit ss same done = refl
  branch w id percent s false false ss same done = same refl
  branch w id percent s false true ss same done = (s, done refl)

  update-Retargeted :
      (w : World A) (id : ℕ) (percent : A) (s : ChargeSession A)
      → find_by_id w id ≡ some s
      → target_guard env w s percent ≡ none
      → Retargeted w id percent (written env w (update_target w id percent))
  unfolding target_guard update_target find_by_id
  update-Retargeted w id percent s found passed =
      let p : ChargeSession A → Bool = by_id_and_status id active in
      let f : ChargeSession A → ChargeSession A = with_target w percent in
      branch w id percent s _ (any_row p w.sessions) (update_where p f w.sessions)
        (update_where-no_row p f w.sessions)
        (λ _. (
          found,
          ground arith,
          ground arith,
          ground arith,
          meter_guard-IsAbove s percent (w.vehicles s.vehicle_id) (energy_of env s.plug_id)
              s.start_total_kwh (ground arith),
          first_where-update_active id f w.sessions s (λ x. refl) (ground arith) found
              ∙ ap (λ k. some (record s { target_percent = percent; target_kwh = k }))
                  (target_kwh_of-kwh_at s percent (w.vehicles s.vehicle_id)),
        ))

  guarded-Retargeted :
      (w : World A) (id : ℕ) (percent : A) (s : ChargeSession A) (g : Option TargetError)
      → find_by_id w id ≡ some s
      → target_guard env w s percent ≡ g
      → Retargeted w id percent (guarded env w id percent g)
  guarded-Retargeted w id percent s none found e = update-Retargeted w id percent s found e
  guarded-Retargeted w id percent s (some x) found e = refl

  found-Retargeted :
      (w : World A) (id : ℕ) (percent : A) (o : Option (ChargeSession A))
      → find_by_id w id ≡ o
      → Retargeted w id percent (retarget_found env w id percent o)
  found-Retargeted w id percent none e = refl
  found-Retargeted w id percent (some s) e = guarded-Retargeted w id percent s _ e refl

  -- A change of the target of a session either succeeds or leaves the table as it is. It succeeds only
  -- for a session that is active, and for a target between 0 and 100 that is above what the
  -- meter says the charge has come to, or above the start if there is no reading or no baseline; the session then has the target, in
  -- percent and in kWh, and is otherwise unchanged.
  pub retarget-Retargeted :
      (w : World A) (id : ℕ) (percent : A) → Retargeted w id percent (retarget env w id percent)
  unfolding retarget
  retarget-Retargeted w id percent = found-Retargeted w id percent (find_by_id w id) refl
