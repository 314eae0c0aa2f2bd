-- ===== src/Readings/Current.antt =====
-- About the newest stored reading of a session.
use ev_charge_controller.Prelude.{
  ℕ, ◌+◌, ◌≤◌, ◌<◌, ◌≡◌, inl, inr, refl, subst, true, false, Option, none, some, List, [], ◌∷◌, ltb,
  ◌==◌, All, arith, Bool-cases,
}
use ev_charge_controller.Clock.{Time}
use ev_charge_controller.Float.{Float, FloatOrder, eqf}
use ev_charge_controller.Models.{ChargeSession, EnergyData, PowerReading}
use ev_charge_controller.Sessions.{World}
use ev_charge_controller.Lwt.{get_active_by_plug}
use ev_charge_controller.Readings.{
  stale_reading_threshold, newer_reading, get_last_power_reading, carbon_intensity_differs,
  should_store_power_reading, reading_of, is_metered, save_reading_locked,
}

module _ {A : Type 0} ⦃F : Float A⦄ (O : FloatOrder F) where
  -- Less than half an hour old, with the figures that the plug reports and the carbon intensity.
  abbrev pub IsCurrent : Time → EnergyData A → Option A → PowerReading A → Type 0
  IsCurrent now energy carbon r =
      (now < r.timestamp + stale_reading_threshold)
      × (eqf r.power energy.power ≡ true)
      × (eqf r.voltage energy.voltage ≡ true)
      × (eqf r.current energy.current ≡ true)
      × (carbon_intensity_differs r.carbon_intensity carbon ≡ false)

  eqf_refl : (a : A) → eqf a a ≡ true
  eqf_refl a = ground (arith, O.asym a a)

  carbon_intensity_differs_refl : (o : Option A) → carbon_intensity_differs o o ≡ false
  carbon_intensity_differs_refl none = refl
  carbon_intensity_differs_refl (some a) = ground (arith, eqf_refl a)

  reading_of-IsCurrent :
      (s : ChargeSession A) (now : Time) (energy : EnergyData A) (carbon : Option A)
      → IsCurrent now energy carbon (reading_of s now energy carbon)
  reading_of-IsCurrent s now energy carbon = (
    omega arith,
    eqf_refl energy.power,
    eqf_refl energy.voltage,
    eqf_refl energy.current,
    carbon_intensity_differs_refl carbon,
  )

  -- A reading that is not stored again is current.
  unstored-IsCurrent :
      (s : ChargeSession A) (now : Time) (energy : EnergyData A) (carbon : Option A)
      (o : Option (PowerReading A))
      → should_store_power_reading now o (reading_of s now energy carbon) ≡ false
      → (r : PowerReading A) × (o ≡ some r) × IsCurrent now energy carbon r
  unstored-IsCurrent s now energy carbon none e = absurd (cc e)
  unstored-IsCurrent s now energy carbon (some r) e = (
    r,
    refl,
    (ground (arith, e), ground (arith, e), ground (arith, e), ground (arith, e), ground (arith, e)),
  )

  -- The newest reading is not older than one that is inserted now.
  last_stored :
      (r : PowerReading A) (o : Option (PowerReading A))
      → ((x : PowerReading A) → o ≡ some x → x.timestamp ≤ r.timestamp)
      → newer_reading r o ≡ some r
  last_stored r none h = refl
  last_stored r (some x) h = ground (arith, h x refl)

  abbrev pub IsPast : Time → PowerReading A → Type 0
  IsPast now r = r.timestamp ≤ now

  newer_reading-IsPast :
      (now : Time) (r : PowerReading A) (o : Option (PowerReading A)) (x : PowerReading A)
      → r.timestamp ≤ now
      → ((y : PowerReading A) → o ≡ some y → y.timestamp ≤ now)
      → newer_reading r o ≡ some x
      → x.timestamp ≤ now
  newer_reading-IsPast now r none x p h e = let q : r ≡ x = cc e in subst (IsPast now) q p
  newer_reading-IsPast now r (some y) x p h e = elim (Bool-cases (ltb r.timestamp y.timestamp)) [
    | inl l ↦ h x (ground (arith, e, l))
    | inr l ↦
        let q : Path (Option (PowerReading A)) (some r) (some x) = ground (arith, e, l) in
        let same : r ≡ x = cc q in subst (IsPast now) same p
  ]

  last-IsPast :
      (now : Time) (id : ℕ) (readings : List (PowerReading A)) (x : PowerReading A)
      → All (IsPast now) readings
      → get_last_power_reading id readings ≡ some x
      → x.timestamp ≤ now
  unfolding get_last_power_reading
  last-IsPast now id [] x h e = absurd (cc e)
  last-IsPast now id (r ∷ rs) x h e = elim (Bool-cases (r.session_id == id)) [
    | inl own ↦
        newer_reading-IsPast now r (get_last_power_reading id rs) x h.0
          (λ y q. last-IsPast now id rs y h.1 q) (ground (arith, e, own))
    | inr other ↦ last-IsPast now id rs x h.1 (ground (arith, e, other))
  ]

  -- After a reading has been reported for a plug with a session in progress (active or
  -- conditioning), the newest stored reading of that session is less than half an hour old and has the
  -- reported power, voltage, current and carbon intensity, whether it was stored now or before. The
  -- session is returned, and the newest reading of any other session is as it was. The stored
  -- readings must not be later than the clock.
  pub save_reading_locked-IsCurrent :
      (user : Option ℕ) (w : World A) (now : Time) (plug : ℕ) (energy : EnergyData A)
      (carbon : Option A) (readings : List (PowerReading A)) (s : ChargeSession A) (other : ℕ)
      → All (IsPast now) readings
      → get_active_by_plug user w plug ≡ some s
      → is_metered s.status ≡ true
      → (s.id == other) ≡ false
      → let after = save_reading_locked user w now plug energy carbon readings in
        (after.1 ≡ some s)
        × (get_last_power_reading other after.0 ≡ get_last_power_reading other readings)
        × (r : PowerReading A) × (get_last_power_reading s.id after.0 ≡ some r)
        × IsCurrent now energy carbon r
  unfolding save_reading_locked get_last_power_reading
  save_reading_locked-IsCurrent user w now plug energy carbon readings s other past found metered
        d =
      let reading = reading_of s now energy carbon in
      let last = get_last_power_reading s.id readings in
      elim (Bool-cases (should_store_power_reading now last reading)) [
        | inl stored ↦
            let newest : newer_reading reading last ≡ some reading =
              last_stored reading last (λ x q. last-IsPast now s.id readings x past q) in
            (
              ground (arith, found, metered, stored),
              ground (arith, found, metered, stored, d),
              reading,
              ground (arith, found, metered, stored, newest),
              reading_of-IsCurrent s now energy carbon,
            )
        | inr kept ↦
            let held = unstored-IsCurrent s now energy carbon last kept in
            (
              ground (arith, found, metered, kept),
              ground (arith, found, metered, kept),
              held.0,
              ground (arith, found, metered, kept, held.1),
              held.2,
            )
      ]
