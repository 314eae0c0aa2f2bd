-- ===== src/Estimate/Conservative.antt =====
-- When an estimate exists, and what a projected percent promises.
use ev_charge_controller.Prelude.{
  ℕ, zero, suc, ◌≡◌, refl, ◌⊎◌, inl, inr, true, ◌||◌, some, ℤ, pos, leb_ℤ, Option-cases, Bool-cases,
  arith,
}
use ev_charge_controller.Hhmm.{is_some}
use ev_charge_controller.Float.{Float, le}
use ev_charge_controller.Models.{Vehicle, hundred}
use ev_charge_controller.Estimate.{
  has_power, positive, derive_cc_minutes, estimate_minutes, bisect, project_percent,
}

module _ {A : Type 0} ⦃F : Float A⦄ where
  -- An estimate exists exactly for a vehicle that is at its target, or gives a positive 20-80% time,
  -- or a positive charger power and capacity.
  pub estimate_minutes-is_some :
      (v : Vehicle A) (current target : A)
      → is_some (estimate_minutes v current target)
        ≡ (le target current || (is_some (positive v.time_20_to_80_min) || has_power v))
  unfolding estimate_minutes derive_cc_minutes
  estimate_minutes-is_some v current target = ground arith

  -- The percent is the current one, or the estimate to reach it fits.
  abbrev pub Fits : Vehicle A → A → ℤ → A → Type 0
  Fits v current available p =
      (p ≡ current)
      ⊎ ((m : ℕ) × (estimate_minutes v current p ≡ some m) × (leb_ℤ (pos m) available ≡ true))

  bisect-Fits :
      (v : Vehicle A) (current : A) (available : ℤ) (n : ℕ) (lo hi : A)
      → Fits v current available lo
      → Fits v current available (bisect v current available n lo hi)
  unfolding bisect
  bisect-Fits v current available zero lo hi f = f
  bisect-Fits v current available (suc n) lo hi f =
      let mid = F.div (F.add lo hi) (F.lit 2 1) in
      elim (Option-cases (estimate_minutes v current mid)) [
        | inl no_estimate ↦ rw (no_estimate, bisect) (inl refl)
        | inr (m, e) ↦ elim (Bool-cases (leb_ℤ (pos m) available)) [
          | inl fits ↦
              rw (e, bisect) (rw fits (bisect-Fits v current available n mid hi (inr (m, e, fits))))
          | inr short ↦ rw (e, bisect) (rw short (bisect-Fits v current available n lo mid f))
        ]
      ]

  -- A projection is never optimistic: the percent that ProjectPercent returns is the current one, or
  -- the estimate to reach it exists and fits into the available minutes.
  pub project_percent-Fits :
      (v : Vehicle A) (current : A) (available : ℤ)
      → Fits v current available (project_percent v current available)
  unfolding project_percent
  project_percent-Fits v current available = elim (Bool-cases (leb_ℤ available (pos 0))) [
    | inl no_time ↦ rw no_time (inl refl)
    | inr time ↦ rw time (bisect-Fits v current available 64 current hundred (inl refl))
  ]
