-- ===== src/Estimate.antt =====
-- api/chargeestimate/chargeestimate.go: the estimated minutes of a charge, and the percent that a
-- number of minutes reaches. ErrNoEstimate is `none`.
pub mod Conservative
use ev_charge_controller.Prelude.{
  ℕ, zero, suc, Bool, true, false, ◌&&◌, Option, none, some, ℤ, pos, ltb_ℤ, leb_ℤ, ◌-ℤ◌,
  if◌then◌else◌,
}
use ev_charge_controller.Float.{Float, le, max_of, min_of}
use ev_charge_controller.Models.{Vehicle, zero_f, hundred, default_charging_efficiency}

-- `a != nil && b != nil && *a > *b`, with the difference.
unfoldable pub excess : Option ℤ → Option ℤ → Option ℤ
excess (some a) (some b) = if ltb_ℤ b a then some (a -ℤ b) else none
excess _ _ = none

-- `a != nil && *a > 0`
unfoldable pub positive : Option ℤ → Option ℤ
positive none = none
positive (some a) = if ltb_ℤ (pos 0) a then some a else none

module _ {A : Type 0} ⦃F : Float A⦄ where
  abbrev pub twenty : A
  twenty = F.lit 20 1

  abbrev pub sixty : A
  sixty = F.lit 60 1

  abbrev pub eighty : A
  eighty = F.lit 80 1

  abbrev safety_margin_factor : A
  safety_margin_factor = F.lit 110 100

  abbrev cv_penalty_factor : A
  cv_penalty_factor = F.lit 2 1

  abbrev pub estimate_efficiency : Vehicle A → A
  estimate_efficiency v =
      if le v.charging_efficiency zero_f then default_charging_efficiency else v.charging_efficiency

  abbrev pub has_power : Vehicle A → Bool
  has_power v = F.lt zero_f v.charger_output_w && F.lt zero_f v.capacity_kwh

  -- energy / (chargerKw * eff) * 60, for a share of the capacity
  abbrev by_power : Vehicle A → A → A → A
  by_power v eff share =
      F.mul
        (F.div (F.mul v.capacity_kwh share) (F.mul (F.div v.charger_output_w (F.lit 1000 1)) eff))
        sixty

  unfoldable pub derive_cc_minutes : Vehicle A → A → Option A
  unfolding positive
  derive_cc_minutes v eff = elim (positive v.time_20_to_80_min) [
    | some t ↦ some (F.of_int t)
    | none ↦ if has_power v then some (by_power v eff (F.lit 6 10)) else none
  ]

  unfoldable pub derive_pre_cc_minutes : Vehicle A → A → A → A
  unfolding excess
  derive_pre_cc_minutes v eff t20_to_80 = elim (excess v.time_0_to_80_min v.time_20_to_80_min) [
    | some t ↦ F.of_int t
    | none ↦ elim (excess v.time_0_to_100_min v.time_20_to_100_min) [
      | some t ↦ F.of_int t
      | none ↦
          if has_power v then by_power v eff (F.lit 2 10) else F.mul (F.div t20_to_80 sixty) twenty
    ]
  ]

  unfoldable pub derive_cv_minutes : Vehicle A → A → A
  unfolding excess
  derive_cv_minutes v t20_to_80 = elim (excess v.time_20_to_100_min v.time_20_to_80_min) [
    | some t ↦ F.of_int t
    | none ↦ elim (excess v.time_0_to_100_min v.time_0_to_80_min) [
      | some t ↦ F.of_int t
      | none ↦ F.mul (F.mul (F.div t20_to_80 sixty) twenty) cv_penalty_factor
    ]
  ]

  -- The three `if`s that add up totalMin: 0-20%, 20-80%, 80-100%.
  unfoldable pub pre_cc_part : A → A → A → A
  pre_cc_part t current target =
      if F.lt current twenty
      then F.mul t (F.div (F.sub (min_of target twenty) current) twenty)
      else zero_f

  unfoldable pub cc_part : A → A → A → A
  cc_part t current target =
      let start = max_of current twenty in
      let end = min_of target eighty in
      if F.lt current eighty && F.lt twenty target && F.lt start end
      then F.mul t (F.div (F.sub end start) sixty)
      else zero_f

  unfoldable pub cv_part : A → A → A → A
  cv_part t current target =
      if F.lt eighty target
      then F.mul t (F.div (F.sub target (max_of current eighty)) twenty)
      else zero_f

  abbrev total_minutes : Vehicle A → A → A → A → A → ℕ
  total_minutes v eff current target t20_to_80 = F.ceil (
      F.mul
        (F.add
          (F.add (pre_cc_part (derive_pre_cc_minutes v eff t20_to_80) current target)
            (cc_part t20_to_80 current target))
          (cv_part (derive_cv_minutes v t20_to_80) current target))
        safety_margin_factor)

  unfoldable pub estimate_minutes : Vehicle A → A → A → Option ℕ
  unfolding derive_cc_minutes derive_pre_cc_minutes derive_cv_minutes pre_cc_part cc_part cv_part
  estimate_minutes v current target =
      let eff = estimate_efficiency v in
      let estimated : Option ℕ = elim (derive_cc_minutes v eff) [
        | none ↦ none
        | some t20_to_80 ↦ some (total_minutes v eff current target t20_to_80)
      ] in
      if le target current then some 0 else estimated

  abbrev halved : Bool → A → A → A → A × A
  halved true lo mid hi = (mid, hi)
  halved false lo mid hi = (lo, mid)

  -- The bisection loop; an estimator error returns the current percent.
  unfoldable pub bisect : Vehicle A → A → ℤ → ℕ → A → A → A
  bisect v current available zero lo hi = lo
  bisect v current available (suc n) lo hi =
      let mid = F.div (F.add lo hi) (F.lit 2 1) in
      elim (estimate_minutes v current mid) [
        | none ↦ current
        | some mins ↦
            let (lo', hi') = halved (leb_ℤ (pos mins) available) lo mid hi in
            bisect v current available n lo' hi'
      ]

  unfoldable pub project_percent : Vehicle A → A → ℤ → A
  unfolding bisect
  project_percent v current available =
      if leb_ℤ available (pos 0) then current else bisect v current available 64 current hundred
