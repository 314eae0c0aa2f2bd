-- ===== src/Plan/Order.antt =====
-- About where the estimated starts and stages lie.
use ev_charge_controller.Prelude.{
  ℕ, ◌+◌, ◌-◌, ◌*◌, ◌≤◌, ◌≡◌, refl, subst, Bool, true, false, ◌&&◌, ◌⊎◌, inl, inr, Option, none,
  some, List, arith, Bool-cases, ltb, ◌==◌, if◌then◌else◌,
}
use ev_charge_controller.Clock.{Time, minute}
use ev_charge_controller.Float.{Float, FloatOrder, le}
use ev_charge_controller.Models.{Vehicle, Schedule}
use ev_charge_controller.Optimizer.{ForecastBucket, bucket_size, find_balanced_start}
use ev_charge_controller.Optimizer.BalancedStart.{find_balanced_start-Outcome}
use ev_charge_controller.Activation.{
  Services, Scheduler, two_stage_hold_fraction, min_two_stage_stage_duration_min,
}
use ev_charge_controller.Activation.Attempts.{forecast_of, window_of}
use ev_charge_controller.Plan.{
  TwoStagePlan, search_from, has_forecaster, is_carbon_aware, or_latest, candidate_of, balanced_in,
  estimate_balanced_stage_start, second_stage, first_stage, plan_in, plan_of,
  carbon_aware_two_stage_plan,
}

-- The start is the latest one, or lies between the beginning of the search and the latest one.
abbrev pub IsPlaced : Time → Time → Time → Type 0
IsPlaced search latest t = (t ≡ latest) ⊎ ((search ≤ t) × (t ≤ latest))

-- Each stage ends after it starts, the second starts after the first ends, and ends in the window.
abbrev pub IsOrdered : Time → TwoStagePlan → Type 0
IsOrdered window_end p =
    (p.stage_1_start ≤ p.stage_1_end)
    × (p.stage_1_end ≤ p.stage_2_start)
    × (p.stage_2_start ≤ p.stage_2_end)
    × (p.stage_2_end ≤ window_end)

-- What a guarded estimate gives, its guards give.
guarded :
    {X : Type 0} (b : Bool) (o : Option X) (x : X) → (if b then o else none) ≡ some x → o ≡ some x
guarded true o x e = e
guarded false o x e = absurd (cc e)

module _ {A W : Type 0} ⦃F : Float A⦄ (O : FloatOrder F) (S : Services A W) where
  or_latest-IsPlaced :
      (search latest start t : Time)
      → (start ≡ 0) ⊎ ((search ≤ start) × (start ≤ latest))
      → or_latest S latest start ≡ some t
      → IsPlaced search latest t
  or_latest-IsPlaced search latest start t h e = elim (Bool-cases (start == 0)) [
    | inl none_found ↦ inl (ground (arith, e, none_found))
    | inr found ↦
        let same : start ≡ t = ground (arith, e, found) in
        elim h [
          | inl zero_start ↦ absurd (ground (arith, zero_start, found))
          | inr bounds ↦ inr (omega (arith, bounds, same), omega (arith, bounds, same))
        ]
  ]

  balanced_in-IsPlaced :
      (search latest window_end : Time) (d : ℕ) (o : Option (List ForecastBucket)) (t : Time)
      → bucket_size ≤ search
      → balanced_in S search latest window_end d o ≡ some t
      → IsPlaced search latest t
  balanced_in-IsPlaced search latest window_end d none t h e = absurd (cc e)
  balanced_in-IsPlaced search latest window_end d (some buckets) t h e =
      or_latest-IsPlaced search latest
        (find_balanced_start A buckets search latest window_end (d * minute)) t
        (elim (find_balanced_start-Outcome O buckets search latest window_end (d * minute) h) [
          | inl k ↦ inl k.0
          | inr k ↦ inr (k.1.candidate.slot.1, k.1.candidate.in_time)
        ])
        e

  stage_start-IsPlaced :
      (search latest window_end : Time) (d : ℕ) (t : Time)
      → bucket_size ≤ search
      → estimate_balanced_stage_start S search latest window_end d ≡ some t
      → IsPlaced search latest t
  unfolding estimate_balanced_stage_start
  stage_start-IsPlaced search latest window_end d t h e = elim (Bool-cases (ltb search latest)) [
    | inl early ↦
        balanced_in-IsPlaced search latest window_end d (forecast_of S.forecaster search window_end)
          t h (ground (arith, e, early))
    | inr late ↦ inl (ground (arith, e, late))
  ]

  second_stage-IsOrdered :
      (search window_end stage_1_start : Time) (d1 d2 : ℕ) (o : Option Time) (p : TwoStagePlan)
      → (d1 + d2) * minute ≤ window_end
      → stage_1_start + (d1 + d2) * minute ≤ window_end
      → ((t : Time) → o ≡ some t → IsPlaced search (window_end - d2 * minute) t)
      → stage_1_start + d1 * minute ≤ search
      → second_stage S stage_1_start d1 d2 (stage_1_start + d1 * minute) o ≡ some p
      → IsOrdered window_end p
  second_stage-IsOrdered search window_end s1 d1 d2 none p fits in_time placed after e =
      absurd (cc e)
  second_stage-IsOrdered search window_end s1 d1 d2 (some s2) p fits in_time placed after e =
      let plan : TwoStagePlan = record {
        stage_1_start = s1;
        stage_1_end = s1 + d1 * minute;
        stage_2_start = s2;
        stage_2_end = s2 + d2 * minute;
      } in
      let same : plan ≡ p = cc e in
      subst (IsOrdered window_end) same (elim (placed s2 refl) [
        | inl q ↦
            (omega arith, omega (arith, q, fits, in_time), omega arith, omega (arith, q, fits))
        | inr q ↦ (omega arith, omega (arith, q, after), omega arith, omega (arith, q, fits))
      ])

  first_stage-IsOrdered :
      (search window_end : Time) (d1 d2 : ℕ) (o : Option Time) (p : TwoStagePlan)
      → bucket_size ≤ search
      → (d1 + d2) * minute ≤ window_end
      → ((t : Time) → o ≡ some t → IsPlaced search (window_end - (d1 + d2) * minute) t)
      → first_stage S search window_end d1 d2 o ≡ some p
      → IsOrdered window_end p
  first_stage-IsOrdered search window_end d1 d2 none p h fits placed e = absurd (cc e)
  first_stage-IsOrdered search window_end d1 d2 (some s1) p h fits placed e =
      let stage_2_search : Time =
        if ltb (s1 + d1 * minute) search then search else s1 + d1 * minute in
      let after : s1 + d1 * minute ≤ stage_2_search = ground arith in
      let late : search ≤ stage_2_search = ground arith in
      second_stage-IsOrdered stage_2_search window_end s1 d1 d2
        (estimate_balanced_stage_start S stage_2_search (window_end - d2 * minute) window_end d2) p
        fits
        (elim (placed s1 refl) [ inl q ↦ omega (arith, q, fits) | inr q ↦ omega (arith, q, fits) ])
        (λ t q. stage_start-IsPlaced stage_2_search _ window_end d2 t (omega (arith, h, late)) q)
        after e

  plan_in-IsOrdered :
      (now window_start window_end : Time) (o1 o2 : Option ℕ) (p : TwoStagePlan)
      → bucket_size ≤ now
      → ((d : ℕ) → o1 ≡ some d → 2 * (d * minute) ≤ window_end)
      → ((d : ℕ) → o2 ≡ some d → 2 * (d * minute) ≤ window_end)
      → plan_in S now (window_start, window_end) o1 o2 ≡ some p
      → IsOrdered window_end p
  plan_in-IsOrdered now window_start window_end none o2 p h f1 f2 e = absurd (cc e)
  plan_in-IsOrdered now window_start window_end (some d1) none p h f1 f2 e = absurd (cc e)
  plan_in-IsOrdered now window_start window_end (some d1) (some d2) p h f1 f2 e =
      let search : Time = search_from now window_start in
      let reached : bucket_size ≤ search = ground (arith, h) in
      first_stage-IsOrdered search window_end d1 d2
        (estimate_balanced_stage_start S search (window_end - (d1 + d2) * minute) window_end d1) p
        reached (omega (arith, f1 d1 refl, f2 d2 refl))
        (λ t q. stage_start-IsPlaced search _ window_end d1 t reached q)
        (elim (Bool-cases (ltb d2 min_two_stage_stage_duration_min)) [
          | inl short ↦ absurd (ground (arith, e, short))
          | inr long ↦ ground (arith, e, long)
        ])

  -- Every estimate is at most half of the time up to the end of the window.
  abbrev pub AreShort : Time → Type 0
  AreShort window_end =
      (v : Vehicle A) (from to : A) (d : ℕ)
      → S.estimator v from to ≡ some d
      → 2 * (d * minute) ≤ window_end

  plan_of-IsOrdered :
      (now window_start window_end : Time) (v : Option (Vehicle A)) (p : TwoStagePlan)
      → bucket_size ≤ now
      → AreShort window_end
      → plan_of S now (some (window_start, window_end)) v ≡ some p
      → IsOrdered window_end p
  plan_of-IsOrdered now window_start window_end none p h short e = absurd (cc e)
  plan_of-IsOrdered now window_start window_end (some v) p h short e =
      let hold : A = F.mul v.target_percent two_stage_hold_fraction in
      plan_in-IsOrdered now window_start window_end (S.estimator v v.current_percent hold)
        (S.estimator v hold v.target_percent) p h (short v v.current_percent hold)
        (short v hold v.target_percent)
        (elim (Bool-cases (le hold v.current_percent)) [
          | inl past ↦ absurd (ground (arith, e, past))
          | inr below ↦ ground (arith, e, below)
        ])

  -- The plan that is estimated for a carbon-aware schedule has its stages one after the other, and the
  -- second ends by the end of the window, whatever the forecast is. The estimated durations
  -- must not reach back to the zero Time, and the clock must be half an hour past it.
  pub carbon_aware_two_stage_plan-IsOrdered :
      (st : Scheduler A W) (sch : Schedule) (now window_start window_end : Time) (p : TwoStagePlan)
      → bucket_size ≤ now
      → AreShort window_end
      → window_of S now sch.window_start sch.window_end ≡ some (window_start, window_end)
      → carbon_aware_two_stage_plan S st sch now ≡ some p
      → IsOrdered window_end p
  unfolding carbon_aware_two_stage_plan
  carbon_aware_two_stage_plan-IsOrdered st sch now window_start window_end p h short window e =
      let v = candidate_of S st sch.plug_id in
      let guards : Bool =
        is_carbon_aware sch.schedule_type
        && sch.enabled
        && sch.two_stage
        && has_forecaster S.forecaster in
      plan_of-IsOrdered now window_start window_end v p h short (
        subst (λ o. plan_of S now o v ≡ some p) window
          (guarded guards (plan_of S now (window_of S now sch.window_start sch.window_end) v) p e))
