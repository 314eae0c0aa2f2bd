-- ===== src/Energy/Progress.antt =====
-- What the progress of a session can be, and how it moves from one poll to the next.
use ev_charge_controller.Prelude.{◌≡◌, Bool, true, Option, some, inl, inr, Option-cases, arith}
use ev_charge_controller.Float.{Float, FloatOrder, le}
use ev_charge_controller.FloatLaws.{le_refl, le_of_lt, le-max_left, clamp_le, clamp_mono}
use ev_charge_controller.Models.{ChargeSession, Vehicle, EnergyData, zero_f, hundred}
use ev_charge_controller.Energy.{
  value_or, calculate_progress, calculate_end_percent, current_percent_from_blended,
  clamp_monotonic, clamped, calc_blended_kwh, efficiency_of, energy_inputs,
}

module _ {A : Type 0} ⦃F : Float A⦄ (O : FloatOrder F) where
  clamp_monotonic-le : (kwh last : A) → le last (clamp_monotonic kwh last) ≡ true
  unfolding clamp_monotonic
  clamp_monotonic-le kwh last = ground (arith, le_refl O last)

  clamped_bounds :
      (s : ChargeSession A) (v : Vehicle A) (b : A × Bool)
      → le s.start_kwh s.target_kwh ≡ true
      → let r = clamped s v b in
        (le s.start_kwh r.blended_kwh ≡ true)
        × (le r.blended_kwh s.target_kwh ≡ true)
        × (le (value_or s.start_kwh s.last_blended_kwh) r.last_blended_kwh ≡ true)
  unfolding clamped
  clamped_bounds s v b h = (
    le-max_left O _ _,
    clamp_le O _ _ _ h,
    clamp_monotonic-le b.0 (value_or s.start_kwh s.last_blended_kwh),
  )

module _ {A : Type 0} ⦃F : Float A⦄ where
  calculate_progress-clamped :
      (s : ChargeSession A) (e : EnergyData A) (v : Vehicle A) {start_total : A}
      → F.lt zero_f v.capacity_kwh ≡ true
      → s.start_total_kwh ≡ some start_total
      → calculate_progress (some s) (some e) (some v)
        ≡ clamped s v (calc_blended_kwh s.start_kwh start_total e (efficiency_of v))
  unfolding calculate_progress
  calculate_progress-clamped s e v capacity baseline = rw (baseline, energy_inputs) (rw capacity)

-- Where the energy baseline is there, the capacity is positive and the start is not above the
-- target, the blended energy lies between the start and the target of the session, and the new
-- clamp baseline is not below the old one.
pub calculate_progress_bounds :
    {A : Type 0} ⦃F : Float A⦄ (O : FloatOrder F) (s : ChargeSession A) (e : EnergyData A)
    (v : Vehicle A) {start_total : A}
    → F.lt zero_f v.capacity_kwh ≡ true
    → s.start_total_kwh ≡ some start_total
    → le s.start_kwh s.target_kwh ≡ true
    → let r = calculate_progress (some s) (some e) (some v) in
      (le s.start_kwh r.blended_kwh ≡ true)
      × (le r.blended_kwh s.target_kwh ≡ true)
      × (le (value_or s.start_kwh s.last_blended_kwh) r.last_blended_kwh ≡ true)
calculate_progress_bounds O s e v c b h =
    rw (calculate_progress-clamped s e v c b) (clamped_bounds O s v _ h)

-- What UpdateLastBlendedKwh makes of a session.
abbrev pub persisted : {A : Type 0} → ChargeSession A → A → ChargeSession A
persisted s last = record s { last_blended_kwh = some last }

-- The read path agrees with the poll: once a poll has persisted its clamp baseline, the percent
-- that is read back without live energy is the percent that the poll computed.
pub current_percent_from_blended-progress :
    {A : Type 0} ⦃F : Float A⦄ (O : FloatOrder F) (s : ChargeSession A) (e : EnergyData A)
    (v : Vehicle A) {start_total : A}
    → F.lt zero_f v.capacity_kwh ≡ true
    → s.start_total_kwh ≡ some start_total
    → let r = calculate_progress (some s) (some e) (some v) in
      current_percent_from_blended (some (persisted s r.last_blended_kwh)) (some v)
      ≡ some r.current_percent
unfolding current_percent_from_blended clamped
current_percent_from_blended-progress O s e v c b =
    rw (calculate_progress-clamped s e v c b) (ground (arith, O.asym zero_f v.capacity_kwh))

-- Progress never falls: whatever the meter reads at the next poll, its blended energy and its clamp
-- baseline are not below those of the poll before, once that poll's baseline is persisted.
pub calculate_progress_monotone :
    {A : Type 0} ⦃F : Float A⦄ (O : FloatOrder F) (s : ChargeSession A) (e e' : EnergyData A)
    (v : Vehicle A) {start_total : A}
    → F.lt zero_f v.capacity_kwh ≡ true
    → s.start_total_kwh ≡ some start_total
    → let r = calculate_progress (some s) (some e) (some v) in
      let r' = calculate_progress (some (persisted s r.last_blended_kwh)) (some e') (some v) in
      (le r.blended_kwh r'.blended_kwh ≡ true) × (le r.last_blended_kwh r'.last_blended_kwh ≡ true)
unfolding clamped
calculate_progress_monotone O s e e' v c b =
    let r = calculate_progress (some s) (some e) (some v) in
    rw (calculate_progress-clamped (persisted s r.last_blended_kwh) e' v c b) (
      rw (calculate_progress-clamped s e v c b)
        (clamp_mono O _ _ _ _ (clamp_monotonic-le O _ _), clamp_monotonic-le O _ _))

-- The end percent of a session is at least 0 and at most 100, whatever the inputs are.
pub calculate_end_percent_bounds :
    {A : Type 0} ⦃F : Float A⦄ (O : FloatOrder F) (s : Option (ChargeSession A))
    (e : Option (EnergyData A)) (v : Option (Vehicle A))
    → F.lt zero_f hundred ≡ true
    → (le zero_f (calculate_end_percent s e v) ≡ true)
      × (le (calculate_end_percent s e v) hundred ≡ true)
unfolding calculate_end_percent
calculate_end_percent_bounds O s e v h = elim (Option-cases (energy_inputs s e v)) [
  | inl missing ↦ rw missing (le_refl O zero_f, le_of_lt O zero_f hundred h)
  | inr (_, found) ↦ rw found (le-max_left O _ _, clamp_le O _ _ _ (le_of_lt O zero_f hundred h))
]
