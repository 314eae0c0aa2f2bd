-- ===== src/Optimizer/Best.antt =====
-- About the loop of findOptimalStart.
use ev_charge_controller.Prelude.{
  ◌+◌, ◌%◌, ◌≤◌, ◌<◌, ◌≡◌, refl, ◌⊎◌, inl, inr, true, false, arith, ltb, Bool-cases,
}
use ev_charge_controller.Clock.{Time}
use ev_charge_controller.Float.{Float, FloatOrder, le, eqf}
use ev_charge_controller.FloatLaws.{le_refl, le_trans, le_of_lt}
use ev_charge_controller.Optimizer.{bucket_size, consider}

-- A half-hour that is not before `now`.
abbrev pub IsSlot : Time → Time → Type 0
IsSlot now t = (t % bucket_size ≡ 0) × (now ≤ t)

module _ {A : Type 0} ⦃F : Float A⦄ (score : Time → A) (now : Time) where
  -- The slots before `until` have no score, and none is chosen.
  pub record IsEmpty (until : Time) (best : Time × A) : Type 0 where
    pub no_start : best.0 ≡ 0
    pub no_score : best.1 ≡ F.max_float
    pub unscored : (t : Time) → IsSlot now t → t < until → eqf (score t) F.max_float ≡ true

  -- The chosen slot is the best one before `until`, and the latest such.
  pub record IsChosen (until : Time) (best : Time × A) : Type 0 where
    pub slot : IsSlot now best.0
    pub reached : best.0 < until
    pub its_score : best.1 ≡ score best.0
    pub scored : eqf (score best.0) F.max_float ≡ false
    pub least :
        (t : Time)
        → IsSlot now t
        → t < until
        → eqf (score t) F.max_float ≡ false
        → le best.1 (score t) ≡ true
    pub latest :
        (t : Time)
        → IsSlot now t
        → t < until
        → eqf (score t) F.max_float ≡ false
        → best.0 < t
        → F.lt best.1 (score t) ≡ true

  abbrev pub IsBest : Time → Time × A → Type 0
  IsBest until best = IsEmpty until best ⊎ IsChosen until best

  -- Between two half-hours there is no other.
  slot_cases :
      (c t : Time)
      → c % bucket_size ≡ 0
      → t % bucket_size ≡ 0
      → t < c + bucket_size
      → (t < c) ⊎ (t ≡ c)
  slot_cases c t h k lt = omega arith

  consider_early :
      (c : Time) (best : Time × A) → ltb c now ≡ true → consider score now c best ≡ best
  unfolding consider
  consider_early c best h = rw h

  consider_unscored :
      (c : Time) (best : Time × A)
      → ltb c now ≡ false
      → eqf (score c) F.max_float ≡ true
      → consider score now c best ≡ best
  unfolding consider
  consider_unscored c best h k = rw h (rw k)

  consider_better :
      (c : Time) (best : Time × A)
      → ltb c now ≡ false
      → eqf (score c) F.max_float ≡ false
      → le (score c) best.1 ≡ true
      → consider score now c best ≡ (c, score c)
  unfolding consider
  consider_better c best h k l = rw h (rw k (rw l))

  consider_worse :
      (c : Time) (best : Time × A)
      → ltb c now ≡ false
      → eqf (score c) F.max_float ≡ false
      → le (score c) best.1 ≡ false
      → consider score now c best ≡ best
  unfolding consider
  consider_worse c best h k l = rw h (rw k (rw l))

module _ {A : Type 0} ⦃F : Float A⦄ (O : FloatOrder F) (score : Time → A) (now : Time) (c : Time)
    (aligned : c % bucket_size ≡ 0) where
  module _ (skip : now ≤ c → eqf (score c) F.max_float ≡ true) {best : Time × A} where
    -- What does not score leaves the best slot as it is.
    keep-IsEmpty : IsEmpty score now c best → IsEmpty score now (c + bucket_size) best
    keep-IsEmpty e = record {
      no_start = e.no_start;
      no_score = e.no_score;
      unscored = λ t s lt. elim (slot_cases score now c t aligned s.0 lt) [
        | inl before ↦ e.unscored t s before
        | inr same ↦ rw same (skip (omega arith))
      ];
    }

    keep-IsChosen : IsChosen score now c best → IsChosen score now (c + bucket_size) best
    keep-IsChosen e = record {
      slot = e.slot;
      reached = omega (arith, e.reached);
      its_score = e.its_score;
      scored = e.scored;
      least = λ t s lt u. elim (slot_cases score now c t aligned s.0 lt) [
        | inl before ↦ e.least t s before u
        | inr same ↦ absurd (cc (skip (omega arith)))
      ];
      latest = λ t s lt u later. elim (slot_cases score now c t aligned s.0 lt) [
        | inl before ↦ e.latest t s before u later
        | inr same ↦ absurd (cc (skip (omega arith)))
      ];
    }

  module _ (reached : now ≤ c) (scored : eqf (score c) F.max_float ≡ false) {best : Time × A} where
    -- A slot that is at least as good takes the place of the best one.
    replace :
        le (score c) best.1 ≡ true
        → IsBest score now c best
        → IsChosen score now (c + bucket_size) (c, score c)
    replace better b = record {
      slot = (aligned, reached);
      reached = omega arith;
      its_score = refl;
      scored = scored;
      least = λ t s lt u. elim (slot_cases score now c t aligned s.0 lt) [
        | inl before ↦ below b t s before u
        | inr same ↦ rw same (le_refl O (score c))
      ];
      latest = λ t s lt u later. elim (slot_cases score now c t aligned s.0 lt) [
        | inl before ↦ absurd (omega arith)
        | inr same ↦ absurd (omega arith)
      ];
    }
      where
        below :
            IsBest score now c best
            → (t : Time) → IsSlot now t
            → t < c
            → eqf (score t) F.max_float ≡ false
            → le (score c) (score t) ≡ true
        below (inl e) t s lt u = absurd (cc (e.unscored t s lt))
        below (inr e) t s lt u = le_trans O _ _ _ better (e.least t s lt u)

    -- A worse slot does not.
    extend :
        le (score c) best.1 ≡ false
        → IsChosen score now c best
        → IsChosen score now (c + bucket_size) best
    extend worse e = record {
      slot = e.slot;
      reached = omega (arith, e.reached);
      its_score = e.its_score;
      scored = e.scored;
      least = λ t s lt u. elim (slot_cases score now c t aligned s.0 lt) [
        | inl before ↦ e.least t s before u
        | inr same ↦ rw same (le_of_lt O _ _ (ground arith))
      ];
      latest = λ t s lt u later. elim (slot_cases score now c t aligned s.0 lt) [
        | inl before ↦ e.latest t s before u later
        | inr same ↦ rw same (ground arith)
      ];
    }

    -- With no slot chosen yet, nothing is worse.
    first_better : IsEmpty score now c best → le (score c) best.1 ≡ true
    first_better e = rw e.no_score (ground (arith, O.le_max (score c)))

  keep :
      {best : Time × A}
      → (now ≤ c → eqf (score c) F.max_float ≡ true)
      → IsBest score now c best
      → IsBest score now (c + bucket_size) best
  keep skip (inl e) = inl (keep-IsEmpty skip e)
  keep skip (inr e) = inr (keep-IsChosen skip e)

  worse-IsBest :
      {best : Time × A}
      → now ≤ c
      → eqf (score c) F.max_float ≡ false
      → le (score c) best.1 ≡ false
      → IsBest score now c best
      → IsBest score now (c + bucket_size) best
  worse-IsBest reached scored worse (inl e) = absurd (cc (first_better reached scored e))
  worse-IsBest reached scored worse (inr e) = inr (extend reached scored worse e)

  -- One round of the loop.
  pub consider-IsBest :
      {best : Time × A}
      → IsBest score now c best
      → IsBest score now (c + bucket_size) (consider score now c best)
  consider-IsBest {best} b = elim (Bool-cases (ltb c now)) [
    | inl early ↦ rw (consider_early score now c best early) (keep (λ h. absurd (ground arith)) b)
    | inr reached ↦ elim (Bool-cases (eqf (score c) F.max_float)) [
      | inl unscored ↦
          rw (consider_unscored score now c best reached unscored) (keep (λ h. unscored) b)
      | inr scored ↦ elim (Bool-cases (le (score c) best.1)) [
        | inl better ↦
            rw (consider_better score now c best reached scored better)
              (inr (replace (ground arith) scored better b))
        | inr worse ↦
            rw (consider_worse score now c best reached scored worse)
              (worse-IsBest (ground arith) scored worse b)
      ]
    ]
  ]
