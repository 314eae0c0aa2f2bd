-- ===== src/Optimizer/Candidates.antt =====
-- The candidates of findBalancedStart: which half-hours they are, and the ranges of their values.
use ev_charge_controller.Prelude.{
  ℕ, zero, suc, ◌+◌, ◌*◌, ◌%◌, ◌≤◌, ◌<◌, ◌≡◌, subst, ◌⊎◌, inl, inr, true, false, List, [], ◌∷◌, All,
  arith, ltb, leb, Bool-cases,
}
use ev_charge_controller.Clock.{Time}
use ev_charge_controller.Float.{Float, FloatOrder, le, eqf, max_of, min_of}
use ev_charge_controller.FloatLaws.{le_refl, le_trans, le-max_left, le_of_lt}
use ev_charge_controller.Optimizer.{
  bucket_size, BalancedCandidate, Ranges, balanced_candidates, ranges,
}
use ev_charge_controller.Optimizer.Best.{IsSlot}

-- The starts rise along the list, from above `t`.
abbrev pub Increasing : {A : Type 0} → Time → List (BalancedCandidate A) → Type 0
Increasing t [] = Unit
Increasing t (c ∷ cs) = (t < c.start) × Increasing c.start cs

pub Increasing-mono :
    {A : Type 0} (t u : Time) (cs : List (BalancedCandidate A))
    → t ≤ u
    → Increasing u cs
    → Increasing t cs
Increasing-mono t u [] h i = tt
Increasing-mono t u (c ∷ cs) h i = (omega arith, i.1)

module _ {A : Type 0} ⦃F : Float A⦄ (carbon dwell : Time → A) (now latest : Time) where
  abbrev pub candidate_at : Time → BalancedCandidate A
  candidate_at t = record { start = t; carbon = carbon t; dwell = dwell t }

  -- A half-hour from now to the latest start with forecast data.
  pub record IsCandidate (t : Time) : Type 0 where
    pub slot : IsSlot now t
    pub in_time : t ≤ latest
    pub scored : eqf (carbon t) F.max_float ≡ false

  candidates_skip :
      (fuel : ℕ) (c : Time)
      → leb c latest ≡ true
      → (now ≤ c → eqf (carbon c) F.max_float ≡ true)
      → balanced_candidates carbon dwell now latest (suc fuel) c
        ≡ balanced_candidates carbon dwell now latest fuel (c + bucket_size)
  unfolding balanced_candidates
  candidates_skip fuel c h k = ground arith

  candidates_keep :
      (fuel : ℕ) (c : Time)
      → leb c latest ≡ true
      → now ≤ c
      → eqf (carbon c) F.max_float ≡ false
      → balanced_candidates carbon dwell now latest (suc fuel) c
        ≡ candidate_at c ∷ balanced_candidates carbon dwell now latest fuel (c + bucket_size)
  unfolding balanced_candidates
  candidates_keep fuel c h k l = ground arith

  candidates_end :
      (fuel : ℕ) (c : Time)
      → leb c latest ≡ false
      → balanced_candidates carbon dwell now latest (suc fuel) c ≡ []
  unfolding balanced_candidates
  candidates_end fuel c h = ground arith

  -- What one round of the loop adds.
  data Round (fuel : ℕ) (c : Time) : Type 0 where
    past : latest < c → balanced_candidates carbon dwell now latest (suc fuel) c ≡ [] → Round fuel c
    skipped :
        (IsCandidate c → ⊥)
        → balanced_candidates carbon dwell now latest (suc fuel) c
          ≡ balanced_candidates carbon dwell now latest fuel (c + bucket_size)
        → Round fuel c
    added :
        IsCandidate c
        → balanced_candidates carbon dwell now latest (suc fuel) c
          ≡ candidate_at c ∷ balanced_candidates carbon dwell now latest fuel (c + bucket_size)
        → Round fuel c

  round : (fuel : ℕ) (c : Time) → c % bucket_size ≡ 0 → Round fuel c
  round fuel c al = elim (Bool-cases (leb c latest)) [
    | inr over ↦ past (ground arith) (candidates_end fuel c over)
    | inl more ↦ elim (Bool-cases (ltb c now)) [
      | inl early ↦
          skipped (λ k. absurd (ground (arith, k.slot)))
            (candidates_skip fuel c more (λ h. absurd (ground arith)))
      | inr reached ↦ elim (Bool-cases (eqf (carbon c) F.max_float)) [
        | inl unscored ↦
            skipped (λ k. absurd (cc (k.scored))) (candidates_skip fuel c more (λ h. unscored))
        | inr scored ↦
            added (record { slot = (al, ground arith); in_time = ground arith; scored = scored })
              (candidates_keep fuel c more (ground arith) scored)
      ]
    ]
  ]

  -- Only candidates are in the list.
  pub candidates-All :
      (Q : BalancedCandidate A → Type 0)
      → ((t : Time) → IsCandidate t → Q (candidate_at t))
      → (fuel : ℕ) (c : Time) → c % bucket_size ≡ 0
      → All Q (balanced_candidates carbon dwell now latest fuel c)
  unfolding balanced_candidates
  candidates-All Q q zero c al = tt
  candidates-All Q q (suc fuel) c al =
      let rest = candidates-All Q q fuel (c + bucket_size) (omega arith) in
      elim (round fuel c al) [
        | past _ e ↦ rw e tt
        | skipped _ e ↦ rw e rest
        | added k e ↦ rw e (q c k, rest)
      ]

  next_slot :
      (c t : Time)
      → c % bucket_size ≡ 0
      → t % bucket_size ≡ 0
      → c ≤ t
      → (t ≡ c) ⊎ (c + bucket_size ≤ t)
  next_slot c t h k le = omega arith

  -- Every candidate is in the list, when the fuel reaches the latest start.
  pub All-candidate :
      (Q : BalancedCandidate A → Type 0) (fuel : ℕ) (c t : Time)
      → c % bucket_size ≡ 0
      → latest < c + fuel * bucket_size
      → IsCandidate t
      → c ≤ t
      → All Q (balanced_candidates carbon dwell now latest fuel c)
      → Q (candidate_at t)
  All-candidate Q zero c t al enough k from all = absurd (omega (arith, k.in_time))
  All-candidate Q (suc fuel) c t al enough k from all = elim (round fuel c al) [
    | past over e ↦ absurd (omega (arith, k.in_time))
    | skipped none_here e ↦ elim (next_slot c t al k.slot.0 from) [
      | inl same ↦ absurd (none_here (subst IsCandidate same k))
      | inr later ↦
          All-candidate Q fuel (c + bucket_size) t (omega arith) (omega arith) k later (rw e at all)
    ]
    | added here e ↦ elim (next_slot c t al k.slot.0 from) [
      | inl same ↦ rw same (rw e at all).0
      | inr later ↦
          All-candidate Q fuel (c + bucket_size) t (omega arith) (omega arith) k later
            (rw e at all).1
    ]
  ]

  pub candidates-Increasing :
      (fuel : ℕ) (t c : Time)
      → c % bucket_size ≡ 0
      → t < c
      → Increasing t (balanced_candidates carbon dwell now latest fuel c)
  unfolding balanced_candidates
  candidates-Increasing zero t c al lt = tt
  candidates-Increasing (suc fuel) t c al lt = elim (round fuel c al) [
    | past _ e ↦ rw e tt
    | skipped _ e ↦
        rw e (candidates-Increasing fuel t (c + bucket_size) (omega arith) (omega arith))
    | added k e ↦
        rw e (lt, candidates-Increasing fuel c (c + bucket_size) (omega arith) (omega arith))
  ]

-- The four bounds hold of a candidate's values.
pub record InRanges {A : Type 0} ⦃F : Float A⦄ (r : Ranges A) (c : BalancedCandidate A)
    : Type 0 where
  pub carbon_low : le r.min_carbon c.carbon ≡ true
  pub carbon_high : le c.carbon r.max_carbon ≡ true
  pub dwell_low : le r.min_dwell c.dwell ≡ true
  pub dwell_high : le c.dwell r.max_dwell ≡ true

module _ {A : Type 0} ⦃F : Float A⦄ (O : FloatOrder F) where
  min_left : (a b : A) → le (min_of a b) a ≡ true
  min_left a b = ground (arith, le_refl O a, le_of_lt O b a)

  min_right : (a b : A) → le (min_of a b) b ≡ true
  min_right a b = ground (arith, le_refl O b)

  max_right : (a b : A) → le b (max_of a b) ≡ true
  max_right a b = ground (arith, le_refl O b)

  abbrev widen : Ranges A → BalancedCandidate A → Ranges A
  widen r c = record {
    min_carbon = min_of r.min_carbon c.carbon;
    max_carbon = max_of r.max_carbon c.carbon;
    min_dwell = min_of r.min_dwell c.dwell;
    max_dwell = max_of r.max_dwell c.dwell;
  }

  widen-new : (r : Ranges A) (c : BalancedCandidate A) → InRanges (widen r c) c
  widen-new r c = record {
    carbon_low = min_right _ _;
    carbon_high = max_right _ _;
    dwell_low = min_right _ _;
    dwell_high = max_right _ _;
  }

  widen-old : (r : Ranges A) (c x : BalancedCandidate A) → InRanges r x → InRanges (widen r c) x
  widen-old r c x h = record {
    carbon_low = le_trans O _ _ _ (min_left _ _) h.carbon_low;
    carbon_high = le_trans O _ _ _ h.carbon_high (le-max_left O _ _);
    dwell_low = le_trans O _ _ _ (min_left _ _) h.dwell_low;
    dwell_high = le_trans O _ _ _ h.dwell_high (le-max_left O _ _);
  }

  pub ranges-InRanges :
      (r : Ranges A) (cs : List (BalancedCandidate A)) (x : BalancedCandidate A)
      → InRanges r x
      → InRanges (ranges r cs) x
  unfolding ranges
  ranges-InRanges r [] x h = h
  ranges-InRanges r (c ∷ cs) x h = ranges-InRanges (widen r c) cs x (widen-old r c x h)

  pub ranges-All :
      (r : Ranges A) (cs : List (BalancedCandidate A)) → All (InRanges (ranges r cs)) cs
  unfolding ranges
  ranges-All r [] = tt
  ranges-All r (c ∷ cs) =
      (ranges-InRanges (widen r c) cs c (widen-new r c), ranges-All (widen r c) cs)
