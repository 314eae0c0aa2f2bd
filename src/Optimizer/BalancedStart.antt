-- ===== src/Optimizer/BalancedStart.antt =====
-- About the half-hour that findBalancedStart finds.
use ev_charge_controller.Prelude.{
  ℕ, ◌+◌, ◌≤◌, ◌≡◌, refl, sym, ap, ◌∙◌, subst, ◌⊎◌, inl, inr, List, [], ◌∷◌, All, if_either,
  if◌then◌else◌, sub_ℕ, arith,
}
use ev_charge_controller.Clock.{Time}
use ev_charge_controller.Float.{Float, FloatOrder, eqf}
use ev_charge_controller.Models.{zero_f}
use ev_charge_controller.FloatLaws.{le_refl}
use ev_charge_controller.Optimizer.{
  ForecastBucket, BalancedCandidate, Ranges, bucket_size, align_to_half_hour, rounds, minutes_of,
  score_window, ranges, balance_score, normalize_score, best_of, pick_balanced, find_balanced_start,
}
use ev_charge_controller.Optimizer.Candidates.{
  Increasing, IsCandidate, candidate_at, InRanges, candidates-All, All-candidate,
  candidates-Increasing, ranges-InRanges, ranges-All,
}
use ev_charge_controller.Optimizer.Balanced.{Beats, best_of-Winner, best_of-member, best_of_better}

module _ {A : Type 0} where
  abbrev first_ranges : BalancedCandidate A → Ranges A
  first_ranges c = record {
    min_carbon = c.carbon;
    max_carbon = c.carbon;
    min_dwell = c.dwell;
    max_dwell = c.dwell;
  }

module _ {A : Type 0} ⦃F : Float A⦄ (carbon dwell : Time → A) (now latest : Time) where
  -- How far the value is from the least to the greatest; 0 where these are equal.
  abbrev pub share : A → A → A → A
  share v least greatest =
      if eqf greatest least then zero_f else F.div (F.sub v least) (F.sub greatest least)

  abbrev pub sum_of_shares : Ranges A → BalancedCandidate A → A
  sum_of_shares rs c =
      F.add (share c.carbon rs.min_carbon rs.max_carbon) (share c.dwell rs.min_dwell rs.max_dwell)

  balance_score-sum_of_shares : (rs : Ranges A) → balance_score rs ≡ sum_of_shares rs
  unfolding balance_score normalize_score
  balance_score-sum_of_shares rs = refl

  -- The value is that of some candidate.
  abbrev pub IsTaken : (BalancedCandidate A → A) → A → Type 0
  IsTaken value a =
      (t : Time) × IsCandidate carbon dwell now latest t
      × (a ≡ value (candidate_at carbon dwell now latest t))

  -- The bounds are values of candidates.
  pub record AreTaken (rs : Ranges A) : Type 0 where
    pub carbon_least : IsTaken (λ c. c.carbon) rs.min_carbon
    pub carbon_greatest : IsTaken (λ c. c.carbon) rs.max_carbon
    pub dwell_least : IsTaken (λ c. c.dwell) rs.min_dwell
    pub dwell_greatest : IsTaken (λ c. c.dwell) rs.max_dwell

  -- `r` is a candidate; `rs` are the least and the greatest values of all candidates, and normalised by
  -- `rs` no candidate has a smaller sum than `r`, nor has a later one the same.
  pub record IsBalanced (rs : Ranges A) (r : Time) : Type 0 where
    pub candidate : IsCandidate carbon dwell now latest r
    pub taken : AreTaken rs
    pub ranged :
        (t : Time)
        → IsCandidate carbon dwell now latest t
        → InRanges rs (candidate_at carbon dwell now latest t)
    pub beats :
        (t : Time)
        → IsCandidate carbon dwell now latest t
        → Beats
            (sum_of_shares rs)
            (r, sum_of_shares rs (candidate_at carbon dwell now latest r))
            (candidate_at carbon dwell now latest t)

  abbrev pub Outcome : Time → Type 0
  Outcome r =
      ((r ≡ 0) × ((t : Time) → ¬ IsCandidate carbon dwell now latest t))
      ⊎ ((rs : Ranges A) × IsBalanced rs r)

  -- An element of the list is a candidate.
  abbrev Listed : BalancedCandidate A → Type 0
  Listed c =
      IsCandidate carbon dwell now latest c.start
      × (c ≡ candidate_at carbon dwell now latest c.start)

  abbrev Covers : List (BalancedCandidate A) → Type 1
  Covers l =
      (R : BalancedCandidate A → Type 0)
      → All R l
      → (t : Time) → IsCandidate carbon dwell now latest t
      → R (candidate_at carbon dwell now latest t)

  candidate-IsTaken :
      (value : BalancedCandidate A → A) (c : BalancedCandidate A)
      → Listed c
      → IsTaken value (value c)
  candidate-IsTaken value c listed = (c.start, listed.0, ap value listed.1)

  first_ranges-AreTaken : (c : BalancedCandidate A) → Listed c → AreTaken (first_ranges c)
  first_ranges-AreTaken c listed = record {
    carbon_least = candidate-IsTaken (λ x. x.carbon) c listed;
    carbon_greatest = candidate-IsTaken (λ x. x.carbon) c listed;
    dwell_least = candidate-IsTaken (λ x. x.dwell) c listed;
    dwell_greatest = candidate-IsTaken (λ x. x.dwell) c listed;
  }

  ranges-AreTaken :
      (cs : List (BalancedCandidate A)) (rs : Ranges A)
      → All Listed cs
      → AreTaken rs
      → AreTaken (ranges rs cs)
  unfolding ranges
  ranges-AreTaken [] rs all k = k
  ranges-AreTaken (c ∷ cs) rs all k =
      let by_carbon = IsTaken (λ x. x.carbon) in
      let by_dwell = IsTaken (λ x. x.dwell) in
      let own_carbon = candidate-IsTaken (λ x. x.carbon) c all.0 in
      let own_dwell = candidate-IsTaken (λ x. x.dwell) c all.0 in
      ranges-AreTaken cs _ all.1 (record {
        carbon_least = if_either by_carbon (F.lt c.carbon rs.min_carbon) own_carbon k.carbon_least;
        carbon_greatest =
            if_either by_carbon (F.lt rs.max_carbon c.carbon) own_carbon k.carbon_greatest;
        dwell_least = if_either by_dwell (F.lt c.dwell rs.min_dwell) own_dwell k.dwell_least;
        dwell_greatest = if_either by_dwell (F.lt rs.max_dwell c.dwell) own_dwell k.dwell_greatest;
      })

module _ {A : Type 0} ⦃F : Float A⦄ (O : FloatOrder F) (carbon dwell : Time → A)
    (now latest : Time) where
  first_ranges-InRanges : (c : BalancedCandidate A) → InRanges (first_ranges c) c
  first_ranges-InRanges c = record {
    carbon_low = le_refl O c.carbon;
    carbon_high = le_refl O c.carbon;
    dwell_low = le_refl O c.dwell;
    dwell_high = le_refl O c.dwell;
  }

  -- In a list with a first element some element wins.
  winner :
      (score : BalancedCandidate A → A) (P : BalancedCandidate A → Type 0) (c : BalancedCandidate A)
      (cs : List (BalancedCandidate A))
      → All P (c ∷ cs)
      → (x : BalancedCandidate A) × P x
        × (best_of score (c ∷ cs) (0, F.max_float) ≡ (x.start, score x))
  winner score P c cs all =
      rw (best_of_better score c cs (0, F.max_float) (ground (arith, O.le_max (score c))))
        (elim (best_of-member O score P cs (c.start, score c) all.1) [
          | inl e ↦ (c, all.0, e)
          | inr found ↦ found
        ])

  pick_balanced_cons :
      (c : BalancedCandidate A) (cs : List (BalancedCandidate A))
      → pick_balanced (c ∷ cs)
        ≡ (best_of (balance_score (ranges (first_ranges c) cs)) (c ∷ cs) (0, F.max_float)).0
  unfolding pick_balanced
  pick_balanced_cons c cs = refl

  pick_balanced-Outcome :
      (l : List (BalancedCandidate A))
      → All (Listed carbon dwell now latest) l
      → Covers carbon dwell now latest l
      → Increasing 0 l
      → Outcome carbon dwell now latest (pick_balanced l)
  pick_balanced-Outcome [] sound covers i =
      inl (unfold pick_balanced in refl, λ t k. covers (λ _. ⊥) tt t k)
  pick_balanced-Outcome (c ∷ cs) sound covers i =
      let rs : Ranges A = ranges (first_ranges c) cs in
      let score : BalancedCandidate A → A = balance_score rs in
      let (x, listed, e) = winner score (Listed carbon dwell now latest) c cs sound in
      let w = best_of-Winner O score (c ∷ cs) (0, F.max_float) i in
      let beats =
        subst (λ y. All (Beats score (x.start, score y)) (c ∷ cs)) listed.1
          (subst (λ r. All (Beats score r) (c ∷ cs)) e w.beats) in
      inr (
        rs,
        subst (IsBalanced carbon dwell now latest rs)
            (sym (pick_balanced_cons c cs ∙ ap (λ (r : Time × A). r.0) e))
            (record {
              candidate = listed.0;
              taken =
                  ranges-AreTaken carbon dwell now latest cs (first_ranges c) sound.1
                    (first_ranges-AreTaken carbon dwell now latest c sound.0);
              ranged = covers (InRanges rs) (
                ranges-InRanges O (first_ranges c) cs c (first_ranges-InRanges c),
                ranges-All O (first_ranges c) cs,
              );
              beats =
                  subst
                    (λ (f : BalancedCandidate A → A).
                      (t : Time)
                      → IsCandidate carbon dwell now latest t
                      → Beats f (x.start, f (candidate_at carbon dwell now latest x.start))
                          (candidate_at carbon dwell now latest t))
                    (balance_score-sum_of_shares carbon dwell now latest rs)
                    (covers
                      (Beats score (x.start, score (candidate_at carbon dwell now latest x.start)))
                      beats);
            }),
      )

-- Over every forecast, findBalancedStart returns the zero Time where no half-hour from now to the
-- latest start has forecast data. Else, with the least and the greatest intensity and dwell time
-- of all such half-hours as ranges, it returns one of them whose sum of the two scores, normalised by
-- those ranges, is the least, and less than that of every later one. The rounds given to
-- its loop are enough. The clock must be at least half an hour past the zero Time.
pub find_balanced_start-Outcome :
    {A : Type 0} ⦃F : Float A⦄ (O : FloatOrder F) (buckets : List ForecastBucket)
    (now latest deadline : Time) (d : ℕ)
    → bucket_size ≤ now
    → Outcome {A = A}
        (λ c. score_window buckets c (c + d))
        (λ c. minutes_of (sub_ℕ deadline (c + d)))
        now
        latest
        (find_balanced_start A buckets now latest deadline d)
unfolding find_balanced_start
find_balanced_start-Outcome {A} O buckets now latest deadline d h =
    let carbon : Time → A = λ c. score_window buckets c (c + d) in
    let dwell : Time → A = λ c. minutes_of (sub_ℕ deadline (c + d)) in
    let first = align_to_half_hour now in
    pick_balanced-Outcome O carbon dwell now latest _
      (candidates-All carbon dwell now latest (Listed carbon dwell now latest) (λ t k. (k, refl))
        (rounds now latest) first (omega arith))
      (λ R all t k.
        All-candidate carbon dwell now latest R (rounds now latest) first t (omega arith)
          (omega arith) k (omega (arith, k.slot)) all)
      (candidates-Increasing carbon dwell now latest (rounds now latest) 0 first (omega arith)
        (omega arith))
