-- ===== src/Optimizer/Balanced.antt =====
-- About the last loop of findBalancedStart.
use ev_charge_controller.Prelude.{
  ◌≤◌, ◌<◌, ◌≡◌, refl, ◌⊎◌, inl, inr, true, false, List, [], ◌∷◌, All, Bool-cases, arith,
}
use ev_charge_controller.Clock.{Time}
use ev_charge_controller.Float.{Float, FloatOrder, le}
use ev_charge_controller.FloatLaws.{le_refl, le_trans, le_of_lt, lt_of_le_lt}
use ev_charge_controller.Optimizer.{BalancedCandidate, best_of}
use ev_charge_controller.Optimizer.Candidates.{Increasing, Increasing-mono}

module _ {A : Type 0} ⦃F : Float A⦄ (score : BalancedCandidate A → A) where
  -- `r` beats `c`, and strictly so if `c` starts later.
  abbrev pub Beats : Time × A → BalancedCandidate A → Type 0
  Beats r c = (le r.1 (score c) ≡ true) × (r.0 < c.start → F.lt r.1 (score c) ≡ true)

  pub record Winner (best : Time × A) (cs : List (BalancedCandidate A)) (r : Time × A)
      : Type 0 where
    pub beats : All (Beats r) cs
    pub kept : le r.1 best.1 ≡ true
    pub later : best.0 ≤ r.0

  pub best_of_better :
      (c : BalancedCandidate A) (cs : List (BalancedCandidate A)) (best : Time × A)
      → le (score c) best.1 ≡ true
      → best_of score (c ∷ cs) best ≡ best_of score cs (c.start, score c)
  unfolding best_of
  best_of_better c cs best h = rw h

  best_of_worse :
      (c : BalancedCandidate A) (cs : List (BalancedCandidate A)) (best : Time × A)
      → le (score c) best.1 ≡ false
      → best_of score (c ∷ cs) best ≡ best_of score cs best
  unfolding best_of
  best_of_worse c cs best h = rw h

module _ {A : Type 0} ⦃F : Float A⦄ (O : FloatOrder F) (score : BalancedCandidate A → A) where
  pub best_of-Winner :
      (cs : List (BalancedCandidate A)) (best : Time × A)
      → Increasing best.0 cs
      → Winner score best cs (best_of score cs best)
  unfolding best_of
  best_of-Winner [] best i = record { beats = tt; kept = le_refl O best.1; later = omega arith }
  best_of-Winner (c ∷ cs) best i = elim (Bool-cases (le (score c) best.1)) [
    | inl better ↦
        let w = best_of-Winner cs (c.start, score c) i.1 in
        rw (best_of_better score c cs best better) (record {
          beats = ((w.kept, λ h. absurd (omega (arith, w.later))), w.beats);
          kept = le_trans O _ _ _ w.kept better;
          later = omega (arith, w.later, i.0);
        })
    | inr worse ↦
        let w =
          best_of-Winner cs best (Increasing-mono best.0 c.start cs (omega (arith, i.0)) i.1) in
        let above : F.lt best.1 (score c) ≡ true = ground arith in
        rw (best_of_worse score c cs best worse) (record {
          beats = (
            (le_trans O _ _ _ w.kept (le_of_lt O _ _ above), λ h. lt_of_le_lt O _ _ _ w.kept above),
            w.beats,
          );
          kept = w.kept;
          later = w.later;
        })
  ]

  -- The winner is the initial value, or one of the candidates.
  pub best_of-member :
      (P : BalancedCandidate A → Type 0) (cs : List (BalancedCandidate A)) (best : Time × A)
      → All P cs
      → (best_of score cs best ≡ best)
        ⊎ ((c : BalancedCandidate A) × P c × (best_of score cs best ≡ (c.start, score c)))
  unfolding best_of
  best_of-member P [] best all = inl refl
  best_of-member P (c ∷ cs) best all = elim (Bool-cases (le (score c) best.1)) [
    | inl better ↦
        rw (best_of_better score c cs best better)
          (elim (best_of-member P cs (c.start, score c) all.1) [
            | inl e ↦ inr (c, all.0, e)
            | inr found ↦ inr found
          ])
    | inr worse ↦ rw (best_of_worse score c cs best worse) (best_of-member P cs best all.1)
  ]
