-- ===== src/Monitoring/Idle.antt =====
-- The idle streak of the readings.
use ev_charge_controller.Prelude.{
  ◌≡◌, refl, sym, ap, ◌∙◌, true, false, none, some, List, [], ◌∷◌, ◌++◌, All, arith,
}
use ev_charge_controller.Clock.{Time}
use ev_charge_controller.Float.{Float}
use ev_charge_controller.Models.{PowerReading}
use ev_charge_controller.Monitoring.{from_last, is_idle, reverse_onto, streak, idle_streak_start}

module _ {A : Type 0} where
  reverse_onto-append :
      (xs ys acc : List (PowerReading A))
      → reverse_onto (xs ++ ys) acc ≡ reverse_onto ys (reverse_onto xs acc)
  unfolding reverse_onto
  reverse_onto-append [] ys acc = refl
  reverse_onto-append (x ∷ xs) ys acc = reverse_onto-append xs ys (x ∷ acc)

module _ {A : Type 0} ⦃F : Float A⦄ where
  abbrev pub AllIdle : List (PowerReading A) → Type 0
  AllIdle = All (λ r. is_idle r ≡ true)

  -- From the end, the streak goes back through all idle readings.
  streak-reverse_onto :
      (start : Time) (first : PowerReading A) (more acc : List (PowerReading A))
      → AllIdle (first ∷ more)
      → streak start (reverse_onto (first ∷ more) acc) ≡ streak first.timestamp acc
  unfolding streak reverse_onto
  streak-reverse_onto start first [] acc h = ground (arith, h.0)
  streak-reverse_onto start first (next ∷ more) acc h =
      streak-reverse_onto start next more (first ∷ acc) h.1 ∙ ground (arith, h.0)

  last_idle :
      (first : PowerReading A) (more acc : List (PowerReading A))
      → AllIdle (first ∷ more)
      → (last : PowerReading A) × (rest : List (PowerReading A)) × (reverse_onto (first ∷ more) acc
          ≡ last ∷ rest)
        × (is_idle last ≡ true)
  unfolding reverse_onto
  last_idle first [] acc h = (first, acc, refl, h.0)
  last_idle first (next ∷ more) acc h = last_idle next more (first ∷ acc) h.1

  from_idle :
      (last : PowerReading A) (rest : List (PowerReading A))
      → is_idle last ≡ true
      → from_last (last ∷ rest) ≡ some (streak last.timestamp (last ∷ rest))
  from_idle last rest h = rw h refl

  from_busy :
      (last : PowerReading A) (rest : List (PowerReading A))
      → is_idle last ≡ false
      → from_last (last ∷ rest) ≡ none
  from_busy last rest h = rw h refl

  streak_busy :
      (t : Time) (busy : PowerReading A) (rest : List (PowerReading A))
      → is_idle busy ≡ false
      → streak t (busy ∷ rest) ≡ t
  unfolding streak
  streak_busy t busy rest h = rw h refl

  idle_start :
      (first : PowerReading A) (more acc : List (PowerReading A))
      → AllIdle (first ∷ more)
      → from_last (reverse_onto (first ∷ more) acc) ≡ some (streak first.timestamp acc)
  idle_start first more acc h =
      let (last, rest, e, idle) = last_idle first more acc h in
      ap from_last e
      ∙ from_idle last rest idle
      ∙ ap (λ l. some (streak last.timestamp l)) (sym e)
      ∙ ap some (streak-reverse_onto last.timestamp first more acc h)

  -- The idle streak starts at the first reading after the last one that is not idle: where the readings
  -- end in idle ones behind a reading that is not idle, it is the time of the first of these,
  -- and where they end in a reading that is not idle, there is no streak.
  pub idle_streak_start-last :
      (older more : List (PowerReading A)) (busy first : PowerReading A)
      → is_idle busy ≡ false
      → AllIdle (first ∷ more)
      → (idle_streak_start (older ++ (busy ∷ first ∷ more)) ≡ some first.timestamp)
        × (idle_streak_start (older ++ (busy ∷ [])) ≡ none)
  unfolding idle_streak_start reverse_onto
  idle_streak_start-last older more busy first b h =
      let front = reverse_onto older [] in
      (
        ap from_last (reverse_onto-append older (busy ∷ first ∷ more) [])
            ∙ idle_start first more (busy ∷ front) h
            ∙ ap some (streak_busy first.timestamp busy front b),
        ap from_last (reverse_onto-append older (busy ∷ []) []) ∙ from_busy busy front b,
      )
