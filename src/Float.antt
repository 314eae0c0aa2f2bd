-- ===== src/Float.antt =====
-- The arithmetic of Go's float64 that the program uses. antt has no floats, so the type and its
-- operations are an instance argument; it stands for the finite float64 values.

use ev_charge_controller.Prelude.{ℕ, ℤ, ◌≡◌, Bool, true, false, not, ◌&&◌, if◌then◌else◌}

pub record Float (A : Type 0) : Type 0 where
  -- the literal n/d
  pub lit : ℕ → ℕ → A
  -- float64(n)
  pub of_int : ℤ → A
  pub add : A → A → A
  pub sub : A → A → A
  pub mul : A → A → A
  pub div : A → A → A
  pub lt : A → A → Bool
  -- int(math.Ceil(x)), of an x that is not negative
  pub ceil : A → ℕ
  -- math.MaxFloat64
  pub max_float : A

-- The order of the finite float64 values, with math.MaxFloat64 on top.
pub record FloatOrder {A : Type 0} (F : Float A) : Type 0 where
  pub asym : (a b : A) → F.lt a b ≡ true → F.lt b a ≡ false
  pub trans : (a b c : A) → F.lt b a ≡ false → F.lt c b ≡ false → F.lt c a ≡ false
  pub le_max : (a : A) → F.lt F.max_float a ≡ false

-- Sums and products of values that are not negative are not negative.
pub record FloatNonneg {A : Type 0} (F : Float A) : Type 0 where
  pub add_nonneg :
      (a b : A)
      → F.lt a (F.lit 0 1) ≡ false
      → F.lt b (F.lit 0 1) ≡ false
      → F.lt (F.add a b) (F.lit 0 1) ≡ false
  pub mul_nonneg :
      (a b : A)
      → F.lt a (F.lit 0 1) ≡ false
      → F.lt b (F.lit 0 1) ≡ false
      → F.lt (F.mul a b) (F.lit 0 1) ≡ false

module _ {A : Type 0} ⦃F : Float A⦄ where
  -- `a <= b`
  abbrev pub le : A → A → Bool
  le a b = not (F.lt b a)

  -- `a == b`
  abbrev pub eqf : A → A → Bool
  eqf a b = not (F.lt a b) && not (F.lt b a)

  -- math.Max and math.Min
  abbrev pub max_of : A → A → A
  max_of a b = if F.lt a b then b else a

  abbrev pub min_of : A → A → A
  min_of a b = if F.lt b a then b else a
