-- ===== src/FloatLaws.antt =====
-- Consequences of the order of the floats: reflexivity, and the clamp math.Max(lo, math.Min(hi, x)).
use ev_charge_controller.Prelude.{◌≡◌, true, false, arith}
use ev_charge_controller.Float.{Float, FloatOrder, le, max_of, min_of}

module _ {A : Type 0} ⦃F : Float A⦄ (O : FloatOrder F) where
  pub lt_irrefl : (a : A) → F.lt a a ≡ false
  lt_irrefl a = ground (arith, O.asym a a)

  pub le_refl : (a : A) → le a a ≡ true
  le_refl a = ground (arith, lt_irrefl a)

  pub le_trans : (a b c : A) → le a b ≡ true → le b c ≡ true → le a c ≡ true
  le_trans a b c h k = ground (arith, O.trans a b c)

  pub le_of_lt : (a b : A) → F.lt a b ≡ true → le a b ≡ true
  le_of_lt a b h = ground (arith, O.asym a b)

  pub lt_of_le_lt : (a b c : A) → le a b ≡ true → F.lt b c ≡ true → F.lt a c ≡ true
  lt_of_le_lt a b c h k = ground (arith, O.trans c a b, O.asym b c)

  pub le-max_left : (a b : A) → le a (max_of a b) ≡ true
  le-max_left a b = ground (arith, O.asym a b, lt_irrefl a)

  pub clamp_le : (lo hi x : A) → le lo hi ≡ true → le (max_of lo (min_of hi x)) hi ≡ true
  clamp_le lo hi x h = ground (arith, lt_irrefl hi, O.asym x hi, lt_irrefl lo)

  pub min_mono : (a x y : A) → le x y ≡ true → le (min_of a x) (min_of a y) ≡ true
  min_mono a x y h =
      ground (arith, lt_irrefl a, O.trans a x y, O.trans x y a, O.asym x a, O.asym y a)

  pub max_mono : (a x y : A) → le x y ≡ true → le (max_of a x) (max_of a y) ≡ true
  max_mono a x y h =
      ground (arith, lt_irrefl a, O.trans a x y, O.trans x y a, O.asym a y, O.asym a x)

  pub clamp_mono :
      (lo hi x y : A)
      → le x y ≡ true
      → le (max_of lo (min_of hi x)) (max_of lo (min_of hi y)) ≡ true
  clamp_mono lo hi x y h = max_mono lo (min_of hi x) (min_of hi y) (min_mono hi x y h)
