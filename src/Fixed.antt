-- ===== src/Fixed.antt =====
-- Numbers with three decimals, from zero up to a greatest one: a float type to evaluate the model
-- with, and an order that satisfies the laws.
use Prim.Native.Nat.{min}
use ev_charge_controller.Prelude.{ℕ, ◌+◌, ◌-◌, ◌*◌, ◌/◌, ◌^◌, ℤ, pos, negsuc, arith, ltb}
use ev_charge_controller.Float.{Float, FloatOrder, FloatNonneg}

abbrev pub Fixed : Type 0
Fixed = ℕ

abbrev top : ℕ
top = 10 ^ 30

abbrev fixed_of_int : ℤ → ℕ
fixed_of_int (pos n) = n * 1000
fixed_of_int (negsuc _) = 0

instance abbrev pub fixed : Float ℕ
fixed = record {
  lit = λ n d. n * 1000 / d;
  of_int = fixed_of_int;
  add = λ a b. a + b;
  sub = λ a b. a - b;
  mul = λ a b. a * b / 1000;
  div = λ a b. a * 1000 / b;
  lt = λ a b. ltb (min a top) (min b top);
  ceil = λ a. (a + 999) / 1000;
  max_float = top;
}

pub fixed-FloatOrder : FloatOrder fixed
fixed-FloatOrder = record {
  asym = λ a b h. ground arith;
  trans = λ a b c h k. ground arith;
  le_max = λ a. ground arith;
}

pub fixed-FloatNonneg : FloatNonneg fixed
fixed-FloatNonneg = record {
  add_nonneg = λ a b h k. ground arith;
  mul_nonneg = λ a b h k. ground arith;
}
