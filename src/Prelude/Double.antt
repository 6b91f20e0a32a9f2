-- ===== src/Prelude/Double.antt =====
-- What the programs do with a `double`: the constants 0.0 and 1.0, sums, differences and comparisons.
-- IEEE 754 arithmetic is not part of the sources: it is a parameter, with the laws that are used.
use mathlib.Core.Path.{◌≡◌}
use mathlib.Core.Bool.{Bool, true, false}
use native.Mathlib.Omega.{arith}
use architecture_course.Prelude.Tests.{if◌then◌else◌}
use architecture_course.Prelude.Int.{ℤ, pos, ◌+ℤ◌, ◌-ℤ◌, ltb_ℤ, leb_ℤ}

pub record Double {ℓ} (W : Type ℓ) : Type ℓ where
  pub nought : W
  pub unit : W
  pub lt : W → W → Bool
  pub le : W → W → Bool
  pub add : W → W → W
  pub sub : W → W → W

module _ {ℓ} {W : Type ℓ} ⦃d : Double W⦄ where
  infix 50 ◌≼◌ ◌≺◌
  -- `x <= y` and `x < y` hold. A number is a value `x` with `x <= x`: every double but NaN.
  abbrev pub ◌≼◌ : W → W → Type 0
  x ≼ y = d.le x y ≡ true

  abbrev pub ◌≺◌ : W → W → Type 0
  x ≺ y = d.lt x y ≡ true

  -- `std::min`
  abbrev pub least : W → W → W
  least x y = if d.lt y x then y else x

-- Laws of IEEE 754 doubles, NaN and the infinities included.
pub record IsIeee {ℓ} (W : Type ℓ) ⦃d : Double W⦄ : Type ℓ where
  pub le_trans : (x y z : W) → x ≼ y → y ≼ z → x ≼ z
  pub le_of_lt : (x y : W) → x ≺ y → x ≼ y
  pub le_add_unit : (x y : W) → d.add x d.unit ≼ y → x ≼ d.add x d.unit
  pub sub_nonneg : (x y : W) → d.lt x y ≡ false → d.lt (d.sub x y) d.nought ≡ false

-- The laws can be met: amounts in whole cents.
abbrev pub Cents : Type 0
Cents = ℤ

instance abbrev pub cents_double : Double Cents
cents_double = record {
  nought = pos 0;
  unit = pos 100;
  lt = ltb_ℤ;
  le = leb_ℤ;
  add = ◌+ℤ◌;
  sub = ◌-ℤ◌;
}

cents_le_trans : (x y z : Cents) → x ≼ y → y ≼ z → x ≼ z
cents_le_trans x y z h k = ground arith

cents_le_of_lt : (x y : Cents) → x ≺ y → x ≼ y
cents_le_of_lt x y h = ground arith

cents_le_add_unit : (x y : Cents) → (x +ℤ pos 100) ≼ y → x ≼ (x +ℤ pos 100)
cents_le_add_unit x y h = ground arith

cents_sub_nonneg : (x y : Cents) → ltb_ℤ x y ≡ false → ltb_ℤ (x -ℤ y) (pos 0) ≡ false
cents_sub_nonneg x y h = ground arith

pub Cents-IsIeee : IsIeee Cents
Cents-IsIeee = record {
  le_trans = cents_le_trans;
  le_of_lt = cents_le_of_lt;
  le_add_unit = cents_le_add_unit;
  sub_nonneg = cents_sub_nonneg;
}
