-- ===== src/Floats.antt =====
-- The single-precision arithmetic that distances use: a type, its operations, and the one law that
-- the proofs rest on. Values are numbers (a NaN is none): comparisons of such values agree with
-- those of their ranks, the sign-magnitude reading of the bit pattern with both zeros at one rank.
use ccann.Prelude.{ℕ, ◌/◌, ◌*◌, Bool, ltb, ◌==◌}

pub record Floats : Type 1 where
  pub Float : Type 0
  pub rank : Float → ℕ
  pub div : Float → Float → Float
  pub mul : Float → Float → Float
  pub zero_float : Float
  pub one_float : Float
  -- 1.2f
  pub growth : Float
  -- 1 - 1e-5
  pub almost_one : Float
  -- std::numeric_limits<float>::max()
  pub max_float : Float

module _ (F : Floats) where
  open F use {Float, rank}

  -- `a < b`, `a > b`, `a == b` on floats
  abbrev pub flt : Float → Float → Bool
  flt a b = ltb (rank a) (rank b)

  abbrev pub feq : Float → Float → Bool
  feq a b = rank a == rank b

-- Hundredths as floats, for concrete runs.
abbrev pub hundredths : Floats
hundredths = record {
  Float = ℕ;
  rank = λ x. x;
  div = λ x y. x * 100 / y;
  mul = λ x y. x * y / 100;
  zero_float = 0;
  one_float = 100;
  growth = 120;
  almost_one = 99;
  max_float = 1000000;
}
