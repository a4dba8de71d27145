-- ===== src/Base/Float.antt =====
-- Python's floats. What the code computes with is a record of operations, and what the proofs
-- rely on is that order and rounding are monotone, as IEEE 754 states.
use Prim.Native.Nat.{ℕ, ◌≤◌, ◌*◌, ◌<◌}
use mathlib.Core.Path.{◌≡◌}
use mathlib.Core.Bool.{Bool, true, false}
use liviq.Base.Tests.{if◌then◌else◌}

pub record Float : Type 1 where
  pub F : Type 0
  pub lt : F → F → Bool
  pub add : F → F → F
  pub sub : F → F → F
  pub mul : F → F → F
  -- `round(x, 3)`
  pub round3 : F → F
  pub of_nat : ℕ → F
  -- the literal n / d
  pub lit : ℕ → ℕ → F

module _ (f : Float) where
  open f use {F, lt, add, sub, mul, round3, of_nat, lit}

  -- `a <= b`, for numbers that are not NaN
  abbrev pub AtMost : F → F → Type 0
  AtMost a b = lt b a ≡ false

  -- `max(a, b)` and `min(a, b)` keep the first argument unless the second is strictly better
  abbrev pub max_of : F → F → F
  max_of a b = if lt a b then b else a

  abbrev pub min_of : F → F → F
  min_of a b = if lt b a then b else a

  -- The laws, on a range without NaN.
  pub record FloatLaws : Type 0 where
    pub irrefl : (a : F) → AtMost a a
    pub trans : (a b c : F) → AtMost a b → AtMost b c → AtMost a c
    pub lt_le : (a b : F) → lt a b ≡ true → AtMost a b
    pub add_mono : (a b c d : F) → AtMost a b → AtMost c d → AtMost (add a c) (add b d)
    pub sub_mono : (a b c d : F) → AtMost a b → AtMost c d → AtMost (sub a d) (sub b c)
    pub mul_mono : (a b c : F) → AtMost (lit 0 1) c → AtMost a b → AtMost (mul c a) (mul c b)
    pub round3_mono : (a b : F) → AtMost a b → AtMost (round3 a) (round3 b)
    pub of_nat_mono : (m n : ℕ) → m ≤ n → AtMost (of_nat m) (of_nat n)
    pub lit_mono : (a b c d : ℕ) → 0 < b → 0 < d → a * d ≤ c * b → AtMost (lit a b) (lit c d)
