-- ===== src/Tests/Confidence.antt =====
-- Floats as thousandths.
use native.Mathlib.Nat.{
  div-mul-le_self, le-div_iff_mul-le, mul-le-mul_right, mul-le-mul_left, le_of_mul-le-mul_left,
}
use liviq.Base.{ℕ, ltb, ◌+◌, ◌*◌, ◌/◌, ◌<◌, ◌≤◌, ◌≡◌, refl, true, false, arith}
use liviq.Base.Float.{FloatLaws, AtMost}
use liviq.Confidence.{assess, implied, assess_mono}
use liviq.Tests.World.{thousandths}

quotient_mono : (a b c d : ℕ) → 0 < b → 0 < d → a * d ≤ c * b → a * 1000 / b ≤ c * 1000 / d
quotient_mono a b c d hb hd h =
    let q = a * 1000 / b in
    let below : q * b ≤ a * 1000 = div-mul-le_self (a * 1000) b in
    let scaled : q * b * d ≤ a * 1000 * d = mul-le-mul_right d below in
    (le-div_iff_mul-le hd).1
      (le_of_mul-le-mul_left {m = q * d} {n = c * 1000} {k = b} (omega (arith, scaled)) hb)

add_mono : (a b c d : ℕ) → ltb b a ≡ false → ltb d c ≡ false → ltb (b + d) (a + c) ≡ false
add_mono a b c d h k = ground arith

scale_mono : (a b c : ℕ) → ltb b a ≡ false → ltb (c * b / 1000) (c * a / 1000) ≡ false
scale_mono a b c h =
    let le : a ≤ b = ground arith in
    let scaled : c * a ≤ c * b = mul-le-mul_left c le in ground arith

at_most : (a b : ℕ) → a ≤ b → ltb b a ≡ false
at_most a b h = ground arith

pub thousandths-FloatLaws : FloatLaws thousandths
thousandths-FloatLaws = record {
  irrefl = λ a. ground arith;
  trans = λ a b c h k. ground arith;
  lt_le = λ a b h. ground arith;
  add_mono = λ a b c d h k. ground arith;
  sub_mono = λ a b c d h k. ground arith;
  mul_mono = λ a b c z h. scale_mono a b c h;
  round3_mono = λ a b h. h;
  of_nat_mono = λ m n h. ground arith;
  lit_mono = λ a b c d hb hd h. at_most _ _ (quotient_mono a b c d hb hd h);
}

-- 0.4 with an invalid reference, against 0.9 with valid ones.
assess_mono_example :
    AtMost thousandths (assess thousandths 400 false 1).score (assess thousandths 900 true 0).score
    × (implied
          (assess thousandths 900 true 0).should_fallback
          (assess thousandths 400 false 1).should_fallback
        ≡ true)
    × (implied
          (assess thousandths 900 true 0).needs_review
          (assess thousandths 400 false 1).needs_review
        ≡ true)
    × (implied
          (assess thousandths 400 false 1).should_fallback
          (assess thousandths 400 false 1).needs_review
        ≡ true)
assess_mono_example =
    assess_mono thousandths thousandths-FloatLaws 400 900 false true 1 0 refl (λ _. refl)
      (omega arith)
