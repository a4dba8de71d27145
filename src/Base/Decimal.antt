-- ===== src/Base/Decimal.antt =====
-- `str(n)` of a Python integer that is not negative, and `int(s)` of such a text.
use liviq.Base.Tests.{ltb, if◌then◌else◌, Bool-cases}
use liviq.Base.Texts.{Text}
use liviq.Base.Lists.{All}
use Prim.Native.Nat.{ℕ, zero, suc, ◌+◌, ◌-◌, ◌*◌, ◌/◌, ◌%◌, ◌<◌}
use mathlib.Core.Path.{◌≡◌, refl, sym, ap, ◌∙◌}
use mathlib.Core.Logic.{inl, inr}
use mathlib.Core.List.{[], ◌∷◌}
use native.Mathlib.Omega.{arith}

digits : ℕ → ℕ → Text → Text
digits zero n acc = acc
digits (suc f) n acc =
    let rest = digits f (n / 10) ((48 + n % 10) ∷ acc) in if ltb n 10 then (48 + n) ∷ acc else rest

unfoldable pub dec : ℕ → Text
unfolding digits
dec n = digits (suc n) n []

unfoldable pub value : ℕ → Text → ℕ
value acc [] = acc
value acc (d ∷ ds) = value (acc * 10 + (d - 48)) ds

value-digits : (f n : ℕ) (acc : Text) → n < f → value 0 (digits f n acc) ≡ value n acc
unfolding digits value
value-digits zero n acc h = absurd (omega arith)
value-digits (suc f) n acc h = elim (Bool-cases (ltb n 10)) [
  | inl small ↦ rw small (ap (λ (m : ℕ). value m acc) (omega arith))
  | inr large ↦ rw large (
      value-digits f (n / 10) ((48 + n % 10) ∷ acc) (ground arith)
      ∙ ap (λ (m : ℕ). value m acc) (omega arith))
]

pub value-dec : (n : ℕ) → value 0 (dec n) ≡ n
unfolding dec value
value-dec n = value-digits (suc n) n [] (omega arith)

-- Two numbers that print alike are equal.
pub dec_injective : (m n : ℕ) → dec m ≡ dec n → m ≡ n
dec_injective m n e = sym (value-dec m) ∙ ap (value 0) e ∙ value-dec n

-- A character of a printed number.
abbrev pub IsDigit : ℕ → Type 0
IsDigit c = (d : ℕ) × (d < 10) × (c ≡ 48 + d)

digits-IsDigit : (f n : ℕ) (acc : Text) → All IsDigit acc → All IsDigit (digits f n acc)
unfolding digits
digits-IsDigit zero n acc h = h
digits-IsDigit (suc f) n acc h = elim (Bool-cases (ltb n 10)) [
  | inl small ↦ rw small ((n, ground arith, refl), h)
  | inr large ↦
      rw large (digits-IsDigit f (n / 10) ((48 + n % 10) ∷ acc) ((n % 10, omega arith, refl), h))
]

-- A printed number is digits, and at least one.
pub dec-IsDigit : (n : ℕ) → All IsDigit (dec n)
unfolding dec
dec-IsDigit n = digits-IsDigit (suc n) n [] tt

digits_nonempty : (f n a : ℕ) (acc : Text) → (c : ℕ) × (s : Text) × (digits f n (a ∷ acc) ≡ c ∷ s)
unfolding digits
digits_nonempty zero n a acc = (a, acc, refl)
digits_nonempty (suc f) n a acc = elim (Bool-cases (ltb n 10)) [
  | inl small ↦ (48 + n, a ∷ acc, rw small)
  | inr large ↦ rw large (digits_nonempty f (n / 10) (48 + n % 10) (a ∷ acc))
]

pub dec_nonempty : (n : ℕ) → (c : ℕ) × (s : Text) × (dec n ≡ c ∷ s)
unfolding dec digits
dec_nonempty n = elim (Bool-cases (ltb n 10)) [
  | inl small ↦ (48 + n, [], rw small)
  | inr large ↦ rw large (digits_nonempty n (n / 10) (48 + n % 10) [])
]
