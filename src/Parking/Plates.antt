-- ===== src/Parking/Plates.antt =====
-- The made-up plates: the loop of `_external_plate` ends, at a plate that is not used.
use liviq.Base.{
  ℕ, zero, suc, ◌+◌, ◌*◌, ◌%◌, ◌<◌, ◌≤◌, ◌≡◌, refl, sym, ap, subst, true, false, ◌||◌, none, some,
  List, [], ◌∷◌, ◌++◌, arith, if◌then◌else◌, leb, length, get_elem?, any, Text, text_eq, text_eq→eq,
  mem_text, All, Bool-cases, Option-cases, inl, inr, some_cancel,
}
use liviq.Base.Decimal.{dec, IsDigit, dec-IsDigit, dec_injective}
use liviq.Parking.{plate, plate_letter, plate_letters, external_plate}

above_digits :
    (xs : Text) (i c : ℕ) → any (λ a. leb a 57) xs ≡ false → get_elem? xs i ≡ some c → 57 < c
above_digits [] i c h e = cc
above_digits (a ∷ xs) zero c h e = let s : a ≡ c = some_cancel e in ground arith
above_digits (a ∷ xs) (suc i) c h e = above_digits xs i c (ground arith) e

not_digit : (n : ℕ) → IsDigit (plate_letter n) → ⊥
not_digit n (d, small, e) = elim (Option-cases (get_elem? plate_letters (n % 15))) [
  | inl absent ↦ let f : 0 ≡ 48 + d = rw (absent, plate_letter) at e in omega arith
  | inr (c, found) ↦
      let f : c ≡ 48 + d = rw (found, plate_letter) at e in
      omega (arith, above_digits plate_letters (n % 15) c refl found)
]

same_head : {a b : ℕ} {s t : Text} → a ∷ s ≡ b ∷ t → a ≡ b
same_head e = cc

same_tail : {a b : ℕ} {s t : Text} → a ∷ s ≡ b ∷ t → s ≡ t
same_tail e = cc

-- Two texts that begin with digits up to some other character begin with the same digits.
same_digits :
    (xs ys s t : Text) (c d : ℕ)
    → All IsDigit xs
    → All IsDigit ys
    → (IsDigit c → ⊥)
    → (IsDigit d → ⊥)
    → xs ++ (c ∷ s) ≡ ys ++ (d ∷ t)
    → xs ≡ ys
same_digits [] [] s t c d hx hy nc nd e = refl
same_digits [] (y ∷ ys) s t c d hx hy nc nd e = absurd (nc (subst IsDigit (sym (same_head e)) hy.0))
same_digits (x ∷ xs) [] s t c d hx hy nc nd e = absurd (nd (subst IsDigit (same_head e) hx.0))
same_digits (x ∷ xs) (y ∷ ys) s t c d hx hy nc nd e =
    let head : x ≡ y = same_head e in
    let tail : xs ++ (c ∷ s) ≡ ys ++ (d ∷ t) = same_tail e in
    let rest : xs ≡ ys = same_digits xs ys s t c d hx.1 hy.1 nc nd tail in cc

plate_injective : (m n : ℕ) → plate m ≡ plate n → m ≡ n
unfolding plate
plate_injective m n e = omega (
  arith,
  dec_injective (100 + m * 37) (100 + n * 37) (
      same_digits (dec (100 + m * 37)) (dec (100 + n * 37)) (dec (1000 + m * 137))
        (dec (1000 + n * 137)) (plate_letter m) (plate_letter n) (dec-IsDigit (100 + m * 37))
        (dec-IsDigit (100 + n * 37)) (not_digit m) (not_digit n) e),
)

-- The list without the first x.
remove : Text → List Text → List Text
remove x [] = []
remove x (y ∷ ys) = if text_eq x y then ys else y ∷ remove x ys

length-remove :
    (x : Text) (ys : List Text) → mem_text x ys ≡ true → suc (length (remove x ys)) ≡ length ys
unfolding remove mem_text
length-remove x [] h = cc
length-remove x (y ∷ ys) h = elim (Bool-cases (text_eq x y)) [
  | inl e ↦ rw (e, remove) refl
  | inr e ↦ rw (e, remove) (ap suc (length-remove x ys (rw (e, mem_text) at h)))
]

mem-remove :
    (x z : Text) (ys : List Text) → text_eq z x ≡ false → mem_text z (remove x ys) ≡ mem_text z ys
unfolding remove mem_text
mem-remove x z [] h = refl
mem-remove x z (y ∷ ys) h = elim (Bool-cases (text_eq x y)) [
  | inl e ↦
      let z_y : text_eq z y ≡ false =
        subst (λ (u : Text). text_eq z u ≡ false) (text_eq→eq x y e) h in
      rw (e, remove, z_y) refl
  | inr e ↦ rw (e, remove, mem_text) (ap (λ b. text_eq z y || b) (mem-remove x z ys h))
]

unlike : (m n : ℕ) → n < m → text_eq (plate m) (plate n) ≡ false
unlike m n h = elim (Bool-cases (text_eq (plate m) (plate n))) [
  | inr e ↦ e
  | inl e ↦ absurd (omega (arith, plate_injective m n (text_eq→eq (plate m) (plate n) e)))
]

external_plate-remove :
    (fuel m n : ℕ) (used : List Text)
    → n < m
    → (external_plate fuel m used ≡ none)
    → external_plate fuel m (remove (plate n) used) ≡ none
unfolding external_plate
external_plate-remove zero m n used h e = refl
external_plate-remove (suc fuel) m n used h e = elim (Bool-cases (mem_text (plate m) used)) [
  | inl taken ↦
      rw (mem-remove (plate n) (plate m) used (unlike m n h), taken, external_plate)
        (external_plate-remove fuel (suc m) n used (omega arith) (rw (taken, external_plate) at e))
  | inr new ↦ let f : some (plate m) ≡ none = rw (new, external_plate) at e in cc
]

-- Only a list as long as the fuel can hold every plate that is tried.
external_plate_none :
    (fuel n : ℕ) (used : List Text) → external_plate fuel n used ≡ none → fuel ≤ length used
unfolding external_plate
external_plate_none zero n used e = omega arith
external_plate_none (suc fuel) n used e = elim (Bool-cases (mem_text (plate n) used)) [
  | inl taken ↦ omega (
    arith,
    length-remove (plate n) used taken,
    external_plate_none fuel (suc n) (remove (plate n) used)
        (external_plate-remove fuel (suc n) n used (omega arith) (rw (taken, external_plate) at e)),
  )
  | inr new ↦ let f : some (plate n) ≡ none = rw (new, external_plate) at e in cc
]

external_plate_new :
    (fuel n : ℕ) (used : List Text) (p : Text)
    → external_plate fuel n used ≡ some p
    → mem_text p used ≡ false
unfolding external_plate
external_plate_new zero n used p e = cc
external_plate_new (suc fuel) n used p e = elim (Bool-cases (mem_text (plate n) used)) [
  | inl taken ↦ external_plate_new fuel (suc n) used p (rw (taken, external_plate) at e)
  | inr new ↦ rw (sym (some_cancel (rw (new, external_plate) at e))) new
]

-- With one more round than there are used plates, the loop finds a plate, and it is not used.
pub external_plate_finds :
    (n : ℕ) (used : List Text)
    → (p : Text) × (external_plate (suc (length used)) n used ≡ some p) × (mem_text p used ≡ false)
external_plate_finds n used = elim (Option-cases (external_plate (suc (length used)) n used)) [
  | inl e ↦ absurd (omega (arith, external_plate_none (suc (length used)) n used e))
  | inr (p, e) ↦ (p, e, external_plate_new (suc (length used)) n used p e)
]
