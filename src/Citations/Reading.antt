-- ===== src/Citations/Reading.antt =====
-- Reading what was printed: a reference in an answer is found.
use mathlib.Core.List.{append_assoc}
use liviq.Base.{
  ℕ, ◌+◌, ◌-◌, ◌*◌, ◌<◌, ◌≡◌, refl, sym, ap, subst, ◌∙◌, Option, none, some, List, [], ◌∷◌, ◌++◌,
  arith, if◌then◌else◌, ◌==◌, Text, All, codes,
}
use liviq.Base.Decimal.{dec, value, value-dec, IsDigit, dec-IsDigit, dec_nonempty}
use liviq.Citations.{Scan, outside, opened, number, find_from, find_refs, advance, closes}

-- What the table of digits says of the characters that a reference is made of.
pub record ReadsDecimals (digit : ℕ → Option ℕ) : Type 0 where
  pub ascii : (d : ℕ) → d < 10 → digit (48 + d) ≡ some d
  pub no_bracket : digit 93 ≡ none

module _ (digit : ℕ → Option ℕ) (reads : ReadsDecimals digit) where
  step_number :
      (n d c : ℕ) (s : Text)
      → d < 10
      → c ≡ 48 + d
      → find_from digit (number n) (c ∷ s) ≡ find_from digit (number (n * 10 + (c - 48))) s
  unfolding find_from
  step_number n d c s lt e = ground (arith, ap digit e, reads.ascii d lt)

  step_opened :
      (d c : ℕ) (s : Text)
      → d < 10
      → c ≡ 48 + d
      → find_from digit opened (c ∷ s) ≡ find_from digit (number (0 * 10 + (c - 48))) s
  unfolding find_from
  step_opened d c s lt e = ground (arith, ap digit e, reads.ascii d lt)

  -- The digits of a number, behind the value read so far.
  find_from-digits :
      (n : ℕ) (s t : Text)
      → All IsDigit s
      → find_from digit (number n) (s ++ t) ≡ find_from digit (number (value n s)) t
  unfolding value
  find_from-digits n [] t h = refl
  find_from-digits n (c ∷ s) t ((d, lt, e), h) =
      step_number n d c (s ++ t) lt e ∙ find_from-digits (n * 10 + (c - 48)) s t h

  opened-digits :
      (c : ℕ) (s t : Text)
      → All IsDigit (c ∷ s)
      → find_from digit opened ((c ∷ s) ++ t) ≡ find_from digit (number (value 0 (c ∷ s))) t
  unfolding value
  opened-digits c s t ((d, lt, e), h) =
      step_opened d c (s ++ t) lt e ∙ find_from-digits (0 * 10 + (c - 48)) s t h

  opened-dec :
      (n : ℕ) (t : Text) → find_from digit opened (dec n ++ t) ≡ find_from digit (number n) t
  opened-dec n t =
      let (c, s, e) = dec_nonempty n in
      ap (λ (u : Text). find_from digit opened (u ++ t)) e
      ∙ opened-digits c s t (subst (All IsDigit) e (dec-IsDigit n))
      ∙ ap (λ (u : Text). find_from digit (number (value 0 u)) t) (sym e)
      ∙ ap (λ (m : ℕ). find_from digit (number m) t) (value-dec n)

  number-close : (n : ℕ) (t : Text) → find_from digit (number n) (93 ∷ t) ≡ n ∷ find_refs digit t
  unfolding find_from find_refs
  number-close n t = ground (arith, reads.no_bracket)

  find_from-reference :
      (st : Scan) (s : Text) (n : ℕ) (t : Text)
      → find_from digit st (s ++ (codes "[" ++ (dec n ++ (codes "]" ++ t))))
        ≡ find_from digit st s ++ (n ∷ find_refs digit t)
  unfolding find_from
  find_from-reference outside [] n t = opened-dec n (codes "]" ++ t) ∙ number-close n t
  find_from-reference opened [] n t = opened-dec n (codes "]" ++ t) ∙ number-close n t
  find_from-reference (number m) [] n t = opened-dec n (codes "]" ++ t) ∙ number-close n t
  find_from-reference st (c ∷ s) n t =
      let next = (if c == 91 then opened else advance digit st c) in
      ap (λ (ns : List ℕ). closes digit st c ++ ns) (find_from-reference next s n t)
      ∙ sym (append_assoc (closes digit st c) (find_from digit next s) (n ∷ find_refs digit t))

-- Whatever stands around it, a printed reference `[n]` is found, in its place, and nothing
-- before or behind it is read otherwise.
pub find_refs-reference :
    (digit : ℕ → Option ℕ) (s : Text) (n : ℕ) (t : Text)
    → ReadsDecimals digit
    → find_refs digit (s ++ (codes "[" ++ (dec n ++ (codes "]" ++ t))))
      ≡ find_refs digit s ++ (n ∷ find_refs digit t)
unfolding find_refs
find_refs-reference digit s n t reads = find_from-reference digit reads outside s n t
