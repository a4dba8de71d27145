-- ===== src/Masking/Gate.antt =====
-- The gate of masking/gate.py: what a text that passed it can still hold.
use liviq.Base.{
  ◌≡◌, refl, sym, subst, Bool, true, false, ◌&&◌, not, some, List, [], ◌∷◌, arith, any, is_empty,
  filter, Text, contains, All, Bool-cases, inl, inr, ◌⊎◌,
}
use liviq.Masking.Defs.{Kind, Engine, MaskResult, patterns, detect_pii, mask, ensure_masked}

-- A text that may leave the process: no pattern is found in it, and none of the names stands in it.
pub record IsClean (e : Engine) (names : List Text) (t : Text) : Type 0 where
  pub no_pattern : All (λ k. e.search k t ≡ false) patterns
  pub no_name : All (λ n. (n ≡ []) ⊎ (contains n t ≡ false)) names

filter-eq-nil :
    (p : Kind → Bool) (ks : List Kind) → is_empty (filter p ks) ≡ true → All (λ k. p k ≡ false) ks
filter-eq-nil p [] h = tt
filter-eq-nil p (k ∷ ks) h = elim (Bool-cases (p k)) [
  | inl found ↦ absurd (ground arith)
  | inr clear ↦ (clear, filter-eq-nil p ks (ground arith))
]

any-eq-false :
    (t : Text) (names : List Text)
    → any (λ n. not (is_empty n) && contains n t) names ≡ false
    → All (λ n. (n ≡ []) ⊎ (contains n t ≡ false)) names
any-eq-false t [] h = tt
any-eq-false t ([] ∷ ns) h = (inl refl, any-eq-false t ns h)
any-eq-false t ((a ∷ n) ∷ ns) h = elim (Bool-cases (contains (a ∷ n) t)) [
  | inl found ↦ absurd (ground arith)
  | inr clear ↦ (inr clear, any-eq-false t ns (ground arith))
]

-- A text that passes the gate is clean.
pub ensure_masked-IsClean :
    (e : Engine) (text : Text) (names : List Text) (r : MaskResult)
    → ensure_masked e text names ≡ some r
    → (r ≡ mask e text names) × IsClean e names r.masked_text
unfolding ensure_masked
ensure_masked-IsClean e text names r h =
    let t = (mask e text names).masked_text in
    let dirty = any (λ (n : Text). not (is_empty n) && contains n t) names in
    elim (Bool-cases (is_empty (detect_pii e t))) [
      | inl clear ↦ elim (Bool-cases dirty) [
        | inl left ↦ absurd (ground arith)
        | inr gone ↦
            let same : r ≡ mask e text names = ground arith in
            (
              same,
              subst (λ (q : MaskResult). IsClean e names q.masked_text) (sym same)
                  (record {
                    no_pattern =
                        filter-eq-nil (λ k. e.search k t) patterns (unfold detect_pii in clear);
                    no_name = any-eq-false t names gone;
                  }),
            )
      ]
      | inr found ↦ absurd (ground arith)
    ]
