-- ===== src/FeePeriods/Months.antt =====
-- Folded periods are months of a calendar, all or none.
use liviq.Base.{
  ℕ, subst, ◌≤◌, ◌<◌, ◌≡◌, refl, sym, ◌⊎◌, inl, inr, Bool, true, false, ◌&&◌, Option, none, some,
  List, [], ◌∷◌, map, arith, leb, is_empty, Text, join, strip, Bool-cases, Option-cases,
  some_cancel,
}
use liviq.FeePeriods.{
  MonthMatch, fold_period_token, fold_periods, all_some, split_from, printed_month,
}

module _ (is_space : ℕ → Bool) (match : Text → Option MonthMatch) (this_year : ℕ) where
  -- A part that is read as a month of the calendar, and how that month is printed.
  pub record IsRead (part printed : Text) : Type 0 where
    pub found : MonthMatch
    pub matched : match (strip is_space part) ≡ some found
    pub first : 1 ≤ found.month
    pub last : found.month ≤ 12
    pub prints :
        printed ≡ printed_month (elim found.year [ some y ↦ y | none ↦ this_year ]) found.month

  -- A part that does not match, or whose month is none of the calendar.
  abbrev pub IsUnread : Text → Type 0
  IsUnread part =
      (match (strip is_space part) ≡ none)
      ⊎ ((m : MonthMatch) × (match (strip is_space part) ≡ some m)
          × ((m.month < 1) ⊎ (12 < m.month)))

  abbrev pub HasUnread : List Text → Type 0
  HasUnread [] = ⊥
  HasUnread (part ∷ parts) = IsUnread part ⊎ HasUnread parts

  -- The parts in order, each beside its month.
  abbrev pub AreRead : List Text → List Text → Type 0
  AreRead [] [] = Unit
  AreRead (part ∷ parts) (t ∷ ts) = IsRead part t × AreRead parts ts
  AreRead _ _ = ⊥

  token_of : Text → Option Text
  token_of part = fold_period_token is_space match this_year part false

  token_of-IsRead : (part t : Text) → token_of part ≡ some t → IsRead part t
  unfolding token_of fold_period_token
  token_of-IsRead part t h = elim (Option-cases (match (strip is_space part))) [
    | inl e ↦ absurd (none≢some (rw (e, fold_period_token) at h))
    | inr (m, e) ↦ elim (Bool-cases (leb 1 m.month && leb m.month 12)) [
      | inr out ↦ absurd (none≢some (rw (e, out, fold_period_token) at h))
      | inl within ↦ record {
        found = m;
        matched = e;
        first = ground arith;
        last = ground arith;
        prints = sym (some_cancel (rw (e, within, fold_period_token) at h));
      }
    ]
  ]
    where
      none≢some : {A : Type 0} {a : A} → (none ≡ some a) → ⊥
      none≢some q = cc

  token_of-IsUnread : (part : Text) → token_of part ≡ none → IsUnread part
  unfolding token_of fold_period_token
  token_of-IsUnread part h = elim (Option-cases (match (strip is_space part))) [
    | inl e ↦ inl e
    | inr (m, e) ↦ elim (Bool-cases (leb 1 m.month)) [
      | inr early ↦ inr (m, e, inl (ground arith))
      | inl first ↦ elim (Bool-cases (leb m.month 12)) [
        | inr late ↦ inr (m, e, inr (ground arith))
        | inl last ↦
            let g : some (printed_month (elim m.year [ some y ↦ y | none ↦ this_year ]) m.month)
                ≡ none =
              rw (e, first, last, fold_period_token) at h in
            cc
      ]
    ]
  ]

  all_some-AreRead :
      (parts months : List Text)
      → all_some (map token_of parts) ≡ some months
      → AreRead parts months
  unfolding all_some
  all_some-AreRead [] [] h = tt
  all_some-AreRead [] (t ∷ ts) h = cc
  all_some-AreRead (part ∷ parts) months h = elim (Option-cases (token_of part)) [
    | inl e ↦ let g : none ≡ some months = rw (e, all_some) at h in cc
    | inr (t, e) ↦ elim (Option-cases (all_some (map token_of parts))) [
      | inl f ↦ let g : none ≡ some months = rw (e, f, all_some) at h in cc
      | inr (ts, f) ↦
          subst (AreRead (part ∷ parts)) (some_cancel (rw (e, f, all_some) at h))
            (token_of-IsRead part t e, all_some-AreRead parts ts f)
    ]
  ]

  all_some-HasUnread : (parts : List Text) → all_some (map token_of parts) ≡ none → HasUnread parts
  unfolding all_some
  all_some-HasUnread [] h = cc
  all_some-HasUnread (part ∷ parts) h = elim (Option-cases (token_of part)) [
    | inl e ↦ inl (token_of-IsUnread part e)
    | inr (t, e) ↦ elim (Option-cases (all_some (map token_of parts))) [
      | inl f ↦ inr (all_some-HasUnread parts f)
      | inr (ts, f) ↦ let g : some (t ∷ ts) ≡ none = rw (e, f, all_some) at h in cc
    ]
  ]

  -- Whatever the regular expression matches: either the text stays as it is, and it is blank or
  -- has a part between commas that does not match or whose month is not from 1 to 12; or it is
  -- not blank, every part matches with a month from 1 to 12, and the text becomes those months in
  -- the order of the parts, each printed with its year, or with the current one where it has
  -- none, and joined by commas.
  pub fold_periods-AreRead :
      (value : Text)
      → ((fold_periods is_space match this_year value ≡ value)
          × ((is_empty (strip is_space value) ≡ true) ⊎ HasUnread (split_from [] value)))
        ⊎ ((is_empty (strip is_space value) ≡ false)
            × ((months : List Text) × (fold_periods is_space match this_year value
                  ≡ join (44 ∷ []) months)
                × AreRead (split_from [] value) months))
  unfolding fold_periods token_of
  fold_periods-AreRead value = elim (Bool-cases (is_empty (strip is_space value))) [
    | inl blank ↦ inl (rw (blank, fold_periods) refl, inl blank)
    | inr ink ↦ elim (Option-cases (all_some (map token_of (split_from [] value)))) [
      | inl e ↦
          inl (rw (ink, e, fold_periods) refl, inr (all_some-HasUnread (split_from [] value) e))
      | inr (months, e) ↦ inr (
        ink,
        (months, rw (ink, e, fold_periods) refl, all_some-AreRead (split_from [] value) months e),
      )
    ]
  ]
