-- ===== src/FeePeriods.antt =====
-- packages/ai-core/src/ai_core/tools/fees_common.py: how the words of a question become the months
-- and the scope of a bill. The regular expression and the current year are parameters.
pub mod Months
use liviq.Base.{
  ℕ, zero, suc, ◌+◌, ◌-◌, Bool, true, false, ◌&&◌, ◌||◌, not, Option, none, some, List, [], ◌∷◌,
  ◌++◌, map, if◌then◌else◌, ◌==◌, ltb, leb, is_empty, is_some, filter, length, Text, codes, strip,
  mem_text, join,
}
use liviq.Base.Decimal.{dec}

-- The groups of `_MONTH_TOKEN`: the year, the month, and whether the marker stands behind it.
pub record MonthMatch : Type 0 where
  pub year : Option ℕ
  pub month : ℕ
  pub marker : Bool

-- `f"{n:04d}"` and the like: zeros up to a width
abbrev pub zeros : ℕ → Text
zeros zero = []
zeros (suc n) = 48 ∷ zeros n

abbrev pub padded : ℕ → ℕ → Text
padded width n = zeros (width - length (dec n)) ++ dec n

-- `value.split(",")`
unfoldable pub split_from : Text → Text → List Text
split_from current [] = current ∷ []
split_from current (c ∷ s) =
    let rest = split_from (if c == 44 then [] else current ++ c ∷ []) s in
    if c == 44 then current ∷ rest else rest

abbrev pub printed_month : ℕ → ℕ → Text
printed_month year month = padded 4 year ++ (45 ∷ padded 2 month)

-- `all` of the list, or none
unfoldable pub all_some : List (Option Text) → Option (List Text)
all_some [] = some []
all_some (o ∷ os) = elim o [
  | none ↦ none
  | some t ↦ elim (all_some os) [ none ↦ none | some ts ↦ some (t ∷ ts) ]
]

module _ (is_space : ℕ → Bool) (match : Text → Option MonthMatch) (this_year : ℕ) where
  -- `fold_period_token`
  unfoldable pub fold_period_token : Text → Bool → Option Text
  fold_period_token value require_marker = elim (match (strip is_space value)) [
    | none ↦ none
    | some m ↦
        if require_marker && not (is_some m.year || m.marker)
        then none
        else if not (leb 1 m.month && leb m.month 12)
        then none
        else some (printed_month (elim m.year [ some y ↦ y | none ↦ this_year ]) m.month)
  ]

  -- `fold_periods`, on a text
  unfoldable pub fold_periods : Text → Text
  fold_periods value =
      if is_empty (strip is_space value)
      then value
      else elim (all_some (map (λ part. fold_period_token part false) (split_from [] value))) [
        | none ↦ value
        | some months ↦ join (44 ∷ []) months
      ]
