-- ===== src/FeeComparison/Arguments.antt =====
-- packages/ai-core/src/ai_core/tools/fees_compare.py: `CompareFeesArgs`, with the folding of targets
-- in fees_common.py. Python's tables of characters and the month of a token are parameters.
use liviq.Base.{
  ℕ, Bool, true, ◌&&◌, ◌||◌, not, Option, none, some, List, [], ◌∷◌, ◌++◌, map, if◌then◌else◌, leb,
  is_empty, filter, length, Text, codes, strip, mem_text, join, is_some,
}
use liviq.Base.Sort.{sorted}
use liviq.Budget.{text_ltb}
use liviq.FeePeriods.{MonthMatch, split_from, fold_period_token, fold_periods}
use liviq.FeeComparison.{self_scope, complex_scope, compact}

abbrev pub min_targets : ℕ
min_targets = 2

abbrev pub max_targets : ℕ
max_targets = 4

abbrev pub min_periods : ℕ
min_periods = 2

abbrev pub null_literals : List Text
null_literals = [] ∷ codes "null" ∷ codes "none" ∷ []

abbrev pub self_scope_words : List Text
self_scope_words =
    codes "본인"
    ∷ codes "본인세대"
    ∷ codes "우리집"
    ∷ codes "우리세대"
    ∷ codes "내집"
    ∷ codes "자기집"
    ∷ codes "세대"
    ∷ codes "나"
    ∷ codes "나의"
    ∷ codes "나의집"
    ∷ codes "저"
    ∷ codes "저희"
    ∷ codes "저희집"
    ∷ codes "우리"
    ∷ codes "내"
    ∷ []

abbrev pub complex_scope_words : List Text
complex_scope_words =
    codes "전체"
    ∷ codes "단지"
    ∷ codes "단지전체"
    ∷ codes "전체단지"
    ∷ codes "전체동"
    ∷ codes "모든동"
    ∷ codes "아파트전체"
    ∷ codes "우리단지"
    ∷ codes "전세대"
    ∷ codes "아파트"
    ∷ codes "아파트평균"
    ∷ codes "전체평균"
    ∷ []

-- The characters of Python and the months of the tokens.
pub record Reading : Type 0 where
  pub is_space : ℕ → Bool
  pub lower : Text → Text
  pub is_digits : Text → Bool
  pub match : Text → Option MonthMatch
  pub this_year : ℕ

pub record CompareFeesArgs : Type 0 where
  pub targets : Option Text
  pub period : Option Text
  pub item : Option Text

-- `x or None` of a text
abbrev pub or_none : Text → Option Text
or_none s = if is_empty s then none else some s

unfoldable pub somes : {A : Type 0} → List (Option A) → List A
somes [] = []
somes (none ∷ os) = somes os
somes (some a ∷ os) = a ∷ somes os

-- `dict.fromkeys` behind what was seen
unfoldable pub distinct : List Text → List Text → List Text
distinct seen [] = []
distinct seen (t ∷ ts) =
    let rest = distinct (seen ++ (t ∷ [])) ts in if mem_text t seen then rest else t ∷ rest

module _ (reading : Reading) where
  open reading use {is_space, lower, is_digits, match, this_year}

  abbrev pub fold_null_literal : Text → Option Text
  fold_null_literal value =
      if mem_text (lower (strip is_space value)) null_literals then none else some value

  unfoldable pub fold_scope : Text → Option Text
  fold_scope value =
      let raw = strip is_space value in
      if mem_text (lower raw) null_literals
      then none
      else if mem_text (compact raw) self_scope_words
      then some self_scope
      else if mem_text (compact raw) complex_scope_words
      then some complex_scope
      else some (if is_digits raw then raw ++ codes "동" else raw)

  abbrev pub month_of : Text → Option Text
  month_of token = fold_period_token is_space match this_year token true

  -- `_move_months_out_of_targets`
  unfoldable pub move_months_out_of_targets : CompareFeesArgs → CompareFeesArgs
  move_months_out_of_targets given = elim given.targets [
    | none ↦ given
    | some raw_targets ↦
        let parts =
          filter (λ p. not (is_empty p)) (map (strip is_space) (split_from [] raw_targets)) in
        let months = somes (map month_of parts) in
        if is_empty months
        then given
        else (let period : Text = elim given.period [
          | none ↦ []
          | some value ↦ elim (fold_null_literal value) [ none ↦ [] | some kept ↦ kept ]
        ] in
            record given {
              targets = or_none (join (44 ∷ []) (filter (λ p. not (is_some (month_of p))) parts));
              period = some (
                  join (44 ∷ []) (
                    filter (λ p. not (is_empty p))
                      (map (strip is_space) (months ++ split_from [] period))));
            })
  ]

  -- `_normalize_targets`
  unfoldable pub normalize_targets : Text → Option Text
  normalize_targets value =
      or_none (join (44 ∷ []) (distinct [] (somes (map fold_scope (split_from [] value)))))

  abbrev pub fold_field : Option Text → Option Text
  fold_field none = none
  fold_field (some value) = elim (fold_null_literal value) [
    | none ↦ none
    | some kept ↦ some (fold_periods is_space match this_year kept)
  ]

  unfoldable pub target_tokens : CompareFeesArgs → List Text
  target_tokens a = elim a.targets [
    | none ↦ []
    | some targets ↦ if is_empty targets then [] else split_from [] targets
  ]

  unfoldable pub requested_periods : CompareFeesArgs → List Text
  requested_periods a = elim a.period [
    | none ↦ []
    | some period ↦
        if is_empty period
        then []
        else sorted text_ltb (distinct [] (map (strip is_space) (split_from [] period)))
  ]

  abbrev pub last_of : List Text → Option Text
  last_of [] = none
  last_of (t ∷ ts) = elim ts [ [] ↦ some t | _ ∷ _ ↦ last_of ts ]

  abbrev pub requested_period : CompareFeesArgs → Option Text
  requested_period a = last_of (requested_periods a)

  abbrev pub is_period_axis : CompareFeesArgs → Bool
  is_period_axis a = leb min_periods (length (requested_periods a))

  -- `_require_targets_for_target_axis`
  abbrev pub has_targets : CompareFeesArgs → Bool
  has_targets a =
      is_period_axis a
      || (leb min_targets (length (target_tokens a)) && leb (length (target_tokens a)) max_targets)

  -- `CompareFeesArgs.model_validate`, where `matches` tests the pattern of the period
  unfoldable pub validated : (Text → Bool) → CompareFeesArgs → Option CompareFeesArgs
  validated matches given =
      let moved = move_months_out_of_targets given in
      let period = fold_field moved.period in
      let a : CompareFeesArgs = record {
        targets = elim moved.targets [ none ↦ none | some value ↦ normalize_targets value ];
        period = period;
        item = fold_field moved.item;
      } in
      let fits : Bool = elim period [ none ↦ true | some value ↦ matches value ] in
      if fits && has_targets a then some a else none
