-- ===== src/FeeComparison/Answer.antt =====
-- packages/ai-core/src/ai_core/tools/fees_compare.py: one value for each target or month, their
-- differences, and the texts of the card. How numbers are printed is a parameter.
use liviq.Base.{
  ℕ, ◌+◌, ◌-◌, Bool, false, ◌||◌, not, Option, none, some, List, [], ◌∷◌, ◌++◌, map, if◌then◌else◌,
  ◌==◌, ltb, leb, is_empty, filter, length, Text, codes, text_eq, strip, join, drop, take,
}
use mathlib.Core.List.{reverse}
use liviq.Base.Int.{ℤ, pos, negsuc, pos_part, neg_part}
use liviq.Base.Decimal.{dec}
use liviq.FeeComparison.{
  Queries, TotalRow, TargetKind, CompareRow, Resolved, dong, complex, min_peer_sample,
  complex_scope, self_scope, label_of, unavailable, found, of_item, self_target, self_household,
  latest_confirmed_period,
}
use liviq.FeeComparison.Arguments.{
  CompareFeesArgs, Reading, min_periods, target_tokens, requested_periods, requested_period,
  is_period_axis,
}

-- `int(x) - int(y)`
abbrev pub minus : ℤ → ℤ → ℤ
minus x y =
    let up = pos_part x + neg_part y in
    let down = neg_part x + pos_part y in
    if leb down up then pos (up - down) else negsuc (down - up - 1)

abbrev pub is_zero : ℤ → Bool
is_zero (pos n) = n == 0
is_zero (negsuc n) = false

unfoldable pub remove_suffix : Text → Text
remove_suffix scope = elim (reverse scope) [
  | [] ↦ scope
  | c ∷ cs ↦ if c == 46041 then reverse cs else scope
]

unfoldable pub dong_names : (ℕ → Bool) → Text → List Text
dong_names is_space scope =
    let bare = strip is_space (remove_suffix scope) in
    if is_empty bare || text_eq bare scope then scope ∷ [] else bare ∷ scope ∷ []

unfoldable pub known_items : List (Text × Option ℤ) → List (Text × ℤ)
known_items [] = []
known_items ((name, none) ∷ rows) = known_items rows
known_items ((name, some amount) ∷ rows) = (name, amount) ∷ known_items rows

unfoldable pub of_sample :
    Text → TargetKind → ℤ → ℕ → List (Text × Option ℤ) → Option Text → Resolved
of_sample label kind avg sample_size items none = found label kind avg (some sample_size) []
of_sample label kind avg sample_size items (some item) =
    of_item label kind (some sample_size) item (known_items items)

abbrev pub counted : Option ℕ → ℕ
counted none = 0
counted (some n) = n

unfoldable pub of_average :
    Text → TargetKind → ℕ → List (Text × Option ℤ) → Option Text → Option ℤ → Resolved
of_average label kind sample_size items item none = unavailable label kind (codes "관리비 데이터 없음") []
of_average label kind sample_size items item (some avg) =
    if sample_size == 0
    then unavailable label kind (codes "관리비 데이터 없음") []
    else if ltb sample_size min_peer_sample
    then unavailable label kind (codes "표본 " ++ (dec sample_size ++ codes "세대로 적어 비교 제외")) []
    else of_sample label kind avg sample_size items item

-- The aggregate of a building or of the complex, for samples that are large enough only
unfoldable pub aggregate :
    Text → TargetKind → Option TotalRow → List (Text × Option ℤ) → Option Text → Resolved
aggregate label kind none items item = unavailable label kind (codes "관리비 데이터 없음") []
aggregate label kind (some row) items item =
    of_average label kind (counted row.sample_size) items item row.avg_total

-- What Python prints: `f"{n:,}"`, and a rate of change, `round(d / b * 100, 1)`.
pub record Printing (R : Type 0) : Type 0 where
  pub money : ℤ → Text
  pub rate : ℤ → ℤ → R
  pub is_increase : R → Bool
  pub shown : R → Text

pub record FeeCard (R : Type 0) : Type 0 where
  pub title : Text
  pub quote : Text
  pub period : Text
  pub item : Text
  pub rows : List CompareRow
  pub base_label : Text
  pub diffs : List (Text × ℤ)
  -- the subject and the change, where months are compared
  pub change : Option (Text × Option R)

pub data FeeAnswer (R : Type 0) : Type 0 where
  card : FeeCard R → FeeAnswer R
  note : Text → FeeAnswer R

unfoldable pub ambiguous_note : Text → List Resolved → Text
ambiguous_note item [] = []
ambiguous_note item (r ∷ rs) =
    let rest = ambiguous_note item rs in
    if is_empty r.candidates
    then rest
    else codes "'"
      ++ (item
          ++ (codes "'에 해당하는 항목이 여러 개입니다: "
              ++ (join (codes ", ") r.candidates ++ codes ". 하나를 정확히 지정해 주세요.")))

unfoldable pub item_label : List Resolved → Text
item_label [] = []
item_label (r ∷ rs) = let rest = item_label rs in if is_empty r.item_name then rest else r.item_name

unfoldable pub comparable : List CompareRow → List (Text × ℤ)
comparable [] = []
comparable (r ∷ rs) = elim r.amount [
  | none ↦ comparable rs
  | some amount ↦ (r.label, amount) ∷ comparable rs
]

abbrev pub reasons : List CompareRow → Text
reasons rows = join (codes ", ") (
    map (λ (r : CompareRow). r.label ++ (32 ∷ r.note))
      (filter (λ (r : CompareRow). not (is_empty r.note)) rows))

-- The differences from a base
abbrev pub diffs_from : ℤ → List (Text × ℤ) → List (Text × ℤ)
diffs_from base others = map (λ (r : Text × ℤ). (r.0, minus base r.1)) others

module _ (reading : Reading) (q : Queries) where
  open reading use {is_space}

  unfoldable pub scope_target : Text → Text → Option Text → Resolved
  scope_target token period item =
      if text_eq token complex_scope
      then aggregate (label_of token) complex (q.complex_total period) (q.complex_items period) item
      else aggregate (label_of token) dong (q.dong_total (dong_names is_space token) period)
          (q.dong_items (dong_names is_space token) period) item

  unfoldable pub resolve_target : Text → Text → Option Text → Resolved
  resolve_target token period item =
      if text_eq token self_scope then self_target q period item else scope_target token period item

  unfoldable pub period_subject : CompareFeesArgs → Text
  period_subject a = elim (target_tokens reading a) [
    | t ∷ _ ↦ t
    | [] ↦ elim (self_household q) [ some _ ↦ self_scope | none ↦ complex_scope ]
  ]

  module _ {R : Type 0} (printing : Printing R) where
    open printing use {money, rate, is_increase, shown}

    abbrev pub plus_sign : Bool → Text
    plus_sign b = if b then 43 ∷ [] else []

    abbrev pub signed : ℤ → Text
    signed amount = plus_sign (neg_part amount == 0) ++ (money amount ++ codes "원")

    unfoldable pub amount_text : CompareRow → Text
    amount_text row = elim row.amount [
      | none ↦ row.label ++ (32 ∷ row.note)
      | some amount ↦ elim row.sample_size [
        | none ↦ row.label ++ (32 ∷ (money amount ++ codes "원"))
        | some n ↦
            row.label
            ++ (codes " 평균 " ++ (money amount ++ (codes "원(표본 " ++ (dec n ++ codes "세대)"))))
      ]
    ]

    abbrev pub labelled : Text → Text
    labelled item = if is_empty item then [] else codes "(" ++ (item ++ codes ")")

    unfoldable pub compare_quote : Text → Text → List CompareRow → Text → List (Text × ℤ) → Text
    compare_quote period item rows base_label diffs =
        (period ++ (codes " 관리비 비교" ++ labelled item))
        ++ (codes " — "
            ++ (join (codes " · ") (map amount_text rows) ++ elim diffs [
              | [] ↦ []
              | d ∷ ds ↦
                  if is_empty ds
                  then codes " · 차이 " ++ signed d.1
                  else codes " · "
                    ++ (base_label
                        ++ (codes " 기준 차이: "
                            ++ join (codes ", ")
                                (map (λ (x : Text × ℤ). x.0 ++ (32 ∷ signed x.1)) (d ∷ ds))))
            ]))

    unfoldable pub change_pct : ℤ → ℤ → Option R
    change_pct before after =
        if is_zero before then none else some (rate (minus after before) before)

    unfoldable pub period_quote :
        Text → Text → List CompareRow → List (Text × ℤ) → Option R → List Text → Text
    period_quote subject item rows diffs pct dropped =
        let rate_text : Text = elim pct [
          | none ↦ []
          | some r ↦ codes "(" ++ (plus_sign (is_increase r) ++ (shown r ++ codes "%)"))
        ] in
        (subject
          ++ (32
              ∷ (join (codes " vs ") (map (λ (r : CompareRow). r.label) rows)
                  ++ (codes " 관리비 비교" ++ labelled item))))
        ++ (codes " — "
            ++ (join (codes " · ") (map amount_text rows)
                ++ (elim diffs [ [] ↦ [] | d ∷ _ ↦ codes " · 증감 " ++ (signed d.1 ++ rate_text) ]
                    ++ (if is_empty dropped
                        then []
                        else codes " · 함께 물은 "
                          ++ (join (codes ", ") dropped ++ codes "은 이번 비교에서 제외(최근 두 달만 비교)")))))

    abbrev pub asked_item : CompareFeesArgs → Text
    asked_item a = elim a.item [ none ↦ codes "None" | some item ↦ item ]

    -- The answer for the rows whose amounts are known
    unfoldable pub targets_card : Text → Text → List CompareRow → List (Text × ℤ) → FeeAnswer R
    targets_card period item rows [] =
        note (period ++ (codes " 관리비를 비교할 수 있는 대상이 없습니다(" ++ (reasons rows ++ codes ").")))
    targets_card period item rows (base ∷ others) =
        let diffs = diffs_from base.1 others in
        card (record {
          title = period ++ codes " 관리비 비교";
          quote = compare_quote period item rows base.0 diffs;
          period = period;
          item = item;
          rows = rows;
          base_label = base.0;
          diffs = diffs;
          change = none;
        })

    unfoldable pub compare_targets : CompareFeesArgs → Text → FeeAnswer R
    compare_targets a period =
        let resolved = map (λ t. resolve_target t period a.item) (target_tokens reading a) in
        let ambiguous = ambiguous_note (asked_item a) resolved in
        let rows = map (λ (r : Resolved). r.row) resolved in
        if is_empty ambiguous
        then targets_card period (item_label resolved) rows (comparable rows)
        else note ambiguous

    -- The rows of the months, each with its month as label.
    unfoldable pub month_rows : List Resolved → List Text → List CompareRow
    month_rows (r ∷ rs) (p ∷ ps) = record r.row { label = p } ∷ month_rows rs ps
    month_rows _ _ = []

    -- The same for months, with the amounts that are known from the last month on
    unfoldable pub months_card :
        Text → List Text → List Text → Text → List CompareRow → List (Text × ℤ) → FeeAnswer R
    months_card subject window dropped item rows [] = note (
        subject
        ++ (32
            ∷ (join (codes " · ") window
                ++ (codes " 관리비를 비교할 수 있는 자료가 없습니다(" ++ (reasons rows ++ codes ").")))))
    months_card subject window dropped item rows (base ∷ others) =
        let label = join (codes " vs ") window in
        let earlier = reverse others in
        let diffs = diffs_from base.1 earlier in
        let pct : Option R = elim earlier [ [] ↦ none | e ∷ _ ↦ change_pct e.1 base.1 ] in
        card (record {
          title = label ++ codes " 관리비 비교";
          quote = period_quote subject item rows diffs pct dropped;
          period = label;
          item = item;
          rows = rows;
          base_label = base.0;
          diffs = diffs;
          change = some (subject, pct);
        })

    unfoldable pub compare_periods : CompareFeesArgs → FeeAnswer R
    compare_periods a =
        let periods = requested_periods reading a in
        let window = drop (length periods - min_periods) periods in
        let dropped = take (length periods - min_periods) periods in
        let token = period_subject a in
        let resolved = map (λ p. resolve_target token p a.item) window in
        let ambiguous = ambiguous_note (asked_item a) resolved in
        let rows = month_rows resolved window in
        if is_empty ambiguous
        then months_card (label_of token) window dropped (item_label resolved) rows
            (reverse (comparable rows))
        else note ambiguous

    -- `a.requested_period() or await latest_confirmed_period(…)`
    abbrev pub chosen_period : CompareFeesArgs → Option Text
    chosen_period a = elim (requested_period reading a) [
      | none ↦ latest_confirmed_period q
      | some period ↦ if is_empty period then latest_confirmed_period q else some period
    ]

    unfoldable pub compare_at : CompareFeesArgs → Option Text → FeeAnswer R
    compare_at a (some period) = compare_targets a period
    compare_at a none = note (codes "조회 가능한 관리비 내역이 없습니다.")

    -- `_compare_fees`
    unfoldable pub compare_fees : CompareFeesArgs → FeeAnswer R
    compare_fees a =
        if is_period_axis reading a then compare_periods a else compare_at a (chosen_period a)
