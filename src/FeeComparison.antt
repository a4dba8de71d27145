-- ===== src/FeeComparison.antt =====
-- packages/ai-core/src/ai_core/tools/fees_compare.py and fees_common.py: what a bill, a building and
-- the whole complex are compared by. The rows that the SQL queries give are parameters.
pub mod Arguments
pub mod Answer
pub mod Disclosed
use liviq.Base.{
  ℕ, suc, ◌+◌, ◌-◌, Bool, true, false, ◌&&◌, ◌||◌, not, Option, none, some, List, [], ◌∷◌, ◌++◌,
  map, if◌then◌else◌, ◌==◌, ltb, leb, is_empty, filter, any, length, Text, codes, text_eq, strip,
  contains, mem_text, join,
}
use liviq.Base.Int.{ℤ, pos, negsuc, pos_part, neg_part}
use liviq.Base.Decimal.{dec}
use liviq.Base.Sort.{sorted}
use liviq.Budget.{text_ltb}
use liviq.FeePeriods.{split_from}

abbrev pub min_peer_sample : ℕ
min_peer_sample = 10

abbrev pub complex_scope : Text
complex_scope = codes "__complex__"

abbrev pub self_scope : Text
self_scope = codes "__self__"

abbrev pub self_label : Text
self_label = codes "우리집"

abbrev pub complex_label : Text
complex_label = codes "단지 전체"

-- An entry of `fees.breakdown` that is a dict, with what `get` gives for a missing key.
pub record Entry : Type 0 where
  pub name : Text
  pub level : ℤ
  pub amount : ℤ

-- The list, with none for an entry that is no dict; the earlier format; or neither.
pub data Breakdown : Type 0 where
  entries : List (Option Entry) → Breakdown
  earlier : List (Text × ℤ) → Breakdown
  unknown : Breakdown

abbrev is_level : ℕ → ℤ → Bool
is_level n (pos m) = n == m
is_level n (negsuc m) = false

abbrev positive : ℤ → Bool
positive z = ltb 0 (pos_part z)

unfoldable pub top_items : List (Option Entry) → List (Text × ℤ)
top_items [] = []
top_items (none ∷ es) = top_items es
top_items (some e ∷ es) =
    let rest = top_items es in
    if is_empty e.name || (text_eq e.name (codes "합계") || not (is_level 0 e.level))
    then rest
    else (e.name, e.amount) ∷ rest

unfoldable pub breakdown_items : Breakdown → List (Text × ℤ)
breakdown_items (entries es) = top_items es
breakdown_items (earlier items) = items
breakdown_items unknown = []

unfoldable pub detail_items : List (Option Entry) → List (Text × ℤ)
detail_items [] = []
detail_items (none ∷ es) = detail_items es
detail_items (some e ∷ es) =
    let rest = detail_items es in
    if (is_empty e.name || (text_eq e.name (codes "합계") || not (positive e.amount)))
      || not (is_level 1 e.level || is_level 2 e.level)
    then rest
    else (e.name, e.amount) ∷ rest

unfoldable pub fee_detail_items : Breakdown → List (Text × ℤ)
fee_detail_items (entries es) = detail_items es
fee_detail_items _ = []

pub record UserRow : Type 0 where
  pub household_id : Option Text
  -- the month of `approved_at`
  pub approved : Option Text

pub record FeeRow : Type 0 where
  pub total_amount : Option ℤ
  pub breakdown : Breakdown

pub record TotalRow : Type 0 where
  pub avg_total : Option ℤ
  pub sample_size : Option ℕ

-- What the queries give for the complex and the user of the context. `dong` are the names of a
-- building.
pub record Queries : Type 0 where
  pub user : Option UserRow
  pub fee : (household_id period : Text) → Option FeeRow
  pub latest_period : Option Text
  pub complex_total : (period : Text) → Option TotalRow
  pub dong_total : (dong : List Text) (period : Text) → Option TotalRow
  pub complex_items : (period : Text) → List (Text × Option ℤ)
  pub dong_items : (dong : List Text) (period : Text) → List (Text × Option ℤ)

pub record SelfHousehold : Type 0 where
  pub household_id : Text
  pub approved : Text

unfoldable pub self_household : Queries → Option SelfHousehold
self_household q = elim q.user [
  | none ↦ none
  | some row ↦ elim row.household_id [
    | none ↦ none
    | some id ↦ some (record {
      household_id = id;
      approved = elim row.approved [ none ↦ codes "9999-12" | some month ↦ month ];
    })
  ]
]

unfoldable pub latest_confirmed_period : Queries → Option Text
latest_confirmed_period q = elim q.latest_period [
  | none ↦ none
  | some period ↦ if is_empty period then none else some period
]

pub data TargetKind : Type 0 where
  own dong complex : TargetKind

pub record CompareRow : Type 0 where
  pub label : Text
  pub kind : TargetKind
  pub amount : Option ℤ
  pub sample_size : Option ℕ
  pub note : Text

pub record Resolved : Type 0 where
  pub row : CompareRow
  pub item_name : Text
  pub candidates : List Text

unfoldable pub label_of : Text → Text
label_of token =
    if text_eq token self_scope
    then self_label
    else if text_eq token complex_scope
    then complex_label
    else token

abbrev pub unavailable : Text → TargetKind → Text → List Text → Resolved
unavailable label kind note candidates = record {
  row = record { label = label; kind = kind; amount = none; sample_size = none; note = note };
  item_name = [];
  candidates = candidates;
}

abbrev pub found : Text → TargetKind → ℤ → Option ℕ → Text → Resolved
found label kind amount sample_size item_name = record {
  row = record {
    label = label;
    kind = kind;
    amount = some amount;
    sample_size = sample_size;
    note = [];
  };
  item_name = item_name;
  candidates = [];
}

abbrev pub compact : Text → Text
compact s = filter (λ c. not (c == 32)) s

-- The first exact match, or else the only partial one
unfoldable pub chosen : List (Text × ℤ) → List (Text × ℤ) → Option (Text × ℤ) × List Text
chosen (i ∷ _) partial = (some i, [])
chosen [] [] = (none, [])
chosen [] (i ∷ rest) =
    if is_empty rest then (some i, []) else (none, map (λ (j : Text × ℤ). j.0) (i ∷ rest))

unfoldable pub pick_item : Text → List (Text × ℤ) → Option (Text × ℤ) × List Text
pick_item query items =
    chosen (filter (λ (i : Text × ℤ). text_eq (compact i.0) (compact query)) items)
      (filter (λ (i : Text × ℤ). contains (compact query) (compact i.0)) items)

unfoldable pub of_picked :
    Text → TargetKind → Option ℕ → Text → Option (Text × ℤ) × List Text → Resolved
of_picked label kind sample_size item (none, candidates) =
    unavailable label kind (codes "'" ++ (item ++ codes "' 항목 없음")) candidates
of_picked label kind sample_size item (some (name, amount), candidates) =
    found label kind amount sample_size name

-- The value of an item, or the candidates for its name
unfoldable pub of_item : Text → TargetKind → Option ℕ → Text → List (Text × ℤ) → Resolved
of_item label kind sample_size item items =
    of_picked label kind sample_size item (pick_item item items)

unfoldable pub own_value : Breakdown → Option Text → Option ℤ → Resolved
own_value breakdown item none = unavailable self_label own (codes "관리비 내역 없음") []
own_value breakdown none (some total) = found self_label own total none []
own_value breakdown (some item) (some total) =
    of_item self_label own none item (breakdown_items breakdown ++ fee_detail_items breakdown)

unfoldable pub of_fee : Option Text → Option FeeRow → Resolved
of_fee item none = unavailable self_label own (codes "관리비 내역 없음") []
of_fee item (some fee) = own_value fee.breakdown item fee.total_amount

unfoldable pub of_household : Queries → Text → Option Text → Option SelfHousehold → Resolved
of_household q period item none = unavailable self_label own (codes "세대 미배정으로 확인 불가") []
of_household q period item (some me) =
    if text_ltb period me.approved
    then unavailable self_label own (codes "입주 승인 이전이라 확인 불가") []
    else of_fee item (q.fee me.household_id period)

unfoldable pub self_target : Queries → Text → Option Text → Resolved
self_target q period item = of_household q period item (self_household q)
