-- ===== src/FeeComparison/Disclosed.antt =====
-- Which amounts leave a comparison of bills.
use liviq.Base.{
  ℕ, ◌≡◌, ◌≤◌, refl, sym, subst, filter, ◌++◌, contains, text_eq→eq, Bool-cases, ◌⊎◌, inl, inr,
  Bool, true, false, Option, none, some, List, [], ◌∷◌, map, if◌then◌else◌, ltb, ◌==◌, Text,
  text_eq, All, is_empty, drop, take, length, ◌-◌, arith,
}
use mathlib.Core.List.{reverse, head-eq_of_cons-eq}
use liviq.Base.Int.{ℤ}
use liviq.FeeComparison.{
  Queries, SelfHousehold, FeeRow, TotalRow, TargetKind, CompareRow, Resolved, min_peer_sample,
  self_scope, complex_scope, of_item, of_picked, own_value, of_fee, of_household, pick_item,
  self_target, self_household, label_of, complex, dong, compact, chosen, breakdown_items,
  fee_detail_items,
}
use liviq.Budget.{text_ltb}
use liviq.FeeComparison.Arguments.{
  CompareFeesArgs, Reading, target_tokens, requested_periods, is_period_axis, min_periods,
}
use liviq.FeeComparison.Answer.{
  FeeAnswer, card, note, Printing, of_sample, of_average, counted, aggregate, scope_target,
  resolve_target, targets_card, compare_targets, month_rows, months_card, compare_periods,
  compare_at, compare_fees, period_subject, chosen_period, ambiguous_note, asked_item, item_label,
  comparable, dong_names, known_items,
}

if_holds :
    {A : Type 0} (P : A → Type 0) (b : Bool) (x y : A)
    → (b ≡ true → P x)
    → (b ≡ false → P y)
    → P (if b then x else y)
if_holds P true x y h g = h refl
if_holds P false x y h g = g refl

-- One of the list.
abbrev pub IsAmong : {A : Type 0} → A → List A → Type 0
IsAmong x [] = ⊥
IsAmong x (y ∷ ys) = (x ≡ y) ⊎ IsAmong x ys

filter-IsAmong :
    {A : Type 0} (p : A → Bool) (xs : List A) (y : A) (ys : List A)
    → filter p xs ≡ y ∷ ys
    → IsAmong y xs × (p y ≡ true)
filter-IsAmong p [] y ys e = cc
filter-IsAmong p (x ∷ xs) y ys e = elim (Bool-cases (p x)) [
  | inr h ↦ let (m, k) = filter-IsAmong p xs y ys (rw h at e) in (inr m, k)
  | inl h ↦
      let f : x ∷ filter p xs ≡ y ∷ ys = rw h at e in
      let same : x ≡ y = head-eq_of_cons-eq f in (inl (sym same), subst (λ z. p z ≡ true) same h)
]

-- A name that is the query or has it as a part, spaces aside.
abbrev pub Matches : Text → Text → Type 0
Matches query name =
    (text_eq (compact name) (compact query) ≡ true)
    ⊎ (contains (compact query) (compact name) ≡ true)

-- The amount of an item whose name matches.
abbrev pub HasItem : Text → List (Text × ℤ) → ℤ → Type 0
HasItem query items v = (i : Text × ℤ) × IsAmong i items × Matches query i.0 × (i.1 ≡ v)

-- A row without an amount, or with one of some kind.
abbrev pub Shows : (Option ℕ → ℤ → Type 0) → CompareRow → Type 0
Shows P row = elim row.amount [ none ↦ Unit | some v ↦ P row.sample_size v ]

of_item-Shows :
    (P : Option ℕ → ℤ → Type 0) (label : Text) (kind : TargetKind) (sample : Option ℕ)
    (query : Text) (items : List (Text × ℤ))
    → ((v : ℤ) → HasItem query items v → P sample v)
    → Shows P (of_item label kind sample query items).row
unfolding of_item of_picked pick_item chosen
of_item-Shows P label kind sample query items h =
    go (filter (λ (i : Text × ℤ). text_eq (compact i.0) (compact query)) items)
      (λ i is e.
        let (m, k) =
          filter-IsAmong (λ (i : Text × ℤ). text_eq (compact i.0) (compact query)) items i is e in
        h i.1 (i, m, inl k, refl))
      refl (filter (λ (i : Text × ℤ). contains (compact query) (compact i.0)) items)
      (λ i is e.
        let (m, k) =
          filter-IsAmong (λ (i : Text × ℤ). contains (compact query) (compact i.0)) items i is e in
        h i.1 (i, m, inr k, refl))
      refl
  where
    go :
        (exact : List (Text × ℤ))
        → ((i : Text × ℤ) (is : List (Text × ℤ))
            → filter (λ (i : Text × ℤ). text_eq (compact i.0) (compact query)) items ≡ i ∷ is
            → P sample i.1)
        → filter (λ (i : Text × ℤ). text_eq (compact i.0) (compact query)) items ≡ exact
        → (partial : List (Text × ℤ))
        → ((i : Text × ℤ) (is : List (Text × ℤ))
            → filter (λ (i : Text × ℤ). contains (compact query) (compact i.0)) items ≡ i ∷ is
            → P sample i.1)
        → filter (λ (i : Text × ℤ). contains (compact query) (compact i.0)) items ≡ partial
        → Shows P (of_picked label kind sample query (chosen exact partial)).row
    go (i ∷ is) h e partial g f = h i is e
    go [] h e [] g f = tt
    go [] h e (i ∷ []) g f = g i [] f
    go [] h e (i ∷ j ∷ is) g f = tt

-- An average over at least ten bills, or of an item among so many bills.
abbrev pub IsAverageOf :
    Option TotalRow → List (Text × Option ℤ) → Option Text → Option ℕ → ℤ → Type 0
IsAverageOf total items item sample v =
    (row : TotalRow) × (n : ℕ) × (total ≡ some row)
    × (row.sample_size ≡ some n)
    × (sample ≡ some n)
    × (10 ≤ n)
    × elim item [ none ↦ row.avg_total ≡ some v | some query ↦ HasItem query (known_items items) v ]

aggregate-Shows :
    (label : Text) (kind : TargetKind) (total : Option TotalRow) (items : List (Text × Option ℤ))
    (item : Option Text)
    → Shows (IsAverageOf total items item) (aggregate label kind total items item).row
unfolding aggregate of_average of_sample
aggregate-Shows label kind none items item = tt
aggregate-Shows label kind (some row) items item = go row.sample_size refl row.avg_total refl
  where
    large :
        (n : ℕ) (avg : ℤ) (i : Option Text)
        → row.sample_size ≡ some n
        → row.avg_total ≡ some avg
        → ltb n min_peer_sample ≡ false
        → Shows (IsAverageOf (some row) items i) (of_sample label kind avg n items i).row
    large n avg none e f h = (row, n, refl, e, refl, ground arith, f)
    large n avg (some query) e f h =
        of_item-Shows (IsAverageOf (some row) items (some query)) label kind (some n) query
          (known_items items) (λ v m. (row, n, refl, e, refl, ground arith, m))

    go :
        (sample : Option ℕ)
        → row.sample_size ≡ sample
        → (avg : Option ℤ) → row.avg_total ≡ avg
        → Shows
            (IsAverageOf (some row) items item)
            (of_average label kind (counted sample) items item avg).row
    go sample e none f = tt
    go none e (some avg) f = tt
    go (some n) e (some avg) f =
        if_holds (λ (r : Resolved). Shows (IsAverageOf (some row) items item) r.row) (n == 0) _ _
          (λ _. tt)
          (λ _.
            if_holds (λ (r : Resolved). Shows (IsAverageOf (some row) items item) r.row)
              (ltb n min_peer_sample) _ _ (λ small. tt) (large n avg item e f))

module _ (reading : Reading) (q : Queries) where
  open reading use {is_space}

  -- What a bill of the caller's own household says, for a month not before the approval.
  abbrev pub IsOwnValue : Text → Option Text → Option ℕ → ℤ → Type 0
  IsOwnValue period item sample v =
      (me : SelfHousehold) × (fee : FeeRow) × (self_household q ≡ some me)
      × (text_ltb period me.approved ≡ false)
      × (q.fee me.household_id period ≡ some fee)
      × (sample ≡ none)
      × elim item [
        | none ↦ fee.total_amount ≡ some v
        | some query ↦
            HasItem query (breakdown_items fee.breakdown ++ fee_detail_items fee.breakdown) v
      ]

  -- Where an amount of a target may come from.
  abbrev pub IsDisclosed : Option Text → Text → Text → Option ℕ → ℤ → Type 0
  IsDisclosed item token period sample v =
      ((token ≡ self_scope) × IsOwnValue period item sample v)
      ⊎ (((token ≡ complex_scope)
            × IsAverageOf (q.complex_total period) (q.complex_items period) item sample v)
          ⊎ ((text_eq token complex_scope ≡ false)
              × IsAverageOf (q.dong_total (dong_names is_space token) period)
                  (q.dong_items (dong_names is_space token) period) item sample v))

  self_target-Shows :
      (period : Text) (item : Option Text)
      → Shows (IsOwnValue period item) (self_target q period item).row
  unfolding self_target of_household of_fee own_value
  self_target-Shows period item = go (self_household q) refl
    where
      valued :
          (me : SelfHousehold) (fee : FeeRow) (i : Option Text)
          → self_household q ≡ some me
          → text_ltb period me.approved ≡ false
          → q.fee me.household_id period ≡ some fee
          → (total : Option ℤ) → fee.total_amount ≡ total
          → Shows (IsOwnValue period i) (own_value fee.breakdown i total).row
      valued me fee none e late f none t = tt
      valued me fee (some query) e late f none t = tt
      valued me fee none e late f (some v) t = (me, fee, e, late, f, refl, t)
      valued me fee (some query) e late f (some v) t =
          of_item-Shows (IsOwnValue period (some query)) _ _ none query
            (breakdown_items fee.breakdown ++ fee_detail_items fee.breakdown)
            (λ v m. (me, fee, e, late, f, refl, m))

      billed :
          (me : SelfHousehold)
          → self_household q ≡ some me
          → text_ltb period me.approved ≡ false
          → (fee : Option FeeRow) → q.fee me.household_id period ≡ fee
          → Shows (IsOwnValue period item) (of_fee item fee).row
      billed me e late none f = tt
      billed me e late (some fee) f = valued me fee item e late f fee.total_amount refl

      go :
          (me : Option SelfHousehold)
          → self_household q ≡ me
          → Shows (IsOwnValue period item) (of_household q period item me).row
      go none e = tt
      go (some me) e =
          if_holds (λ (r : Resolved). Shows (IsOwnValue period item) r.row)
            (text_ltb period me.approved) _ _ (λ early. tt)
            (λ late. billed me e late (q.fee me.household_id period) refl)

  Shows-weaken :
      (P Q : Option ℕ → ℤ → Type 0) (row : CompareRow)
      → ((sample : Option ℕ) (v : ℤ) → P sample v → Q sample v)
      → Shows P row
      → Shows Q row
  Shows-weaken P Q row h k = go row.amount k
    where
      go :
          (a : Option ℤ)
          → elim a as (λ _. Type 0) [ none ↦ Unit | some v ↦ P row.sample_size v ]
          → elim a as (λ _. Type 0) [ none ↦ Unit | some v ↦ Q row.sample_size v ]
      go none k = tt
      go (some v) k = h row.sample_size v k

  resolve_target-Shows :
      (token period : Text) (item : Option Text)
      → Shows (IsDisclosed item token period) (resolve_target reading q token period item).row
  unfolding resolve_target scope_target
  resolve_target-Shows token period item =
      if_holds (λ (r : Resolved). Shows (IsDisclosed item token period) r.row)
        (text_eq token self_scope) _ _
        (λ own.
          Shows-weaken (IsOwnValue period item) (IsDisclosed item token period)
            (self_target q period item).row (λ sample v h. inl (text_eq→eq token self_scope own, h))
            (self_target-Shows period item))
        (λ other.
          if_holds (λ (r : Resolved). Shows (IsDisclosed item token period) r.row)
            (text_eq token complex_scope) _ _
            (λ all.
              Shows-weaken (IsAverageOf (q.complex_total period) (q.complex_items period) item)
                (IsDisclosed item token period)
                (aggregate (label_of token) complex (q.complex_total period)
                  (q.complex_items period) item).row
                (λ sample v h. inr (inl (text_eq→eq token complex_scope all, h)))
                (aggregate-Shows _ _ (q.complex_total period) (q.complex_items period) item))
            (λ one.
              Shows-weaken
                (IsAverageOf (q.dong_total (dong_names is_space token) period)
                  (q.dong_items (dong_names is_space token) period) item)
                (IsDisclosed item token period)
                (aggregate (label_of token) dong (q.dong_total (dong_names is_space token) period)
                  (q.dong_items (dong_names is_space token) period) item).row
                (λ sample v h. inr (inr (one, h)))
                (aggregate-Shows _ _ (q.dong_total (dong_names is_space token) period)
                  (q.dong_items (dong_names is_space token) period) item)))

  -- The targets in order, each beside its row.
  abbrev pub AreDisclosed : Option Text → Text → List Text → List CompareRow → Type 0
  AreDisclosed item period [] [] = Unit
  AreDisclosed item period (t ∷ ts) (r ∷ rs) =
      Shows (IsDisclosed item t period) r × AreDisclosed item period ts rs
  AreDisclosed item period _ _ = ⊥

  -- The rows of a card: one for each target in one month, or one for each month of one target.
  abbrev pub IsCareful : {R : Type 0} → CompareFeesArgs → FeeAnswer R → Type 0
  IsCareful a (note text) = Unit
  IsCareful a (card c) = elim c.change [
    | none ↦ AreDisclosed a.item c.period (target_tokens reading a) c.rows
    | some _ ↦
        All (λ (r : CompareRow). Shows (IsDisclosed a.item (period_subject reading q a) r.label) r)
          c.rows
  ]

  targets-AreDisclosed :
      (period : Text) (item : Option Text) (tokens : List Text)
      → AreDisclosed item period tokens
          (map (λ (r : Resolved). r.row) (map (λ t. resolve_target reading q t period item) tokens))
  targets-AreDisclosed period item [] = tt
  targets-AreDisclosed period item (t ∷ ts) =
      (resolve_target-Shows t period item, targets-AreDisclosed period item ts)

  module _ {R : Type 0} (printing : Printing R) where
    months-IsDisclosed :
        (token : Text) (item : Option Text) (periods : List Text)
        → All
            (λ (r : CompareRow). Shows (IsDisclosed item token r.label) r)
            (month_rows reading q printing
              (map (λ p. resolve_target reading q token p item) periods)
              periods)
    unfolding month_rows
    months-IsDisclosed token item [] = tt
    months-IsDisclosed token item (p ∷ ps) =
        (resolve_target-Shows token p item, months-IsDisclosed token item ps)

    targets_card-IsCareful :
        (a : CompareFeesArgs) (period item : Text) (rows : List CompareRow)
        (known : List (Text × ℤ))
        → AreDisclosed a.item period (target_tokens reading a) rows
        → IsCareful a (targets_card reading q printing period item rows known)
    unfolding targets_card
    targets_card-IsCareful a period item rows [] h = tt
    targets_card-IsCareful a period item rows (base ∷ others) h = h

    months_card-IsCareful :
        (a : CompareFeesArgs) (subject : Text) (window dropped : List Text) (item : Text)
        (rows : List CompareRow) (known : List (Text × ℤ))
        → All
            (λ (r : CompareRow). Shows (IsDisclosed a.item (period_subject reading q a) r.label) r)
            rows
        → IsCareful a (months_card reading q printing subject window dropped item rows known)
    unfolding months_card
    months_card-IsCareful a subject window dropped item rows [] h = tt
    months_card-IsCareful a subject window dropped item rows (base ∷ others) h = h

    compare_at-IsCareful :
        (a : CompareFeesArgs) (period : Option Text)
        → IsCareful a (compare_at reading q printing a period)
    unfolding compare_at compare_targets
    compare_at-IsCareful a none = tt
    compare_at-IsCareful a (some period) =
        let resolved =
          map (λ t. resolve_target reading q t period a.item) (target_tokens reading a) in
        let rows = map (λ (r : Resolved). r.row) resolved in
        let ambiguous = ambiguous_note (asked_item reading q printing a) resolved in
        if_holds (IsCareful a) (is_empty ambiguous)
          (targets_card reading q printing period (item_label resolved) rows (comparable rows))
          (note ambiguous)
          (λ clear.
            targets_card-IsCareful a period (item_label resolved) rows (comparable rows)
              (targets-AreDisclosed period a.item (target_tokens reading a)))
          (λ unclear. tt)

    compare_periods-IsCareful :
        (a : CompareFeesArgs) → IsCareful a (compare_periods reading q printing a)
    unfolding compare_periods
    compare_periods-IsCareful a =
        let periods = requested_periods reading a in
        let window = drop (length periods - min_periods) periods in
        let dropped = take (length periods - min_periods) periods in
        let token = period_subject reading q a in
        let resolved = map (λ p. resolve_target reading q token p a.item) window in
        let rows = month_rows reading q printing resolved window in
        let ambiguous = ambiguous_note (asked_item reading q printing a) resolved in
        let item = item_label resolved in
        let known = reverse (comparable rows) in
        if_holds (IsCareful a) (is_empty ambiguous)
          (months_card reading q printing (label_of token) window dropped item rows known)
          (note ambiguous)
          (λ clear.
            months_card-IsCareful a (label_of token) window dropped item rows known
              (months-IsDisclosed token a.item window))
          (λ unclear. tt)

    -- Whatever the queries give and whatever is asked: the rows of a card stand for the targets
    -- in order, or for months of one target. Each shows no amount, or one from a bill of the
    -- caller's own household, for a month not before the approval, or for another target its
    -- average, where the sample is at least ten bills. For an item the amount is that of an item
    -- whose name matches, and the sample counts all bills, with that item or without.
    pub compare_fees-IsCareful :
        (a : CompareFeesArgs) → IsCareful a (compare_fees reading q printing a)
    unfolding compare_fees
    compare_fees-IsCareful a =
        if_holds (IsCareful a) (is_period_axis reading a) (compare_periods reading q printing a)
          (compare_at reading q printing a (chosen_period reading q printing a))
          (λ months. compare_periods-IsCareful a)
          (λ targets. compare_at-IsCareful a (chosen_period reading q printing a))
