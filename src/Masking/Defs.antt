-- ===== src/Masking/Defs.antt =====
-- The code of masker.py and gate.py.
use liviq.Base.{
  ℕ, zero, suc, ◌+◌, ◌-◌, Bool, true, false, ◌&&◌, ◌||◌, not, Option, none, some, List, [], ◌∷◌,
  ◌++◌, map, if◌then◌else◌, length, any, is_empty, filter, Text, codes, text_eq, mem_text,
  starts_with, contains,
}
use liviq.Base.Decimal.{dec}

pub data Kind : Type 0 where
  rrn phone email birth unit account name : Kind

-- The names in `_PATTERNS`, and `_NAME_KIND`.
abbrev pub kind_name : Kind → Text
kind_name Kind.rrn = codes "RRN"
kind_name Kind.phone = codes "PHONE"
kind_name Kind.email = codes "EMAIL"
kind_name Kind.birth = codes "BIRTH"
kind_name Kind.unit = codes "UNIT"
kind_name Kind.account = codes "ACCOUNT"
kind_name Kind.name = codes "NAME"

-- The order of `_PATTERNS`.
abbrev pub patterns : List Kind
patterns = Kind.rrn ∷ Kind.phone ∷ Kind.email ∷ Kind.birth ∷ Kind.unit ∷ Kind.account ∷ []

-- What `re` finds in a text: the parts between the matches, and the matches.
pub data Segment : Type 0 where
  plain matched : Text → Segment

abbrev pub is_match : Segment → Bool
is_match (plain _) = false
is_match (matched _) = true

-- Python's `re` on the patterns, and the order in which a `set` of names is sorted.
pub record Engine : Type 0 where
  pub segments : Kind → Text → List Segment
  pub search : Kind → Text → Bool
  pub by_length : List Text → List Text

-- `dict[(kind, original)]`
pub record Assigned : Type 0 where
  pub kind : Kind
  pub original : Text
  pub token : Text

pub record Table : Type 0 where
  pub assigned : List Assigned
  pub replacements : List (Text × Text)
  pub counters : Kind → ℕ

pub record MaskResult : Type 0 where
  pub masked_text : Text
  pub replacements : List (Text × Text)
  pub found_kinds : List Kind

-- The same kind, by the name that the source compares.
abbrev pub same_kind : Kind → Kind → Bool
same_kind Kind.rrn Kind.rrn = true
same_kind Kind.phone Kind.phone = true
same_kind Kind.email Kind.email = true
same_kind Kind.birth Kind.birth = true
same_kind Kind.unit Kind.unit = true
same_kind Kind.account Kind.account = true
same_kind Kind.name Kind.name = true
same_kind _ _ = false

unfoldable pub find_token : Kind → Text → List Assigned → Option Text
find_token k o [] = none
find_token k o (e ∷ es) =
    if same_kind e.kind k && text_eq e.original o then some e.token else find_token k o es

-- f"<PII:{kind}:{n}>"
unfoldable pub token : Kind → ℕ → Text
token k n = codes "<PII:" ++ (kind_name k ++ (codes ":" ++ (dec n ++ codes ">")))

abbrev pub raise_counter : Kind → ℕ → (Kind → ℕ) → Kind → ℕ
raise_counter k n c j = if same_kind k j then n else c j

-- `_placeholder`
unfoldable pub placeholder : Kind → Text → Table → Text × Table
placeholder k o s = elim (find_token k o s.assigned) [
  | some t ↦ (t, s)
  | none ↦
      let n = s.counters k + 1 in
      let t = token k n in
      (
        t,
        record {
          assigned = record { kind = k; original = o; token = t } ∷ s.assigned;
          replacements = s.replacements ++ (t, o) ∷ [];
          counters = raise_counter k n s.counters;
        },
      )
]

-- `pattern.sub(_substitute, masked)`
unfoldable pub substitute : Kind → List Segment → Table → Text × Table
substitute k [] s = ([], s)
substitute k (plain t ∷ r) s = let (u, s') = substitute k r s in (t ++ u, s')
substitute k (matched t ∷ r) s =
    let (p, s1) = placeholder k t s in let (u, s2) = substitute k r s1 in (p ++ u, s2)

-- `s.replace(old, new)` for an `old` that is not empty: `skip` counts the characters of a match.
unfoldable pub replace_from : Text → Text → ℕ → Text → Text
replace_from old new skip [] = []
replace_from old new (suc k) (a ∷ s) = replace_from old new k s
replace_from old new zero (a ∷ s) =
    let hit = starts_with (a ∷ s) old in
    (if hit then new else a ∷ []) ++ replace_from old new (if hit then length old - 1 else 0) s

unfoldable pub replace : Text → Text → Text → Text
replace old new s = replace_from old new 0 s

module _ (e : Engine) where
  unfoldable pub mask_patterns : List Kind → Text × Table → Text × Table
  unfolding substitute
  mask_patterns [] st = st
  mask_patterns (k ∷ ks) (t, s) = mask_patterns ks (substitute k (e.segments k t) s)

unfoldable pub mask_names : List Text → Text × Table → Text × Table
mask_names [] st = st
mask_names (n ∷ ns) (t, s) = mask_names ns (
    if contains n t
    then (let (p, s') = placeholder Kind.name n s in (replace n p t, s'))
    else (t, s))

abbrev pub no_table : Table
no_table = record { assigned = []; replacements = []; counters = λ _. 0 }

-- `{n for n in extra_names if n}`, in the order of first occurrence
unfoldable pub name_set : List Text → List Text
name_set [] = []
name_set (n ∷ ns) =
    let rest = name_set ns in if is_empty n || mem_text n rest then rest else n ∷ rest

-- The loops of `mask`, with the table that they leave.
unfoldable pub mask_table : Engine → Text → List Text → Text × Table
mask_table e text names =
    mask_names (e.by_length (name_set names)) (mask_patterns e patterns (text, no_table))

unfoldable pub mask : Engine → Text → List Text → MaskResult
mask e text names =
    let (t, s) = mask_table e text names in
    record {
      masked_text = t;
      replacements = s.replacements;
      found_kinds = map (λ (a : Assigned). a.kind) s.assigned;
    }

unfoldable pub detect_pii : Engine → Text → List Kind
detect_pii e text = filter (λ k. e.search k text) patterns

-- `unmask`: one `replace` for each entry, in the order of insertion
unfoldable pub unmask : Text → List (Text × Text) → Text
unmask text [] = text
unmask text ((t, o) ∷ rs) = unmask (replace t o text) rs

-- `ensure_masked`: `none` is `MaskingFailedError`
unfoldable pub ensure_masked : Engine → Text → List Text → Option MaskResult
ensure_masked e text names =
    let result = mask e text names in
    if not (is_empty (detect_pii e result.masked_text))
    then none
    else if any (λ n. not (is_empty n) && contains n result.masked_text) names
    then none
    else some result
