-- ===== src/Masking/Table.antt =====
-- The placeholder table of masker.py.
use mathlib.Core.List.{append_cancel_left, append_cancel_right}
use liviq.Base.{
  ℕ, ◌+◌, ◌≤◌, ◌≡◌, refl, sym, ap, ◌∙◌, subst, true, Option, none, some, List, [], ◌∷◌, ◌++◌, arith,
  if◌then◌else◌, Text, codes, text_eq, text_eq→eq, text_eq_refl, get_elem?, Option-cases,
  Bool-cases, inl, inr, contains, ◌⊎◌,
}
use liviq.Base.Decimal.{dec_injective}
use liviq.Masking.Defs.{
  Kind, kind_name, Segment, plain, matched, Engine, Assigned, Table, same_kind, find_token, token,
  raise_counter, placeholder, substitute, mask_patterns, mask_names, no_table, mask_table, patterns,
  name_set, replace, mask,
}

pub same_kind→eq : (j k : Kind) → same_kind j k ≡ true → j ≡ k
same_kind→eq Kind.rrn k h = ground arith
same_kind→eq Kind.phone k h = ground arith
same_kind→eq Kind.email k h = ground arith
same_kind→eq Kind.birth k h = ground arith
same_kind→eq Kind.unit k h = ground arith
same_kind→eq Kind.account k h = ground arith
same_kind→eq Kind.name k h = ground arith

same_kind_refl : (k : Kind) → same_kind k k ≡ true
same_kind_refl Kind.rrn = refl
same_kind_refl _ = refl

-- The first letters of the names differ.
letter : Kind → Option ℕ
letter k = get_elem? (kind_name k) 0

letter_injective : (j k : Kind) → letter j ≡ letter k → j ≡ k
unfolding letter
letter_injective Kind.rrn k h = ground arith
letter_injective Kind.phone k h = ground arith
letter_injective Kind.email k h = ground arith
letter_injective Kind.birth k h = ground arith
letter_injective Kind.unit k h = ground arith
letter_injective Kind.account k h = ground arith
letter_injective Kind.name k h = ground arith

token_letter : (k : Kind) (n : ℕ) → get_elem? (token k n) 5 ≡ letter k
unfolding token letter
token_letter Kind.rrn n = refl
token_letter _ n = refl

token_kind : (j k : Kind) (m n : ℕ) → token j m ≡ token k n → j ≡ k
token_kind j k m n e =
    letter_injective j k
      (sym (token_letter j m) ∙ ap (λ (t : Text). get_elem? t 5) e ∙ token_letter k n)

token_number : (k : Kind) (m n : ℕ) → token k m ≡ token k n → m ≡ n
unfolding token
token_number k m n e = dec_injective m n (
    append_cancel_right _ _ (codes ">") (
      append_cancel_left (codes ":") _ _
        (append_cancel_left (kind_name k) _ _ (append_cancel_left (codes "<PII:") _ _ e))))

-- Placeholders are told apart by kind and number.
pub token_injective : (j k : Kind) (m n : ℕ) → token j m ≡ token k n → (j ≡ k) × (m ≡ n)
token_injective j k m n e =
    let same = token_kind j k m n e in
    (same, token_number k m n (subst (λ (i : Kind). token i m ≡ token k n) same e))

-- `replacements[token]`
unfoldable pub restored : List (Text × Text) → Text → Option Text
restored [] u = none
restored ((t, o) ∷ rs) u = if text_eq t u then some o else restored rs u

restored-append :
    (rs : List (Text × Text)) (t o u : Text)
    → restored (rs ++ (t, o) ∷ []) u
      ≡ elim (restored rs u) [ some v ↦ some v | none ↦ if text_eq t u then some o else none ]
unfolding restored
restored-append [] t o u = ground arith
restored-append ((t', o') ∷ rs) t o u = ground (arith, restored-append rs t o u)

find_token-cons :
    (k j : Kind) (o q t u : Text) (es : List Assigned)
    → find_token j q (record { kind = k; original = o; token = t } ∷ es) ≡ some u
    → ((k ≡ j) × (o ≡ q) × (t ≡ u)) ⊎ (find_token j q es ≡ some u)
unfolding find_token
find_token-cons k j o q t u es h = ground (arith, same_kind→eq k j, text_eq→eq o q)

-- A counter that is raised stays at least what it was.
raise_counter-le : (k j : Kind) (c : Kind → ℕ) → c j ≤ raise_counter k (c k + 1) c j
raise_counter-le k j c = elim (Bool-cases (same_kind k j)) [
  | inl same ↦ rw same (rw (same_kind→eq k j same) (omega arith))
  | inr other ↦ rw other (omega arith)
]

raise_counter_self : (k : Kind) (n : ℕ) (c : Kind → ℕ) → raise_counter k n c k ≡ n
raise_counter_self k n c = rw same_kind_refl

-- Numbers are handed out in order, and the table restores what it handed out.
pub record IsConsistent (s : Table) : Type 0 where
  pub numbered :
      (k : Kind) (o t : Text)
      → find_token k o s.assigned ≡ some t
      → (n : ℕ) × (n ≤ s.counters k) × (t ≡ token k n)
  pub listed :
      (u o : Text)
      → restored s.replacements u ≡ some o
      → (k : Kind) × (n : ℕ) × (n ≤ s.counters k) × (u ≡ token k n)
  pub restores :
      (k : Kind) (o t : Text)
      → find_token k o s.assigned ≡ some t
      → restored s.replacements t ≡ some o

pub no_table-IsConsistent : IsConsistent no_table
unfolding find_token restored
no_table-IsConsistent = record {
  numbered = λ k o t h. cc;
  listed = λ u o h. cc;
  restores = λ k o t h. cc;
}

module _ (s : Table) (inv : IsConsistent s) (k : Kind) (o : Text) where
  abbrev fresh : Text
  fresh = token k (s.counters k + 1)

  fresh_unlisted : restored s.replacements fresh ≡ none
  fresh_unlisted = elim (Option-cases (restored s.replacements fresh)) [
    | inl e ↦ e
    | inr (v, e) ↦
        let (j, n, le, same) = inv.listed fresh v e in
        let (kj, num) = token_injective k j (s.counters k + 1) n same in
        absurd (omega (arith, subst (λ (i : Kind). n ≤ s.counters i) (sym kj) le))
  ]

  abbrev grown : Table
  grown = record {
    assigned = record { kind = k; original = o; token = fresh } ∷ s.assigned;
    replacements = s.replacements ++ (fresh, o) ∷ [];
    counters = raise_counter k (s.counters k + 1) s.counters;
  }

  grown_numbered :
      (j : Kind) (q t : Text)
      → find_token j q grown.assigned ≡ some t
      → (n : ℕ) × (n ≤ grown.counters j) × (t ≡ token j n)
  grown_numbered j q t h = elim (find_token-cons k j o q fresh t s.assigned h) [
    | inl (kj, oq, ft) ↦ (
      s.counters k + 1,
      subst (λ (i : Kind). s.counters k + 1 ≤ grown.counters i) kj
          (rw raise_counter_self (omega arith)),
      sym ft ∙ ap (λ (i : Kind). token i (s.counters k + 1)) kj,
    )
    | inr old ↦
        let (n, le, e) = inv.numbered j q t old in
        (n, omega (arith, raise_counter-le k j s.counters), e)
  ]

  grown_listed :
      (u v : Text)
      → restored grown.replacements u ≡ some v
      → (j : Kind) × (n : ℕ) × (n ≤ grown.counters j) × (u ≡ token j n)
  grown_listed u v h = elim (Option-cases (restored s.replacements u)) [
    | inl new ↦ (
      k,
      s.counters k + 1,
      rw raise_counter_self (omega arith),
      ground (arith, restored-append s.replacements fresh o u, text_eq→eq fresh u),
    )
    | inr (w, e) ↦
        let (j, n, le, same) = inv.listed u w e in
        (j, n, omega (arith, raise_counter-le k j s.counters), same)
  ]

  grown_restores :
      (j : Kind) (q t : Text)
      → find_token j q grown.assigned ≡ some t
      → restored grown.replacements t ≡ some q
  grown_restores j q t h = elim (find_token-cons k j o q fresh t s.assigned h) [
    | inl (kj, oq, ft) ↦
        subst (λ (x : Text). restored grown.replacements x ≡ some q) ft
          (rw restored-append (rw fresh_unlisted (rw text_eq_refl (ap some oq))))
    | inr old ↦ rw restored-append (rw (inv.restores j q t old) refl)
  ]

  grown-IsConsistent : IsConsistent grown
  grown-IsConsistent = record {
    numbered = grown_numbered;
    listed = grown_listed;
    restores = grown_restores;
  }

  -- One more placeholder keeps the table consistent.
  pub placeholder-IsConsistent : IsConsistent (placeholder k o s).1
  unfolding placeholder
  placeholder-IsConsistent = elim (Option-cases (find_token k o s.assigned)) [
    | inl new ↦ rw (new, placeholder) grown-IsConsistent
    | inr (t, old) ↦ rw (old, placeholder) inv
  ]

pub substitute-IsConsistent :
    (k : Kind) (r : List Segment) (s : Table) → IsConsistent s → IsConsistent (substitute k r s).1
unfolding substitute
substitute-IsConsistent k [] s inv = inv
substitute-IsConsistent k (plain t ∷ r) s inv = substitute-IsConsistent k r s inv
substitute-IsConsistent k (matched t ∷ r) s inv =
    substitute-IsConsistent k r (placeholder k t s).1 (placeholder-IsConsistent s inv k t)

mask_patterns-IsConsistent :
    (e : Engine) (ks : List Kind) (t : Text) (s : Table)
    → IsConsistent s
    → IsConsistent (mask_patterns e ks (t, s)).1
unfolding mask_patterns
mask_patterns-IsConsistent e [] t s inv = inv
mask_patterns-IsConsistent e (k ∷ ks) t s inv =
    let (u, s') = substitute k (e.segments k t) s in
    mask_patterns-IsConsistent e ks u s' (substitute-IsConsistent k (e.segments k t) s inv)

mask_names-IsConsistent :
    (ns : List Text) (t : Text) (s : Table) → IsConsistent s → IsConsistent (mask_names ns (t, s)).1
unfolding mask_names
mask_names-IsConsistent [] t s inv = inv
mask_names-IsConsistent (n ∷ ns) t s inv = elim (Bool-cases (contains n t)) [
  | inl hit ↦
      rw (hit, mask_names)
        (let (p, s') = placeholder Kind.name n s in
          mask_names-IsConsistent ns (replace n p t) s'
            (placeholder-IsConsistent s inv Kind.name n))
  | inr miss ↦ rw (miss, mask_names) (mask_names-IsConsistent ns t s inv)
]

pub mask_table-IsConsistent :
    (e : Engine) (text : Text) (names : List Text) → IsConsistent (mask_table e text names).1
unfolding mask_table
mask_table-IsConsistent e text names =
    let (t, s) = mask_patterns e patterns (text, no_table) in
    mask_names-IsConsistent (e.by_length (name_set names)) t s
      (mask_patterns-IsConsistent e patterns text no_table no_table-IsConsistent)

-- Whatever the regular expressions find: if the table that `mask` builds has a placeholder for
-- two originals, these are one and of one kind, and `replacements` restores it from the placeholder.
pub mask_table-restores :
    (e : Engine) (text : Text) (names : List Text) (j k : Kind) (q o t : Text)
    → find_token j q (mask_table e text names).1.assigned ≡ some t
    → find_token k o (mask_table e text names).1.assigned ≡ some t
    → (j ≡ k) × (q ≡ o) × (restored (mask e text names).replacements t ≡ some o)
unfolding mask
mask_table-restores e text names j k q o t h g =
    let inv = mask_table-IsConsistent e text names in
    let (m, _, p) = inv.numbered j q t h in
    let (n, _, r) = inv.numbered k o t g in
    (
      (token_injective j k m n (sym p ∙ r)).0,
      cc (inv.restores j q t h, inv.restores k o t g),
      inv.restores k o t g,
    )
