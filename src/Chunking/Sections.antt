-- ===== src/Chunking/Sections.antt =====
-- The sections of a document: its headings do not overlap, and nothing between them is lost.
use liviq.Base.{
  ℕ, zero, suc, ◌+◌, ◌-◌, ◌≤◌, ◌≡◌, refl, sym, ap, ◌∙◌, Option, none, some, List, [], ◌∷◌, ◌++◌,
  map, arith, ltb, filter, length, take, drop, Text, All, All-append, Bool-cases, inl, inr,
}
use mathlib.Core.List.{append-nil}
use liviq.Base.Sort.{sorted, All-sorted}
use liviq.Chunking.{
  Patterns, Boundary, slice, merge, merge_from, boundaries, found_boundaries, section_bodies,
  sections_of, split_sections, begins_before, boundary_at, is_heading,
}

-- A match inside the text.
abbrev pub IsInside : Text → ℕ × ℕ → Type 0
IsInside text (a, b) = (a ≤ b) × (b ≤ length text)

abbrev Spans : Text → Boundary → Type 0
Spans text b = (b.start ≤ b.stop) × (b.stop ≤ length text)

-- Each boundary starts where the one before it ends, or behind it.
abbrev IsChain : Text → ℕ → List Boundary → Type 0
IsChain text last [] = Unit
IsChain text last (b ∷ bs) = (last ≤ b.start) × Spans text b × IsChain text b.stop bs

merge_from-IsChain :
    (text : Text) (last : ℕ) (bs : List Boundary)
    → All (Spans text) bs
    → IsChain text last (merge_from last bs)
unfolding merge_from
merge_from-IsChain text last [] h = tt
merge_from-IsChain text last (b ∷ bs) h = elim (Bool-cases (ltb b.start last)) [
  | inl overlaps ↦ rw overlaps (merge_from-IsChain text last bs h.1)
  | inr clear ↦ rw clear (ground arith, h.0, merge_from-IsChain text b.stop bs h.1)
]

merge-IsChain : (text : Text) (bs : List Boundary) → All (Spans text) bs → IsChain text 0 (merge bs)
unfolding merge
merge-IsChain text [] h = tt
merge-IsChain text (b ∷ bs) h = (omega arith, h.0, merge_from-IsChain text b.stop bs h.1)

take-drop : (n : ℕ) (t : Text) → take n t ++ drop n t ≡ t
take-drop zero t = refl
take-drop (suc n) [] = refl
take-drop (suc n) (c ∷ t) = ap (λ r. c ∷ r) (take-drop n t)

drop_nil : (m : ℕ) → drop {A = ℕ} m [] ≡ []
drop_nil zero = refl
drop_nil (suc m) = refl

drop-drop : (m n : ℕ) (t : Text) → drop m (drop n t) ≡ drop (n + m) t
drop-drop m zero t = let same : m ≡ 0 + m = omega arith in ap (λ (k : ℕ). drop k t) same
drop-drop m (suc n) [] = drop_nil m ∙ sym (drop_nil (suc n + m))
drop-drop m (suc n) (c ∷ t) =
    let same : suc (n + m) ≡ suc n + m = omega arith in
    drop-drop m n t ∙ ap (λ (k : ℕ). drop k (c ∷ t)) same

take_all : (n : ℕ) (t : Text) → length t ≤ n → take n t ≡ t
take_all zero [] h = refl
take_all zero (c ∷ t) h = absurd (omega arith)
take_all (suc n) [] h = refl
take_all (suc n) (c ∷ t) h = ap (λ r. c ∷ r) (take_all n t (omega arith))

length-drop : (n : ℕ) (t : Text) → length (drop n t) ≡ length t - n
length-drop zero t = omega arith
length-drop (suc n) [] = omega arith
length-drop (suc n) (c ∷ t) = omega (arith, length-drop n t)

-- The text from a on is the slice up to b and the text from b on.
slice-drop : (a b : ℕ) (t : Text) → a ≤ b → slice a b t ++ drop b t ≡ drop a t
slice-drop a b t h =
    ap (λ r. slice a b t ++ r)
      (ap (λ (n : ℕ). drop n t) (omega arith) ∙ sym (drop-drop (b - a) a t))
    ∙ take-drop (b - a) (drop a t)

slice_end : (b : ℕ) (t : Text) → slice b (length t) t ≡ drop b t
slice_end b t = take_all (length t - b) (drop b t) (omega (arith, length-drop b t))

-- The sections with their headings put back as they stand in the text.
abbrev pub restored : Text → List Boundary → List (Option Text × Text) → Text
restored text bs [] = []
restored text bs ((none, body) ∷ ss) = body ++ restored text bs ss
restored text [] ((some _, body) ∷ ss) = body ++ restored text [] ss
restored text (b ∷ bs) ((some _, body) ∷ ss) =
    slice b.start b.stop text ++ (body ++ restored text bs ss)

restored-section_bodies :
    (text : Text) (last : ℕ) (b : Boundary) (bs : List Boundary)
    → IsChain text last (b ∷ bs)
    → restored text (b ∷ bs) (section_bodies text (b ∷ bs)) ≡ drop b.start text
unfolding section_bodies
restored-section_bodies text last b [] h =
    ap (λ r. slice b.start b.stop text ++ r)
      (append-nil (slice b.stop (length text) text) ∙ slice_end b.stop text)
    ∙ slice-drop b.start b.stop text h.1.0
restored-section_bodies text last b (c ∷ bs) h =
    ap (λ r. slice b.start b.stop text ++ r)
      (ap (λ r. slice b.stop c.start text ++ r) (restored-section_bodies text b.stop c bs h.2)
        ∙ slice-drop b.stop c.start text h.2.0)
    ∙ slice-drop b.start b.stop text h.1.0

restored-sections_of :
    (p : Patterns) (text : Text) (bs : List Boundary)
    → IsChain text 0 bs
    → restored text bs (sections_of p text bs) ≡ text
restored-sections_of p text [] h = append-nil text
restored-sections_of p text (b ∷ bs) h = elim (Bool-cases (ltb 0 b.start)) [
  | inl lead ↦
      rw (lead, sections_of)
        (ap (λ r. take b.start text ++ r) (restored-section_bodies text 0 b bs h)
          ∙ take-drop b.start text)
  | inr none_before ↦
      let at_start : b.start ≡ 0 = ground arith in
      let from_start : drop b.start text ≡ text = ap (λ (n : ℕ). drop n text) at_start in
      rw (none_before, sections_of) (restored-section_bodies text 0 b bs h ∙ from_start)
]

module _ (p : Patterns) (text : Text) where
  Spans-map :
      (ms : List (ℕ × ℕ)) → All (IsInside text) ms → All (Spans text) (map (boundary_at p text) ms)
  Spans-map [] h = tt
  Spans-map ((a, b) ∷ ms) h = (h.0, Spans-map ms h.1)

  IsInside-filter :
      (ms : List (ℕ × ℕ))
      → All (IsInside text) ms
      → All (IsInside text) (filter (λ m. is_heading p text m) ms)
  IsInside-filter [] h = tt
  IsInside-filter (m ∷ ms) h = elim (Bool-cases (is_heading p text m)) [
    | inl yes_heading ↦ rw yes_heading (h.0, IsInside-filter ms h.1)
    | inr no_heading ↦ rw no_heading (IsInside-filter ms h.1)
  ]

  boundaries-IsChain :
      All (IsInside text) (p.section_matches text)
      → All (IsInside text) (p.clause_matches text)
      → IsChain text 0 (boundaries p text)
  unfolding boundaries found_boundaries
  boundaries-IsChain h k = merge-IsChain text (sorted begins_before (found_boundaries p text)) (
      All-sorted begins_before (Spans text) (found_boundaries p text) (
        All-append (Spans text) (map (boundary_at p text) (p.section_matches text)) _
          (Spans-map (p.section_matches text) h)
          (Spans-map _ (IsInside-filter (p.clause_matches text) k))))

  -- Where every match lies inside the text, however the matches overlap: the sections in order,
  -- each behind the characters of its boundary, are the text.
  pub split_sections-restored :
      All (IsInside text) (p.section_matches text)
      → All (IsInside text) (p.clause_matches text)
      → restored text (boundaries p text) (split_sections p text) ≡ text
  unfolding split_sections
  split_sections-restored h k =
      restored-sections_of p text (boundaries p text) (boundaries-IsChain h k)
