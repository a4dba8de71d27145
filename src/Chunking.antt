-- ===== src/Chunking.antt =====
-- packages/ai-core/src/ai_core/rag/chunking.py: a document is cut at its headings, and the
-- paragraphs of a section are packed into chunks. The regular expressions are parameters.
pub mod Pack
pub mod Sections
use liviq.Base.{
  ℕ, zero, suc, ◌+◌, ◌-◌, Bool, true, false, ◌&&◌, ◌||◌, not, Option, none, some, List, [], ◌∷◌,
  ◌++◌, map, if◌then◌else◌, ◌==◌, ltb, leb, filter, is_empty, length, take, drop, Text, codes,
  strip, any,
}
use liviq.Base.Sort.{sorted}
use liviq.Tokens.{estimate_tokens}

-- What the regular expressions do. A match is its start and its end.
pub record Patterns : Type 0 where
  -- `_SECTION_RE.finditer`, `_CLAUSE_ANYWHERE_RE.finditer`
  pub section_matches : Text → List (ℕ × ℕ)
  pub clause_matches : Text → List (ℕ × ℕ)
  -- whether `_LEGAL_REF_TAIL_RE.search` finds something
  pub ends_in_legal_ref : Text → Bool
  -- `re.sub(r"^\[(제\s?\d+\s?조)\]", r"\1", heading)`
  pub unbracket : Text → Text
  -- `_SENTENCE_SPLIT_RE.split`, and `re.split(r"\n\s*\n", body)`
  pub sentences : Text → List Text
  pub paragraphs : Text → List Text
  -- `_TOC_LINE_RE.sub("", text)`
  pub drop_contents : Text → Text
  -- whether `_CLAUSE_HEADING_RE.match` matches
  pub is_clause : Text → Bool
  pub is_space : ℕ → Bool

pub record Chunk : Type 0 where
  pub index : ℕ
  pub content : Text
  pub heading : Option Text
  pub token_count : ℕ
  pub clause : Option Text

-- A start, an end and a heading.
pub record Boundary : Type 0 where
  pub start : ℕ
  pub stop : ℕ
  pub heading : Text

abbrev pub chunk_max_tokens : ℕ
chunk_max_tokens = 400

abbrev pub legal_ref_lookback : ℕ
legal_ref_lookback = 12

-- `text[a:b]`
abbrev pub slice : ℕ → ℕ → Text → Text
slice a b text = take (b - a) (drop a text)

-- `s.lstrip("# ")`
abbrev pub drop_marks : Text → Text
drop_marks [] = []
drop_marks (c ∷ s) = let rest = drop_marks s in if c == 35 || c == 32 then rest else (c ∷ s)

-- `key=lambda b: (b[0], -b[1])`
abbrev pub begins_before : Boundary → Boundary → Bool
begins_before a b = if ltb a.start b.start then true else a.start == b.start && ltb b.stop a.stop

-- The loop that drops overlaps; the first argument is the end of the last boundary kept.
unfoldable pub merge_from : ℕ → List Boundary → List Boundary
merge_from last [] = []
merge_from last (b ∷ bs) =
    let rest = merge_from (if ltb b.start last then last else b.stop) bs in
    if ltb b.start last then rest else b ∷ rest

unfoldable pub merge : List Boundary → List Boundary
merge [] = []
merge (b ∷ bs) = b ∷ merge_from b.stop bs

-- The loop of `_split_sections`: each section ends where the next boundary starts.
unfoldable pub section_bodies : Text → List Boundary → List (Option Text × Text)
section_bodies text [] = []
section_bodies text (b ∷ []) = (some b.heading, slice b.stop (length text) text) ∷ []
section_bodies text (b ∷ c ∷ bs) =
    (some b.heading, slice b.stop c.start text) ∷ section_bodies text (c ∷ bs)

-- The inner loop of `chunk_text`, with `current`.
unfoldable pub pack : ℕ → Text → List Text → List Text
pack max_tokens current [] = if is_empty current then [] else current ∷ []
pack max_tokens current (piece ∷ pieces) =
    let candidate = if is_empty current then piece else current ++ (10 ∷ 10 ∷ piece) in
    let full = not (is_empty current) && ltb max_tokens (estimate_tokens candidate) in
    let rest = pack max_tokens (if full then piece else candidate) pieces in
    if full then current ∷ rest else rest

module _ (p : Patterns) where
  -- `_clean_heading`
  unfoldable pub clean_heading : Text → Text
  clean_heading raw = p.unbracket (strip p.is_space (drop_marks raw))

  abbrev pub boundary_at : Text → ℕ × ℕ → Boundary
  boundary_at text (a, b) = record { start = a; stop = b; heading = clean_heading (slice a b text) }

  abbrev pub is_heading : Text → ℕ × ℕ → Bool
  is_heading text (a, b) = not (p.ends_in_legal_ref (slice (a - legal_ref_lookback) a text))

  -- `found` of `_boundaries`, before it is sorted
  unfoldable pub found_boundaries : Text → List Boundary
  found_boundaries text =
      map (boundary_at text) (p.section_matches text)
      ++ map (boundary_at text) (filter (λ m. is_heading text m) (p.clause_matches text))

  -- `_boundaries`
  unfoldable pub boundaries : Text → List Boundary
  boundaries text = merge (sorted begins_before (found_boundaries text))

  abbrev pub sections_of : Text → List Boundary → List (Option Text × Text)
  sections_of text [] = (none, text) ∷ []
  sections_of text (b ∷ bs) =
      (if ltb 0 b.start then (none, take b.start text) ∷ [] else []) ++ section_bodies text (b ∷ bs)

  -- `_split_sections`
  unfoldable pub split_sections : Text → List (Option Text × Text)
  split_sections text = sections_of text (boundaries text)

  -- The loop of `_split_oversized`, with `current`.
  unfoldable pub join_sentences : ℕ → Text → List Text → List Text
  join_sentences max_tokens current [] = if is_empty current then [] else current ∷ []
  join_sentences max_tokens current (sentence ∷ sentences) =
      let candidate =
        if is_empty current then sentence else strip p.is_space (current ++ (32 ∷ sentence)) in
      let full = not (is_empty current) && ltb max_tokens (estimate_tokens candidate) in
      let blank = is_empty (strip p.is_space sentence) in
      let rest =
        join_sentences max_tokens (if blank then current else if full then sentence else candidate)
          sentences in
      if not blank && full then current ∷ rest else rest

  -- `_split_oversized`
  unfoldable pub split_oversized : ℕ → Text → List Text
  split_oversized max_tokens paragraph =
      if leb (estimate_tokens paragraph) max_tokens
      then paragraph ∷ []
      else join_sentences max_tokens [] (p.sentences paragraph)

  unfoldable pub pieces_of : ℕ → List Text → List Text
  pieces_of max_tokens [] = []
  pieces_of max_tokens (q ∷ qs) =
      (if is_empty (strip p.is_space q)
        then []
        else split_oversized max_tokens (strip p.is_space q))
      ++ pieces_of max_tokens qs

  -- `_make_chunk`
  unfoldable pub make_chunk : ℕ → Text → Option Text → Chunk
  make_chunk index content heading =
      let titled : Text = elim heading [ none ↦ [] | some h ↦ h ] in
      let body = if is_empty titled then content else titled ++ (10 ∷ content) in
      record {
        index = index;
        content = body;
        heading = heading;
        token_count = estimate_tokens body;
        clause = if not (is_empty titled) && p.is_clause titled then heading else none;
      }

  unfoldable pub make_chunks : ℕ → Option Text → List Text → List Chunk
  make_chunks index heading [] = []
  make_chunks index heading (content ∷ contents) =
      make_chunk index content heading ∷ make_chunks (suc index) heading contents

  -- The outer loop of `chunk_text`; the second argument is `len(chunks)`.
  unfoldable pub chunk_sections : ℕ → ℕ → List (Option Text × Text) → List Chunk
  chunk_sections max_tokens count [] = []
  chunk_sections max_tokens count ((heading, body) ∷ sections) =
      let contents = pack max_tokens [] (pieces_of max_tokens (p.paragraphs body)) in
      make_chunks count heading contents
      ++ chunk_sections max_tokens (count + length contents) sections

  unfoldable pub chunk_text : ℕ → Text → List Chunk
  chunk_text max_tokens text = chunk_sections max_tokens 0 (split_sections (p.drop_contents text))
