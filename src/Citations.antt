-- ===== src/Citations.antt =====
-- packages/ai-core/src/ai_core/citations.py: the references `[n]` of an answer are read and held
-- against the chunks that the answer was given.
pub mod Reading
pub mod Check
use liviq.Base.{
  ℕ, zero, suc, ◌+◌, ◌-◌, ◌*◌, Bool, true, false, ◌&&◌, not, Option, none, some, List, [], ◌∷◌,
  ◌++◌, if◌then◌else◌, ltb, leb, ◌==◌, length, get_elem?, take, is_empty, Text,
}
use liviq.Retrieval.{RetrievedChunk}

-- `_QUOTE_MAX_CHARS`
abbrev pub quote_max_chars : ℕ
quote_max_chars = 200

pub record Citation : Type 0 where
  pub ref : ℕ
  pub chunk_id : Text
  pub document_id : Option Text
  pub document_title : Text
  pub quote : Text
  pub page : Option ℕ
  pub clause : Option Text

pub record CitationCheck : Type 0 where
  pub citations : List Citation
  pub invalid_refs : List ℕ

-- `CitationCheck.is_valid`
unfoldable pub is_valid : CitationCheck → Bool
is_valid c = not (is_empty c.citations) && is_empty c.invalid_refs

-- How far a match of `\[(\d+)\]` has come.
pub data Scan : Type 0 where
  outside opened : Scan
  number : ℕ → Scan

-- `digit` is Python's table of decimal digits, which `\d` and `int` share.
module _ (digit : ℕ → Option ℕ) where
  abbrev pub advance : Scan → ℕ → Scan
  advance opened c = elim (digit c) [ some d ↦ number d | none ↦ outside ]
  advance (number n) c = elim (digit c) [ some d ↦ number (n * 10 + d) | none ↦ outside ]
  advance outside c = outside

  abbrev pub closes : Scan → ℕ → List ℕ
  closes (number n) c = if c == 93 then n ∷ [] else []
  closes _ c = []

  -- `_CITATION_REF_RE.findall(answer)`, each match read by `int`: 91 is `[` and 93 is `]`
  unfoldable pub find_from : Scan → Text → List ℕ
  find_from st [] = []
  find_from st (c ∷ s) = closes st c ++ find_from (if c == 91 then opened else advance st c) s

  unfoldable pub find_refs : Text → List ℕ
  find_refs answer = find_from outside answer

-- sorted({…})
unfoldable pub insert_ref : ℕ → List ℕ → List ℕ
insert_ref n [] = n ∷ []
insert_ref n (m ∷ ms) =
    let rest = insert_ref n ms in
    if n == m then m ∷ ms else if ltb n m then n ∷ m ∷ ms else m ∷ rest

unfoldable pub sorted_set : List ℕ → List ℕ
sorted_set [] = []
sorted_set (n ∷ ns) = insert_ref n (sorted_set ns)

abbrev pub with_citation : Citation → CitationCheck → CitationCheck
with_citation c k = record k { citations = c ∷ k.citations }

abbrev pub with_invalid : ℕ → CitationCheck → CitationCheck
with_invalid n k = record k { invalid_refs = n ∷ k.invalid_refs }

module _ {F : Type 0} where
  unfoldable pub cite : ℕ → RetrievedChunk F → Citation
  cite n c = record {
    ref = n;
    chunk_id = c.chunk_id;
    document_id = c.document_id;
    document_title = c.document_title;
    quote = take quote_max_chars c.content;
    page = c.page;
    clause = c.clause;
  }

  -- The loop over `refs`: `none` is never read, since the test holds the number in range.
  unfoldable pub check_refs : List (RetrievedChunk F) → List ℕ → CitationCheck
  check_refs chunks [] = record { citations = []; invalid_refs = [] }
  check_refs chunks (n ∷ ns) =
      let rest = check_refs chunks ns in
      if leb 1 n && leb n (length chunks)
      then elim (get_elem? chunks (n - 1)) [ some c ↦ with_citation (cite n c) rest | none ↦ rest ]
      else with_invalid n rest

  unfoldable pub verify_citations : (ℕ → Option ℕ) → Text → List (RetrievedChunk F) → CitationCheck
  verify_citations digit answer chunks = check_refs chunks (sorted_set (find_refs digit answer))
