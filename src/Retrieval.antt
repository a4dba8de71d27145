-- ===== src/Retrieval.antt =====
-- The chunk that packages/ai-core/src/ai_core/rag/retrieval.py returns, and the numbered block
-- of rag/prompt.py that shows chunks to the model. A UUID is its canonical text.
use liviq.Base.{
  ℕ, ◌+◌, Option, none, some, List, [], ◌∷◌, ◌++◌, if◌then◌else◌, is_empty, Text, codes, join,
}
use liviq.Base.Decimal.{dec}

pub record RetrievedChunk (F : Type 0) : Type 0 where
  pub chunk_id : Text
  pub document_id : Option Text
  pub document_title : Text
  pub content : Text
  pub heading : Option Text
  pub page : Option ℕ
  pub clause : Option Text
  pub score : F

abbrev pub newline : Text
newline = 10 ∷ []

-- An optional text that is absent or empty is false in Python.
abbrev pub clause_part : Option Text → Text
clause_part none = []
clause_part (some t) = if is_empty t then [] else 32 ∷ t

abbrev pub page_part : Option ℕ → Text
page_part none = []
page_part (some n) = codes " p." ++ dec n

module _ {F : Type 0} where
  unfoldable pub context_line : ℕ → RetrievedChunk F → Text
  context_line i c =
      codes "["
      ++ (dec i
          ++ (codes "] ("
              ++ (c.document_title
                  ++ (clause_part c.clause
                      ++ (page_part c.page ++ (codes ")" ++ (newline ++ c.content)))))))

  unfoldable pub context_lines : ℕ → List (RetrievedChunk F) → List Text
  context_lines i [] = []
  context_lines i (c ∷ cs) = context_line i c ∷ context_lines (i + 1) cs

  unfoldable pub build_context_block : ℕ → List (RetrievedChunk F) → Text
  build_context_block start chunks = join (newline ++ newline) (context_lines start chunks)
