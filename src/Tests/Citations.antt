-- ===== src/Tests/Citations.antt =====
-- Two references in an answer, and the check against one chunk.
use liviq.Base.{◌≡◌, none, List, [], ◌∷◌, ◌++◌, ◌&&◌, ℕ, Text, codes, All, map, not}
use liviq.Base.Decimal.{dec}
use liviq.Retrieval.{RetrievedChunk}
use liviq.Citations.{Citation, find_refs, verify_citations}
use liviq.Citations.Reading.{find_refs-reference}
use liviq.Citations.Check.{QuotesChunk, mem_ref, in_range, verify_citations-sorts}
use liviq.Tests.World.{digit, digit-ReadsDecimals}

abbrev chunk : RetrievedChunk ℕ
chunk = record {
  chunk_id = codes "c1";
  document_id = none;
  document_title = codes "rules";
  content = codes "Quiet hours begin at ten.";
  heading = none;
  page = none;
  clause = none;
  score = 900;
}

abbrev chunks : List (RetrievedChunk ℕ)
chunks = chunk ∷ []

abbrev answer : Text
answer = codes "Ten [1], or nine [2]."

find_refs-reference_example :
    find_refs digit (codes "at [2" ++ (codes "[" ++ (dec 10 ++ (codes "]" ++ codes " and [3]"))))
    ≡ find_refs digit (codes "at [2") ++ (10 ∷ find_refs digit (codes " and [3]"))
find_refs-reference_example =
    find_refs-reference digit (codes "at [2") 10 (codes " and [3]") digit-ReadsDecimals

verify_citations-sorts_example :
    let k = verify_citations digit answer chunks in
    All (QuotesChunk chunks) k.citations
    × (mem_ref 2 (map (λ (c : Citation). c.ref) k.citations)
        ≡ (mem_ref 2 (find_refs digit answer) && in_range chunks 2))
    × (mem_ref 2 k.invalid_refs ≡ (mem_ref 2 (find_refs digit answer) && not (in_range chunks 2)))
verify_citations-sorts_example = verify_citations-sorts chunks digit answer 2
