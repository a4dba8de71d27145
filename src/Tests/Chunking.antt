-- ===== src/Tests/Chunking.antt =====
-- A text with one heading, under patterns that know where it stands.
use liviq.Base.{◌≡◌, true, false, List, [], ◌∷◌, arith, Text, codes}
use liviq.Chunking.{Patterns, boundaries, split_sections, pieces_of, pack}
use liviq.Chunking.Pack.{IsPacked, pack-pieces_of}
use liviq.Chunking.Sections.{restored, split_sections-restored}
use liviq.Tests.World.{is_space}

abbrev text : Text
text = codes "intro # Noise none after ten"

abbrev patterns : Patterns
patterns = record {
  section_matches = λ t. (6, 13) ∷ [];
  clause_matches = λ t. (8, 13) ∷ [];
  ends_in_legal_ref = λ t. false;
  unbracket = λ t. t;
  sentences = λ t. t ∷ [];
  paragraphs = λ t. t ∷ [];
  drop_contents = λ t. t;
  is_clause = λ t. true;
  is_space = is_space;
}

abbrev paragraphs : List Text
paragraphs = codes "none after ten" ∷ codes "  " ∷ codes "no dogs" ∷ []

pack-pieces_of_example :
    IsPacked 6 (pieces_of patterns 6 paragraphs) (pack 6 [] (pieces_of patterns 6 paragraphs))
pack-pieces_of_example = pack-pieces_of patterns 6 paragraphs

split_sections-restored_example :
    restored text (boundaries patterns text) (split_sections patterns text) ≡ text
split_sections-restored_example =
    split_sections-restored patterns text ((omega arith, omega arith), tt)
      ((omega arith, omega arith), tt)
