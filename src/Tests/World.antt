-- ===== src/Tests/World.antt =====
-- A concrete outside world for the examples: floats as thousandths, ASCII tables of characters,
-- and a finder that knows one telephone number.
use liviq.Base.{
  ℕ, zero, suc, ◌+◌, ◌-◌, ◌*◌, ◌/◌, refl, Bool, false, ◌&&◌, ◌||◌, Option, none, some, List, [],
  ◌∷◌, arith, if◌then◌else◌, ltb, leb, ◌==◌, length, Text, codes, starts_with, contains,
}
use liviq.Base.Float.{Float}
use liviq.Citations.Reading.{ReadsDecimals}
use liviq.Base.{mem_text}
use liviq.Base.Decimal.{dec}
use liviq.Masking.{Engine, Kind, Segment, plain, matched}
use liviq.Masking.Defs.{
  ensure_masked, mask, mask_table, mask_patterns, mask_names, name_set, substitute, placeholder,
  find_token, token, detect_pii, replace, replace_from,
}

abbrev pub thousandths : Float
thousandths = record {
  F = ℕ;
  lt = ltb;
  add = λ a b. a + b;
  sub = λ a b. a - b;
  mul = λ a b. a * b / 1000;
  round3 = λ a. a;
  of_nat = λ n. n * 1000;
  lit = λ n d. n * 1000 / d;
}

abbrev pub is_space : ℕ → Bool
is_space c = c == 32 || c == 10

abbrev pub is_word : ℕ → Bool
is_word c = leb 97 c && leb c 122

abbrev pub digit : ℕ → Option ℕ
digit c = if leb 48 c && leb c 57 then some (c - 48) else none

pub digit-ReadsDecimals : ReadsDecimals digit
digit-ReadsDecimals = record { ascii = λ d h. ground arith; no_bracket = refl }

abbrev pub phone : Text
phone = codes "010-1234-5678"

unfoldable pub segments_from : ℕ → Text → List Segment
segments_from skip [] = []
segments_from (suc k) (a ∷ s) = segments_from k s
segments_from zero (a ∷ s) =
    let hit = starts_with (a ∷ s) phone in
    (if hit then matched phone else plain (a ∷ []))
    ∷ segments_from (if hit then length phone - 1 else 0) s

abbrev pub segments : Kind → Text → List Segment
segments Kind.phone t = segments_from 0 t
segments _ t = plain t ∷ []

abbrev pub search : Kind → Text → Bool
search Kind.phone t = contains phone t
search _ t = false

abbrev pub engine : Engine
engine = record { segments = segments; search = search; by_length = λ ns. ns }

-- The code that masks a text, opened for tests.
unfoldable pub MaskingCode : Type 0
unfolding ensure_masked mask mask_table mask_patterns mask_names name_set substitute placeholder
    find_token token detect_pii segments_from contains starts_with dec replace replace_from mem_text
MaskingCode = Unit {0}
