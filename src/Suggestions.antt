-- ===== src/Suggestions.antt =====
-- packages/ai-core/src/ai_core/suggestions.py: the next actions that are offered after an answer.
use liviq.Base.{
  ℕ, Bool, true, false, Option, none, some, List, [], ◌∷◌, ◌++◌, if◌then◌else◌, take, Text, codes,
  text_eq, mem_text,
}

-- The `status` of a `DoneEvent`.
pub data Status : Type 0 where
  answered fallback clarify : Status

-- `TOOL_SUGGESTIONS`, which is empty
abbrev pub tool_suggestions : List (Text × Text)
tool_suggestions = []

abbrev pub fallback_suggestion : Text
fallback_suggestion = codes "관리사무소에 문의하기"

abbrev pub max_suggestions : ℕ
max_suggestions = 3

unfoldable pub suggestion_for : Text → List (Text × Text) → Option Text
suggestion_for name [] = none
suggestion_for name ((n, s) ∷ rest) = if text_eq n name then some s else suggestion_for name rest

unfoldable pub suggested : List Text → List Text
suggested [] = []
suggested (name ∷ path) =
    elim (suggestion_for name tool_suggestions) [ some s ↦ s ∷ [] | none ↦ [] ] ++ suggested path

-- `dict.fromkeys(candidates)`: the first occurrences, in order
unfoldable pub first_occurrences : List Text → List Text → List Text
first_occurrences seen [] = []
first_occurrences seen (s ∷ ss) =
    let old = mem_text s seen in
    (if old then [] else s ∷ []) ++ first_occurrences (if old then seen else s ∷ seen) ss

abbrev pub is_answered : Status → Bool
is_answered Status.answered = true
is_answered _ = false

unfoldable pub suggest_next_actions : List Text → Status → List Text
suggest_next_actions tool_path status = take max_suggestions (
    first_occurrences []
      ((if is_answered status then [] else fallback_suggestion ∷ []) ++ suggested tool_path))
