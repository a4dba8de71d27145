-- ===== src/History.antt =====
-- packages/ai-core/src/ai_core/history.py: which earlier turns go along with a question. The
-- similarity is a quotient of two sizes; it is compared as a fraction, which agrees with the
-- source's floats while the sizes stay below 2 ^ 26.
pub mod Select
use mathlib.Core.List.{foldl, flatten}
use liviq.Base.{
  ℕ, zero, suc, ◌+◌, ◌-◌, ◌*◌, Bool, true, false, ◌&&◌, ◌||◌, not, List, [], ◌∷◌, ◌++◌, map,
  if◌then◌else◌, ltb, leb, ◌==◌, length, filter, take, is_empty, any, Text, codes, text_eq,
  mem_text, join, strip,
}
use liviq.Base.Sort.{sorted}

-- A message `(role, text)`, and a turn.
abbrev pub Message : Type 0
Message = Text × Text

abbrev pub Turn : Type 0
Turn = List Message

-- `HISTORY_INJECT_TURNS`
abbrev pub history_inject_turns : ℕ
history_inject_turns = 3

-- `turns[-1].append(message)`
unfoldable pub add_to_last : List Turn → Message → List Turn
add_to_last [] m = []
add_to_last (t ∷ []) m = (t ++ m ∷ []) ∷ []
add_to_last (t ∷ u ∷ ts) m = t ∷ add_to_last (u ∷ ts) m

module _ (is_space : ℕ → Bool) where
  unfoldable pub add_message : List Turn → Message → List Turn
  add_message turns (role, content) =
      if is_empty (strip is_space content)
      then turns
      else if text_eq role (codes "user") || is_empty turns
      then turns ++ ((role, content) ∷ []) ∷ []
      else add_to_last turns (role, content)

  -- `_group_turns`
  unfoldable pub group_turns : List Message → List Turn
  group_turns messages = foldl add_message [] messages

-- `_turn_text`
unfoldable pub turn_text : Turn → Text
turn_text turn = join (codes " ") (map (λ (m : Message). m.1) turn)

-- The pairs of neighbours, each once.
unfoldable pub pairs : Text → List Text
pairs [] = []
pairs (a ∷ []) = []
pairs (a ∷ b ∷ s) =
    let rest = pairs (b ∷ s) in if mem_text (a ∷ b ∷ []) rest then rest else (a ∷ b ∷ []) ∷ rest

-- A similarity, as numerator and denominator.
abbrev pub Ratio : Type 0
Ratio = ℕ × ℕ

abbrev pub ratio_ltb : Ratio → Ratio → Bool
ratio_ltb (a, b) (c, d) = ltb (a * d) (c * b)

-- `_jaccard`
unfoldable pub jaccard : List Text → List Text → Ratio
jaccard left right =
    if is_empty left || is_empty right
    then (0, 1)
    else (let both = length (filter (λ g. mem_text g right) left) in
        (both, length left + length right - both))

-- `sorted(…, reverse=True)`: the larger score first, and the larger index on a tie
abbrev pub ranks_above : Ratio × ℕ → Ratio × ℕ → Bool
ranks_above (r, i) (q, j) = ratio_ltb q r || (not (ratio_ltb r q) && ltb j i)

unfoldable pub pick_turns : ℕ → List ℕ → List Turn → List Turn
pick_turns i chosen [] = []
pick_turns i chosen (t ∷ ts) =
    (if any (λ j. i == j) chosen then t ∷ [] else []) ++ pick_turns (i + 1) chosen ts

-- `is_word` is Python's table for `\w`.
module _ (is_word : ℕ → Bool) where
  -- `_bigrams`: fewer than two characters have no pair of neighbours
  unfoldable pub bigrams : Text → List Text
  bigrams text = pairs (filter is_word text)

  -- The entries `(score, index)` of all turns but the last.
  unfoldable pub scored_from : List Text → ℕ → List Turn → List (Ratio × ℕ)
  scored_from question i [] = []
  scored_from question i (t ∷ []) = []
  scored_from question i (t ∷ u ∷ ts) =
      (jaccard question (bigrams (turn_text t)), i) ∷ scored_from question (i + 1) (u ∷ ts)

  unfoldable pub chosen_indices : List Text → List Turn → List ℕ
  chosen_indices question turns =
      (length turns - 1)
      ∷ map (λ (e : Ratio × ℕ). e.1)
          (filter (λ e. ltb 0 e.0.0)
            (take (history_inject_turns - 1) (sorted ranks_above (scored_from question 0 turns))))

module _ (is_space is_word : ℕ → Bool) where
  -- The turns that `select_relevant_messages` joins.
  unfoldable pub relevant_turns : Text → List Message → List Turn
  relevant_turns question messages =
      let turns = group_turns is_space messages in
      if is_empty turns
      then []
      else pick_turns 0 (chosen_indices is_word (bigrams is_word question) turns) turns

  unfoldable pub select_relevant_messages : Text → List Message → List Message
  select_relevant_messages question messages = flatten (relevant_turns question messages)
