-- ===== src/Tests/History.antt =====
-- A conversation of two turns.
use liviq.Base.{◌≤◌, ◌≡◌, refl, List, [], ◌∷◌, ◌++◌, codes, length, filter}
use mathlib.Core.List.{flatten}
use liviq.History.{
  Message, Turn, group_turns, pick_turns, select_relevant_messages, add_message, add_to_last,
}
use liviq.History.Select.{has_text, indices, flatten-group_turns, select_keeps_last}
use liviq.Base.{strip, lstrip, text_eq}
use liviq.Tests.World.{is_space, is_word}

abbrev asked : Turn
asked =
    (codes "user", codes "when is the bill due") ∷ (codes "assistant", codes "on the tenth") ∷ []

abbrev thanked : Turn
thanked = (codes "user", codes "thanks") ∷ []

abbrev conversation : List Message
conversation = asked ++ ((codes "assistant", codes "  ") ∷ thanked)

flatten-group_turns_example :
    flatten (group_turns is_space conversation) ≡ filter (has_text is_space) conversation
flatten-group_turns_example = flatten-group_turns is_space conversation

select_keeps_last_example :
    let earlier =
      pick_turns 0 (indices is_space is_word (codes "which bill") conversation) (asked ∷ []) in
    (length earlier ≤ 2)
    × (select_relevant_messages is_space is_word (codes "which bill") conversation
        ≡ flatten earlier ++ thanked)
unfolding group_turns add_message add_to_last strip lstrip text_eq
select_keeps_last_example =
    select_keeps_last is_space is_word (codes "which bill") conversation (asked ∷ []) thanked refl
