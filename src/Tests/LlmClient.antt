-- ===== src/Tests/LlmClient.antt =====
-- A server that fails once and then answers.
use liviq.Base.{ℕ, zero, suc, ◌≡◌, refl, Option, some, List, [], ◌∷◌, map, length, Text, codes, All}
use mathlib.Core.List.{Perm}
use liviq.Base.Sort.{IsSorted, sorted, insert}
use liviq.LlmClient.{
  Posted, answered, delivered, post_with_retry, retry_from, settled, Item, vectors, embed, misfit,
  by_index,
}
use liviq.LlmClient.Retry.{IsTried, post_with_retry-IsTried}
use liviq.LlmClient.Embed.{embed-sorts}

abbrev post : ℕ → Posted
post zero = answered 503 []
post (suc n) = answered 200 (codes "ok")

post_with_retry-IsTried_example : IsTried post 2 0 (post_with_retry post)
post_with_retry-IsTried_example = post_with_retry-IsTried post

abbrev items : Text → Option (List (Item ℕ))
items body = some ((1, 7 ∷ 8 ∷ []) ∷ (0, 5 ∷ 6 ∷ []) ∷ [])

embedded :
    embed items 2 post (codes "a" ∷ codes "b" ∷ []) ≡ vectors ((5 ∷ 6 ∷ []) ∷ (7 ∷ 8 ∷ []) ∷ [])
unfolding embed post_with_retry retry_from settled misfit sorted insert
embedded = refl

embed-sorts_example :
    (body : Text) × (found : List (Item ℕ)) × (ordered : List (Item ℕ)) × ((post_with_retry
        post).outcome
      ≡ delivered body)
    × (items body ≡ some found)
    × Perm ordered found
    × IsSorted by_index ordered
    × ((5 ∷ 6 ∷ []) ∷ (7 ∷ 8 ∷ []) ∷ [] ≡ map (λ (i : Item ℕ). i.1) ordered)
    × All (λ (v : List ℕ). length v ≡ 2) ((5 ∷ 6 ∷ []) ∷ (7 ∷ 8 ∷ []) ∷ [])
embed-sorts_example =
    embed-sorts items 2 post (codes "a" ∷ codes "b" ∷ []) ((5 ∷ 6 ∷ []) ∷ (7 ∷ 8 ∷ []) ∷ []) refl
      embedded
