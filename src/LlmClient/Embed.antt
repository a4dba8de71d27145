-- ===== src/LlmClient/Embed.antt =====
-- The embeddings come in the order of their texts, all of one dimension.
use liviq.Base.{
  ℕ, ◌≡◌, refl, sym, subst, false, Option, none, some, List, [], ◌∷◌, map, arith, ◌==◌, length,
  is_empty, Text, All, Bool-cases, inl, inr,
}
use mathlib.Core.List.{Perm}
use liviq.Base.Sort.{OrderLaws, IsSorted, sorted, sorted-perm, sorted-IsSorted}
use liviq.LlmClient.{
  Item, Embedded, vectors, wrong_dimension, malformed, not_delivered, Outcome, delivered, rejected,
  unavailable, by_index, misfit, embed, post_with_retry, Posted,
}

by_index-OrderLaws : {F : Type 0} → OrderLaws (by_index {F = F})
by_index-OrderLaws = record {
  irrefl = λ a. ground arith;
  asym = λ a b h. ground arith;
  trans = λ a b c h k. ground arith;
}

misfit-none :
    {F : Type 0} (expected : ℕ) (vs : List (List F))
    → misfit expected vs ≡ none
    → All (λ v. length v ≡ expected) vs
unfolding misfit
misfit-none expected [] h = tt
misfit-none expected (v ∷ vs) h = elim (Bool-cases (length v == expected)) [
  | inl e ↦ (ground arith, misfit-none expected vs (rw (e, misfit) at h))
  | inr e ↦ let g : some (length v) ≡ none = rw (e, misfit) at h in cc
]

-- For some texts: the vectors that `embed` returns are those of the items in a delivered body, in
-- an order in which no index is below an earlier one, and each has the expected dimension.
pub embed-sorts :
    {F : Type 0} (items : Text → Option (List (Item F))) (expected : ℕ) (post : ℕ → Posted)
    (texts : List Text) (vs : List (List F))
    → is_empty texts ≡ false
    → embed items expected post texts ≡ vectors vs
    → (body : Text) × (found : List (Item F)) × (ordered : List (Item F)) × ((post_with_retry
          post).outcome
        ≡ delivered body)
      × (items body ≡ some found)
      × Perm ordered found
      × IsSorted by_index ordered
      × (vs ≡ map (λ (i : Item F). i.1) ordered)
      × All (λ v. length v ≡ expected) vs
unfolding embed
embed-sorts {F} items expected post texts vs some_texts h =
    outcomes (post_with_retry post).outcome refl (rw (some_texts, embed) at h)
  where
    Sorted : Type 0
    Sorted =
        (body : Text) × (found : List (Item F)) × (ordered : List (Item F)) × ((post_with_retry
            post).outcome
          ≡ delivered body)
        × (items body ≡ some found)
        × Perm ordered found
        × IsSorted by_index ordered
        × (vs ≡ map (λ (i : Item F). i.1) ordered)
        × All (λ v. length v ≡ expected) vs

    ordered_of : List (Item F) → List (List F)
    ordered_of found = map (λ (i : Item F). i.1) (sorted by_index found)

    fits :
        (body : Text) (found : List (Item F))
        → (post_with_retry post).outcome ≡ delivered body
        → items body ≡ some found
        → (o : Option ℕ) → misfit expected (ordered_of found) ≡ o
        → elim o as (λ _. Embedded F) [
          | some n ↦ wrong_dimension n
          | none ↦ vectors (ordered_of found)
        ]
          ≡ vectors vs
        → Sorted
    fits body found e f (some n) m g = cc
    fits body found e f none m g =
        let same : ordered_of found ≡ vs = cc in
        (
          body,
          found,
          sorted by_index found,
          e,
          f,
          sorted-perm by_index found,
          sorted-IsSorted by_index by_index-OrderLaws found,
          sym same,
          subst (λ l. All (λ v. length v ≡ expected) l) same
              (misfit-none expected (ordered_of found) m),
        )

    reads :
        (body : Text)
        → (post_with_retry post).outcome ≡ delivered body
        → (o : Option (List (Item F))) → items body ≡ o
        → elim o as (λ _. Embedded F) [
          | none ↦ malformed
          | some found ↦ elim (misfit expected (ordered_of found)) [
            | some n ↦ wrong_dimension n
            | none ↦ vectors (ordered_of found)
          ]
        ]
          ≡ vectors vs
        → Sorted
    reads body e none f g = cc
    reads body e (some found) f g = fits body found e f (misfit expected (ordered_of found)) refl g

    outcomes :
        (o : Outcome)
        → (post_with_retry post).outcome ≡ o
        → elim o as (λ _. Embedded F) [
          | delivered body ↦ elim (items body) [
            | none ↦ malformed
            | some found ↦ elim (misfit expected (ordered_of found)) [
              | some n ↦ wrong_dimension n
              | none ↦ vectors (ordered_of found)
            ]
          ]
          | rejected status ↦ not_delivered (rejected status)
          | unavailable ↦ not_delivered unavailable
        ]
          ≡ vectors vs
        → Sorted
    outcomes (delivered body) e g = reads body e (items body) refl g
    outcomes (rejected status) e g = cc
    outcomes unavailable e g = cc
