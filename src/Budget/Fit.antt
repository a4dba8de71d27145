-- ===== src/Budget/Fit.antt =====
-- What `fit_chunks` selects: it stays in the budget, repeats no key, and leaves out nothing
-- that still fits.
use liviq.Base.{
  ℕ, ◌+◌, ◌-◌, ◌≤◌, ◌<◌, ◌≡◌, refl, sym, subst, Bool, true, false, ◌||◌, List, [], ◌∷◌, map, arith,
  ltb, Bool-cases, inl, inr, is_empty, Text, text_eq→eq, text_eq_refl, mem_text, All,
}
use liviq.Base.Sort.{sorted, All-of_sorted}
use liviq.Budget.{ScoredChunk, tokens, dedupe_key, ranks_before, select, fit_chunks}

module _ {F : Type 0} where
  -- The tokens of a selection.
  abbrev pub total : List (ScoredChunk F) → ℕ
  total [] = 0
  total (c ∷ cs) = tokens c + total cs

  module _ (is_space : ℕ → Bool) where
    abbrev pub keys : List (ScoredChunk F) → List Text
    keys cs = map (λ (c : ScoredChunk F). dedupe_key is_space c.content) cs

    -- No two chunks share a key, and no key is empty.
    abbrev pub HasDistinctKeys : List (ScoredChunk F) → Type 0
    HasDistinctKeys [] = Unit
    HasDistinctKeys (c ∷ cs) =
        (is_empty (dedupe_key is_space c.content) ≡ false)
        × (mem_text (dedupe_key is_space c.content) (keys cs) ≡ false)
        × HasDistinctKeys cs

    -- Why a chunk may be left out: its key is empty or taken, or it does not fit any more.
    abbrev pub accounted : List (ScoredChunk F) → ℕ → ScoredChunk F → Bool
    accounted chosen budget c =
        is_empty (dedupe_key is_space c.content)
        || mem_text (dedupe_key is_space c.content) (keys chosen)
        || ltb budget (total chosen + tokens c)

    total-select :
        (cs : List (ScoredChunk F)) (seen : List Text) (r : ℕ)
        → total (select is_space cs seen r) ≤ r
    unfolding select
    total-select [] seen r = omega arith
    total-select (c ∷ cs) seen r = ground (
      arith,
      total-select cs seen r,
      total-select cs (dedupe_key is_space c.content ∷ seen) (r - tokens c),
    )

    mem-keys-select :
        (cs : List (ScoredChunk F)) (k : Text) (seen : List Text) (r : ℕ)
        → mem_text k seen ≡ true
        → mem_text k (keys (select is_space cs seen r)) ≡ false
    unfolding select mem_text
    mem-keys-select [] k seen r h = refl
    mem-keys-select (c ∷ cs) k seen r h =
        let key = dedupe_key is_space c.content in
        ground (
          arith,
          text_eq→eq k key,
          mem-keys-select cs k seen r,
          mem-keys-select cs k (key ∷ seen) (r - tokens c),
        )

    HasDistinctKeys-select :
        (cs : List (ScoredChunk F)) (seen : List Text) (r : ℕ)
        → HasDistinctKeys (select is_space cs seen r)
    unfolding select mem_text
    HasDistinctKeys-select [] seen r = tt
    HasDistinctKeys-select (c ∷ cs) seen r =
        let key = dedupe_key is_space c.content in
        ground (
          arith,
          text_eq_refl key,
          mem-keys-select cs key (key ∷ seen) (r - tokens c),
          HasDistinctKeys-select cs seen r,
          HasDistinctKeys-select cs (key ∷ seen) (r - tokens c),
        )

    abbrev settled : List (ScoredChunk F) → List Text → ℕ → ScoredChunk F → Bool
    settled chosen seen r c = mem_text (dedupe_key is_space c.content) seen || accounted chosen r c

    settled-cons :
        (c d : ScoredChunk F) (chosen : List (ScoredChunk F)) (seen : List Text) (r : ℕ)
        → ltb r (tokens c) ≡ false
        → settled chosen (dedupe_key is_space c.content ∷ seen) (r - tokens c) d ≡ true
        → settled (c ∷ chosen) seen r d ≡ true
    unfolding mem_text
    settled-cons c d chosen seen r fits h = ground arith

    All-settled_cons :
        (c : ScoredChunk F) (chosen ds : List (ScoredChunk F)) (seen : List Text) (r : ℕ)
        → ltb r (tokens c) ≡ false
        → All
            (λ d. settled chosen (dedupe_key is_space c.content ∷ seen) (r - tokens c) d ≡ true)
            ds
        → All (λ d. settled (c ∷ chosen) seen r d ≡ true) ds
    All-settled_cons c chosen [] seen r fits h = tt
    All-settled_cons c chosen (d ∷ ds) seen r fits h =
        (settled-cons c d chosen seen r fits h.0, All-settled_cons c chosen ds seen r fits h.1)

    settled_self :
        (c : ScoredChunk F) (chosen : List (ScoredChunk F)) (seen : List Text) (r : ℕ)
        → settled (c ∷ chosen) seen r c ≡ true
    unfolding mem_text
    settled_self c chosen seen r = ground (arith, text_eq_refl (dedupe_key is_space c.content))

    settled_skip :
        (c : ScoredChunk F) (chosen : List (ScoredChunk F)) (seen : List Text) (r : ℕ)
        → (is_empty (dedupe_key is_space c.content)
            || mem_text (dedupe_key is_space c.content) seen
            || ltb r (tokens c))
          ≡ true
        → settled chosen seen r c ≡ true
    settled_skip c chosen seen r h = ground arith

    abbrev skips : ScoredChunk F → List Text → ℕ → Bool
    skips c seen r =
        is_empty (dedupe_key is_space c.content)
        || mem_text (dedupe_key is_space c.content) seen
        || ltb r (tokens c)

    select_skip :
        (c : ScoredChunk F) (cs : List (ScoredChunk F)) (seen : List Text) (r : ℕ)
        → skips c seen r ≡ true
        → select is_space (c ∷ cs) seen r ≡ select is_space cs seen r
    unfolding select
    select_skip c cs seen r h = rw h

    select_keep :
        (c : ScoredChunk F) (cs : List (ScoredChunk F)) (seen : List Text) (r : ℕ)
        → skips c seen r ≡ false
        → select is_space (c ∷ cs) seen r
          ≡ c ∷ select is_space cs (dedupe_key is_space c.content ∷ seen) (r - tokens c)
    unfolding select
    select_keep c cs seen r h = rw h

    All-settled :
        (cs : List (ScoredChunk F)) (seen : List Text) (r : ℕ)
        → All (λ c. settled (select is_space cs seen r) seen r c ≡ true) cs
    All-settled [] seen r = tt
    All-settled (c ∷ cs) seen r =
        let rest = select is_space cs (dedupe_key is_space c.content ∷ seen) (r - tokens c) in
        let Settled =
          λ (chosen : List (ScoredChunk F)). All (λ d. settled chosen seen r d ≡ true) (c ∷ cs) in
        elim (Bool-cases (skips c seen r)) [
          | inl skip ↦
              subst Settled (sym (select_skip c cs seen r skip))
                (settled_skip c (select is_space cs seen r) seen r skip, All-settled cs seen r)
          | inr keep ↦ subst Settled (sym (select_keep c cs seen r keep)) (
            settled_self c rest seen r,
            All-settled_cons c rest cs seen r (ground arith)
                (All-settled cs (dedupe_key is_space c.content ∷ seen) (r - tokens c)),
          )
        ]

fit_chunks-eq-select :
    {F : Type 0} (is_space : ℕ → Bool) (less : F → F → Bool) (chunks : List (ScoredChunk F))
    (budget : ℕ)
    → 0 < budget
    → fit_chunks is_space less chunks budget
      ≡ select is_space (sorted (ranks_before less) chunks) [] budget
unfolding fit_chunks
fit_chunks-eq-select is_space less chunks budget h = ground arith

-- The selection never needs more tokens than the budget.
pub total-fit_chunks-le :
    {F : Type 0} (is_space : ℕ → Bool) (less : F → F → Bool) (chunks : List (ScoredChunk F))
    (budget : ℕ)
    → total (fit_chunks is_space less chunks budget) ≤ budget
unfolding fit_chunks
total-fit_chunks-le is_space less chunks budget =
    ground (arith, total-select is_space (sorted (ranks_before less) chunks) [] budget)

-- With a budget above zero no two selected chunks share a deduplication key and none has an
-- empty one, and every chunk of the input has an empty key, or the key of a selected chunk, or
-- more tokens than the selection leaves of the budget.
pub fit_chunks_complete :
    {F : Type 0} (is_space : ℕ → Bool) (less : F → F → Bool) (chunks : List (ScoredChunk F))
    (budget : ℕ)
    → 0 < budget
    → let chosen = fit_chunks is_space less chunks budget in
      HasDistinctKeys is_space chosen × All (λ c. accounted is_space chosen budget c ≡ true) chunks
unfolding mem_text
fit_chunks_complete {F} is_space less chunks budget h =
    let order = sorted (ranks_before less) chunks in
    let Complete = λ (chosen : List (ScoredChunk F)).
      HasDistinctKeys is_space chosen
      × All (λ c. accounted is_space chosen budget c ≡ true) chunks in
    subst Complete (sym (fit_chunks-eq-select is_space less chunks budget h)) (
      HasDistinctKeys-select is_space order [] budget,
      All-of_sorted (ranks_before less)
          (λ c. accounted is_space (select is_space order [] budget) budget c ≡ true) chunks
          (All-settled is_space order [] budget),
    )
