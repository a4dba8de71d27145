-- ===== src/Budget.antt =====
-- packages/ai-core/src/ai_core/budget/context.py: the chunks that fit the token budget. A score
-- is a float that the code only compares, so its type and the comparison are parameters.
pub mod Fit
use liviq.Base.{
  ℕ, zero, suc, ◌+◌, ◌-◌, ◌≤◌, ◌≡◌, Bool, true, false, ◌&&◌, ◌||◌, not, Option, none, some, List,
  [], ◌∷◌, ◌++◌, if◌then◌else◌, ltb, ◌==◌, is_empty, take, Text, text_eq, mem_text, strip,
}
use liviq.Base.Sort.{sorted}
use liviq.Tokens.{estimate_tokens}

pub record ScoredChunk (F : Type 0) : Type 0 where
  pub id : Text
  pub content : Text
  pub score : F
  pub token_count : Option ℕ

-- `ScoredChunk.tokens`
unfoldable pub tokens : {F : Type 0} → ScoredChunk F → ℕ
tokens c = elim c.token_count [ some n ↦ n | none ↦ estimate_tokens c.content ]

-- `<` of Python's `str`
unfoldable pub text_ltb : Text → Text → Bool
text_ltb s [] = false
text_ltb [] (b ∷ t) = true
text_ltb (a ∷ s) (b ∷ t) = ltb a b || ((a == b) && text_ltb s t)

-- `_DEDUPE_PREFIX_CHARS`
abbrev pub dedupe_prefix_chars : ℕ
dedupe_prefix_chars = 80

module _ (is_space : ℕ → Bool) where
  -- `_WHITESPACE.sub(" ", s)`: `inside` says that the last character was white space
  unfoldable pub collapse : Bool → Text → Text
  collapse inside [] = []
  collapse inside (a ∷ s) =
      (if is_space a then (if inside then [] else 32 ∷ []) else a ∷ []) ++ collapse (is_space a) s

  -- `_dedupe_key`
  unfoldable pub dedupe_key : Text → Text
  dedupe_key content = take dedupe_prefix_chars (collapse false (strip is_space content))

module _ {F : Type 0} (less : F → F → Bool) where
  -- The order of the key `(-c.score, c.id)`.
  unfoldable pub ranks_before : ScoredChunk F → ScoredChunk F → Bool
  ranks_before a b = less b.score a.score || (not (less a.score b.score) && text_ltb a.id b.id)

module _ {F : Type 0} (is_space : ℕ → Bool) where
  -- The loop over `ordered`, with `seen` and `remaining`.
  unfoldable pub select : List (ScoredChunk F) → List Text → ℕ → List (ScoredChunk F)
  select [] seen remaining = []
  select (c ∷ cs) seen remaining =
      let key = dedupe_key is_space c.content in
      let skip = is_empty key || mem_text key seen || ltb remaining (tokens c) in
      (if skip then [] else c ∷ [])
      ++ select cs (if skip then seen else key ∷ seen)
          (if skip then remaining else remaining - tokens c)

unfoldable pub fit_chunks :
    {F : Type 0} → (ℕ → Bool) → (F → F → Bool) → List (ScoredChunk F) → ℕ → List (ScoredChunk F)
fit_chunks is_space less chunks budget_tokens =
    if budget_tokens == 0
    then []
    else select is_space (sorted (ranks_before less) chunks) [] budget_tokens
