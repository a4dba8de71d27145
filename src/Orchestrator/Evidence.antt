-- ===== src/Orchestrator/Evidence.antt =====
-- The evidence and the stream: the chunks that fit, and the tokens behind the gate.
use liviq.Base.{
  ℕ, Bool, true, false, not, Option, none, some, List, [], ◌∷◌, ◌++◌, map, if◌then◌else◌, filter,
  Text, text_eq,
}
use liviq.Retrieval.{RetrievedChunk}
use liviq.History.{Message}
use liviq.Budget.{ScoredChunk, fit_chunks}
use liviq.Orchestrator.Types.{World, ChatMessage, AssistantEvent}
use liviq.Orchestrator.Texts.{context_budget_tokens, no_evidence_gate, hold, fallback, flush}

-- The arguments of `answer_question`, less the registry.
pub record Ask (F : Type 0) : Type 0 where
  pub question : Text
  pub history : List Message
  pub allow_clarify : Bool
  pub extra_names : List Text
  pub answer_prompt : Text
  pub agent_prompt : Text
  pub exclude_tools : List Text
  pub tool_confidence : F

-- What a run does: its events, the conversations that it sent to the model, and whether it ended
-- in an exception.
pub record Trace (F : Type 0) : Type 0 where
  pub events : List (AssistantEvent F)
  pub sent : List (List ChatMessage)
  pub raised : Bool

-- What became of a stream: its tokens, the text read, and whether the loop broke off.
pub record Streamed : Type 0 where
  pub tokens : List Text
  pub joined : Text
  pub broke : Bool

abbrev pub with_token : Text → Streamed → Streamed
with_token t r = record r { tokens = t ∷ r.tokens }

-- The loop over the deltas; `joined` is `"".join(parts)`.
unfoldable pub stream_deltas : (ℕ → Bool) → Text → Bool → List Text → Streamed
stream_deltas is_space joined streaming [] = record { tokens = []; joined = joined; broke = false }
stream_deltas is_space joined true (d ∷ ds) =
    with_token d (stream_deltas is_space (joined ++ d) true ds)
stream_deltas is_space joined false (d ∷ ds) = elim (no_evidence_gate is_space (joined ++ d)) [
  | fallback ↦ record { tokens = []; joined = joined ++ d; broke = true }
  | hold ↦ stream_deltas is_space (joined ++ d) false ds
  | flush ↦ with_token (joined ++ d) (stream_deltas is_space (joined ++ d) true ds)
]

unfoldable pub find_chunk :
    {F : Type 0} → Text → List (RetrievedChunk F) → Option (RetrievedChunk F)
find_chunk i [] = none
find_chunk i (c ∷ cs) = elim (find_chunk i cs) [
  | some d ↦ some d
  | none ↦ if text_eq c.chunk_id i then some c else none
]

unfoldable pub pick_chunks :
    {F : Type 0} → List (RetrievedChunk F) → List (ScoredChunk F) → List (RetrievedChunk F)
pick_chunks chunks [] = []
pick_chunks chunks (s ∷ ss) =
    elim (find_chunk s.id chunks) [ some c ↦ c ∷ [] | none ↦ [] ] ++ pick_chunks chunks ss

module _ (w : World) where
  open w use {float}

  -- `MIN_SCORE` of rag/retrieval.py
  abbrev pub min_score : float.F
  min_score = float.lit 35 100

  abbrev pub as_scored : RetrievedChunk float.F → ScoredChunk float.F
  as_scored c = record { id = c.chunk_id; content = c.content; score = c.score; token_count = none }

  -- `_fit`
  unfoldable pub fit : List (RetrievedChunk float.F) → List (RetrievedChunk float.F)
  fit chunks =
      let eligible =
        filter (λ (c : RetrievedChunk float.F). not (float.lt c.score min_score)) chunks in
      pick_chunks eligible (
        fit_chunks w.is_space float.lt (map (λ (c : RetrievedChunk float.F). as_scored c) eligible)
          context_budget_tokens)
