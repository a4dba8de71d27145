-- ===== src/LlmClient.antt =====
-- packages/ai-core/src/ai_core/llm/client.py: the retries, the lines of a stream, and the
-- embeddings. HTTP and the reading of JSON are parameters.
pub mod Retry
pub mod Embed
use liviq.Base.{
  ℕ, zero, suc, ◌+◌, ◌^◌, Bool, true, false, ◌&&◌, ◌||◌, not, Option, none, some, List, [], ◌∷◌,
  ◌++◌, map, if◌then◌else◌, ◌==◌, ltb, any, drop, is_empty, length, Text, codes, text_eq,
  starts_with, strip,
}
use liviq.Base.Sort.{sorted}
use liviq.Orchestrator.Types.{StreamEnd}

abbrev pub retry_max : ℕ
retry_max = 2

-- One `client.post`: a status with a body, or an `httpx.TransportError`.
pub data Posted : Type 0 where
  answered : (status : ℕ) (body : Text) → Posted
  transport_error : Posted

-- A response, an `LlmError`, or an `LlmUnavailableError`.
pub data Outcome : Type 0 where
  delivered : (body : Text) → Outcome
  rejected : (status : ℕ) → Outcome
  unavailable : Outcome

-- What ends the loop of `_post_with_retry` at once.
unfoldable pub settled : Posted → Option Outcome
settled transport_error = none
settled (answered status body) =
    if ltb status 400
    then some (delivered body)
    else if ltb status 500
    then some (rejected status)
    else none

-- The outcome, how often it was posted, and the waits between, as multiples of the first.
pub record Tried : Type 0 where
  pub outcome : Outcome
  pub posts : ℕ
  pub waits : List ℕ

-- The loop from an attempt on, with as many retries left.
unfoldable pub retry_from : (ℕ → Posted) → ℕ → ℕ → Tried
retry_from post zero attempt = elim (settled (post attempt)) [
  | some o ↦ record { outcome = o; posts = 1; waits = [] }
  | none ↦ record { outcome = unavailable; posts = 1; waits = [] }
]
retry_from post (suc left) attempt = elim (settled (post attempt)) [
  | some o ↦ record { outcome = o; posts = 1; waits = [] }
  | none ↦
      let later = retry_from post left (suc attempt) in
      record { outcome = later.outcome; posts = suc later.posts; waits = 2 ^ attempt ∷ later.waits }
]

-- `_post_with_retry`
unfoldable pub post_with_retry : (ℕ → Posted) → Tried
post_with_retry post = retry_from post retry_max 0

-- `_parse_sse_line`: `delta` reads the content out of a chunk's JSON, where it is a text.
unfoldable pub parse_sse_line : (ℕ → Bool) → (Text → Option Text) → Text → Option Text
parse_sse_line is_space delta line =
    let rest = strip is_space (drop 5 line) in
    if not (starts_with line (codes "data:"))
    then none
    else if is_empty rest || text_eq rest (codes "[DONE]")
    then none
    else delta rest

unfoldable pub deltas_of : (ℕ → Bool) → (Text → Option Text) → List Text → List Text
deltas_of is_space delta [] = []
deltas_of is_space delta (line ∷ lines) =
    let rest = deltas_of is_space delta lines in
    elim (parse_sse_line is_space delta line) [
      | none ↦ rest
      | some d ↦ if is_empty d then rest else d ∷ rest
    ]

-- A streaming response: its status, its lines, and whether the connection broke behind them; or a
-- connection that failed.
pub data Stream : Type 0 where
  opened : (status : ℕ) (lines : List Text) (broke : Bool) → Stream
  refused : Stream

-- `chat_stream`: what it yields, and how it ends
unfoldable pub chat_stream : (ℕ → Bool) → (Text → Option Text) → Stream → List Text × StreamEnd
chat_stream is_space delta refused = ([], StreamEnd.unavailable)
chat_stream is_space delta (opened status lines broke) =
    if not (ltb status 500)
    then ([], StreamEnd.unavailable)
    else if not (ltb status 400)
    then ([], StreamEnd.failed)
    else (
      deltas_of is_space delta lines,
      if broke then StreamEnd.unavailable else StreamEnd.finished,
    )

-- An item of the response: its index and its embedding.
abbrev pub Item : Type 0 → Type 0
Item F = ℕ × List F

pub data Embedded (F : Type 0) : Type 0 where
  vectors : List (List F) → Embedded F
  wrong_dimension : (actual : ℕ) → Embedded F
  malformed : Embedded F
  not_delivered : Outcome → Embedded F

abbrev pub by_index : {F : Type 0} → Item F → Item F → Bool
by_index a b = ltb a.0 b.0

-- The first vector whose length is not the expected one.
unfoldable pub misfit : {F : Type 0} → ℕ → List (List F) → Option ℕ
misfit expected [] = none
misfit expected (v ∷ vs) = if length v == expected then misfit expected vs else some (length v)

-- `embed`: `items` reads the items out of the body
unfoldable pub embed :
    {F : Type 0} → (Text → Option (List (Item F))) → ℕ → (ℕ → Posted) → List Text → Embedded F
embed items expected post texts =
    if is_empty texts then vectors [] else elim (post_with_retry post).outcome [
      | delivered body ↦ elim (items body) [
        | none ↦ malformed
        | some found ↦
            let ordered = map (λ (i : Item _). i.1) (sorted by_index found) in
            elim (misfit expected ordered) [ some n ↦ wrong_dimension n | none ↦ vectors ordered ]
      ]
      | rejected status ↦ not_delivered (rejected status)
      | unavailable ↦ not_delivered unavailable
    ]
