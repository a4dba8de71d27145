-- ===== src/Orchestrator/Types.antt =====
-- The events, the messages, and what the outside world does: the model's endpoint, `json`,
-- Pydantic, `re`, and Python's tables of characters.
use liviq.Base.{ℕ, Bool, Option, List, Text}
use liviq.Base.Float.{Float}
use liviq.Masking.{Engine}
use liviq.Citations.{Citation}
use liviq.Registry.{ToolSpec, ToolCallRequest}
use liviq.Suggestions.{Status}

-- llm/client.py
pub record ChatUsage : Type 0 where
  pub input_tokens : ℕ
  pub output_tokens : ℕ
  pub estimated : Bool

-- A message of the conversation that is sent to the model.
pub data ChatMessage : Type 0 where
  system user assistant : Text → ChatMessage
  assistant_calls : List ToolCallRequest → ChatMessage
  tool : (id content : Text) → ChatMessage

pub record ChatResponse : Type 0 where
  pub text : Text
  pub usage : ChatUsage
  pub tool_calls : List ToolCallRequest

-- `unavailable` is `LlmUnavailableError`, `failed` any other `LlmError`.
pub data ChatReply : Type 0 where
  reply : ChatResponse → ChatReply
  unavailable failed : ChatReply

-- How a stream ends once its deltas are read.
pub data StreamEnd : Type 0 where
  finished unavailable failed : StreamEnd

pub data Stage : Type 0 where
  searching generating verifying : Stage

pub data FallbackReason : Type 0 where
  no_evidence masking_failed low_confidence llm_unavailable : FallbackReason

pub record ToolCitation : Type 0 where
  pub ref : ℕ
  pub title : Text
  pub quote : Text
  pub source_kind : Text
  pub payload : Option Text

pub record DoneEvent (F : Type 0) : Type 0 where
  pub status : Status
  pub confidence : F
  pub needs_review : Bool
  pub usage : Option ChatUsage
  pub fallback_reason : Option FallbackReason
  pub citations : List Citation
  pub tool_citations : List ToolCitation
  pub answer : Text
  pub tool_path : List Text
  pub suggestions : List Text

pub data AssistantEvent (F : Type 0) : Type 0 where
  status : Stage → Option Text → AssistantEvent F
  token : Text → AssistantEvent F
  citation : Citation → AssistantEvent F
  tool_citation : ToolCitation → AssistantEvent F
  finish : DoneEvent F → AssistantEvent F

-- The outside world. `chat` is the endpoint's reply to its n-th call, `chat_stream` the deltas of
-- the answer and how the stream ends; `normal_args` is `json.dumps(json.loads(s), sort_keys=True)`
-- where `s` is JSON; `clarify_args` is the validation of `ClarificationArgs`.
pub record World : Type 1 where
  pub float : Float
  pub engine : Engine
  pub is_space : ℕ → Bool
  pub is_word : ℕ → Bool
  pub digit : ℕ → Option ℕ
  pub normal_args : Text → Option Text
  pub clarify_args : Text → Option (Text × Option Text)
  pub chat : ℕ → List ChatMessage → List ToolSpec → ChatReply
  pub chat_stream : List ChatMessage → Bool → List Text × StreamEnd
  pub quote_first : Bool
  -- `datetime.now(KST).date().isoformat()`
  pub today : Text
