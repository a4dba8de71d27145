-- ===== src/Assistant/Exchange.antt =====
-- apps/api/app/schemas/assistant.py and the router: what a question brings, what its stream sends, and
-- what the server has at hand.
use liviq.Base.{ℕ, Bool, false, Option, none, some, List, if◌then◌else◌, is_empty, Text}
use liviq.Registry.{Tool}
use liviq.FloorPlan.{UnitSearch}
use liviq.Suggestions.{Status}
use liviq.Orchestrator.Types.{FallbackReason, DoneEvent, Stage}
use liviq.Assistant.{Prompts}

pub record CitationData : Type 0 where
  pub ref : ℕ
  pub document_id : Option Text
  pub document_title : Text
  pub quote : Text
  pub page : Option ℕ
  pub clause : Option Text
  pub payload : Option Text

pub record DoneData (F : Type 0) : Type 0 where
  pub message_id : Text
  pub conversation_id : Text
  pub status : Status
  pub confidence : F
  pub needs_review : Bool
  pub fallback_reason : Option FallbackReason
  pub tool_path : List Text
  pub token_input : Option ℕ
  pub token_output : Option ℕ
  pub token_estimated : Bool
  pub answer : Option Text
  pub suggestions : List Text

-- An event of the stream to the client.
pub data Sse (F : Type 0) : Type 0 where
  status : Stage → Option Text → Sse F
  token : Text → Sse F
  citation : CitationData → Sse F
  finished : DoneData F → Sse F

pub record AskRequest : Type 0 where
  pub question : Text
  pub conversation_id : Option Text
  pub allow_clarify : Bool

-- The ids and the time that the database gives.
pub record Given : Type 0 where
  pub conversation_id : Text
  pub question_id : Text
  pub answer_id : Text
  pub now : ℕ

abbrev pub done_data : {F : Type 0} → DoneEvent F → Text → Text → DoneData F
done_data done conversation_id message_id = record {
  message_id = message_id;
  conversation_id = conversation_id;
  status = done.status;
  confidence = done.confidence;
  needs_review = done.needs_review;
  fallback_reason = done.fallback_reason;
  tool_path = done.tool_path;
  token_input = elim done.usage [ none ↦ none | some u ↦ some u.input_tokens ];
  token_output = elim done.usage [ none ↦ none | some u ↦ some u.output_tokens ];
  token_estimated = elim done.usage [ none ↦ false | some u ↦ u.estimated ];
  answer = if is_empty done.answer then none else some done.answer;
  suggestions = done.suggestions;
}

-- What the router has at hand: the settings, the registry and the tables of the parser.
pub record Server (F A : Type 0) : Type 0 where
  pub registry : List (Tool F A)
  pub graph_available : Bool
  pub prompts : Prompts
  pub unit_search : UnitSearch
  pub int : Text → ℕ
  pub backend : Text
  pub answer_cache_ttl_s : ℕ
  pub tool_confidence : F
