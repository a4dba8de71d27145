-- ===== src/Assistant.antt =====
-- apps/api/app/routers/assistant.py: a question over HTTP, with its conversation, the cache and the
-- message that is kept. The tables are lists of rows, as the session of the request
-- sees them; what the prompts say is a parameter.
pub mod Rows
pub mod Exchange
pub mod Respond
pub mod Saved
pub mod Endpoints
use liviq.Base.{
  ℕ, ◌+◌, Bool, true, false, ◌&&◌, ◌||◌, not, Option, none, some, List, [], ◌∷◌, ◌++◌, map, filter,
  any, take, if◌then◌else◌, ltb, ◌==◌, is_empty, is_some, Text, codes, text_eq, mem_text, contains,
}
use mathlib.Core.List.{reverse}
use liviq.Base.Sort.{sorted}
use liviq.Budget.{text_ltb}
use liviq.Http.{Action, pure, or_refuse, gets, modify, ◌>>=◌, ◌>>◌}
use liviq.Access.{RequestContext}
use liviq.Citations.{Citation}
use liviq.Clarify.{clarify_tool_name}
use liviq.FloorPlan.{UnitSearch, parse_query, parse_unit, ParsedSpec}
use liviq.Suggestions.{Status}
use liviq.Orchestrator.Types.{ChatUsage, ToolCitation, DoneEvent}
use liviq.History.{Message}

pub record Conversation : Type 0 where
  pub id : Text
  pub tenant_id : Text
  pub user_id : Text
  pub channel : Text
  pub updated_at : ℕ

pub record MessageRow (F : Type 0) : Type 0 where
  pub id : Text
  pub tenant_id : Text
  pub conversation_id : Text
  pub role : Text
  pub content : Text
  pub intent : Option Text
  pub confidence : Option F
  pub status : Option Status
  -- whether `review_status` is set
  pub needs_review : Bool
  pub token_input : Option ℕ
  pub token_output : Option ℕ
  pub created_at : ℕ

pub record CitationRow : Type 0 where
  pub tenant_id : Text
  pub message_id : Text
  pub source_kind : Text
  pub source_ref : Option Text
  pub document_id : Option Text
  pub chunk_id : Option Text
  pub quote : Text
  pub page : Option ℕ
  pub clause : Option Text

pub record Member : Type 0 where
  pub id : Text
  pub tenant_id : Text
  pub household_id : Option Text

pub record Household : Type 0 where
  pub id : Text
  pub tenant_id : Text
  pub building_id : Text

pub record Db (F : Type 0) : Type 0 where
  pub conversations : List Conversation
  pub messages : List (MessageRow F)
  pub citations : List CitationRow
  pub users : List Member
  pub households : List Household

-- `_History`
pub record History : Type 0 where
  pub turns : List Message
  pub last_was_clarify : Bool
  pub last_user_question : Option Text

abbrev pub no_history : History
no_history = record { turns = []; last_was_clarify = false; last_user_question = none }

-- The fixed prompts
pub record Prompts : Type 0 where
  pub answer : Text
  pub agent : Text
  pub facility_answer : Text
  pub admin_answer : Text
  pub admin_unit : Text
  pub admin_ask_unit : Text

pub record AdminOverrides : Type 0 where
  pub answer_prompt : Text
  pub agent_prompt : Text
  pub exclude_tools : List Text
  pub target_unit : Option (Text × ℕ)
  pub target_query : Option Text

abbrev pub location_words : List Text
location_words = codes "어디" ∷ codes "위치" ∷ codes "찾아" ∷ codes "찾을" ∷ codes "찾고" ∷ []

abbrev pub household_devices_tool : Text
household_devices_tool = codes "find_household_devices"

abbrev pub history_message_limit : ℕ
history_message_limit = 20

abbrev pub restore_message_limit : ℕ
restore_message_limit = 40

unfoldable pub is_home_device_location_query : (Text → Text) → Text → Bool
is_home_device_location_query lower question =
    not (is_empty (parse_query lower question).elements)
    && any (λ w. contains w question) location_words

unfoldable pub effective_question : Text → History → Text
effective_question question history =
    if history.last_was_clarify
    then elim history.last_user_question [
      | none ↦ question
      | some earlier ↦ if is_empty earlier then question else question ++ (32 ∷ earlier)
    ]
    else question

unfoldable pub admin_overrides :
    Prompts → (Text → Text) → UnitSearch → (Text → ℕ) → Text → History → AdminOverrides
admin_overrides prompts lower search int question history =
    let effective = effective_question question history in
    if not (is_home_device_location_query lower effective)
    then record {
      answer_prompt = prompts.answer;
      agent_prompt = prompts.agent;
      exclude_tools = [];
      target_unit = none;
      target_query = none;
    }
    else elim (parse_unit search int effective) [
      | some unit ↦ record {
        answer_prompt = prompts.admin_answer;
        agent_prompt = prompts.admin_unit;
        exclude_tools = codes "get_facilities" ∷ clarify_tool_name ∷ [];
        target_unit = some unit;
        target_query = some effective;
      }
      | none ↦ record {
        answer_prompt = prompts.admin_answer;
        agent_prompt = prompts.admin_ask_unit;
        exclude_tools = [];
        target_unit = none;
        target_query = none;
      }
    ]

-- The tools that are hidden, the tool of the floor plan too unless the code found the unit
unfoldable pub hidden_tools : AdminOverrides → List Text
hidden_tools o = elim o.target_unit [
  | none ↦ o.exclude_tools ++ (household_devices_tool ∷ [])
  | some unit ↦ o.exclude_tools
]

-- `session.scalar(select(…).where(…))`
abbrev pub first : {A : Type 0} → (A → Bool) → List A → Option A
first p [] = none
first p (x ∷ xs) = if p x then some x else first p xs
