-- ===== src/Assistant/Rows.antt =====
-- apps/api/app/routers/assistant.py: the conversations, their messages, and what is read of them.
use liviq.Base.{
  ℕ, Bool, true, false, ◌&&◌, ◌||◌, not, Option, none, some, List, [], ◌∷◌, ◌++◌, map, filter, any,
  take, if◌then◌else◌, ltb, ◌==◌, is_empty, Text, codes, text_eq, mem_text,
}
use mathlib.Core.List.{reverse}
use liviq.Base.Sort.{sorted}
use liviq.Budget.{text_ltb}
use liviq.Http.{Action, pure, or_refuse, gets, modify, ◌>>=◌, ◌>>◌}
use liviq.Access.{RequestContext}
use liviq.Citations.{Citation}
use liviq.Suggestions.{Status}
use liviq.Orchestrator.Types.{ToolCitation, DoneEvent}
use liviq.Assistant.{
  Conversation, MessageRow, CitationRow, Db, History, history_message_limit, restore_message_limit,
  first,
}

abbrev pub is_clarify : Option Status → Bool
is_clarify (some Status.clarify) = true
is_clarify _ = false

abbrev pub document_rows : Text → Text → List Citation → List CitationRow
document_rows tenant_id message_id cs =
    map
      (λ (c : Citation). record {
        tenant_id = tenant_id;
        message_id = message_id;
        source_kind = codes "document_chunk";
        source_ref = none;
        document_id = c.document_id;
        chunk_id = some c.chunk_id;
        quote = c.quote;
        page = c.page;
        clause = c.clause;
      })
      cs

abbrev pub tool_rows : Text → Text → List ToolCitation → List CitationRow
tool_rows tenant_id message_id ts =
    map
      (λ (t : ToolCitation). record {
        tenant_id = tenant_id;
        message_id = message_id;
        source_kind = t.source_kind;
        source_ref = some t.title;
        document_id = none;
        chunk_id = none;
        quote = t.quote;
        page = none;
        clause = none;
      })
      ts

pub record Restored (F : Type 0) : Type 0 where
  pub conversation_id : Option Text
  pub messages : List (MessageRow F)

abbrev pub later_conversation : Conversation → Conversation → Bool
later_conversation c d = ltb d.updated_at c.updated_at

abbrev pub new_conversation : RequestContext → Text → Text → ℕ → Conversation
new_conversation ctx channel new_id now = record {
  id = new_id;
  tenant_id = ctx.tenant_id;
  user_id = ctx.user_id;
  channel = channel;
  updated_at = now;
}

module _ {F : Type 0} where
  -- `order_by(Message.created_at.desc(), Message.role.asc())`
  abbrev pub newer : MessageRow F → MessageRow F → Bool
  newer m n =
      ltb n.created_at m.created_at || ((m.created_at == n.created_at) && text_ltb m.role n.role)

  -- The latest messages of a conversation, the latest first
  unfoldable pub latest_messages : RequestContext → Text → ℕ → Db F → List (MessageRow F)
  latest_messages ctx conversation_id limit db = take limit (
      sorted newer (
        filter (λ m. text_eq m.tenant_id ctx.tenant_id && text_eq m.conversation_id conversation_id)
          db.messages))

  -- `_load_history`
  unfoldable pub load_history : RequestContext → Text → Db F → History
  load_history ctx conversation_id db =
      let rows = latest_messages ctx conversation_id history_message_limit db in
      record {
        turns =
            map (λ (m : MessageRow F). (m.role, m.content))
              (filter (λ m. not (is_empty m.content)) (reverse rows));
        last_was_clarify = elim (first (λ m. text_eq m.role (codes "assistant")) rows) [
          | none ↦ false
          | some m ↦ is_clarify m.status
        ];
        last_user_question =
            elim (first (λ m. text_eq m.role (codes "user") && not (is_empty m.content)) rows) [
              | none ↦ none
              | some m ↦ some m.content
            ];
      }

  -- `_building_id`
  unfoldable pub building_id : RequestContext → Db F → Option Text
  building_id ctx db =
      if any (λ r. not (text_eq r (codes "RESIDENT"))) ctx.roles
      then none
      else elim (first
          (λ h.
            text_eq h.tenant_id ctx.tenant_id
            && any
                (λ u.
                  (text_eq u.id ctx.user_id && text_eq u.tenant_id ctx.tenant_id)
                  && elim u.household_id [ none ↦ false | some id ↦ text_eq id h.id ])
                db.users)
          db.households) [ none ↦ none | some h ↦ some h.building_id ]

  -- `_load_or_create_conversation`; the database gives the id and the time
  unfoldable pub load_or_create_conversation :
      RequestContext → Option Text → Text → Text → ℕ → Action (Db F) Conversation
  load_or_create_conversation ctx (some conversation_id) channel new_id now = do
    found ← gets (λ db.
        first
          (λ c.
            text_eq c.id conversation_id
            && (text_eq c.tenant_id ctx.tenant_id && text_eq c.user_id ctx.user_id))
          db.conversations)
    or_refuse found 404 (codes "대화 없음")
  load_or_create_conversation ctx none channel new_id now = do
    let c = new_conversation ctx channel new_id now
    modify (λ db. record db { conversations = db.conversations ++ (c ∷ []) })
    pure c

  abbrev pub user_message : RequestContext → Text → Text → Text → ℕ → MessageRow F
  user_message ctx conversation_id question new_id now = record {
    id = new_id;
    tenant_id = ctx.tenant_id;
    conversation_id = conversation_id;
    role = codes "user";
    content = question;
    intent = none;
    confidence = none;
    status = none;
    needs_review = false;
    token_input = none;
    token_output = none;
    created_at = now;
  }

  abbrev pub assistant_message : RequestContext → Text → DoneEvent F → Text → ℕ → MessageRow F
  assistant_message ctx conversation_id done new_id now = record {
    id = new_id;
    tenant_id = ctx.tenant_id;
    conversation_id = conversation_id;
    role = codes "assistant";
    content = done.answer;
    intent = some (codes "ai");
    confidence = some done.confidence;
    status = some done.status;
    needs_review = done.needs_review;
    token_input = elim done.usage [ none ↦ none | some u ↦ some u.input_tokens ];
    token_output = elim done.usage [ none ↦ none | some u ↦ some u.output_tokens ];
    created_at = now;
  }

  -- `_persist_assistant_message`
  abbrev pub persist_assistant_message :
      RequestContext → Text → DoneEvent F → Text → ℕ → Db F → Db F
  persist_assistant_message ctx conversation_id done new_id now db = record db {
    messages = db.messages ++ (assistant_message ctx conversation_id done new_id now ∷ []);
    citations =
        db.citations
        ++ (document_rows ctx.tenant_id new_id done.citations
            ++ tool_rows ctx.tenant_id new_id done.tool_citations);
  }

  -- `_latest_conversation`; `is_today` is the test of the date in Korea
  unfoldable pub latest_conversation : (ℕ → Bool) → RequestContext → Text → Bool → Db F → Restored F
  latest_conversation is_today ctx channel today_only db =
      let mine =
        filter
          (λ c.
            text_eq c.tenant_id ctx.tenant_id
            && (text_eq c.user_id ctx.user_id && text_eq c.channel channel))
          db.conversations in
      elim (sorted later_conversation mine) [
        | [] ↦ record { conversation_id = none; messages = [] }
        | c ∷ cs ↦
            let rows = latest_messages ctx c.id restore_message_limit db in
            let old : Bool = elim rows [ [] ↦ true | m ∷ ms ↦ not (is_today m.created_at) ] in
            if today_only && old then record { conversation_id = none; messages = [] } else record {
              conversation_id = some c.id;
              messages =
                  filter
                    (λ m.
                      not (is_empty m.content)
                      && mem_text m.role (codes "user" ∷ codes "assistant" ∷ []))
                    (reverse rows);
            }
      ]
