-- ===== src/Assistant/Respond.antt =====
-- apps/api/app/routers/assistant.py: `_assistant_response`, with the whole stream read to its end.
use liviq.Base.{
  Bool, true, false, ◌&&◌, not, Option, none, some, List, [], ◌∷◌, ◌++◌, if◌then◌else◌, is_empty,
  Text, codes, text_eq,
}
use liviq.Http.{Reply, ok, refused, crashed}
use liviq.Access.{RequestContext}
use liviq.Registry.{ToolContext}
use liviq.Orchestrator.Types.{World, AssistantEvent}
use liviq.Orchestrator.Evidence.{Ask}
use liviq.Orchestrator.Answer.{answer_question}
use liviq.AnswerCache.{CachedAnswer, Payload, Cache, Python, lookup, store, replay}
use liviq.Assistant.Exchange.{Sse, AskRequest, Given, done_data, Server}
use liviq.Assistant.{
  Conversation, Db, History, no_history, AdminOverrides, admin_overrides, hidden_tools,
}
use liviq.Assistant.Rows.{
  building_id, load_history, load_or_create_conversation, persist_assistant_message, user_message,
}

module _ (w : World) (python : Python) (redis : Cache (Payload w.float.F)) {A : Type 0}
    (server : Server w.float.F A) where
  open w use {float}
  open redis use {S}

  pub record State : Type 0 where
    pub db : Db float.F
    pub cache : S

  -- One event: only the final one changes anything.
  unfoldable pub send_event :
      RequestContext
      → ToolContext
      → Text
      → Text
      → Bool
      → Given
      → AssistantEvent float.F
      → State
      → Sse float.F × State
  send_event ctx tool_ctx conversation_id question stores given (AssistantEvent.status stage tool)
        s =
      (Sse.status stage tool, s)
  send_event ctx tool_ctx conversation_id question stores given (AssistantEvent.token text) s =
      (Sse.token text, s)
  send_event ctx tool_ctx conversation_id question stores given (AssistantEvent.citation c) s = (
    Sse.citation (record {
      ref = c.ref;
      document_id = c.document_id;
      document_title = c.document_title;
      quote = c.quote;
      page = c.page;
      clause = c.clause;
      payload = none;
    }),
    s,
  )
  send_event ctx tool_ctx conversation_id question stores given (AssistantEvent.tool_citation t) s =
      (
        Sse.citation (record {
          ref = t.ref;
          document_id = none;
          document_title = t.title;
          quote = t.quote;
          page = none;
          clause = none;
          payload = t.payload;
        }),
        s,
      )
  send_event ctx tool_ctx conversation_id question stores given (AssistantEvent.finish done) s = (
    Sse.finished (done_data done conversation_id given.answer_id),
    record {
      db = persist_assistant_message ctx conversation_id done given.answer_id given.now s.db;
      cache =
          if stores
          then store python redis given.now tool_ctx question done server.backend
              server.answer_cache_ttl_s s.cache
          else s.cache;
    },
  )

  unfoldable pub send_events :
      RequestContext
      → ToolContext
      → Text
      → Text
      → Bool
      → Given
      → List (AssistantEvent float.F)
      → State
      → List (Sse float.F) × State
  send_events ctx tool_ctx conversation_id question stores given [] s = ([], s)
  send_events ctx tool_ctx conversation_id question stores given (e ∷ es) s =
      let (sse, t) = send_event ctx tool_ctx conversation_id question stores given e s in
      let (rest, u) = send_events ctx tool_ctx conversation_id question stores given es t in
      (sse ∷ rest, u)

  -- The events of a hit or of a run, and whether an exception ends them.
  unfoldable pub events_of :
      Option (CachedAnswer float.F)
      → ToolContext
      → Ask float.F
      → List (AssistantEvent float.F) × Bool
  events_of (some cached) tool_ctx ask = elim (replay w cached tool_ctx.tenant_id) [
    | none ↦ ([], true)
    | some events ↦ (events, false)
  ]
  events_of none tool_ctx ask =
      let t = answer_question w server.registry server.graph_available tool_ctx ask in
      (t.events, t.raised)

  abbrev pub plain_overrides : Text → AdminOverrides
  plain_overrides answer_prompt = record {
    answer_prompt = answer_prompt;
    agent_prompt = server.prompts.agent;
    exclude_tools = [];
    target_unit = none;
    target_query = none;
  }

  abbrev pub tool_context : RequestContext → AdminOverrides → Db float.F → ToolContext
  tool_context ctx o db = record {
    tenant_id = ctx.tenant_id;
    user_id = ctx.user_id;
    roles = ctx.roles;
    visibilities = ctx.visibilities;
    building_id = building_id ctx db;
    target_unit = o.target_unit;
    target_query = o.target_query;
  }

  abbrev pub ask_of : AskRequest → History → AdminOverrides → Ask float.F
  ask_of body history o = record {
    question = body.question;
    history = history.turns;
    allow_clarify = body.allow_clarify && not history.last_was_clarify;
    extra_names = [];
    answer_prompt = o.answer_prompt;
    agent_prompt = o.agent_prompt;
    exclude_tools = hidden_tools o;
    tool_confidence = server.tool_confidence;
  }

  -- Everything behind the conversation and its history. The cache takes part for the first turn of a
  -- resident only.
  unfoldable pub respond :
      RequestContext
      → Text
      → AskRequest
      → AdminOverrides
      → Given
      → Text
      → History
      → State
      → (List (Sse float.F) × Bool) × State
  respond ctx channel body o given conversation_id history s =
      let db = record s.db {
        messages =
            s.db.messages
            ++ (user_message ctx conversation_id body.question given.question_id given.now ∷ []);
      } in
      let tool_ctx = tool_context ctx o db in
      let cacheable = is_empty history.turns && text_eq channel (codes "resident") in
      let (cached, cache) =
        if cacheable
        then lookup python redis given.now tool_ctx body.question server.backend
            server.answer_cache_ttl_s s.cache
        else (none, s.cache) in
      let (events, raised) = events_of cached tool_ctx (ask_of body history o) in
      let stores : Bool = elim cached [ none ↦ cacheable | some _ ↦ false ] in
      let (sent, t) =
        send_events ctx tool_ctx conversation_id body.question stores given events
          (record { db = db; cache = cache }) in
      ((sent, raised), t)

  -- What follows the conversation that was found, if it was
  unfoldable pub continued :
      RequestContext
      → Text
      → Text
      → Bool
      → AskRequest
      → Given
      → State
      → Reply Conversation × Db float.F
      → Reply (List (Sse float.F) × Bool) × State
  continued ctx channel answer_prompt admin body given s (refused status_code detail, db) =
      (refused status_code detail, record s { db = db })
  continued ctx channel answer_prompt admin body given s (crashed, db) =
      (crashed, record s { db = db })
  continued ctx channel answer_prompt admin body given s (ok c, db) =
      let history : History = elim body.conversation_id [
        | none ↦ no_history
        | some _ ↦ load_history ctx c.id db
      ] in
      let o =
        if admin
        then admin_overrides server.prompts python.lower server.unit_search server.int body.question
            history
        else plain_overrides answer_prompt in
      let (answer, t) = respond ctx channel body o given c.id history (record s { db = db }) in
      (ok answer, t)

  -- `_assistant_response`, with the default prompt of the answer and whether an administrator asks
  unfoldable pub assistant_response :
      RequestContext
      → Text
      → Text
      → Bool
      → AskRequest
      → Given
      → State
      → Reply (List (Sse float.F) × Bool) × State
  assistant_response ctx channel answer_prompt admin body given s =
      continued ctx channel answer_prompt admin body given s (
        load_or_create_conversation ctx body.conversation_id channel given.conversation_id given.now
          s.db)
