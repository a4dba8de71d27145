-- ===== src/Orchestrator/Loop.antt =====
-- The loop of decision turns: what one call of a tool adds, one turn, and the bounded loop.
use liviq.Base.{
  ℕ, zero, suc, ◌+◌, Bool, true, false, ◌&&◌, ◌||◌, not, none, some, List, [], ◌∷◌, ◌++◌, map,
  if◌then◌else◌, filter, is_empty, length, Text, codes, text_eq, mem_text, strip, ltb,
}
use liviq.Retrieval.{RetrievedChunk, build_context_block}
use liviq.Registry.{
  Tool, ToolCard, ToolContext, ToolResult, ToolSpec, ToolCallRequest, llm_text, execute_tool,
}
use liviq.Clarify.{clarify_tool_name}
use liviq.Orchestrator.Types.{
  World, ChatUsage, ChatMessage, ChatReply, ChatResponse, AssistantEvent, Stage,
}
use liviq.Orchestrator.Texts.{args_key, clarify_question, safe_mask, max_plan_turns}

-- The local variables of `answer_question`. `sent` lists the conversations that went to the model,
-- `executed` the calls that went to `execute_tool`, the last first; no code reads either.
pub record LoopState (F : Type 0) : Type 0 where
  pub messages : List ChatMessage
  pub doc_chunks : List (RetrievedChunk F)
  pub seen_chunk_ids : List Text
  pub cards : List ToolCard
  pub seen_cards : List (Text × Text)
  pub seen_calls : List (Text × Text)
  pub executed : List ToolCallRequest
  pub tool_path : List Text
  pub usage_turns : List ChatUsage
  pub plan_turns : ℕ
  pub events : List (AssistantEvent F)
  pub sent : List (List ChatMessage)

-- `key in seen`
unfoldable pub mem_pair : Text × Text → List (Text × Text) → Bool
mem_pair k [] = false
mem_pair k (p ∷ ps) = (text_eq k.0 p.0 && text_eq k.1 p.1) || mem_pair k ps

abbrev pub seen_documents : Text
seen_documents = codes "이미 조회한 문서입니다."

abbrev pub seen_results : Text
seen_results = codes "이미 조회한 결과입니다."

abbrev pub left_out : Text
left_out = codes "(민감정보 포함으로 생략됨)"

abbrev pub not_possible : Text
not_possible = codes "(처리 불가)"

abbrev pub same_call : Text
same_call = codes "이미 같은 조건으로 조회했습니다. 조회한 결과로 답변하십시오."

pub data LoopEnd : Type 0 where
  stopped down crashed : LoopEnd
  clarified : Text → LoopEnd

-- A turn goes on or ends the loop.
pub data Next (F : Type 0) : Type 0 where
  again : LoopState F → Next F
  ended : LoopEnd → LoopState F → Next F

-- What the calls of one turn did: whether one was executed, or that a tool let an exception through.
pub data Ran (F : Type 0) : Type 0 where
  went : Bool → LoopState F → Ran F
  raised : LoopState F → Ran F

module _ (w : World) (names : List Text) where
  abbrev F : Type 0
  F = w.float.F

  -- `_absorb_and_mask`, where the result has documents
  unfoldable pub absorb_chunks : List (RetrievedChunk F) → LoopState F → Text × LoopState F
  absorb_chunks chunks s =
      let new =
        filter (λ (c : RetrievedChunk F). not (mem_text c.chunk_id s.seen_chunk_ids)) chunks in
      if is_empty new
      then (seen_documents, s)
      else elim (safe_mask w (build_context_block (length s.doc_chunks + 1) new) names) [
        | none ↦ (left_out, s)
        | some masked ↦ (
          masked,
          record s {
            seen_chunk_ids = map (λ (c : RetrievedChunk F). c.chunk_id) new ++ s.seen_chunk_ids;
            doc_chunks = s.doc_chunks ++ new;
          },
        )
      ]

  -- `_absorb_and_mask`, where it has a card
  unfoldable pub absorb_card : ToolCard → Text → LoopState F → Text × LoopState F
  absorb_card c text s =
      if mem_pair (c.source_kind, c.quote) s.seen_cards
      then (seen_results, s)
      else elim (safe_mask w text names) [
        | none ↦ (left_out, s)
        | some masked ↦ (
          masked,
          record s {
            seen_cards = (c.source_kind, c.quote) ∷ s.seen_cards;
            cards = s.cards ++ c ∷ [];
          },
        )
      ]

  unfoldable pub absorb_and_mask : ToolResult F → LoopState F → Text × LoopState F
  absorb_and_mask r s =
      if not (is_empty r.doc_chunks) then absorb_chunks r.doc_chunks s else elim r.card [
        | some c ↦ absorb_card c (llm_text r) s
        | none ↦ (elim (safe_mask w r.note names) [ some masked ↦ masked | none ↦ not_possible ], s)
      ]

module _ {A : Type 0} (w : World) (names : List Text) (registry : List (Tool w.float.F A))
    (graph_available : Bool) (ctx : ToolContext) where
  -- The body of the loop over `decision.tool_calls`, for a call that was not made before.
  unfoldable pub make_call : ToolCallRequest → LoopState w.float.F → Ran w.float.F
  make_call call s =
      let s' : LoopState w.float.F = record s {
        seen_calls = (call.name, args_key w call.arguments) ∷ s.seen_calls;
        executed = call ∷ s.executed;
        events = s.events ++ AssistantEvent.status Stage.searching (some call.name) ∷ [];
      } in
      elim (execute_tool registry graph_available ctx (length s.seen_calls) call) [
        | none ↦ raised s'
        | some x ↦
            let (content, t) = absorb_and_mask w names x.result s' in
            went true (record t {
              tool_path = t.tool_path ++ call.name ∷ [];
              messages = t.messages ++ ChatMessage.tool call.id content ∷ [];
            })
      ]

  -- `executed` is `executed_any`.
  unfoldable pub run_calls : List ToolCallRequest → Bool → LoopState w.float.F → Ran w.float.F
  run_calls [] executed s = went executed s
  run_calls (call ∷ calls) executed s =
      elim (mem_pair (call.name, args_key w call.arguments) s.seen_calls) [
        | true ↦
            run_calls calls executed
              (record s { messages = s.messages ++ ChatMessage.tool call.id same_call ∷ [] })
        | false ↦ elim (make_call call s) [
          | raised t ↦ raised t
          | went _ t ↦ run_calls calls true t
        ]
      ]

  -- A turn without calls: its text is a plan once, and else ends the loop.
  unfoldable pub plan_turn : Text → LoopState w.float.F → Next w.float.F
  plan_turn text s =
      let plan = strip w.is_space text in
      if not (is_empty plan) && ltb s.plan_turns max_plan_turns
      then again (record s {
        plan_turns = s.plan_turns + 1;
        messages = s.messages ++ ChatMessage.assistant plan ∷ [];
      })
      else ended stopped s

  -- A turn with calls that does not ask back.
  unfoldable pub call_turn : List ToolCallRequest → LoopState w.float.F → Next w.float.F
  call_turn calls s =
      elim (run_calls calls false
        (record s { messages = s.messages ++ ChatMessage.assistant_calls calls ∷ [] })) [
          | raised t ↦ ended crashed t
          | went executed t ↦ if executed then again t else ended stopped t
        ]

  unfoldable pub decision_turn : Bool → ChatResponse → LoopState w.float.F → Next w.float.F
  decision_turn allow_clarify d s =
      if is_empty d.tool_calls
      then plan_turn d.text s
      else elim (if allow_clarify then clarify_question w d.tool_calls else none) [
        | some question ↦
            ended (clarified question)
              (record s { tool_path = s.tool_path ++ clarify_tool_name ∷ [] })
        | none ↦ call_turn d.tool_calls s
      ]

  -- One round of `for _step in range(MAX_TOOL_STEPS)`.
  unfoldable pub decide_step : List ToolSpec → Bool → LoopState w.float.F → Next w.float.F
  decide_step specs allow_clarify s =
      let s' : LoopState w.float.F = record s { sent = s.sent ++ s.messages ∷ [] } in
      elim (w.chat (length s.sent) s.messages specs) [
        | ChatReply.unavailable ↦ ended down s'
        | ChatReply.failed ↦ ended stopped s'
        | ChatReply.reply d ↦
            decision_turn allow_clarify d
              (record s' { usage_turns = s.usage_turns ++ d.usage ∷ [] })
      ]

  unfoldable pub decide :
      ℕ → List ToolSpec → Bool → LoopState w.float.F → LoopEnd × LoopState w.float.F
  decide zero specs allow_clarify s = (stopped, s)
  decide (suc steps) specs allow_clarify s = elim (decide_step specs allow_clarify s) [
    | again t ↦ decide steps specs allow_clarify t
    | ended e t ↦ (e, t)
  ]
