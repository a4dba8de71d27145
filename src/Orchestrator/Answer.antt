-- ===== src/Orchestrator/Answer.antt =====
-- The run as a whole: the answer turn, what follows the loop, and `answer_question`.
use liviq.Base.{
  ℕ, ◌+◌, Bool, true, false, ◌&&◌, not, Option, none, some, List, [], ◌∷◌, ◌++◌, map, if◌then◌else◌,
  filter, is_empty, Text, codes, text_eq, mem_text, strip,
}
use liviq.Tokens.{estimate_tokens}
use liviq.Masking.{ensure_masked, unmask}
use liviq.Retrieval.{RetrievedChunk}
use liviq.Registry.{Tool, ToolContext, ToolSpec, specs_for}
use liviq.History.{Message}
use liviq.Clarify.{clarify_tool_name}
use liviq.Suggestions.{Status}
use liviq.Orchestrator.Types.{
  World, ChatUsage, ChatMessage, StreamEnd, Stage, FallbackReason, DoneEvent, AssistantEvent,
}
use liviq.Orchestrator.Texts.{
  agent_system_prompt, quote_first_prompt, max_tool_steps, sum_usage, build_final_user_message,
  prepare_history,
}
use liviq.Orchestrator.Loop.{LoopState, LoopEnd, stopped, down, crashed, clarified, decide}
use liviq.Orchestrator.Evidence.{Ask, Trace, stream_deltas, fit}
use liviq.Orchestrator.Judge.{fallback_event, ends_in, zero_score, excerpt_fallback, judge}

module _ (w : World) where
  open w use {float}

  -- The two messages of the answer turn.
  unfoldable pub final_messages : Text → Text → List ChatMessage
  final_messages answer_prompt masked_text =
      ChatMessage.system (if w.quote_first then quote_first_prompt answer_prompt else answer_prompt)
      ∷ ChatMessage.user masked_text
      ∷ []

  abbrev pub message_text : ChatMessage → Text
  message_text (ChatMessage.system t) = t
  message_text (ChatMessage.user t) = t
  message_text (ChatMessage.assistant t) = t
  message_text (ChatMessage.assistant_calls _) = []
  message_text (ChatMessage.tool _ t) = t

  unfoldable pub input_estimate : List ChatMessage → ℕ
  input_estimate [] = 0
  input_estimate (m ∷ ms) = estimate_tokens (message_text m) + input_estimate ms

  -- `final_turn`
  abbrev pub final_usage : List ChatMessage → Text → ChatUsage
  final_usage messages answer = record {
    input_tokens = input_estimate messages;
    output_tokens = estimate_tokens answer;
    estimated = true;
  }

  -- The events behind `generating`, and whether an `LlmError` got through: the source catches
  -- `LlmUnavailableError` alone, and only while it still reads the stream.
  unfoldable pub answer_turn :
      Ask float.F
      → List (RetrievedChunk float.F)
      → LoopState float.F
      → List ChatMessage
      → List (Text × Text)
      → List (AssistantEvent float.F) × Bool
  answer_turn ask evidence s messages replacements =
      let (deltas, end) = w.chat_stream messages (not (is_empty evidence)) in
      let r = stream_deltas w.is_space [] false deltas in
      let tokens = map AssistantEvent.token r.tokens in
      let text = unmask (strip w.is_space r.joined) replacements in
      let usage = sum_usage (s.usage_turns ++ final_usage messages text ∷ []) in
      let judged =
        AssistantEvent.status Stage.verifying none
        ∷ judge w evidence s.cards text ask.tool_confidence usage s.tool_path in
      elim (if r.broke then StreamEnd.finished else end) [
        | StreamEnd.finished ↦ (tokens ++ judged, false)
        | StreamEnd.unavailable ↦ (
          tokens ++ excerpt_fallback w evidence s.cards s.tool_path (sum_usage s.usage_turns),
          false,
        )
        | StreamEnd.failed ↦ (tokens, true)
      ]

  abbrev pub trace_of :
      LoopState float.F
      → List (List ChatMessage)
      → List (AssistantEvent float.F)
      → Bool
      → Trace float.F
  trace_of s more events raised = record {
    events = AssistantEvent.status Stage.searching none ∷ s.events ++ events;
    sent = s.sent ++ more;
    raised = raised;
  }

  -- From the assembly of the evidence on, with the masked history.
  unfoldable pub conclude : Ask float.F → List Message → LoopState float.F → Trace float.F
  conclude ask recent s =
      let spent = sum_usage s.usage_turns in
      let evidence = fit w s.doc_chunks in
      if is_empty evidence && is_empty s.cards
      then trace_of s []
          (ends_in w
            (fallback_event w FallbackReason.no_evidence (zero_score w) false spent s.tool_path))
          false
      else elim (ensure_masked w.engine
          (build_final_user_message ask.question evidence s.cards recent) ask.extra_names) [
            | none ↦
                trace_of s []
                  (ends_in w (
                    fallback_event w FallbackReason.masking_failed (zero_score w) true spent
                      s.tool_path))
                  false
            | some m ↦
                let messages = final_messages ask.answer_prompt m.masked_text in
                let (events, failed) = answer_turn ask evidence s messages m.replacements in
                trace_of s (messages ∷ []) (AssistantEvent.status Stage.generating none ∷ events)
                  failed
          ]

  -- The final event of a run that asks back.
  abbrev pub clarify_event : Text → Option ChatUsage → List Text → DoneEvent float.F
  clarify_event question usage path = record {
    status = Status.clarify;
    confidence = zero_score w;
    needs_review = false;
    usage = usage;
    fallback_reason = none;
    citations = [];
    tool_citations = [];
    answer = question;
    tool_path = path;
    suggestions = [];
  }

  -- The end of the loop decides what follows it.
  unfoldable pub after_loop :
      Ask float.F → List Message → LoopEnd × LoopState float.F → Trace float.F
  after_loop ask recent (crashed, s) = trace_of s [] [] true
  after_loop ask recent (clarified question, s) =
      trace_of s [] (ends_in w (clarify_event question (sum_usage s.usage_turns) s.tool_path)) false
  after_loop ask recent (stopped, s) = conclude ask recent s
  after_loop ask recent (down, s) =
      if is_empty s.doc_chunks && is_empty s.cards
      then trace_of s []
          (ends_in w (
            fallback_event w FallbackReason.llm_unavailable (zero_score w) false
              (sum_usage s.usage_turns) s.tool_path))
          false
      else conclude ask recent s

  abbrev pub history_message : Message → ChatMessage
  history_message (role, content) =
      if text_eq role (codes "assistant")
      then ChatMessage.assistant content
      else ChatMessage.user content

  unfoldable pub first_state : Ask float.F → Text → List Message → LoopState float.F
  first_state ask masked_question recent = record {
    messages =
        ChatMessage.system (agent_system_prompt w.today ask.agent_prompt)
          ∷ map history_message recent
        ++ ChatMessage.user masked_question ∷ [];
    doc_chunks = [];
    seen_chunk_ids = [];
    cards = [];
    seen_cards = [];
    seen_calls = [];
    executed = [];
    tool_path = [];
    usage_turns = [];
    plan_turns = 0;
    events = [];
    sent = [];
  }

  -- `specs`, less the hidden tools
  unfoldable pub shown_specs :
      {A : Type 0} → List (Tool float.F A) → Bool → ToolContext → Ask float.F → List ToolSpec
  shown_specs registry graph_available ctx ask =
      let hidden =
        ask.exclude_tools ++ (if ask.allow_clarify then [] else clarify_tool_name ∷ []) in
      filter (λ (s : ToolSpec). not (mem_text s.name hidden))
        (specs_for registry ctx.roles graph_available)

  abbrev pub refused_trace : Trace float.F
  refused_trace = record {
    events =
        AssistantEvent.status Stage.searching none
        ∷ ends_in w (fallback_event w FallbackReason.masking_failed (zero_score w) true none []);
    sent = [];
    raised = false;
  }

  unfoldable pub answer_question :
      {A : Type 0} → List (Tool float.F A) → Bool → ToolContext → Ask float.F → Trace float.F
  answer_question registry graph_available ctx ask =
      elim (ensure_masked w.engine ask.question ask.extra_names) [
        | none ↦ refused_trace
        | some masked ↦ elim (prepare_history w ask.question ask.history ask.extra_names) [
          | none ↦ refused_trace
          | some recent ↦ after_loop ask recent (
              decide w ask.extra_names registry graph_available ctx max_tool_steps
                (shown_specs registry graph_available ctx ask) ask.allow_clarify
                (first_state ask masked.masked_text recent))
        ]
      ]
