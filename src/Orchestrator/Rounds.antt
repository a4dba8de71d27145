-- ===== src/Orchestrator/Rounds.antt =====
-- How often the model is asked: at most four decision turns, and one answer turn.
use liviq.Base.{
  ◌+◌, ◌≤◌, Bool, true, false, ◌&&◌, Option, none, some, List, [], ◌∷◌, ◌++◌, arith, is_empty,
  length, Text, length-append, Bool-cases, Option-cases, inl, inr,
}
use liviq.Masking.{MaskResult, ensure_masked}
use liviq.Registry.{Tool, ToolContext}
use liviq.History.{Message}
use liviq.Orchestrator.Types.{World, ChatMessage, AssistantEvent, FallbackReason, Stage}
use liviq.Orchestrator.Texts.{max_tool_steps, prepare_history, build_final_user_message, sum_usage}
use liviq.Orchestrator.Loop.{LoopState, LoopEnd, stopped, down, crashed, clarified, decide}
use liviq.Orchestrator.Evidence.{Ask, Trace, fit}
use liviq.Orchestrator.Answer.{
  answer_question, after_loop, conclude, first_state, shown_specs, trace_of, answer_turn,
  final_messages,
}
use liviq.Orchestrator.Judge.{ends_in, fallback_event, zero_score}
use liviq.Orchestrator.Turns.{length-sent_decide}

module _ {A : Type 0} (w : World) (names : List Text) (registry : List (Tool w.float.F A))
    (graph : Bool) (ctx : ToolContext) where
  abbrev Asked : Type 0
  Asked = List (List ChatMessage)

  no_more : (s : LoopState w.float.F) → length (s.sent ++ []) ≤ length s.sent + 1
  no_more s = omega (arith, length-append s.sent [])

  sent-conclude :
      (ask : Ask w.float.F) (recent : List Message) (s : LoopState w.float.F)
      → length (conclude w ask recent s).sent ≤ length s.sent + 1
  unfolding conclude
  sent-conclude ask recent s =
      elim (Bool-cases (is_empty (fit w s.doc_chunks) && is_empty s.cards)) [
        | inl bare ↦ rw (bare, conclude) (no_more s)
        | inr evidence ↦
            rw (evidence, conclude)
              (go (
                ensure_masked w.engine
                  (build_final_user_message ask.question (fit w s.doc_chunks) s.cards recent)
                  ask.extra_names))
      ]
    where
      go :
          (o : Option MaskResult)
          → length
              (elim o as (λ _. Trace w.float.F) [
                | none ↦
                    trace_of w s []
                      (ends_in w (
                        fallback_event w FallbackReason.masking_failed
                          (zero_score w)
                          true
                          (sum_usage s.usage_turns)
                          s.tool_path))
                      false
                | some m ↦
                    let messages = final_messages w ask.answer_prompt m.masked_text in
                    let (events, failed) =
                      answer_turn w ask (fit w s.doc_chunks) s messages m.replacements in
                    trace_of w s
                      (messages ∷ [])
                      (AssistantEvent.status Stage.generating none ∷ events)
                      failed
              ]).sent
            ≤ length s.sent + 1
      go none = no_more s
      go (some m) =
          omega
            (arith, length-append s.sent (final_messages w ask.answer_prompt m.masked_text ∷ []))

  sent-after_loop :
      (ask : Ask w.float.F) (recent : List Message) (e : LoopEnd) (s : LoopState w.float.F)
      → length (after_loop w ask recent (e, s)).sent ≤ length s.sent + 1
  unfolding after_loop
  sent-after_loop ask recent crashed s = no_more s
  sent-after_loop ask recent (clarified q) s = no_more s
  sent-after_loop ask recent stopped s = sent-conclude ask recent s
  sent-after_loop ask recent down s =
      elim (Bool-cases (is_empty s.doc_chunks && is_empty s.cards)) [
        | inl bare ↦ rw (bare, after_loop) (no_more s)
        | inr evidence ↦ rw (evidence, after_loop) (sent-conclude ask recent s)
      ]

module _ {A : Type 0} (w : World) (registry : List (Tool w.float.F A)) (graph : Bool)
    (ctx : ToolContext) where
  -- A run sends at most one conversation per decision turn and one for the answer, whatever the
  -- model replies and whatever the tools do.
  pub length-sent_answer_question :
      (ask : Ask w.float.F)
      → length (answer_question w registry graph ctx ask).sent ≤ max_tool_steps + 1
  unfolding answer_question first_state
  length-sent_answer_question ask =
      elim (Option-cases (ensure_masked w.engine ask.question ask.extra_names)) [
        | inl e ↦ rw (e, answer_question) (omega arith)
        | inr (m, e) ↦
            elim (Option-cases (prepare_history w ask.question ask.history ask.extra_names)) [
              | inl p ↦ rw (e, p, answer_question) (omega arith)
              | inr (recent, p) ↦ rw (e, p, answer_question) (run m.masked_text recent)
            ]
      ]
    where
      run :
          (text : Text) (recent : List Message)
          → length
              (after_loop w ask recent (
                decide w ask.extra_names registry graph ctx max_tool_steps
                  (shown_specs w registry graph ctx ask)
                  ask.allow_clarify
                  (first_state w ask text recent))).sent
            ≤ max_tool_steps + 1
      run text recent =
          let r : LoopEnd × LoopState w.float.F =
            decide w ask.extra_names registry graph ctx max_tool_steps
              (shown_specs w registry graph ctx ask) ask.allow_clarify
              (first_state w ask text recent) in
          omega (
            arith,
            length-sent_decide w ask.extra_names registry graph ctx max_tool_steps
                (shown_specs w registry graph ctx ask) ask.allow_clarify
                (first_state w ask text recent),
            sent-after_loop w ask.extra_names registry graph ctx ask recent r.0 r.1,
          )
