-- ===== src/Orchestrator/Ends.antt =====
-- Every run of `answer_question` that does not end in an exception ends in its only final event.
use liviq.Base.{
  ◌≡◌, refl, sym, subst, Bool, true, false, ◌&&◌, not, none, List, [], ◌∷◌, ◌++◌, map,
  if◌then◌else◌, is_empty, Text, All, All-append, strip, Bool-cases, Option-cases, inl, inr, ◌⊎◌,
}
use liviq.Masking.{ensure_masked, unmask}
use liviq.Retrieval.{RetrievedChunk}
use liviq.Registry.{Tool, ToolContext}
use liviq.History.{Message}
use liviq.Orchestrator.Types.{World, ChatMessage, StreamEnd, Stage, FallbackReason, AssistantEvent}
use liviq.Orchestrator.Texts.{prepare_history, max_tool_steps, sum_usage, build_final_user_message}
use liviq.Orchestrator.Loop.{LoopState, LoopEnd, stopped, down, crashed, clarified, decide}
use liviq.Orchestrator.Steps.{
  Change, sends, counts, plans, asks_back, requests, repeats, fails, runs, begun, Reach-keeps,
}
use liviq.Orchestrator.Steps.Runs.{decide-Reach}
use liviq.Orchestrator.Sent.{absorb_and_mask-IsHeld}
use liviq.Orchestrator.Answer.{
  answer_question, after_loop, conclude, first_state, final_messages, answer_turn, shown_specs,
  final_usage, trace_of, refused_trace, clarify_event,
}
use liviq.Orchestrator.Judge.{judge, excerpt_fallback}
use liviq.Orchestrator.Evidence.{Ask, Trace, fit, stream_deltas}
use liviq.Orchestrator.Endings.{
  Events, EndsWell, IsNote, finishes, tokens-IsNote, notes-EndsWell, cited-EndsWell, judge-EndsWell,
  excerpt_fallback-EndsWell, fallback_event-EndsWell,
}

module _ (w : World) where
  -- What the loop emits are statuses.
  IsNoted : LoopState w.float.F → Type 0
  IsNoted s = All IsNote s.events

  module _ (names : List Text) {A : Type 0} (registry : List (Tool w.float.F A)) (graph : Bool)
      (ctx : ToolContext) where
    Change-IsNoted :
        (s t : LoopState w.float.F) → Change w names registry graph ctx s t → IsNoted s → IsNoted t
    unfolding IsNoted
    Change-IsNoted s t (fails _ call new e) h = All-append IsNote s.events _ h (tt, tt)
    Change-IsNoted s t (runs _ call x new e) h =
        let s' = begun w names registry graph ctx call s in
        subst (All IsNote) (sym (absorb_and_mask-IsHeld w names x.result s').events)
          (All-append IsNote s.events _ h (tt, tt))
    Change-IsNoted s t (sends _) h = h
    Change-IsNoted s t (counts _ _) h = h
    Change-IsNoted s t (plans _ _ _ _ _ _ _) h = h
    Change-IsNoted s t (asks_back _) h = h
    Change-IsNoted s t (requests _ _) h = h
    Change-IsNoted s t (repeats _ _ _) h = h

  first_state-IsNoted :
      (ask : Ask w.float.F) (masked : Text) (recent : List Message)
      → IsNoted (first_state w ask masked recent)
  unfolding IsNoted first_state
  first_state-IsNoted ask masked recent = tt

  -- A trace whose events end well, or that ends in an exception with no final event.
  abbrev pub Completes : Trace w.float.F → Type 0
  Completes t =
      ((t.raised ≡ false) × EndsWell t.events) ⊎ ((t.raised ≡ true) × (finishes t.events ≡ []))

  abbrev Answered : List (AssistantEvent w.float.F) × Bool → Type 0
  Answered r = ((r.1 ≡ false) × EndsWell r.0) ⊎ ((r.1 ≡ true) × All IsNote r.0)

  finishes-notes : (es : Events w.float.F) → All IsNote es → finishes es ≡ []
  finishes-notes [] h = refl
  finishes-notes (AssistantEvent.status _ _ ∷ es) h = finishes-notes es h.1
  finishes-notes (AssistantEvent.token _ ∷ es) h = finishes-notes es h.1
  finishes-notes (AssistantEvent.citation _ ∷ es) h = absurd h.0
  finishes-notes (AssistantEvent.tool_citation _ ∷ es) h = absurd h.0
  finishes-notes (AssistantEvent.finish _ ∷ es) h = absurd h.0

  trace-Completes :
      (s : LoopState w.float.F) (more : List (List ChatMessage)) (es : Events w.float.F) (b : Bool)
      → IsNoted s
      → Answered (es, b)
      → Completes (trace_of w s more es b)
  unfolding IsNoted
  trace-Completes s more es b h (inl (ok, e)) =
      inl (ok, notes-EndsWell (AssistantEvent.status Stage.searching none ∷ s.events) es (tt, h) e)
  trace-Completes s more es b h (inr (bad, n)) =
      inr (
        bad,
        finishes-notes (trace_of w s more es b).events (tt, All-append IsNote s.events es h n),
      )

  answer_turn-Answered :
      (ask : Ask w.float.F) (evidence : List (RetrievedChunk w.float.F)) (s : LoopState w.float.F)
      (messages : List ChatMessage) (rs : List (Text × Text))
      → Answered (answer_turn w ask evidence s messages rs)
  unfolding answer_turn
  answer_turn-Answered ask evidence s messages rs =
      let (deltas, end) = w.chat_stream messages (not (is_empty evidence)) in
      let r = stream_deltas w.is_space [] false deltas in
      let text = unmask (strip w.is_space r.joined) rs in
      let usage = sum_usage (s.usage_turns ++ final_usage w messages text ∷ []) in
      go (map AssistantEvent.token r.tokens) (tokens-IsNote w.float.F r.tokens)
        (judge w evidence s.cards text ask.tool_confidence usage s.tool_path)
        (judge-EndsWell w evidence s.cards text ask.tool_confidence usage s.tool_path)
        (if r.broke then StreamEnd.finished else end)
    where
      go :
          (tokens : Events w.float.F)
          → All IsNote tokens
          → (judged : Events w.float.F) → EndsWell judged
          → (e : StreamEnd)
          → Answered (elim e [
            | StreamEnd.finished ↦
                (tokens ++ AssistantEvent.status Stage.verifying none ∷ judged, false)
            | StreamEnd.unavailable ↦ (
              tokens ++ excerpt_fallback w evidence s.cards s.tool_path (sum_usage s.usage_turns),
              false,
            )
            | StreamEnd.failed ↦ (tokens, true)
          ])
      go tokens n judged j StreamEnd.finished = inl (
        refl,
        notes-EndsWell tokens _ n
            (notes-EndsWell (AssistantEvent.status Stage.verifying none ∷ []) judged (tt, tt) j),
      )
      go tokens n judged j StreamEnd.unavailable = inl (
        refl,
        notes-EndsWell tokens _ n
            (excerpt_fallback-EndsWell w evidence s.cards s.tool_path (sum_usage s.usage_turns)),
      )
      go tokens n judged j StreamEnd.failed = inr (refl, n)

  conclude-Completes :
      (ask : Ask w.float.F) (recent : List Message) (s : LoopState w.float.F)
      → IsNoted s
      → Completes (conclude w ask recent s)
  unfolding conclude
  conclude-Completes ask recent s h =
      let evidence = fit w s.doc_chunks in
      let draft = build_final_user_message ask.question evidence s.cards recent in
      elim (Bool-cases (is_empty evidence && is_empty s.cards)) [
        | inl nothing ↦ rw nothing (
            trace-Completes s [] _ false h
              (inl (refl, fallback_event-EndsWell w FallbackReason.no_evidence _ _ _ _)))
        | inr something ↦ elim (Option-cases (ensure_masked w.engine draft ask.extra_names)) [
          | inl e ↦
              rw (something, e)
                (trace-Completes s [] _ false h
                  (inl (refl, fallback_event-EndsWell w FallbackReason.masking_failed _ _ _ _)))
          | inr (m, e) ↦
              rw (something, e)
                (let messages = final_messages w ask.answer_prompt m.masked_text in
                  let (events, failed) = answer_turn w ask evidence s messages m.replacements in
                  trace-Completes s (messages ∷ []) _ failed h (
                    generating events failed
                      (answer_turn-Answered ask evidence s messages m.replacements)))
        ]
      ]
    where
      generating :
          (es : Events w.float.F) (b : Bool)
          → Answered (es, b)
          → Answered (AssistantEvent.status Stage.generating none ∷ es, b)
      generating es b (inl (ok, e)) =
          inl (ok, notes-EndsWell (AssistantEvent.status Stage.generating none ∷ []) es (tt, tt) e)
      generating es b (inr (bad, n)) = inr (bad, (tt, n))

  after_loop-Completes :
      (ask : Ask w.float.F) (recent : List Message) (r : LoopEnd × LoopState w.float.F)
      → IsNoted r.1
      → Completes (after_loop w ask recent r)
  unfolding after_loop
  after_loop-Completes ask recent (crashed, s) h = trace-Completes s [] [] true h (inr (refl, tt))
  after_loop-Completes ask recent (clarified q, s) h = trace-Completes s [] _ false h (
      inl (
        refl,
        cited-EndsWell w (clarify_event w q (sum_usage s.usage_turns) s.tool_path)
            (refl, refl, refl),
      ))
  after_loop-Completes ask recent (stopped, s) h = conclude-Completes ask recent s h
  after_loop-Completes ask recent (down, s) h =
      elim (Bool-cases (is_empty s.doc_chunks && is_empty s.cards)) [
        | inl nothing ↦ rw nothing (
            trace-Completes s [] _ false h
              (inl (refl, fallback_event-EndsWell w FallbackReason.llm_unavailable _ _ _ _)))
        | inr something ↦ rw something (conclude-Completes ask recent s h)
      ]

  refused_Completes : Completes (refused_trace w)
  refused_Completes = inl (
    refl,
    notes-EndsWell (AssistantEvent.status Stage.searching none ∷ []) _ (tt, tt)
        (fallback_event-EndsWell w FallbackReason.masking_failed _ _ _ _),
  )

  -- A run either ends in an exception, with no final event, or its last event is its only final
  -- one. That event lists the citations that were emitted before it; an answer has a citation and
  -- a text without the internal marker; a fallback has a reason and no text, and cites only when
  -- the model went away; a question that asks back cites nothing.
  pub answer_question-Completes :
      {A : Type 0} (registry : List (Tool w.float.F A)) (graph : Bool) (ctx : ToolContext)
      (ask : Ask w.float.F)
      → Completes (answer_question w registry graph ctx ask)
  unfolding answer_question
  answer_question-Completes registry graph ctx ask =
      elim (Option-cases (ensure_masked w.engine ask.question ask.extra_names)) [
        | inl e ↦ rw (e, answer_question) refused_Completes
        | inr (m, e) ↦
            elim (Option-cases (prepare_history w ask.question ask.history ask.extra_names)) [
              | inl e' ↦ rw (e, answer_question, e') refused_Completes
              | inr (recent, e') ↦
                  rw (e, answer_question, e')
                    (let s = first_state w ask m.masked_text recent in
                      let specs = shown_specs w registry graph ctx ask in
                      after_loop-Completes ask recent
                        (decide w ask.extra_names registry graph ctx max_tool_steps specs
                          ask.allow_clarify s)
                        (Reach-keeps w ask.extra_names registry graph ctx IsNoted
                          (Change-IsNoted ask.extra_names registry graph ctx)
                          (decide-Reach w ask.extra_names registry graph ctx max_tool_steps specs
                            ask.allow_clarify s)
                          (first_state-IsNoted ask m.masked_text recent)))
            ]
      ]
