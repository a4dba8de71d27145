-- ===== src/Orchestrator/Outgoing.antt =====
-- The conversations of a whole run of `answer_question`: what they hold, and how many there are.
use liviq.Base.{
  ◌≡◌, refl, subst, inl, inr, Bool, true, false, ◌&&◌, Option, none, some, List, [], ◌∷◌, map,
  arith, if◌then◌else◌, is_empty, Text, codes, text_eq, strip, take, All, All-append, Bool-cases,
  Option-cases, some_cancel,
}
use liviq.Masking.{MaskResult, ensure_masked}
use liviq.Masking.Gate.{IsClean, ensure_masked-IsClean}
use liviq.Registry.{Tool, ToolContext}
use liviq.History.{Message}
use liviq.Orchestrator.Types.{World, ChatMessage}
use liviq.Orchestrator.Texts.{
  mask_history, prepare_history, history_max_chars, max_tool_steps, build_final_user_message,
}
use liviq.Orchestrator.Loop.{LoopState, LoopEnd, stopped, down, crashed, clarified, decide}
use liviq.Orchestrator.Answer.{
  answer_question, after_loop, conclude, first_state, final_messages, shown_specs, history_message,
}
use liviq.Orchestrator.Evidence.{Ask, fit}
use liviq.Orchestrator.Sent.{MaySend, IsGuarded, decide-IsGuarded}

module _ (w : World) where
  abbrev CleanTurn : List Text → Message → Type 0
  CleanTurn names m = IsClean w.engine names m.1

  abbrev folded : Text → Text
  folded role = if text_eq role (codes "assistant") then codes "assistant" else codes "user"

  -- Every turn of the history that is kept went through the gate.
  mask_history-clean :
      (names : List Text) (ms out : List Message)
      → mask_history w names ms ≡ some out
      → All (CleanTurn names) out
  unfolding mask_history
  mask_history-clean names [] out h = subst (All (CleanTurn names)) (some_cancel h) tt
  mask_history-clean names ((role, content) ∷ ms) out h =
      let body = take history_max_chars (strip w.is_space content) in
      elim (Bool-cases (is_empty body)) [
        | inl blank ↦
            let g : mask_history w names ms ≡ some out = rw blank at h in
            mask_history-clean names ms out g
        | inr full ↦
            let g : elim (ensure_masked w.engine body names) [
              | none ↦ none
              | some masked ↦ elim (mask_history w names ms) [
                | none ↦ none
                | some turns ↦ some ((folded role, masked.masked_text) ∷ turns)
              ]
            ]
                ≡ some out =
              rw full at h in
            split (ensure_masked w.engine body names) refl (mask_history w names ms)
              (mask_history-clean names ms) g
      ]
    where
      split :
          (o : Option MaskResult)
          → ensure_masked w.engine (take history_max_chars (strip w.is_space content)) names ≡ o
          → (rest : Option (List Message))
          → ((turns : List Message) → rest ≡ some turns → All (CleanTurn names) turns)
          → elim o as (λ _. Option (List Message)) [
            | none ↦ none
            | some masked ↦ elim rest [
              | none ↦ none
              | some turns ↦ some ((folded role, masked.masked_text) ∷ turns)
            ]
          ]
            ≡ some out
          → All (CleanTurn names) out
      split none e rest later g = absurd (ground arith)
      split (some m) e none later g = absurd (ground arith)
      split (some m) e (some turns) later g =
          subst (All (CleanTurn names)) (some_cancel g)
            ((ensure_masked-IsClean w.engine _ names m e).1, later turns refl)

  prepare_history-clean :
      (ask : Ask w.float.F) (out : List Message)
      → prepare_history w ask.question ask.history ask.extra_names ≡ some out
      → All (CleanTurn ask.extra_names) out
  unfolding prepare_history
  prepare_history-clean ask out h = mask_history-clean ask.extra_names _ out h

module _ (w : World) (ask : Ask w.float.F) where
  abbrev names : List Text
  names = ask.extra_names

  history_messages :
      (recent : List Message)
      → All (CleanTurn w names) recent
      → All (MaySend w names) (map (history_message w) recent)
  history_messages [] h = tt
  history_messages ((role, content) ∷ ms) h =
      (turn (text_eq role (codes "assistant")), history_messages ms h.1)
    where
      turn :
          (b : Bool)
          → MaySend w names (if b then ChatMessage.assistant content else ChatMessage.user content)
      turn true = inl h.0
      turn false = h.0

  first_state-IsGuarded :
      (masked : Text) (recent : List Message)
      → IsClean w.engine names masked
      → All (CleanTurn w names) recent
      → IsGuarded w names (first_state w ask masked recent)
  unfolding first_state
  first_state-IsGuarded masked recent clean turns = record {
    conversation = (
      tt,
      All-append (MaySend w names) (map (history_message w) recent) (ChatMessage.user masked ∷ [])
          (history_messages recent turns) (clean, tt),
    );
    past = tt;
  }

  abbrev pub AllSent : List (List ChatMessage) → Type 0
  AllSent = All (All (MaySend w names))

  conclude-sent :
      (recent : List Message) (s : LoopState w.float.F)
      → IsGuarded w names s
      → AllSent (conclude w ask recent s).sent
  unfolding conclude final_messages
  conclude-sent recent s g =
      let evidence = fit w s.doc_chunks in
      let draft = build_final_user_message ask.question evidence s.cards recent in
      let quiet = All-append (All (MaySend w names)) s.sent [] g.past tt in
      elim (Bool-cases (is_empty evidence && is_empty s.cards)) [
        | inl nothing ↦ rw nothing quiet
        | inr something ↦ elim (Option-cases (ensure_masked w.engine draft names)) [
          | inl e ↦ rw (something, e) quiet
          | inr (m, e) ↦
              rw (something, e)
                (All-append (All (MaySend w names)) s.sent
                  (final_messages w ask.answer_prompt m.masked_text ∷ []) g.past
                  ((tt, ((ensure_masked-IsClean w.engine draft names m e).1, tt)), tt))
        ]
      ]

  after_loop-sent :
      (recent : List Message) (r : LoopEnd × LoopState w.float.F)
      → IsGuarded w names r.1
      → AllSent (after_loop w ask recent r).sent
  unfolding after_loop
  after_loop-sent recent (crashed, s) g = All-append (All (MaySend w names)) s.sent [] g.past tt
  after_loop-sent recent (clarified q, s) g = All-append (All (MaySend w names)) s.sent [] g.past tt
  after_loop-sent recent (stopped, s) g = conclude-sent recent s g
  after_loop-sent recent (down, s) g =
      elim (Bool-cases (is_empty s.doc_chunks && is_empty s.cards)) [
        | inl nothing ↦ rw nothing (All-append (All (MaySend w names)) s.sent [] g.past tt)
        | inr something ↦ rw something (conclude-sent recent s g)
      ]

  -- Whatever the tools and the model return, and whether or not the run ends in an exception:
  -- each message that is sent to the model is a system prompt, or a list of calls, or a user's
  -- text that passed the masking gate for all the caller's names, or a tool's text that passed it
  -- or is one of six fixed notices, or an assistant's text that passed it or is a reply of the
  -- model itself, stripped.
  pub answer_question-sends_masked :
      {A : Type 0} (registry : List (Tool w.float.F A)) (graph : Bool) (ctx : ToolContext)
      → AllSent (answer_question w registry graph ctx ask).sent
  unfolding answer_question
  answer_question-sends_masked registry graph ctx =
      elim (Option-cases (ensure_masked w.engine ask.question names)) [
        | inl e ↦ rw (e, answer_question) tt
        | inr (m, e) ↦ elim (Option-cases (prepare_history w ask.question ask.history names)) [
          | inl e' ↦ rw (e, answer_question, e') tt
          | inr (recent, e') ↦
              rw (e, answer_question, e')
                (after_loop-sent recent
                  (decide w names registry graph ctx max_tool_steps
                    (shown_specs w registry graph ctx ask) ask.allow_clarify
                    (first_state w ask m.masked_text recent))
                  (decide-IsGuarded w names registry graph ctx max_tool_steps
                    (shown_specs w registry graph ctx ask) ask.allow_clarify
                    (first_state w ask m.masked_text recent)
                    (first_state-IsGuarded m.masked_text recent
                      (ensure_masked-IsClean w.engine ask.question names m e).1
                      (prepare_history-clean w ask recent e'))))
        ]
      ]
