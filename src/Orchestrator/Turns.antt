-- ===== src/Orchestrator/Turns.antt =====
-- How often one question's decision turns ask the model.
use liviq.Base.{
  ℕ, zero, suc, ◌+◌, ◌≤◌, ◌≡◌, refl, ap, ◌∙◌, Bool, true, false, ◌&&◌, not, Option, none, some,
  List, [], ◌∷◌, ◌++◌, arith, if◌then◌else◌, ltb, is_empty, length, Text, strip, length-append,
  Bool-cases, Option-cases, inl, inr,
}
use liviq.Registry.{Tool, ToolContext, ToolCallRequest, ToolSpec, execute_tool}
use liviq.Clarify.{clarify_tool_name}
use liviq.Orchestrator.Types.{World, ChatMessage, ChatReply, ChatResponse}
use liviq.Orchestrator.Texts.{args_key, clarify_question, max_plan_turns}
use liviq.Orchestrator.Loop.{
  LoopState, LoopEnd, stopped, down, crashed, clarified, Next, again, ended, Ran, went, raised,
  mem_pair, same_call, make_call, run_calls, plan_turn, call_turn, decision_turn, decide_step,
  decide,
}
use liviq.Orchestrator.Steps.{begun}
use liviq.Orchestrator.Sent.{absorb_and_mask-IsHeld}

module _ {A : Type 0} (w : World) (names : List Text) (registry : List (Tool w.float.F A))
    (graph : Bool) (ctx : ToolContext) where
  abbrev Asked : Type 0
  Asked = List (List ChatMessage)

  abbrev ran_sent : Ran w.float.F → Asked
  ran_sent (went _ t) = t.sent
  ran_sent (raised t) = t.sent

  abbrev next_sent : Next w.float.F → Asked
  next_sent (again t) = t.sent
  next_sent (ended _ t) = t.sent

  sent-make_call :
      (call : ToolCallRequest) (s : LoopState w.float.F)
      → ran_sent (make_call w names registry graph ctx call s) ≡ s.sent
  unfolding make_call
  sent-make_call call s =
      elim (Option-cases (execute_tool registry graph ctx (length s.seen_calls) call)) [
        | inl e ↦ rw (e, make_call)
        | inr (x, e) ↦
            rw (e, make_call)
              (absorb_and_mask-IsHeld w names x.result
                (begun w names registry graph ctx call s)).sent
      ]

  sent-run_calls :
      (calls : List ToolCallRequest) (executed : Bool) (s : LoopState w.float.F)
      → ran_sent (run_calls w names registry graph ctx calls executed s) ≡ s.sent
  unfolding run_calls
  sent-run_calls [] executed s = refl
  sent-run_calls (call ∷ calls) executed s =
      elim (Bool-cases (mem_pair (call.name, args_key w call.arguments) s.seen_calls)) [
        | inl old ↦
            rw (old, run_calls)
              (sent-run_calls calls executed
                (record s { messages = s.messages ++ ChatMessage.tool call.id same_call ∷ [] }))
        | inr new ↦
            rw (new, run_calls)
              (go (sent-run_calls calls true) (make_call w names registry graph ctx call s)
                (sent-make_call call s))
      ]
    where
      go :
          ((t : LoopState w.float.F)
            → ran_sent (run_calls w names registry graph ctx calls true t) ≡ t.sent)
          → (r : Ran w.float.F) → ran_sent r ≡ s.sent
          → ran_sent (elim r [
            | raised t ↦ raised t
            | went _ t ↦ run_calls w names registry graph ctx calls true t
          ])
            ≡ s.sent
      go later (raised t) h = h
      go later (went _ t) h = later t ∙ h

  sent-call_turn :
      (calls : List ToolCallRequest) (s : LoopState w.float.F)
      → next_sent (call_turn w names registry graph ctx calls s) ≡ s.sent
  unfolding call_turn
  sent-call_turn calls s =
      let t : LoopState w.float.F = record s {
        messages = s.messages ++ ChatMessage.assistant_calls calls ∷ [];
      } in
      go (run_calls w names registry graph ctx calls false t) (sent-run_calls calls false t)
    where
      go :
          (r : Ran w.float.F)
          → ran_sent r ≡ s.sent
          → next_sent (elim r [
            | raised t ↦ ended crashed t
            | went executed t ↦ if executed then again t else ended stopped t
          ])
            ≡ s.sent
      go (raised t) h = h
      go (went true t) h = h
      go (went false t) h = h

  sent-decision_turn :
      (allow : Bool) (d : ChatResponse) (s : LoopState w.float.F)
      → next_sent (decision_turn w names registry graph ctx allow d s) ≡ s.sent
  unfolding decision_turn plan_turn
  sent-decision_turn allow d s = elim (Bool-cases (is_empty d.tool_calls)) [
    | inl no_calls ↦
        rw (no_calls, decision_turn)
          (plan (not (is_empty (strip w.is_space d.text)) && ltb s.plan_turns max_plan_turns))
    | inr calls ↦
        rw (calls, decision_turn) (go (if allow then clarify_question w d.tool_calls else none))
  ]
    where
      plan :
          (b : Bool)
          → next_sent (
              if b
              then again (record s {
                plan_turns = s.plan_turns + 1;
                messages = s.messages ++ ChatMessage.assistant (strip w.is_space d.text) ∷ [];
              })
              else ended stopped s)
            ≡ s.sent
      plan true = refl
      plan false = refl

      go :
          (o : Option Text)
          → next_sent (elim o [
            | some question ↦
                ended
                  (clarified question)
                  (record s { tool_path = s.tool_path ++ clarify_tool_name ∷ [] })
            | none ↦ call_turn w names registry graph ctx d.tool_calls s
          ])
            ≡ s.sent
      go (some question) = refl
      go none = sent-call_turn d.tool_calls s

  -- One round sends the conversation once.
  sent-decide_step :
      (specs : List ToolSpec) (allow : Bool) (s : LoopState w.float.F)
      → next_sent (decide_step w names registry graph ctx specs allow s) ≡ s.sent ++ s.messages ∷ []
  unfolding decide_step
  sent-decide_step specs allow s = go (w.chat (length s.sent) s.messages specs)
    where
      go :
          (r : ChatReply)
          → next_sent (elim r [
            | ChatReply.unavailable ↦ ended down (record s { sent = s.sent ++ s.messages ∷ [] })
            | ChatReply.failed ↦ ended stopped (record s { sent = s.sent ++ s.messages ∷ [] })
            | ChatReply.reply d ↦ decision_turn w names registry graph ctx allow d (record s {
              sent = s.sent ++ s.messages ∷ [];
              usage_turns = s.usage_turns ++ d.usage ∷ [];
            })
          ])
            ≡ s.sent ++ s.messages ∷ []
      go ChatReply.unavailable = refl
      go ChatReply.failed = refl
      go (ChatReply.reply d) = sent-decision_turn allow d (record s {
        sent = s.sent ++ s.messages ∷ [];
        usage_turns = s.usage_turns ++ d.usage ∷ [];
      })

  pub length-sent_decide :
      (steps : ℕ) (specs : List ToolSpec) (allow : Bool) (s : LoopState w.float.F)
      → length (decide w names registry graph ctx steps specs allow s).1.sent
        ≤ length s.sent + steps
  unfolding decide
  length-sent_decide zero specs allow s = omega arith
  length-sent_decide (suc steps) specs allow s =
      go (length-sent_decide steps specs allow)
        (decide_step w names registry graph ctx specs allow s)
        (ap (λ (l : Asked). length l) (sent-decide_step specs allow s)
          ∙ length-append s.sent (s.messages ∷ []))
    where
      go :
          ((t : LoopState w.float.F)
            → length (decide w names registry graph ctx steps specs allow t).1.sent
              ≤ length t.sent + steps)
          → (n : Next w.float.F) → length (next_sent n) ≡ length s.sent + 1
          → length
              (elim n as (λ _. LoopEnd × LoopState w.float.F) [
                | again t ↦ decide w names registry graph ctx steps specs allow t
                | ended e t ↦ (e, t)
              ]).1.sent
            ≤ length s.sent + suc steps
      go later (again t) h = omega (arith, later t)
      go later (ended e t) h = omega arith
