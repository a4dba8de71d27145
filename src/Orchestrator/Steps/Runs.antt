-- ===== src/Orchestrator/Steps/Runs.antt =====
-- Every run of the loop is a sequence of changes.
use liviq.Base.{
  ℕ, zero, suc, ◌≡◌, refl, Bool, true, false, ◌&&◌, not, Option, none, some, List, [], ◌∷◌, ◌++◌,
  arith, if◌then◌else◌, ltb, length, is_empty, Text, strip, Bool-cases, Option-cases, inl, inr,
}
use liviq.Registry.{Tool, ToolContext, ToolCallRequest, ToolSpec, execute_tool}
use liviq.Clarify.{clarify_tool_name}
use liviq.Orchestrator.Types.{World, ChatMessage, ChatReply, ChatResponse}
use liviq.Orchestrator.Texts.{clarify_question, max_plan_turns}
use liviq.Orchestrator.Loop.{
  LoopState, LoopEnd, stopped, down, crashed, clarified, Next, again, ended, Ran, went, raised,
  mem_pair, same_call, make_call, run_calls, plan_turn, call_turn, decision_turn, decide_step,
  decide,
}
use liviq.Orchestrator.Steps.{
  Change, sends, counts, plans, asks_back, requests, repeats, fails, runs, Reach, here, next,
  Reach-trans, Replied, key, appended,
}

module _ {A : Type 0} (w : World) (names : List Text) (registry : List (Tool w.float.F A))
    (graph : Bool) (ctx : ToolContext) where
  -- Where the calls of a turn leave the variables.
  abbrev ran_to : Ran w.float.F → LoopState w.float.F
  ran_to (went _ t) = t
  ran_to (raised t) = t

  abbrev next_to : Next w.float.F → LoopState w.float.F
  next_to (again t) = t
  next_to (ended _ t) = t

  make_call-Change :
      (call : ToolCallRequest) (s : LoopState w.float.F)
      → mem_pair (key w names registry graph ctx call) s.seen_calls ≡ false
      → Change w names registry graph ctx s (ran_to (make_call w names registry graph ctx call s))
  unfolding make_call
  make_call-Change call s new =
      elim (Option-cases (execute_tool registry graph ctx (length s.seen_calls) call)) [
        | inl e ↦ rw (e, make_call) (fails s call new e)
        | inr (x, e) ↦ rw (e, make_call) (runs s call x new e)
      ]

  run_calls-Reach :
      (calls : List ToolCallRequest) (executed : Bool) (s : LoopState w.float.F)
      → Reach w names registry graph ctx s
          (ran_to (run_calls w names registry graph ctx calls executed s))
  unfolding run_calls
  run_calls-Reach [] executed s = here
  run_calls-Reach (call ∷ calls) executed s =
      elim (Bool-cases (mem_pair (key w names registry graph ctx call) s.seen_calls)) [
        | inl old ↦
            rw (old, run_calls)
              (Reach-trans w names registry graph ctx (next here (repeats s call old)) (
                run_calls-Reach calls executed
                  (appended w names registry graph ctx (ChatMessage.tool call.id same_call) s)))
        | inr new ↦
            rw (new, run_calls)
              (go (run_calls-Reach calls true) (make_call w names registry graph ctx call s)
                (make_call-Change call s new))
      ]
    where
      go :
          ((t : LoopState w.float.F)
            → Reach w names registry graph ctx t
                (ran_to (run_calls w names registry graph ctx calls true t)))
          → (r : Ran w.float.F) → Change w names registry graph ctx s (ran_to r)
          → Reach w names registry graph ctx s (
              ran_to (elim r [
                | raised t ↦ raised t
                | went _ t ↦ run_calls w names registry graph ctx calls true t
              ]))
      go later (raised t) c = next here c
      go later (went _ t) c = Reach-trans w names registry graph ctx (next here c) (later t)

  call_turn-Reach :
      (calls : List ToolCallRequest) (s : LoopState w.float.F)
      → Reach w names registry graph ctx s (next_to (call_turn w names registry graph ctx calls s))
  unfolding call_turn
  call_turn-Reach calls s =
      let t = appended w names registry graph ctx (ChatMessage.assistant_calls calls) s in
      Reach-trans w names registry graph ctx (next here (requests s calls))
        (go (run_calls w names registry graph ctx calls false t) (run_calls-Reach calls false t))
    where
      go :
          {t : LoopState w.float.F} (r : Ran w.float.F)
          → Reach w names registry graph ctx t (ran_to r)
          → Reach w names registry graph ctx t (
              next_to (elim r [
                | raised u ↦ ended crashed u
                | went executed u ↦ if executed then again u else ended stopped u
              ]))
      go (raised u) h = h
      go (went true u) h = h
      go (went false u) h = h

  plan_turn-Reach :
      (d : ChatResponse) (s : LoopState w.float.F)
      → Replied w d
      → Reach w names registry graph ctx s (next_to (plan_turn w names registry graph ctx d.text s))
  unfolding plan_turn
  plan_turn-Reach d s (n, ms, specs, e) =
      elim (Bool-cases
        (not (is_empty (strip w.is_space d.text)) && ltb s.plan_turns max_plan_turns)) [
          | inl plan ↦ rw (plan, plan_turn) (next here (plans s n ms specs d e (ground arith)))
          | inr none_left ↦ rw (none_left, plan_turn) here
        ]

  decision_turn-Reach :
      (allow : Bool) (d : ChatResponse) (s : LoopState w.float.F)
      → Replied w d
      → Reach w names registry graph ctx s
          (next_to (decision_turn w names registry graph ctx allow d s))
  unfolding decision_turn
  decision_turn-Reach allow d s r = elim (Bool-cases (is_empty d.tool_calls)) [
    | inl no_calls ↦ rw (no_calls, decision_turn) (plan_turn-Reach d s r)
    | inr calls ↦
        rw (calls, decision_turn) (go (if allow then clarify_question w d.tool_calls else none))
  ]
    where
      go :
          (o : Option Text)
          → Reach w names registry graph ctx s (
              next_to (elim o [
                | some question ↦
                    ended
                      (clarified question)
                      (record s { tool_path = s.tool_path ++ clarify_tool_name ∷ [] })
                | none ↦ call_turn w names registry graph ctx d.tool_calls s
              ]))
      go (some question) = next here (asks_back s)
      go none = call_turn-Reach d.tool_calls s

  decide_step-Reach :
      (specs : List ToolSpec) (allow : Bool) (s : LoopState w.float.F)
      → Reach w names registry graph ctx s
          (next_to (decide_step w names registry graph ctx specs allow s))
  unfolding decide_step
  decide_step-Reach specs allow s =
      Reach-trans w names registry graph ctx (next here (sends s))
        (go (w.chat (length s.sent) s.messages specs) refl)
    where
      go :
          (r : ChatReply)
          → w.chat (length s.sent) s.messages specs ≡ r
          → Reach w names registry graph ctx
              (record s { sent = s.sent ++ s.messages ∷ [] })
              (next_to (elim r [
                | ChatReply.unavailable ↦ ended down (record s { sent = s.sent ++ s.messages ∷ [] })
                | ChatReply.failed ↦ ended stopped (record s { sent = s.sent ++ s.messages ∷ [] })
                | ChatReply.reply d ↦ decision_turn w names registry graph ctx allow d (record s {
                  sent = s.sent ++ s.messages ∷ [];
                  usage_turns = s.usage_turns ++ d.usage ∷ [];
                })
              ]))
      go ChatReply.unavailable e = here
      go ChatReply.failed e = here
      go (ChatReply.reply d) e =
          let s' : LoopState w.float.F = record s { sent = s.sent ++ s.messages ∷ [] } in
          Reach-trans w names registry graph ctx (next here (counts s' d.usage)) (
            decision_turn-Reach allow d (record s' { usage_turns = s.usage_turns ++ d.usage ∷ [] })
              (length s.sent, s.messages, specs, e))

  -- Every run of the loop is a sequence of the changes above.
  pub decide-Reach :
      (steps : ℕ) (specs : List ToolSpec) (allow : Bool) (s : LoopState w.float.F)
      → Reach w names registry graph ctx s (decide w names registry graph ctx steps specs allow s).1
  unfolding decide
  decide-Reach zero specs allow s = here
  decide-Reach (suc steps) specs allow s =
      go (decide-Reach steps specs allow) (decide_step w names registry graph ctx specs allow s)
        (decide_step-Reach specs allow s)
    where
      go :
          ((t : LoopState w.float.F)
            → Reach w names registry graph ctx t
                (decide w names registry graph ctx steps specs allow t).1)
          → (n : Next w.float.F) → Reach w names registry graph ctx s (next_to n)
          → Reach w names registry graph ctx s
              (elim n as (λ _. LoopEnd × LoopState w.float.F) [
                | again t ↦ decide w names registry graph ctx steps specs allow t
                | ended e t ↦ (e, t)
              ]).1
      go later (again t) h = Reach-trans w names registry graph ctx h (later t)
      go later (ended e t) h = h
