-- ===== src/Orchestrator/Steps.antt =====
-- The loop of decision turns as a step relation on the local variables of `answer_question`: each
-- assignment of the loop body is a constructor, and every run of the loop is a sequence of them.
pub mod Runs
use liviq.Base.{
  ℕ, zero, suc, ◌+◌, ◌<◌, ◌≡◌, refl, sym, subst, Bool, true, false, ◌&&◌, not, Option, none, some,
  List, [], ◌∷◌, ◌++◌, arith, if◌then◌else◌, ltb, length, is_empty, Text, strip, Bool-cases,
  Option-cases, inl, inr,
}
use liviq.Registry.{Tool, ToolContext, ToolCallRequest, ToolExecution, ToolSpec, execute_tool}
use liviq.Clarify.{clarify_tool_name}
use liviq.Orchestrator.Types.{
  World, ChatUsage, ChatMessage, ChatReply, ChatResponse, AssistantEvent, Stage,
}
use liviq.Orchestrator.Texts.{args_key, clarify_question, max_plan_turns}
use liviq.Orchestrator.Loop.{
  LoopState, LoopEnd, stopped, down, crashed, clarified, Next, again, ended, Ran, went, raised,
  mem_pair, same_call, absorb_and_mask, make_call, run_calls, plan_turn, call_turn, decision_turn,
  decide_step, decide,
}

-- A reply of the model that was asked with some conversation.
abbrev pub Replied : World → ChatResponse → Type 0
Replied w d =
    (n : ℕ) × (ms : List ChatMessage) × (specs : List ToolSpec) × (w.chat n ms specs
      ≡ ChatReply.reply d)

module _ {A : Type 0} (w : World) (names : List Text) (registry : List (Tool w.float.F A))
    (graph : Bool) (ctx : ToolContext) where
  abbrev pub State : Type 0
  State = LoopState w.float.F

  abbrev pub key : ToolCallRequest → Text × Text
  key call = (call.name, args_key w call.arguments)

  -- `messages.append(m)`
  abbrev pub appended : ChatMessage → State → State
  appended m s = record s { messages = s.messages ++ m ∷ [] }

  -- What is noted where a tool runs.
  abbrev pub begun : ToolCallRequest → State → State
  begun call s = record s {
    seen_calls = key call ∷ s.seen_calls;
    executed = call ∷ s.executed;
    events = s.events ++ AssistantEvent.status Stage.searching (some call.name) ∷ [];
  }

  abbrev pub finished_call : ToolCallRequest → Text × State → State
  finished_call call (content, t) = record t {
    tool_path = t.tool_path ++ call.name ∷ [];
    messages = t.messages ++ ChatMessage.tool call.id content ∷ [];
  }

  pub data Change : State → State → Type 0 where
    sends : (s : State) → Change s (record s { sent = s.sent ++ s.messages ∷ [] })
    counts :
        (s : State) (u : ChatUsage) → Change s (record s { usage_turns = s.usage_turns ++ u ∷ [] })
    plans :
        (s : State) (n : ℕ) (ms : List ChatMessage) (specs : List ToolSpec) (d : ChatResponse)
        → w.chat n ms specs ≡ ChatReply.reply d
        → s.plan_turns < max_plan_turns
        → Change s (record s {
          plan_turns = s.plan_turns + 1;
          messages = s.messages ++ ChatMessage.assistant (strip w.is_space d.text) ∷ [];
        })
    asks_back :
        (s : State) → Change s (record s { tool_path = s.tool_path ++ clarify_tool_name ∷ [] })
    requests :
        (s : State) (calls : List ToolCallRequest)
        → Change s (appended (ChatMessage.assistant_calls calls) s)
    repeats :
        (s : State) (call : ToolCallRequest)
        → mem_pair (key call) s.seen_calls ≡ true
        → Change s (appended (ChatMessage.tool call.id same_call) s)
    fails :
        (s : State) (call : ToolCallRequest)
        → mem_pair (key call) s.seen_calls ≡ false
        → execute_tool registry graph ctx (length s.seen_calls) call ≡ none
        → Change s (begun call s)
    runs :
        (s : State) (call : ToolCallRequest) (x : ToolExecution w.float.F)
        → mem_pair (key call) s.seen_calls ≡ false
        → execute_tool registry graph ctx (length s.seen_calls) call ≡ some x
        → Change s (finished_call call (absorb_and_mask w names x.result (begun call s)))

  pub data Reach (s : State) : State → Type 0 where
    here : Reach s s
    next : {t u : State} → Reach s t → Change t u → Reach s u

  pub Reach-trans : {s t u : State} → Reach s t → Reach t u → Reach s u
  Reach-trans r here = r
  Reach-trans r (next q c) = next (Reach-trans r q) c

  -- What every change keeps, every run keeps.
  pub Reach-keeps {κ} :
      {s u : State} (P : State → Type κ)
      → ((t v : State) → Change t v → P t → P v)
      → Reach s u
      → P s
      → P u
  Reach-keeps P keep here p = p
  Reach-keeps P keep (next {t = t} {u = u} r c) p = keep t u c (Reach-keeps P keep r p)
