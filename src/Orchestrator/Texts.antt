-- ===== src/Orchestrator/Texts.antt =====
-- The texts that the orchestrator puts together, and its small helpers.
use liviq.Base.{
  ℕ, ◌+◌, Bool, false, ◌||◌, Option, none, some, List, [], ◌∷◌, ◌++◌, map, if◌then◌else◌, is_empty,
  length, take, drop, Text, codes, text_eq, starts_with, join, lstrip, strip, ◌-◌, ◌==◌,
}
use liviq.Masking.{ensure_masked}
use liviq.Retrieval.{RetrievedChunk, newline, build_context_block}
use liviq.Registry.{ToolCard, ToolCallRequest, arguments_or_empty}
use liviq.History.{Message, history_inject_turns, select_relevant_messages}
use liviq.Clarify.{clarify_tool_name, build_clarification}
use liviq.Orchestrator.Types.{World, ChatUsage, ToolCitation}

-- rag/prompt.py
unfoldable pub agent_system_prompt : Text → Text → Text
agent_system_prompt today base =
    base
    ++ (newline
        ++ (codes "오늘은 "
            ++ (today ++ codes "입니다. '이번 달'이나 '8월'처럼 연도가 없는 시점 표현은 이 날짜를 기준으로 해석하십시오.")))

-- `QUOTE_FIRST_RULE`
abbrev pub quote_first_rule : Text
quote_first_rule =
    codes
      "0. 답하기 전에 첫 줄에 [문서 근거] 중 답의 근거가 되는 문장을 그 번호 [n]과 함께 한 줄로 옮겨 적고, 그 다음 줄부터 옮겨 적은 근거만으로 답하십시오."

-- `s.partition("\n")`, without the separator
unfoldable pub first_line : Text → Text × Text
first_line [] = ([], [])
first_line (a ∷ s) =
    let (head, rest) = first_line s in if a == 10 then ([], s) else (a ∷ head, rest)

unfoldable pub quote_first_prompt : Text → Text
quote_first_prompt answer_prompt =
    let (header, rules) = first_line answer_prompt in
    header ++ (newline ++ (quote_first_rule ++ (newline ++ rules)))

abbrev pub no_evidence_marker : Text
no_evidence_marker = codes "NO_EVIDENCE"

-- `HISTORY_MAX_TURNS`, `HISTORY_MAX_CHARS`, `CONTEXT_BUDGET_TOKENS`, `MAX_TOOL_STEPS`, `MAX_PLAN_TURNS`
abbrev pub history_max_turns : ℕ
history_max_turns = history_inject_turns

abbrev pub history_max_chars : ℕ
history_max_chars = 400

abbrev pub context_budget_tokens : ℕ
context_budget_tokens = 2400

abbrev pub max_tool_steps : ℕ
max_tool_steps = 4

abbrev pub max_plan_turns : ℕ
max_plan_turns = 1

-- `xs[-n:]`
unfoldable pub last_items : {A : Type 0} → ℕ → List A → List A
last_items n xs = drop (length xs - n) xs

module _ (w : World) where
  -- `_args_key`
  unfoldable pub args_key : Text → Text
  args_key arguments = elim (w.normal_args (arguments_or_empty arguments)) [
    | none ↦ arguments
    | some s ↦ s
  ]

  -- `_clarify_question`: the first call of the tool decides
  unfoldable pub clarify_question : List ToolCallRequest → Option Text
  clarify_question [] = none
  clarify_question (call ∷ calls) =
      let rest = clarify_question calls in
      if text_eq call.name clarify_tool_name
      then elim (w.clarify_args (arguments_or_empty call.arguments)) [
        | none ↦ none
        | some (missing, context) ↦ some (build_clarification w.is_space missing context)
      ]
      else rest

  -- `_prepare_history`: the loop over the messages that were kept; `none` is `MaskingFailedError`
  unfoldable pub mask_history : List Text → List Message → Option (List Message)
  mask_history names [] = some []
  mask_history names ((role, content) ∷ ms) =
      let body = take history_max_chars (strip w.is_space content) in
      let rest = mask_history names ms in
      if is_empty body then rest else elim (ensure_masked w.engine body names) [
        | none ↦ none
        | some masked ↦ elim rest [
          | none ↦ none
          | some turns ↦ some (
              (
                if text_eq role (codes "assistant") then codes "assistant" else codes "user",
                masked.masked_text,
              )
              ∷ turns)
        ]
      ]

  unfoldable pub prepare_history : Text → List Message → List Text → Option (List Message)
  prepare_history question history names = mask_history names (
      last_items (history_max_turns + history_max_turns)
        (select_relevant_messages w.is_space w.is_word question history))

  -- `_safe_mask`: `none` is the pair with `False`
  unfoldable pub safe_mask : Text → List Text → Option Text
  safe_mask text names =
      if is_empty text
      then some []
      else elim (ensure_masked w.engine text names) [ none ↦ none | some r ↦ some r.masked_text ]

pub data Gate : Type 0 where
  hold fallback flush : Gate

-- `_no_evidence_gate`
unfoldable pub no_evidence_gate : (ℕ → Bool) → Text → Gate
no_evidence_gate is_space joined =
    let head = lstrip is_space joined in
    if starts_with head no_evidence_marker
    then fallback
    else if starts_with no_evidence_marker head
    then hold
    else flush

-- `_sum_usage`
unfoldable pub sum_turns : List ChatUsage → ChatUsage
sum_turns [] = record { input_tokens = 0; output_tokens = 0; estimated = false }
sum_turns (u ∷ us) =
    let rest = sum_turns us in
    record {
      input_tokens = u.input_tokens + rest.input_tokens;
      output_tokens = u.output_tokens + rest.output_tokens;
      estimated = u.estimated || rest.estimated;
    }

unfoldable pub sum_usage : List ChatUsage → Option ChatUsage
sum_usage us = if is_empty us then none else some (sum_turns us)

unfoldable pub tool_citations_from : ℕ → List ToolCard → List ToolCitation
tool_citations_from start [] = []
tool_citations_from start (c ∷ cs) =
    record {
      ref = start;
      title = c.title;
      quote = c.quote;
      source_kind = c.source_kind;
      payload = c.payload;
    }
    ∷ tool_citations_from (start + 1) cs

abbrev pub speaker : Text → Text
speaker role = if text_eq role (codes "assistant") then codes "AI" else codes "사용자"

abbrev pub block : Bool → Text → List Text
block absent text = if absent then [] else text ∷ []

-- `_build_final_user_message`
unfoldable pub build_final_user_message :
    {F : Type 0} → Text → List (RetrievedChunk F) → List ToolCard → List Message → Text
build_final_user_message question chunks cards history = join (newline ++ newline) (
    block (is_empty history) (
      codes "[이전 대화]"
      ++ (newline
          ++ join newline (map (λ (m : Message). speaker m.0 ++ (codes ": " ++ m.1)) history)))
    ++ (block (is_empty chunks) (codes "[문서 근거]" ++ (newline ++ build_context_block 1 chunks))
        ++ (block (is_empty cards) (
              codes "[확정 데이터·도구 결과]"
              ++ (newline
                  ++ join newline (
                      map (λ (c : ToolCard). codes "- " ++ (c.title ++ (codes ": " ++ c.quote)))
                        cards)))
            ++ (codes "[질문]" ++ (newline ++ question)) ∷ [])))
