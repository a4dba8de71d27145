-- ===== src/Clarify.antt =====
-- packages/ai-core/src/ai_core/tools/clarify.py: the question that asks for what is missing.
use liviq.Base.{
  ℕ, Bool, ◌||◌, Option, none, some, List, [], ◌∷◌, ◌++◌, if◌then◌else◌, any, is_empty, Text, codes,
  text_eq, contains, strip,
}

abbrev pub clarify_tool_name : Text
clarify_tool_name = codes "ask_clarification"

-- `_TEMPLATES`
abbrev pub templates : List (List Text × Text)
templates =
    (
      codes "기간" ∷ codes "시기" ∷ codes "날짜" ∷ codes "언제" ∷ codes "월" ∷ codes "연도" ∷ [],
      codes "어느 기간을 말씀하시나요? (예: 이번 달, 지난달)",
    )
    ∷ (
      codes "설비" ∷ codes "시설" ∷ codes "장비" ∷ codes "기기" ∷ [],
      codes "어떤 설비를 말씀하시나요? (예: 승강기, 급수펌프)",
    )
    ∷ (
      codes "동/호수" ∷ codes "동호수" ∷ codes "호수" ∷ codes "세대" ∷ codes "가구" ∷ [],
      codes "어느 동·호수를 말씀하시나요? (예: 401동 201호)",
    )
    ∷ (codes "차량" ∷ codes "차번호" ∷ codes "주차" ∷ [], codes "어떤 차량을 말씀하시나요? (예: 12가3456)")
    ∷ (codes "민원" ∷ codes "문의" ∷ codes "접수" ∷ [], codes "어떤 민원을 말씀하시나요?")
    ∷ []

abbrev pub generic_question : Text
generic_question = codes "어떤 것을 말씀하시는지 조금 더 자세히 알려주시겠어요?"

unfoldable pub template_for : Text → List (List Text × Text) → Text
template_for item [] = generic_question
template_for item ((keys, text) ∷ rest) =
    if any (λ k. contains k item) keys then text else template_for item rest

unfoldable pub build_clarification : (ℕ → Bool) → Text → Option Text → Text
build_clarification is_space missing context =
    let item = strip is_space missing in
    let question = template_for item templates in
    let topic = strip is_space (elim context [ none ↦ [] | some c ↦ c ]) in
    if is_empty topic || text_eq topic item || contains topic item || contains item topic
    then question
    else topic ++ (codes "에 대해 " ++ question)
