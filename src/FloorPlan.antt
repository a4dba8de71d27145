-- ===== src/FloorPlan.antt =====
-- packages/ai-core/src/ai_core/tools/floor_plan_parser.py: what a question about a floor plan names.
-- `str.lower` and the regular expression of a unit are parameters.
use liviq.Base.{
  ℕ, Bool, ◌||◌, not, Option, none, some, List, [], ◌∷◌, ◌++◌, if◌then◌else◌, any, filter, is_empty,
  Text, codes, mem_text, contains,
}

abbrev pub Names : Type 0
Names = List (Text × List Text)

abbrev pub element_synonyms : Names
element_synonyms =
    (codes "콘센트", codes "콘센트" ∷ codes "플러그" ∷ codes "전기 코드" ∷ codes "코드 꽂" ∷ codes "충전" ∷ [])
    ∷ (codes "분전함", codes "분전함" ∷ codes "두꺼비집" ∷ codes "누전차단기" ∷ codes "차단기" ∷ codes "브레이커" ∷ [])
    ∷ (codes "통신단자함", codes "통신단자함" ∷ codes "단자함" ∷ codes "공유기" ∷ codes "허브" ∷ [])
    ∷ (
      codes "TV·인터넷 단자",
      codes "tv·인터넷 단자"
          ∷ codes "tv 단자"
          ∷ codes "티비 단자"
          ∷ codes "인터넷 단자"
          ∷ codes "랜선"
          ∷ codes "랜 포트"
          ∷ codes "인터넷"
          ∷ [],
    )
    ∷ (codes "가스밸브", codes "가스밸브" ∷ codes "가스 밸브" ∷ codes "가스 잠그" ∷ codes "가스 차단" ∷ [])
    ∷ (
      codes "수도 차단밸브",
      codes "수도 차단밸브"
          ∷ codes "수도밸브"
          ∷ codes "수도 밸브"
          ∷ codes "물 잠그"
          ∷ codes "수도 잠그"
          ∷ codes "물 새"
          ∷ codes "누수"
          ∷ [],
    )
    ∷ (codes "보일러", codes "보일러" ∷ [])
    ∷ (codes "난방 분배기", codes "난방 분배기" ∷ codes "분배기" ∷ codes "난방 밸브" ∷ codes "온수 분배" ∷ [])
    ∷ (codes "온도조절기", codes "온도조절기" ∷ codes "온도 조절" ∷ codes "난방 조절" ∷ codes "실내 온도" ∷ [])
    ∷ (codes "에어컨 배관", codes "에어컨 배관" ∷ codes "에어컨" ∷ [])
    ∷ (codes "소화기", codes "소화기" ∷ [])
    ∷ (codes "화재감지기", codes "화재감지기" ∷ codes "화재 감지기" ∷ codes "감지기" ∷ codes "화재경보" ∷ [])
    ∷ (
      codes "경량칸막이",
      codes "경량칸막이"
          ∷ codes "경량 칸막이"
          ∷ codes "비상탈출"
          ∷ codes "비상 탈출"
          ∷ codes "비상구"
          ∷ codes "대피"
          ∷ codes "탈출구"
          ∷ [],
    )
    ∷ (codes "월패드", codes "월패드" ∷ codes "인터폰" ∷ codes "비디오폰" ∷ codes "도어폰" ∷ [])
    ∷ []

abbrev pub element_groups : Names
element_groups =
    (codes "안전", codes "소화기" ∷ codes "화재감지기" ∷ codes "경량칸막이" ∷ [])
    ∷ (codes "소방", codes "소화기" ∷ codes "화재감지기" ∷ [])
    ∷ (codes "불", codes "소화기" ∷ codes "화재감지기" ∷ codes "경량칸막이" ∷ [])
    ∷ []

abbrev pub room_synonyms : Names
room_synonyms =
    (codes "거실", codes "거실" ∷ [])
    ∷ (codes "주방", codes "주방" ∷ codes "부엌" ∷ codes "키친" ∷ [])
    ∷ (codes "안방", codes "안방" ∷ codes "큰방" ∷ codes "마스터룸" ∷ [])
    ∷ (codes "침실1", codes "침실1" ∷ codes "작은방" ∷ [])
    ∷ (codes "침실2", codes "침실2" ∷ codes "가운데방" ∷ [])
    ∷ (codes "욕실1", codes "욕실1" ∷ [])
    ∷ (codes "욕실2", codes "욕실2" ∷ [])
    ∷ (codes "현관", codes "현관" ∷ [])
    ∷ (codes "팬트리", codes "팬트리" ∷ [])
    ∷ (codes "다용도실", codes "다용도실" ∷ [])
    ∷ (codes "발코니(전면)", codes "발코니(전면)" ∷ codes "앞 발코니" ∷ [])
    ∷ (codes "발코니(후면)", codes "발코니(후면)" ∷ codes "뒷 발코니" ∷ [])
    ∷ (codes "발코니(측면)", codes "발코니(측면)" ∷ codes "옆 발코니" ∷ [])
    ∷ (codes "실외기실", codes "실외기실" ∷ codes "실외기" ∷ [])
    ∷ []

abbrev pub room_groups : Names
room_groups =
    (codes "침실", codes "안방" ∷ codes "침실1" ∷ codes "침실2" ∷ [])
    ∷ (codes "방", codes "안방" ∷ codes "침실1" ∷ codes "침실2" ∷ [])
    ∷ (codes "욕실", codes "욕실1" ∷ codes "욕실2" ∷ [])
    ∷ (codes "화장실", codes "욕실1" ∷ codes "욕실2" ∷ [])
    ∷ (codes "발코니", codes "발코니(전면)" ∷ codes "발코니(후면)" ∷ codes "발코니(측면)" ∷ [])
    ∷ (codes "베란다", codes "발코니(전면)" ∷ codes "발코니(후면)" ∷ codes "발코니(측면)" ∷ [])
    ∷ []

pub record ParsedSpec : Type 0 where
  pub elements : List Text
  pub rooms : List Text

-- `any(s in text for s in syns)`
abbrev pub names_one : Text → List Text → Bool
names_one text synonyms = any (λ s. contains s text) synonyms

-- The names one of whose synonyms stands in the text
unfoldable pub named : Text → Names → List Text
named text [] = []
named text ((name, synonyms) ∷ rest) =
    let others = named text rest in if names_one text synonyms then name ∷ others else others

-- `xs.extend(n for n in group if n not in xs)`
unfoldable pub extend_new : List Text → List Text → List Text
extend_new xs [] = xs
extend_new xs (n ∷ group) = extend_new (if mem_text n xs then xs else xs ++ (n ∷ [])) group

unfoldable pub grouped : Text → Names → List Text → List Text
grouped text [] elements = elements
grouped text ((word, group) ∷ rest) elements =
    grouped text rest (if contains word text then extend_new elements group else elements)

-- The synonyms of rooms that stand in the text
unfoldable pub room_hits : Text → Names → List Text
room_hits text [] = []
room_hits text ((name, synonyms) ∷ rest) =
    filter (λ s. contains s text) synonyms ++ room_hits text rest

unfoldable pub grouped_rooms : Text → List Text → Names → List Text → List Text
grouped_rooms text hits [] rooms = rooms
grouped_rooms text hits ((word, group) ∷ rest) rooms = grouped_rooms text hits rest (
    if not (contains word text) || any (λ h. contains word h) hits
    then rooms
    else extend_new rooms group)

unfoldable pub parse_query : (Text → Text) → Text → ParsedSpec
parse_query lower query =
    let text = lower query in
    let elements = named text element_synonyms in
    record {
      elements = if is_empty elements then grouped text element_groups elements else elements;
      rooms =
          grouped_rooms text (room_hits text room_synonyms) room_groups (named text room_synonyms);
    }

-- `_UNIT_PATTERN.search`: the texts of the building and of the unit in the first match
abbrev pub UnitSearch : Type 0
UnitSearch = Text → Option (Text × Text)

-- `parse_unit`, with `int` on decimal digits
unfoldable pub parse_unit : UnitSearch → (Text → ℕ) → Text → Option (Text × ℕ)
parse_unit search int query = elim (search query) [
  | none ↦ none
  | some (dong, ho) ↦ some (dong, int ho)
]
