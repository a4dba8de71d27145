-- ===== src/Registry.antt =====
-- packages/ai-core/src/ai_core/tools/registry.py: the tools that a request may see, and the
-- checked execution of one call. What a tool does with the database, and Pydantic's validation
-- of its arguments, are parameters: two fields of `Tool`.
pub mod Visible
pub mod Execution
use mathlib.Core.List.{foldl}
use liviq.Base.{
  ℕ, Bool, true, false, ◌&&◌, ◌||◌, not, Option, none, some, List, [], ◌∷◌, ◌++◌, map,
  if◌then◌else◌, any, filter, is_empty, is_some, Text, codes, text_eq, mem_text,
}
use liviq.Retrieval.{RetrievedChunk}

pub record ToolContext : Type 0 where
  pub tenant_id : Text
  pub user_id : Text
  pub roles : List Text
  pub visibilities : List Text
  pub building_id : Option Text
  pub target_unit : Option (Text × ℕ)
  pub target_query : Option Text

-- `payload` is the field `data`, as JSON text: it is passed on and never read.
pub record ToolCard : Type 0 where
  pub title : Text
  pub quote : Text
  pub source_kind : Text
  pub payload : Option Text

pub record ToolResult (F : Type 0) : Type 0 where
  pub card : Option ToolCard
  pub doc_chunks : List (RetrievedChunk F)
  pub note : Text

-- `ToolResult.llm_text`
unfoldable pub llm_text : {F : Type 0} → ToolResult F → Text
llm_text r = elim r.card [ some c ↦ c.title ++ (codes ": " ++ c.quote) | none ↦ r.note ]

abbrev pub note_only : {F : Type 0} → Text → ToolResult F
note_only n = record { card = none; doc_chunks = []; note = n }

-- The arguments, or the first entry of `exc.errors()` as it is printed.
pub data Validated (A : Type 0) : Type 0 where
  valid : A → Validated A
  refused : Text → Validated A

-- `run` is given the moment of the call, since the database changes between two calls; `none`
-- is an exception that the tool lets through.
pub record Tool (F A : Type 0) : Type 0 where
  pub name : Text
  pub description : Text
  pub schema : Text
  pub validate : Text → Validated A
  pub run : ℕ → ToolContext → A → Option (ToolResult F)
  pub allowed_roles : Option (List Text)
  pub requires_graph : Bool

pub record ToolSpec : Type 0 where
  pub name : Text
  pub description : Text
  pub schema : Text

-- A call that the model asks for.
pub record ToolCallRequest : Type 0 where
  pub id : Text
  pub name : Text
  pub arguments : Text

pub record ToolExecution (F : Type 0) : Type 0 where
  pub name : Text
  pub result : ToolResult F
  pub done : Bool
  pub detail : Text

abbrev pub arguments_or_empty : Text → Text
arguments_or_empty s = if is_empty s then codes "{}" else s

abbrev pub refusal : {F : Type 0} → Text → Text → Text → ToolExecution F
refusal name note detail = record {
  name = name;
  result = note_only note;
  done = false;
  detail = detail;
}

abbrev pub executed : {F : Type 0} → Text → ToolResult F → ToolExecution F
executed name r = record {
  name = name;
  result = r;
  done = is_some r.card || not (is_empty r.doc_chunks);
  detail = [];
}

module _ {F A : Type 0} where
  -- `Tool.is_visible`
  unfoldable pub is_visible : Tool F A → List Text → Bool → Bool
  is_visible t roles graph_available =
      if t.requires_graph && not graph_available
      then false
      else elim t.allowed_roles [ none ↦ true | some allowed ↦ any (λ r. mem_text r roles) allowed ]

  -- `Tool.spec`
  abbrev pub spec : Tool F A → ToolSpec
  spec t = record { name = t.name; description = t.description; schema = t.schema }

  -- `d[t.name] = t`: a dict keeps the place of a key that it has
  unfoldable pub put_tool : List (Tool F A) → Tool F A → List (Tool F A)
  put_tool [] t = t ∷ []
  put_tool (u ∷ us) t = if text_eq u.name t.name then t ∷ us else u ∷ put_tool us t

  -- `ToolRegistry.__init__`
  unfoldable pub make_registry : List (Tool F A) → List (Tool F A)
  make_registry tools = foldl put_tool [] tools

  unfoldable pub visible_tools : List (Tool F A) → List Text → Bool → List (Tool F A)
  visible_tools registry roles graph_available =
      filter (λ t. is_visible t roles graph_available) registry

  unfoldable pub specs_for : List (Tool F A) → List Text → Bool → List ToolSpec
  specs_for registry roles graph_available =
      map (λ (t : Tool F A). spec t) (visible_tools registry roles graph_available)

  -- `self._tools.get(name)`
  unfoldable pub get_tool : Text → List (Tool F A) → Option (Tool F A)
  get_tool name [] = none
  get_tool name (t ∷ ts) = if text_eq t.name name then some t else get_tool name ts

  unfoldable pub get_visible : List (Tool F A) → Text → List Text → Bool → Option (Tool F A)
  get_visible registry name roles graph_available = elim (get_tool name registry) [
    | none ↦ none
    | some t ↦ if is_visible t roles graph_available then some t else none
  ]

  unfoldable pub execute_tool :
      List (Tool F A) → Bool → ToolContext → ℕ → ToolCallRequest → Option (ToolExecution F)
  execute_tool registry graph_available ctx moment call =
      elim (get_visible registry call.name ctx.roles graph_available) [
        | none ↦ some (
            refusal call.name (codes "도구 '" ++ (call.name ++ codes "'을(를) 사용할 수 없습니다."))
              (codes "not_visible"))
        | some tool ↦ elim (tool.validate (arguments_or_empty call.arguments)) [
          | refused first ↦
              some (refusal call.name (codes "도구 인자 검증 실패: " ++ first) (codes "invalid_args"))
          | valid args ↦ elim (tool.run moment ctx args) [
            | none ↦ none
            | some result ↦ some (executed call.name result)
          ]
        ]
      ]
