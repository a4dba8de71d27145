-- ===== src/Tests/Registry.antt =====
-- A registry in which the second tool takes the place of the first, for residents only.
use liviq.Base.{
  ℕ, ◌≡◌, refl, true, false, Option, none, some, List, [], ◌∷◌, Text, codes, mem_text, text_eq,
}
use liviq.Registry.{
  Tool, ToolContext, ToolResult, ToolCallRequest, valid, is_visible, get_tool, get_visible,
  make_registry, execute_tool, executed, arguments_or_empty, put_tool,
}
use liviq.Registry.Execution.{execute_tool_runs}

abbrev pub bills : ToolResult ℕ
bills = record {
  card = some (record {
    title = codes "bill";
    quote = codes "10";
    source_kind = codes "tool:fees";
    payload = none;
  });
  doc_chunks = [];
  note = [];
}

abbrev pub fees : Option (List Text) → Tool ℕ Text
fees roles = record {
  name = codes "get_fees";
  description = [];
  schema = [];
  validate = λ s. valid s;
  run = λ moment ctx args. some bills;
  allowed_roles = roles;
  requires_graph = false;
}

abbrev pub tools : List (Tool ℕ Text)
tools = fees none ∷ fees (some (codes "RESIDENT" ∷ [])) ∷ []

abbrev pub resident : ToolContext
resident = record {
  tenant_id = codes "t";
  user_id = codes "u";
  roles = codes "RESIDENT" ∷ [];
  visibilities = [];
  building_id = none;
  target_unit = none;
  target_query = none;
}

abbrev pub call : ToolCallRequest
call = record { id = codes "1"; name = codes "get_fees"; arguments = [] }

runs :
    execute_tool (make_registry tools) false resident 0 call
    ≡ some (executed (codes "get_fees") bills)
unfolding execute_tool make_registry put_tool get_visible get_tool is_visible text_eq mem_text
runs = refl

execute_tool_runs_example :
    (t : Tool ℕ Text) × (args : Text) × (get_tool (codes "get_fees") (make_registry tools) ≡ some t)
    × (is_visible t resident.roles false ≡ true)
    × (t.validate (arguments_or_empty []) ≡ valid args)
    × (t.run 0 resident args ≡ some bills)
execute_tool_runs_example =
    execute_tool_runs (make_registry tools) false resident 0 call
      (executed (codes "get_fees") bills) runs refl
