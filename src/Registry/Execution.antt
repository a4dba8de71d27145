-- ===== src/Registry/Execution.antt =====
-- What a call may run.
use liviq.Base.{
  ℕ, ◌≡◌, refl, Bool, true, some, List, [], ◌⊎◌, none, Text, arith, Bool-cases, Option-cases, inl,
  inr,
}
use liviq.Registry.{
  Tool, ToolContext, ToolCallRequest, ToolExecution, ToolResult, Validated, valid, refused,
  is_visible, get_tool, get_visible, execute_tool, arguments_or_empty,
}

module _ {F A : Type 0} (registry : List (Tool F A)) (graph : Bool) (ctx : ToolContext) where
  -- A result that a visible tool gave the caller.
  abbrev pub IsVisibleRun : ToolResult F → Type 0
  IsVisibleRun r =
      (name : Text) × (moment : ℕ) × (t : Tool F A) × (args : A) × (get_tool name registry ≡ some t)
      × (is_visible t ctx.roles graph ≡ true)
      × (t.run moment ctx args ≡ some r)

  -- A result with evidence comes from a tool of the registry that the caller's roles may see,
  -- run on arguments that its model accepts, with the caller's own context.
  pub execute_tool_runs :
      (moment : ℕ) (call : ToolCallRequest) (x : ToolExecution F)
      → execute_tool registry graph ctx moment call ≡ some x
      → x.done ≡ true
      → (t : Tool F A) × (args : A) × (get_tool call.name registry ≡ some t)
        × (is_visible t ctx.roles graph ≡ true)
        × (t.validate (arguments_or_empty call.arguments) ≡ valid args)
        × (t.run moment ctx args ≡ some x.result)
  unfolding execute_tool get_visible
  execute_tool_runs moment call x h d = elim (Option-cases (get_tool call.name registry)) [
    | inl absent ↦ absurd (ground arith)
    | inr (t, found) ↦ go t found (t.validate (arguments_or_empty call.arguments)) refl
  ]
    where
      go :
          (t : Tool F A)
          → get_tool call.name registry ≡ some t
          → (v : Validated A) → t.validate (arguments_or_empty call.arguments) ≡ v
          → (t : Tool F A) × (args : A) × (get_tool call.name registry ≡ some t)
            × (is_visible t ctx.roles graph ≡ true)
            × (t.validate (arguments_or_empty call.arguments) ≡ valid args)
            × (t.run moment ctx args ≡ some x.result)
      go t found (refused first) e = absurd (ground arith)
      go t found (valid args) e = (t, args, found, ground arith, e, ground arith)

  -- Any other result is a note.
  pub execute_tool_origin :
      (moment : ℕ) (call : ToolCallRequest) (x : ToolExecution F)
      → execute_tool registry graph ctx moment call ≡ some x
      → IsVisibleRun x.result ⊎ ((x.result.card ≡ none) × (x.result.doc_chunks ≡ []))
  unfolding execute_tool get_visible
  execute_tool_origin moment call x h = elim (Option-cases (get_tool call.name registry)) [
    | inl absent ↦ inr (ground arith, ground arith)
    | inr (t, found) ↦ elim (Bool-cases (is_visible t ctx.roles graph)) [
      | inr hidden ↦ inr (ground arith, ground arith)
      | inl seen ↦ go t found seen (t.validate (arguments_or_empty call.arguments)) refl
    ]
  ]
    where
      go :
          (t : Tool F A)
          → get_tool call.name registry ≡ some t
          → is_visible t ctx.roles graph ≡ true
          → (v : Validated A) → t.validate (arguments_or_empty call.arguments) ≡ v
          → IsVisibleRun x.result ⊎ ((x.result.card ≡ none) × (x.result.doc_chunks ≡ []))
      go t found seen (refused first) e = inr (ground arith, ground arith)
      go t found seen (valid args) e = inl (call.name, moment, t, args, found, seen, ground arith)
