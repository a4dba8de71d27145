-- ===== src/Orchestrator/Shown.antt =====
-- The tools that the model is shown, beside the tools that it may call.
use liviq.Base.{
  ◌≡◌, refl, ap, ◌∙◌, Bool, true, false, ◌&&◌, ◌||◌, not, List, [], ◌∷◌, ◌++◌, map, arith, filter,
  is_some, if◌then◌else◌, Text, text_eq, text_eq→eq, mem_text,
}
use liviq.Registry.{Tool, ToolSpec, ToolContext, make_registry, specs_for, get_visible}
use liviq.Registry.Visible.{shown-eq-callable}
use liviq.Clarify.{clarify_tool_name}
use liviq.Orchestrator.Types.{World}
use liviq.Orchestrator.Evidence.{Ask}
use liviq.Orchestrator.Answer.{shown_specs}

abbrev pub spec_names : List ToolSpec → List Text
spec_names specs = map (λ (s : ToolSpec). s.name) specs

same_hidden :
    (n m : Text) (hidden : List Text) → text_eq n m ≡ true → mem_text n hidden ≡ mem_text m hidden
same_hidden n m hidden e = ap (λ (t : Text). mem_text t hidden) (text_eq→eq n m e)

mem-filter_hidden :
    (n : Text) (hidden : List Text) (specs : List ToolSpec)
    → mem_text n (spec_names (filter (λ (s : ToolSpec). not (mem_text s.name hidden)) specs))
      ≡ (mem_text n (spec_names specs) && not (mem_text n hidden))
unfolding mem_text
mem-filter_hidden n hidden [] = refl
mem-filter_hidden n hidden (s ∷ specs) =
    ground (arith, mem-filter_hidden n hidden specs, same_hidden n s.name hidden)

mem-append_text :
    (n : Text) (xs ys : List Text) → mem_text n (xs ++ ys) ≡ (mem_text n xs || mem_text n ys)
unfolding mem_text
mem-append_text n [] ys = refl
mem-append_text n (x ∷ xs) ys = ground (arith, mem-append_text n xs ys)

mem-hidden_clarify :
    (n : Text) (allow : Bool)
    → mem_text n (if allow then [] else clarify_tool_name ∷ [])
      ≡ (not allow && text_eq n clarify_tool_name)
unfolding mem_text
mem-hidden_clarify n true = refl
mem-hidden_clarify n false = ground arith

module _ (w : World) where
  -- For the registry of any tools, any roles, with or without the graph: a name stands among the
  -- specifications that the model is shown exactly when a call by that name finds a tool, and the
  -- name is not excluded, and it is not that of asking back where asking back is not allowed.
  pub mem-shown_specs :
      {A : Type 0} (tools : List (Tool w.float.F A)) (graph : Bool) (ctx : ToolContext)
      (ask : Ask w.float.F) (n : Text)
      → mem_text n (spec_names (shown_specs w (make_registry tools) graph ctx ask)) ≡ (
          is_some (get_visible (make_registry tools) n ctx.roles graph)
          && (not (mem_text n ask.exclude_tools)
              && (ask.allow_clarify || not (text_eq n clarify_tool_name))))
  unfolding shown_specs
  mem-shown_specs tools graph ctx ask n =
      let extra = if ask.allow_clarify then [] else clarify_tool_name ∷ [] in
      let filtered =
        mem-filter_hidden n (ask.exclude_tools ++ extra)
          (specs_for (make_registry tools) ctx.roles graph) in
      let split = mem-append_text n ask.exclude_tools extra in
      let clarify = mem-hidden_clarify n ask.allow_clarify in
      let same = shown-eq-callable tools n ctx.roles graph in
      filtered ∙ rw (same, split, clarify) (go _ _ ask.allow_clarify _)
    where
      go : (a b c d : Bool) → (a && not (b || (not c && d))) ≡ (a && (not b && (c || not d)))
      go a b c d = ground arith
