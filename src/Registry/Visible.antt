-- ===== src/Registry/Visible.antt =====
-- The names that the model is shown are the names that it may call.
use mathlib.Core.List.{foldl}
use liviq.Base.{
  ◌≡◌, refl, subst, Bool, true, false, ◌||◌, List, [], ◌∷◌, map, arith, is_some, Text, text_eq,
  text_eq→eq, text_eq_refl, mem_text, Bool-cases, inl, inr,
}
use liviq.Registry.{
  Tool, ToolSpec, put_tool, make_registry, visible_tools, specs_for, get_tool, get_visible,
}

module _ {F A : Type 0} where
  abbrev names : List (Tool F A) → List Text
  names ts = map (λ (t : Tool F A). t.name) ts

  -- A dict has each key once.
  abbrev pub HasDistinctNames : List (Tool F A) → Type 0
  HasDistinctNames [] = Unit
  HasDistinctNames (t ∷ ts) = (mem_text t.name (names ts) ≡ false) × HasDistinctNames ts

  mem-names-put_tool :
      (n : Text) (us : List (Tool F A)) (t : Tool F A)
      → mem_text n (names (put_tool us t)) ≡ true
      → (mem_text n (names us) || text_eq n t.name) ≡ true
  unfolding put_tool mem_text
  mem-names-put_tool n [] t h = ground arith
  mem-names-put_tool n (u ∷ us) t h =
      ground (arith, mem-names-put_tool n us t, text_eq→eq u.name t.name)

  HasDistinctNames-put_tool :
      (us : List (Tool F A)) (t : Tool F A) → HasDistinctNames us → HasDistinctNames (put_tool us t)
  unfolding put_tool mem_text
  HasDistinctNames-put_tool [] t h = (refl, tt)
  HasDistinctNames-put_tool (u ∷ us) t h = elim (Bool-cases (text_eq u.name t.name)) [
    | inl same ↦ rw same (
      subst (λ (n : Text). mem_text n (names us) ≡ false) (text_eq→eq u.name t.name same) h.0,
      h.1,
    )
    | inr other ↦ rw other (
      elim (Bool-cases (mem_text u.name (names (put_tool us t)))) [
        | inl twice ↦ absurd (ground (arith, mem-names-put_tool u.name us t twice))
        | inr once ↦ once
      ],
      HasDistinctNames-put_tool us t h.1,
    )
  ]

  HasDistinctNames-foldl :
      (us ts : List (Tool F A)) → HasDistinctNames us → HasDistinctNames (foldl put_tool us ts)
  HasDistinctNames-foldl us [] h = h
  HasDistinctNames-foldl us (t ∷ ts) h =
      HasDistinctNames-foldl (put_tool us t) ts (HasDistinctNames-put_tool us t h)

  pub make_registry-HasDistinctNames : (ts : List (Tool F A)) → HasDistinctNames (make_registry ts)
  unfolding make_registry
  make_registry-HasDistinctNames ts = HasDistinctNames-foldl [] ts tt

  -- The names in the specifications that a request is shown.
  abbrev pub shown : List (Tool F A) → List Text → Bool → List Text
  shown registry roles graph = map (λ (s : ToolSpec). s.name) (specs_for registry roles graph)

  module _ (n : Text) (roles : List Text) (graph : Bool) where
    mem-shown_le :
        (ts : List (Tool F A))
        → mem_text n (shown ts roles graph) ≡ true
        → mem_text n (names ts) ≡ true
    unfolding specs_for visible_tools mem_text
    mem-shown_le [] h = h
    mem-shown_le (t ∷ ts) h = ground (arith, mem-shown_le ts)

    shown_iff :
        (ts : List (Tool F A))
        → HasDistinctNames ts
        → mem_text n (shown ts roles graph) ≡ is_some (get_visible ts n roles graph)
    unfolding specs_for visible_tools mem_text get_visible get_tool
    shown_iff [] h = refl
    shown_iff (t ∷ ts) h = ground (
      arith,
      shown_iff ts h.1,
      mem-shown_le ts,
      text_eq→eq t.name n,
      text_eq→eq n t.name,
      text_eq_refl n,
    )

-- For the registry of any list of tools, any roles, and with or without the graph: a name stands
-- among the specifications that the model is given exactly when a call by that name finds a tool.
pub shown-eq-callable :
    {F A : Type 0} (tools : List (Tool F A)) (n : Text) (roles : List Text) (graph : Bool)
    → mem_text n (shown (make_registry tools) roles graph)
      ≡ is_some (get_visible (make_registry tools) n roles graph)
shown-eq-callable tools n roles graph =
    shown_iff n roles graph (make_registry tools) (make_registry-HasDistinctNames tools)
