-- ===== src/Orchestrator/Gathered.antt =====
-- What the loop gathers: where the evidence comes from, and that no call is made twice.
use liviq.Base.{
  ℕ, ◌+◌, ◌≡◌, refl, sym, ap, map, arith, text_eq, text_eq_refl, subst, ◌⊎◌, inl, inr, Bool, true,
  false, not, Option, none, some, List, [], ◌∷◌, if◌then◌else◌, filter, is_empty, length, Text,
  mem_text, All, All-append, All-map_weaken, Bool-cases, Option-cases,
}
use mathlib.Core.List.{Mem, mem-cons_self, mem-cons_of_mem}
use liviq.Retrieval.{RetrievedChunk, build_context_block}
use liviq.Registry.{Tool, ToolCard, ToolContext, ToolResult, ToolSpec, ToolCallRequest, llm_text}
use liviq.Registry.Execution.{IsVisibleRun, execute_tool_origin}
use liviq.History.{Message}
use liviq.Orchestrator.Types.{World}
use liviq.Orchestrator.Texts.{safe_mask, args_key}
use liviq.Orchestrator.Loop.{
  LoopState, mem_pair, absorb_chunks, absorb_card, absorb_and_mask, decide, not_possible,
}
use liviq.Orchestrator.Steps.{
  Change, sends, counts, plans, asks_back, requests, repeats, fails, runs, begun, key, Reach-keeps,
}
use liviq.Orchestrator.Steps.Runs.{decide-Reach}
use liviq.Orchestrator.Evidence.{Ask}
use liviq.Orchestrator.Answer.{first_state}

text_eq_same : (s t : Text) → s ≡ t → text_eq s t ≡ true
text_eq_same s t e = subst (λ r. text_eq s r ≡ true) e (text_eq_refl s)

All-Mem : {A : Type 0} (xs : List A) → All (λ x. Mem x xs) xs
All-Mem [] = tt
All-Mem (x ∷ xs) = (
  mem-cons_self,
  All-map_weaken (λ y. Mem y xs) (λ y. Mem y (x ∷ xs)) xs (λ y m. mem-cons_of_mem x m) (All-Mem xs),
)

All-filter :
    {A : Type 0} (P : A → Type 0) (p : A → Bool) (xs : List A) → All P xs → All P (filter p xs)
All-filter P p [] h = tt
All-filter P p (x ∷ xs) h = go (p x) (All-filter P p xs h.1)
  where
    go : (b : Bool) → All P (filter p xs) → All P (if b then x ∷ filter p xs else filter p xs)
    go true k = (h.0, k)
    go false k = k

module _ {A : Type 0} (w : World) (names : List Text) (registry : List (Tool w.float.F A))
    (graph : Bool) (ctx : ToolContext) where
  -- A chunk, and a card, that a visible tool returned for the caller.
  abbrev ChunkOf : RetrievedChunk w.float.F → Type 0
  ChunkOf c = (r : ToolResult w.float.F) × IsVisibleRun registry graph ctx r × Mem c r.doc_chunks

  abbrev CardOf : ToolCard → Type 0
  CardOf c = (r : ToolResult w.float.F) × IsVisibleRun registry graph ctx r × (r.card ≡ some c)

  -- Two calls of one tool with the same arguments, in whatever order of keys.
  abbrev pub SameCall : ToolCallRequest → ToolCallRequest → Type 0
  SameCall c d = (c.name ≡ d.name) × (args_key w c.arguments ≡ args_key w d.arguments)

  abbrev pub AreDistinct : List ToolCallRequest → Type 0
  AreDistinct [] = Unit
  AreDistinct (c ∷ cs) = All (λ d. SameCall c d → ⊥) cs × AreDistinct cs

  abbrev keys : List ToolCallRequest → List (Text × Text)
  keys cs = map (λ (c : ToolCallRequest). (c.name, args_key w c.arguments)) cs

  unseen-All :
      (c : ToolCallRequest) (ds : List ToolCallRequest)
      → mem_pair (c.name, args_key w c.arguments) (keys ds) ≡ false
      → All (λ d. SameCall c d → ⊥) ds
  unfolding mem_pair
  unseen-All c [] h = tt
  unseen-All c (d ∷ ds) h = (
    λ same.
        let names_agree = text_eq_same c.name d.name same.0 in
        let arguments_agree =
          text_eq_same (args_key w c.arguments) (args_key w d.arguments) same.1 in
        absurd (ground arith),
    unseen-All c ds (ground arith),
  )

  pub record IsAuthorized (s : LoopState w.float.F) : Type 0 where
    pub chunks : All ChunkOf s.doc_chunks
    pub cards : All CardOf s.cards
    pub calls : AreDistinct s.executed
    pub noted : keys s.executed ≡ s.seen_calls

  absorb_chunks-IsAuthorized :
      (chunks : List (RetrievedChunk w.float.F)) (s : LoopState w.float.F)
      → All ChunkOf chunks
      → IsAuthorized s
      → IsAuthorized (absorb_chunks w names chunks s).1
  unfolding absorb_chunks
  absorb_chunks-IsAuthorized chunks s h k =
      let new =
        filter (λ (c : RetrievedChunk w.float.F). not (mem_text c.chunk_id s.seen_chunk_ids))
          chunks in
      elim (Bool-cases (is_empty new)) [
        | inl nothing ↦ rw nothing k
        | inr something ↦
            elim (Option-cases
              (safe_mask w (build_context_block (length s.doc_chunks + 1) new) names)) [
                | inl e ↦ rw (something, e) k
                | inr (m, e) ↦
                    rw (something, e)
                      (record {
                        chunks =
                            All-append ChunkOf s.doc_chunks new k.chunks
                              (All-filter ChunkOf _ chunks h);
                        cards = k.cards;
                        calls = k.calls;
                        noted = k.noted;
                      })
              ]
      ]

  absorb_card-IsAuthorized :
      (c : ToolCard) (text : Text) (s : LoopState w.float.F)
      → CardOf c
      → IsAuthorized s
      → IsAuthorized (absorb_card w names c text s).1
  unfolding absorb_card
  absorb_card-IsAuthorized c text s h k =
      elim (Bool-cases (mem_pair (c.source_kind, c.quote) s.seen_cards)) [
        | inl old ↦ rw old k
        | inr new ↦ elim (Option-cases (safe_mask w text names)) [
          | inl e ↦ rw (new, e) k
          | inr (m, e) ↦
              rw (new, e)
                (record {
                  chunks = k.chunks;
                  cards = All-append CardOf s.cards (c ∷ []) k.cards (h, tt);
                  calls = k.calls;
                  noted = k.noted;
                })
        ]
      ]

  absorb_visible :
      (r : ToolResult w.float.F) (s : LoopState w.float.F)
      → IsVisibleRun registry graph ctx r
      → IsAuthorized s
      → IsAuthorized (absorb_and_mask w names r s).1
  unfolding absorb_and_mask
  absorb_visible r s v k = elim (Bool-cases (is_empty r.doc_chunks)) [
    | inl no_chunks ↦ rw no_chunks (go r.card refl)
    | inr chunks ↦ rw chunks (
        absorb_chunks-IsAuthorized r.doc_chunks s
          (All-map_weaken (λ c. Mem c r.doc_chunks) ChunkOf r.doc_chunks (λ c m. (r, v, m))
            (All-Mem r.doc_chunks))
          k)
  ]
    where
      go :
          (card : Option ToolCard)
          → r.card ≡ card
          → IsAuthorized
              (elim card as (λ _. Text × LoopState w.float.F) [
                | some c ↦ absorb_card w names c (llm_text r) s
                | none ↦ (elim (safe_mask w r.note names) [ some m ↦ m | none ↦ not_possible ], s)
              ]).1
      go (some c) e = absorb_card-IsAuthorized c (llm_text r) s (r, v, e) k
      go none e = k

  absorb_bare :
      (r : ToolResult w.float.F) (s : LoopState w.float.F)
      → r.card ≡ none
      → r.doc_chunks ≡ []
      → (absorb_and_mask w names r s).1 ≡ s
  unfolding absorb_and_mask
  absorb_bare r s c d = rw (d, c, absorb_and_mask) refl

  Change-IsAuthorized :
      (s t : LoopState w.float.F)
      → Change w names registry graph ctx s t
      → IsAuthorized s
      → IsAuthorized t
  Change-IsAuthorized s t (fails _ call new e) h = record {
    chunks = h.chunks;
    cards = h.cards;
    calls = (
      unseen-All call s.executed (
          subst (λ ks. mem_pair (key w names registry graph ctx call) ks ≡ false) (sym h.noted)
            new),
      h.calls,
    );
    noted = ap (λ ks. key w names registry graph ctx call ∷ ks) h.noted;
  }
  Change-IsAuthorized s t (runs _ call x new e) h =
      go (execute_tool_origin registry graph ctx (length s.seen_calls) call x e)
    where
      noted : IsAuthorized (begun w names registry graph ctx call s)
      noted = record {
        chunks = h.chunks;
        cards = h.cards;
        calls = (
          unseen-All call s.executed (
              subst (λ ks. mem_pair (key w names registry graph ctx call) ks ≡ false) (sym h.noted)
                new),
          h.calls,
        );
        noted = ap (λ ks. key w names registry graph ctx call ∷ ks) h.noted;
      }

      go :
          IsVisibleRun registry graph ctx x.result
            ⊎ ((x.result.card ≡ none) × (x.result.doc_chunks ≡ []))
          → IsAuthorized t
      go (inl v) =
          let k = absorb_visible x.result (begun w names registry graph ctx call s) v noted in
          record { chunks = k.chunks; cards = k.cards; calls = k.calls; noted = k.noted }
      go (inr (c, d)) =
          let k : IsAuthorized
              (absorb_and_mask w names x.result (begun w names registry graph ctx call s)).1 =
            subst IsAuthorized
              (sym (absorb_bare x.result (begun w names registry graph ctx call s) c d)) noted in
          record { chunks = k.chunks; cards = k.cards; calls = k.calls; noted = k.noted }
  Change-IsAuthorized s t (sends _) h = record {
    chunks = h.chunks;
    cards = h.cards;
    calls = h.calls;
    noted = h.noted;
  }
  Change-IsAuthorized s t (counts _ _) h = record {
    chunks = h.chunks;
    cards = h.cards;
    calls = h.calls;
    noted = h.noted;
  }
  Change-IsAuthorized s t (plans _ _ _ _ _ _ _) h = record {
    chunks = h.chunks;
    cards = h.cards;
    calls = h.calls;
    noted = h.noted;
  }
  Change-IsAuthorized s t (asks_back _) h = record {
    chunks = h.chunks;
    cards = h.cards;
    calls = h.calls;
    noted = h.noted;
  }
  Change-IsAuthorized s t (requests _ _) h = record {
    chunks = h.chunks;
    cards = h.cards;
    calls = h.calls;
    noted = h.noted;
  }
  Change-IsAuthorized s t (repeats _ _ _) h = record {
    chunks = h.chunks;
    cards = h.cards;
    calls = h.calls;
    noted = h.noted;
  }

  -- When the loop ends, however it ends: every chunk and every card that was gathered is in the
  -- result of a tool of the registry that the caller's roles may see, run with the caller's own
  -- context, and no two executed calls have the same name and the same arguments.
  pub decide-IsAuthorized :
      (steps : ℕ) (specs : List ToolSpec) (allow : Bool) (ask : Ask w.float.F) (masked : Text)
      (recent : List Message)
      → IsAuthorized
          (decide w names registry graph ctx steps specs allow (first_state w ask masked recent)).1
  unfolding first_state
  decide-IsAuthorized steps specs allow ask masked recent =
      Reach-keeps w names registry graph ctx IsAuthorized Change-IsAuthorized
        (decide-Reach w names registry graph ctx steps specs allow
          (first_state w ask masked recent))
        (record { chunks = tt; cards = tt; calls = tt; noted = refl })
