-- ===== src/Orchestrator/Sent.antt =====
-- What leaves the process: the text of every message that is sent to the model went through the
-- masking gate, or is written by the program or by the model itself.
use liviq.Base.{
  ℕ, ◌+◌, ◌≡◌, refl, sym, subst, ◌⊎◌, inl, inr, Bool, true, not, Option, none, some, List, [], ◌∷◌,
  arith, filter, is_empty, length, Text, text_eq, mem_text, strip, All, All-append, Bool-cases,
  Option-cases,
}
use liviq.Masking.{MaskResult, ensure_masked}
use liviq.Masking.Gate.{IsClean, ensure_masked-IsClean}
use liviq.Retrieval.{RetrievedChunk, build_context_block}
use liviq.Registry.{Tool, ToolSpec, ToolCard, ToolContext, ToolResult, llm_text}
use liviq.Orchestrator.Types.{World, ChatMessage, ChatResponse}
use liviq.Orchestrator.Texts.{safe_mask}
use liviq.Orchestrator.Loop.{
  LoopState, seen_documents, seen_results, left_out, not_possible, same_call, absorb_chunks,
  absorb_card, absorb_and_mask, decide, mem_pair,
}
use liviq.Orchestrator.Steps.{
  Change, sends, counts, plans, asks_back, requests, repeats, fails, runs, begun, Replied,
  Reach-keeps,
}
use liviq.Orchestrator.Steps.Runs.{decide-Reach}

-- The texts that the program itself puts into a tool's message.
abbrev pub notices : List Text
notices = [] ∷ seen_documents ∷ seen_results ∷ left_out ∷ not_possible ∷ same_call ∷ []

abbrev pub is_notice : Text → Bool
is_notice t = mem_text t notices

module _ (w : World) (names : List Text) where
  abbrev Clean : Text → Type 0
  Clean t = IsClean w.engine names t

  -- A message that may be sent. The system prompts are fixed texts of the caller.
  abbrev pub MaySend : ChatMessage → Type 0
  MaySend (ChatMessage.system t) = Unit
  MaySend (ChatMessage.user t) = Clean t
  MaySend (ChatMessage.assistant t) =
      Clean t ⊎ (d : ChatResponse) × Replied w d × (t ≡ strip w.is_space d.text)
  MaySend (ChatMessage.assistant_calls calls) = Unit
  MaySend (ChatMessage.tool id t) = Clean t ⊎ (is_notice t ≡ true)

  abbrev pub CleanOrNotice : Text → Type 0
  CleanOrNotice t = Clean t ⊎ (is_notice t ≡ true)

  safe_mask-clean : (text m : Text) → safe_mask w text names ≡ some m → CleanOrNotice m
  unfolding safe_mask mem_text text_eq
  safe_mask-clean [] m h = inr (ground arith)
  safe_mask-clean (a ∷ s) m h = go (ensure_masked w.engine (a ∷ s) names) refl h
    where
      go :
          (o : Option MaskResult)
          → ensure_masked w.engine (a ∷ s) names ≡ o
          → elim o as (λ _. Option Text) [ none ↦ none | some r ↦ some r.masked_text ] ≡ some m
          → CleanOrNotice m
      go none e q = absurd (ground arith)
      go (some r) e q =
          inl (subst Clean (ground arith) (ensure_masked-IsClean w.engine (a ∷ s) names r e).1)

  -- Absorbing a result leaves the conversation alone, and gives a text that may be sent.
  pub record IsHeld (s : LoopState w.float.F) (r : Text × LoopState w.float.F) : Type 0 where
    pub text : CleanOrNotice r.0
    pub messages : r.1.messages ≡ s.messages
    pub sent : r.1.sent ≡ s.sent
    pub events : r.1.events ≡ s.events
    pub seen_calls : r.1.seen_calls ≡ s.seen_calls
    pub plan_turns : r.1.plan_turns ≡ s.plan_turns
    pub tool_path : r.1.tool_path ≡ s.tool_path

  notice-IsHeld : (t : Text) (s : LoopState w.float.F) → is_notice t ≡ true → IsHeld s (t, s)
  notice-IsHeld t s h = record {
    text = inr h;
    messages = refl;
    sent = refl;
    events = refl;
    seen_calls = refl;
    plan_turns = refl;
    tool_path = refl;
  }

  absorb_chunks-IsHeld :
      (chunks : List (RetrievedChunk w.float.F)) (s : LoopState w.float.F)
      → IsHeld s (absorb_chunks w names chunks s)
  unfolding absorb_chunks mem_text text_eq
  absorb_chunks-IsHeld chunks s =
      let new =
        filter (λ (c : RetrievedChunk w.float.F). not (mem_text c.chunk_id s.seen_chunk_ids))
          chunks in
      let block = build_context_block (length s.doc_chunks + 1) new in
      elim (Bool-cases (is_empty new)) [
        | inl nothing ↦ rw nothing (notice-IsHeld seen_documents s refl)
        | inr something ↦ elim (Option-cases (safe_mask w block names)) [
          | inl e ↦ rw (something, e) (notice-IsHeld left_out s refl)
          | inr (m, e) ↦
              rw (something, e)
                (record {
                  text = safe_mask-clean block m e;
                  messages = refl;
                  sent = refl;
                  events = refl;
                  seen_calls = refl;
                  plan_turns = refl;
                  tool_path = refl;
                })
        ]
      ]

  absorb_card-IsHeld :
      (c : ToolCard) (text : Text) (s : LoopState w.float.F)
      → IsHeld s (absorb_card w names c text s)
  unfolding absorb_card mem_text text_eq
  absorb_card-IsHeld c text s = elim (Bool-cases (mem_pair (c.source_kind, c.quote) s.seen_cards)) [
    | inl old ↦ rw old (notice-IsHeld seen_results s refl)
    | inr new ↦ elim (Option-cases (safe_mask w text names)) [
      | inl e ↦ rw (new, e) (notice-IsHeld left_out s refl)
      | inr (m, e) ↦
          rw (new, e)
            (record {
              text = safe_mask-clean text m e;
              messages = refl;
              sent = refl;
              events = refl;
              seen_calls = refl;
              plan_turns = refl;
              tool_path = refl;
            })
    ]
  ]

  note-IsHeld :
      (s : LoopState w.float.F) (note : Text)
      → IsHeld s (elim (safe_mask w note names) [ some m ↦ m | none ↦ not_possible ], s)
  unfolding mem_text text_eq
  note-IsHeld s note = elim (Option-cases (safe_mask w note names)) [
    | inl e ↦ rw e (notice-IsHeld not_possible s refl)
    | inr (m, e) ↦ rw e (record {
      text = safe_mask-clean note m e;
      messages = refl;
      sent = refl;
      events = refl;
      seen_calls = refl;
      plan_turns = refl;
      tool_path = refl;
    })
  ]

  pub absorb_and_mask-IsHeld :
      (r : ToolResult w.float.F) (s : LoopState w.float.F) → IsHeld s (absorb_and_mask w names r s)
  unfolding absorb_and_mask
  absorb_and_mask-IsHeld r s = elim (Bool-cases (is_empty r.doc_chunks)) [
    | inl no_chunks ↦ rw no_chunks (go r.card)
    | inr chunks ↦ rw chunks (absorb_chunks-IsHeld r.doc_chunks s)
  ]
    where
      go :
          (card : Option ToolCard)
          → IsHeld s (elim card [
            | some c ↦ absorb_card w names c (llm_text r) s
            | none ↦ (elim (safe_mask w r.note names) [ some m ↦ m | none ↦ not_possible ], s)
          ])
      go (some c) = absorb_card-IsHeld c (llm_text r) s
      go none = note-IsHeld s r.note

  -- Everything in the conversation, and everything sent so far, may be sent.
  pub record IsGuarded (s : LoopState w.float.F) : Type 0 where
    pub conversation : All MaySend s.messages
    pub past : All (All MaySend) s.sent

  module _ {A : Type 0} (registry : List (Tool w.float.F A)) (graph : Bool)
      (ctx : ToolContext) where
    Change-IsGuarded :
        (s t : LoopState w.float.F)
        → Change w names registry graph ctx s t
        → IsGuarded s
        → IsGuarded t
    unfolding mem_text text_eq
    Change-IsGuarded s t (sends _) g = record {
      conversation = g.conversation;
      past = All-append (All MaySend) s.sent (s.messages ∷ []) g.past (g.conversation, tt);
    }
    Change-IsGuarded s t (counts _ u) g = record { conversation = g.conversation; past = g.past }
    Change-IsGuarded s t (plans _ n ms specs d e lt) g = record {
      conversation =
          All-append MaySend s.messages (ChatMessage.assistant (strip w.is_space d.text) ∷ [])
            g.conversation (inr (d, (n, ms, specs, e), refl), tt);
      past = g.past;
    }
    Change-IsGuarded s t (asks_back _) g = record { conversation = g.conversation; past = g.past }
    Change-IsGuarded s t (requests _ calls) g = record {
      conversation =
          All-append MaySend s.messages (ChatMessage.assistant_calls calls ∷ []) g.conversation
            (tt, tt);
      past = g.past;
    }
    Change-IsGuarded s t (repeats _ call old) g = record {
      conversation =
          All-append MaySend s.messages (ChatMessage.tool call.id same_call ∷ []) g.conversation
            (inr refl, tt);
      past = g.past;
    }
    Change-IsGuarded s t (fails _ call new e) g = record {
      conversation = g.conversation;
      past = g.past;
    }
    Change-IsGuarded s t (runs _ call x new e) g =
        let s' = begun w names registry graph ctx call s in
        let r = absorb_and_mask w names x.result s' in
        let held = absorb_and_mask-IsHeld x.result s' in
        record {
          conversation =
              All-append MaySend r.1.messages (ChatMessage.tool call.id r.0 ∷ [])
                (subst (All MaySend) (sym held.messages) g.conversation) (held.text, tt);
          past = subst (All (All MaySend)) (sym held.sent) g.past;
        }

  pub decide-IsGuarded :
      {A : Type 0} (registry : List (Tool w.float.F A)) (graph : Bool) (ctx : ToolContext)
      (steps : ℕ) (specs : List ToolSpec) (allow : Bool) (s : LoopState w.float.F)
      → IsGuarded s
      → IsGuarded (decide w names registry graph ctx steps specs allow s).1
  decide-IsGuarded registry graph ctx steps specs allow s =
      Reach-keeps w names registry graph ctx IsGuarded (Change-IsGuarded registry graph ctx)
        (decide-Reach w names registry graph ctx steps specs allow s)
