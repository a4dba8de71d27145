-- ===== src/Orchestrator/Endings.antt =====
-- How a run ends: the events that a client reads, up to the final one.
use mathlib.Core.List.{append_assoc}
use liviq.Base.{
  ℕ, ◌≡◌, refl, sym, ap, ◌∙◌, ◌⊎◌, inl, inr, Bool, false, ◌&&◌, ◌||◌, Option, none, some, List, [],
  ◌∷◌, ◌++◌, map, arith, is_empty, Text, contains, All, Bool-cases,
}
use liviq.Retrieval.{RetrievedChunk}
use liviq.Registry.{ToolCard}
use liviq.Citations.{Citation, verify_citations}
use liviq.Suggestions.{Status}
use liviq.Orchestrator.Types.{
  World, ChatUsage, FallbackReason, ToolCitation, DoneEvent, AssistantEvent,
}
use liviq.Orchestrator.Texts.{no_evidence_marker, tool_citations_from}
use liviq.Orchestrator.Judge.{
  ends_in, citation_events, excerpt_fallback, fallback_event, judge, verdict,
}

abbrev pub Events : Type 0 → Type 0
Events F = List (AssistantEvent F)

module _ {F : Type 0} where
  abbrev citations_of : Events F → List Citation
  citations_of [] = []
  citations_of (AssistantEvent.citation c ∷ es) = c ∷ citations_of es
  citations_of (_ ∷ es) = citations_of es

  abbrev tool_citations_of : Events F → List ToolCitation
  tool_citations_of [] = []
  tool_citations_of (AssistantEvent.tool_citation c ∷ es) = c ∷ tool_citations_of es
  tool_citations_of (_ ∷ es) = tool_citations_of es

  abbrev pub finishes : Events F → List (DoneEvent F)
  finishes [] = []
  finishes (AssistantEvent.finish d ∷ es) = d ∷ finishes es
  finishes (_ ∷ es) = finishes es

  -- A status or a token.
  abbrev pub IsNote : AssistantEvent F → Type 0
  IsNote (AssistantEvent.status _ _) = Unit
  IsNote (AssistantEvent.token _) = Unit
  IsNote _ = ⊥

  -- What a final event owes its reader: an answer has evidence and never the internal marker, a
  -- fallback has a reason and no text, and cites only when the model went away; a question that
  -- asks back cites nothing.
  abbrev pub IsGrounded : DoneEvent F → Type 0
  IsGrounded d = elim d.status [
    | Status.answered ↦
        ((is_empty d.citations && is_empty d.tool_citations) ≡ false)
        × (is_empty d.answer ≡ false)
        × (contains no_evidence_marker d.answer ≡ false)
        × (d.fallback_reason ≡ none)
    | Status.fallback ↦
        (d.answer ≡ [])
        × ((d.fallback_reason ≡ some FallbackReason.llm_unavailable)
            ⊎ ((r : FallbackReason) × (d.fallback_reason ≡ some r)
                × (d.citations ≡ [])
                × (d.tool_citations ≡ [])))
    | Status.clarify ↦ (d.citations ≡ []) × (d.tool_citations ≡ []) × (d.fallback_reason ≡ none)
  ]

  -- Events F whose last is the only final one, which lists the citations that came before it.
  pub record EndsWell (es : Events F) : Type 0 where
    pub before : Events F
    pub final : DoneEvent F
    pub last : es ≡ before ++ AssistantEvent.finish final ∷ []
    pub only : finishes before ≡ []
    pub cited : citations_of before ≡ final.citations
    pub tool_cited : tool_citations_of before ≡ final.tool_citations
    pub grounded : IsGrounded final

  module _ (ns : Events F) where
    abbrev Quiet : Events F → Type 0
    Quiet es =
        (finishes (es ++ ns) ≡ finishes ns)
        × (citations_of (es ++ ns) ≡ citations_of ns)
        × (tool_citations_of (es ++ ns) ≡ tool_citations_of ns)

    notes-Quiet : (es : Events F) → All IsNote es → Quiet es
    notes-Quiet [] h = (refl, refl, refl)
    notes-Quiet (AssistantEvent.status _ _ ∷ es) h = notes-Quiet es h.1
    notes-Quiet (AssistantEvent.token _ ∷ es) h = notes-Quiet es h.1
    notes-Quiet (AssistantEvent.citation _ ∷ es) h = absurd h.0
    notes-Quiet (AssistantEvent.tool_citation _ ∷ es) h = absurd h.0
    notes-Quiet (AssistantEvent.finish _ ∷ es) h = absurd h.0

  pub notes-EndsWell : (ns es : Events F) → All IsNote ns → EndsWell es → EndsWell (ns ++ es)
  notes-EndsWell ns es h e =
      let (no_finish, no_citation, no_tool) = notes-Quiet e.before ns h in
      record {
        before = ns ++ e.before;
        final = e.final;
        last =
            ap (λ (l : Events F). ns ++ l) e.last
            ∙ sym (append_assoc ns e.before (AssistantEvent.finish e.final ∷ []));
        only = no_finish ∙ e.only;
        cited = no_citation ∙ e.cited;
        tool_cited = no_tool ∙ e.tool_cited;
        grounded = e.grounded;
      }

pub tokens-IsNote :
    (F : Type 0) (ts : List Text) → All (IsNote {F = F}) (map AssistantEvent.token ts)
tokens-IsNote F [] = tt
tokens-IsNote F (t ∷ ts) = (tt, tokens-IsNote F ts)

module _ (w : World) where
  abbrev F : Type 0
  F = w.float.F

  abbrev tool_events : List ToolCitation → List (AssistantEvent F)
  tool_events ts = map AssistantEvent.tool_citation ts

  tool_events_lists :
      (ts : List ToolCitation)
      → (finishes (tool_events ts) ≡ [])
        × (citations_of (tool_events ts) ≡ [])
        × (tool_citations_of (tool_events ts) ≡ ts)
  tool_events_lists [] = (refl, refl, refl)
  tool_events_lists (t ∷ ts) =
      let (f, c, l) = tool_events_lists ts in (f, c, ap (λ (us : List ToolCitation). t ∷ us) l)

  pub citation_events_lists :
      (cs : List Citation) (ts : List ToolCitation)
      → (finishes (citation_events w cs ts) ≡ [])
        × (citations_of (citation_events w cs ts) ≡ cs)
        × (tool_citations_of (citation_events w cs ts) ≡ ts)
  citation_events_lists [] ts = tool_events_lists ts
  citation_events_lists (c ∷ cs) ts =
      let (f, l, t) = citation_events_lists cs ts in (f, ap (λ (ds : List Citation). c ∷ ds) l, t)

  -- The citations of a final event, and then the event.
  pub cited-EndsWell :
      (d : DoneEvent F)
      → IsGrounded d
      → EndsWell (citation_events w d.citations d.tool_citations ++ ends_in w d)
  cited-EndsWell d g =
      let (f, c, t) = citation_events_lists d.citations d.tool_citations in
      record {
        before = citation_events w d.citations d.tool_citations;
        final = d;
        last = refl;
        only = f;
        cited = c;
        tool_cited = t;
        grounded = g;
      }

  pub fallback_event-EndsWell :
      (r : FallbackReason) (c : F) (review : Bool) (u : Option ChatUsage) (path : List Text)
      → EndsWell (ends_in w (fallback_event w r c review u path))
  unfolding fallback_event
  fallback_event-EndsWell r c review u path =
      cited-EndsWell (fallback_event w r c review u path) (refl, inr (r, refl, refl, refl))

  pub excerpt_fallback-EndsWell :
      (evidence : List (RetrievedChunk F)) (cards : List ToolCard) (path : List Text)
      (u : Option ChatUsage)
      → EndsWell (excerpt_fallback w evidence cards path u)
  unfolding excerpt_fallback
  excerpt_fallback-EndsWell evidence cards path u = cited-EndsWell _ (refl, inl refl)

  tool_citations_empty :
      (n : ℕ) (cards : List ToolCard) → is_empty (tool_citations_from n cards) ≡ is_empty cards
  unfolding tool_citations_from
  tool_citations_empty n [] = refl
  tool_citations_empty n (c ∷ cs) = refl

  pub judge-EndsWell :
      (evidence : List (RetrievedChunk F)) (cards : List ToolCard) (answer : Text) (c : F)
      (u : Option ChatUsage) (path : List Text)
      → EndsWell (judge w evidence cards answer c u path)
  unfolding judge
  judge-EndsWell evidence cards answer c u path =
      let check = verify_citations w.digit answer evidence in
      let v = verdict w evidence cards check c in
      elim (Bool-cases (is_empty answer || contains no_evidence_marker answer)) [
        | inl silent ↦ rw silent (fallback_event-EndsWell FallbackReason.no_evidence _ _ _ _)
        | inr spoken ↦ elim (Bool-cases (is_empty check.citations && is_empty cards)) [
          | inl bare ↦
              rw (spoken, bare) (fallback_event-EndsWell FallbackReason.no_evidence _ _ _ _)
          | inr held ↦ elim (Bool-cases v.should_fallback) [
            | inl low ↦
                rw (spoken, held, low)
                  (fallback_event-EndsWell FallbackReason.low_confidence _ _ _ _)
            | inr high ↦
                rw (spoken, held, high)
                  (cited-EndsWell _
                    (rw tool_citations_empty held, ground arith, ground arith, refl))
          ]
        ]
      ]
