-- ===== src/Orchestrator/Judge.antt =====
-- The judgement of an answer: its citations, its confidence, and the final events.
use liviq.Base.{
  ◌+◌, Bool, true, false, ◌&&◌, ◌||◌, not, Option, none, some, List, [], ◌∷◌, ◌++◌, map,
  if◌then◌else◌, is_empty, length, Text, codes, contains,
}
use liviq.Retrieval.{RetrievedChunk}
use liviq.Registry.{ToolCard}
use liviq.Confidence.{ConfidenceVerdict, assess}
use liviq.Citations.{Citation, CitationCheck, is_valid, verify_citations}
use liviq.Suggestions.{Status, suggest_next_actions}
use liviq.Orchestrator.Types.{
  World, ChatUsage, FallbackReason, ToolCitation, DoneEvent, AssistantEvent,
}
use liviq.Orchestrator.Texts.{no_evidence_marker, tool_citations_from}

module _ (w : World) where
  open w use {float}

  -- `_fallback`
  unfoldable pub fallback_event :
      FallbackReason → float.F → Bool → Option ChatUsage → List Text → DoneEvent float.F
  fallback_event reason confidence needs_review usage path = record {
    status = Status.fallback;
    confidence = confidence;
    needs_review = needs_review;
    usage = usage;
    fallback_reason = some reason;
    citations = [];
    tool_citations = [];
    answer = [];
    tool_path = path;
    suggestions = suggest_next_actions path Status.fallback;
  }

  abbrev pub ends_in : DoneEvent float.F → List (AssistantEvent float.F)
  ends_in d = AssistantEvent.finish d ∷ []

  abbrev pub zero_score : float.F
  zero_score = float.lit 0 1

  abbrev pub citation_events : List Citation → List ToolCitation → List (AssistantEvent float.F)
  citation_events cs ts = map AssistantEvent.citation cs ++ map AssistantEvent.tool_citation ts

  -- `_excerpt_fallback`
  unfoldable pub excerpt_fallback :
      List (RetrievedChunk float.F)
      → List ToolCard
      → List Text
      → Option ChatUsage
      → List (AssistantEvent float.F)
  excerpt_fallback evidence cards path usage =
      let cited =
        if is_empty evidence
        then []
        else (verify_citations w.digit (codes "[1]") evidence).citations in
      let tool_cited = tool_citations_from (length evidence + 1) cards in
      citation_events cited tool_cited
      ++ ends_in (record {
        status = Status.fallback;
        confidence = zero_score;
        needs_review = false;
        usage = usage;
        fallback_reason = some FallbackReason.llm_unavailable;
        citations = cited;
        tool_citations = tool_cited;
        answer = [];
        tool_path = path;
        suggestions = suggest_next_actions path Status.fallback;
      })

  -- The score and the two flags of an answer whose citations were checked.
  unfoldable pub verdict :
      List (RetrievedChunk float.F)
      → List ToolCard
      → CitationCheck
      → float.F
      → ConfidenceVerdict float.F
  verdict [] cards check tool_confidence = record {
    score = tool_confidence;
    should_fallback = false;
    needs_review = false;
  }
  verdict (top ∷ rest) cards check tool_confidence =
      let v =
        assess float top.score (is_valid check || not (is_empty cards))
          (length check.invalid_refs) in
      record v { should_fallback = v.should_fallback && is_empty cards }

  -- From the `verifying` event on.
  unfoldable pub judge :
      List (RetrievedChunk float.F)
      → List ToolCard
      → Text
      → float.F
      → Option ChatUsage
      → List Text
      → List (AssistantEvent float.F)
  judge evidence cards answer tool_confidence usage path =
      let check = verify_citations w.digit answer evidence in
      let v = verdict evidence cards check tool_confidence in
      let tool_cited = tool_citations_from (length evidence + 1) cards in
      if is_empty answer || contains no_evidence_marker answer
      then ends_in (fallback_event FallbackReason.no_evidence zero_score false usage path)
      else if is_empty check.citations && is_empty cards
      then ends_in (fallback_event FallbackReason.no_evidence zero_score false usage path)
      else if v.should_fallback
      then ends_in (fallback_event FallbackReason.low_confidence v.score true usage path)
      else (citation_events check.citations tool_cited
          ++ ends_in (record {
            status = Status.answered;
            confidence = v.score;
            needs_review = v.needs_review;
            usage = usage;
            fallback_reason = none;
            citations = check.citations;
            tool_citations = tool_cited;
            answer = answer;
            tool_path = path;
            suggestions = suggest_next_actions path Status.answered;
          }))
