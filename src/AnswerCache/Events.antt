-- ===== src/AnswerCache/Events.antt =====
-- A replay against the promise of a run.
use liviq.Base.{◌≡◌, refl, List, [], ◌∷◌, ◌++◌, none, some, Text, text_eq_refl}
use liviq.Orchestrator.Types.{World, DoneEvent, AssistantEvent, Stage}
use liviq.Orchestrator.Judge.{citation_events}
use liviq.Orchestrator.Endings.{EndsWell, IsGrounded, notes-EndsWell, citation_events_lists}
use liviq.AnswerCache.{replay, replay_events, replayed_done}
use liviq.AnswerCache.Codec.{cached_of}

module _ (w : World) where
  cited-EndsWell :
      (final : DoneEvent w.float.F)
      → IsGrounded final
      → EndsWell (
          citation_events w final.citations final.tool_citations
          ++ (AssistantEvent.finish final ∷ []))
  cited-EndsWell final h =
      let (only, cited, tool_cited) =
        citation_events_lists w final.citations final.tool_citations in
      record {
        before = citation_events w final.citations final.tool_citations;
        final = final;
        last = refl;
        only = only;
        cited = cited;
        tool_cited = tool_cited;
        grounded = h;
      }

  -- The answer of a run that kept its promise is replayed to the same complex as events that keep it
  -- too: one final event, at the end, which lists the citations that came before it.
  pub replay-EndsWell :
      (done : DoneEvent w.float.F) (tenant_id : Text)
      → IsGrounded done
      → (events : List (AssistantEvent w.float.F)) × (replay w (cached_of done tenant_id) tenant_id
          ≡ some events)
        × EndsWell events
  unfolding replay
  replay-EndsWell done tenant_id h = (
    replay_events w (cached_of done tenant_id),
    rw (text_eq_refl tenant_id) refl,
    notes-EndsWell
        (AssistantEvent.status Stage.searching none
          ∷ AssistantEvent.status Stage.generating none
          ∷ AssistantEvent.token done.answer
          ∷ AssistantEvent.status Stage.verifying none
          ∷ [])
        _ (tt, (tt, (tt, (tt, tt)))) (cited-EndsWell (replayed_done (cached_of done tenant_id)) h),
  )
