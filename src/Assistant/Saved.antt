-- ===== src/Assistant/Saved.antt =====
-- What a question leaves behind in the conversation.
use mathlib.Core.List.{append-nil, append_assoc, Mem, mem-cons_self, mem-cons_of_mem}
use liviq.Base.{
  both, ℕ, ◌≡◌, refl, sym, ap, ◌∙◌, ◌⊎◌, inl, inr, Bool, true, false, ◌&&◌, Option, none, some,
  List, [], ◌∷◌, ◌++◌, map, Text, codes, All, is_empty, text_eq, text_eq_refl, arith, if◌then◌else◌,
  text_eq→eq, Bool-cases, Option-cases, subst, some_cancel,
}
use liviq.Http.{Reply, ok, refused, crashed, refuse, ◌>>=◌, gets, or_refuse, modify, pure}
use liviq.Access.{RequestContext}
use liviq.Registry.{ToolContext}
use liviq.Orchestrator.Types.{World, DoneEvent, AssistantEvent}
use liviq.Orchestrator.Judge.{citation_events}
use liviq.Orchestrator.Evidence.{Ask}
use liviq.Orchestrator.Endings.{Events, finishes, citation_events_lists}
use liviq.Orchestrator.Ends.{answer_question-Completes}
use liviq.AnswerCache.{CachedAnswer, Payload, Cache, Python, replay, replay_events, replayed_done}
use liviq.Assistant.{AdminOverrides, Conversation, MessageRow, Db, History, first}
use liviq.Assistant.Rows.{load_or_create_conversation, assistant_message, user_message}
use liviq.Assistant.Exchange.{AskRequest, Given, Sse, DoneData, done_data, Server}
use liviq.Assistant.Respond.{
  State, send_event, send_events, events_of, respond, continued, assistant_response,
}

-- The events that reach the client and the only final one, or an exception without a final event.
abbrev Closes : {F : Type 0} → Events F × Bool → Type 0
Closes {F} r =
    ((r.1 ≡ false) × ((d : DoneEvent F) × (finishes r.0 ≡ d ∷ [])))
    ⊎ ((r.1 ≡ true) × (finishes r.0 ≡ []))

finishes-append : {F : Type 0} (es fs : Events F) → finishes (es ++ fs) ≡ finishes es ++ finishes fs
finishes-append [] fs = refl
finishes-append (AssistantEvent.status _ _ ∷ es) fs = finishes-append es fs
finishes-append (AssistantEvent.token _ ∷ es) fs = finishes-append es fs
finishes-append (AssistantEvent.citation _ ∷ es) fs = finishes-append es fs
finishes-append (AssistantEvent.tool_citation _ ∷ es) fs = finishes-append es fs
finishes-append (AssistantEvent.finish d ∷ es) fs = ap (λ ds. d ∷ ds) (finishes-append es fs)

-- The final events of the stream to the client.
abbrev finals : {F : Type 0} → List (Sse F) → List (DoneData F)
finals [] = []
finals (Sse.finished d ∷ es) = d ∷ finals es
finals (_ ∷ es) = finals es

first_holds : {A : Type 0} (p : A → Bool) (xs : List A) (x : A) → first p xs ≡ some x → p x ≡ true
first_holds p [] x e = cc
first_holds p (y ∷ ys) x e = elim (Bool-cases (p y)) [
  | inl h ↦ subst (λ z. p z ≡ true) (some_cancel (rw h at e)) h
  | inr h ↦ first_holds p ys x (rw h at e)
]

first-Mem : {A : Type 0} (p : A → Bool) (xs : List A) (x : A) → first p xs ≡ some x → Mem x xs
first-Mem p [] x e = cc
first-Mem p (y ∷ ys) x e = elim (Bool-cases (p y)) [
  | inl h ↦ subst (λ z. Mem z (y ∷ ys)) (some_cancel (rw h at e)) mem-cons_self
  | inr h ↦ mem-cons_of_mem y (first-Mem p ys x (rw h at e))
]

-- A conversation of the caller that the tables hold: the one that was named, unchanged; or one that
-- was not there, as the only new row.
abbrev pub IsChosen :
    Option Text → Text → List Conversation → List Conversation → Conversation → Type 0
IsChosen named channel before after c = elim named [
  | some id ↦ Mem c before × (c.id ≡ id) × (after ≡ before)
  | none ↦ (c.channel ≡ channel) × (after ≡ before ++ (c ∷ []))
]

abbrev is_mine : RequestContext → Text → Conversation → Bool
is_mine ctx id c =
    text_eq c.id id && (text_eq c.tenant_id ctx.tenant_id && text_eq c.user_id ctx.user_id)

IsChosen-after :
    (named : Option Text) (channel : Text) (before after later : List Conversation)
    (c : Conversation)
    → later ≡ after
    → IsChosen named channel before after c
    → IsChosen named channel before later c
IsChosen-after named channel before after later c same h =
    subst (λ cs. IsChosen named channel before cs c) (sym same) h

-- No row is the conversation that was named and belongs to the caller.
abbrev pub IsMissing : {F : Type 0} → RequestContext → Option Text → Db F → Type 0
IsMissing ctx named db = elim named [
  | some id ↦
      All
        (λ (c : Conversation).
          (c.id ≡ id) × (c.tenant_id ≡ ctx.tenant_id) × (c.user_id ≡ ctx.user_id) → ⊥)
        db.conversations
  | none ↦ ⊥
]

text_eq_same : (s t : Text) → s ≡ t → text_eq s t ≡ true
text_eq_same s t e = subst (λ r. text_eq s r ≡ true) e (text_eq_refl s)

first_none :
    (ctx : RequestContext) (id : Text) (cs : List Conversation)
    → first (is_mine ctx id) cs ≡ none
    → All
        (λ (c : Conversation).
          (c.id ≡ id) × (c.tenant_id ≡ ctx.tenant_id) × (c.user_id ≡ ctx.user_id) → ⊥)
        cs
first_none ctx id [] e = tt
first_none ctx id (c ∷ cs) e = elim (Bool-cases (is_mine ctx id c)) [
  | inl h ↦ let g : some c ≡ none = rw h at e in cc
  | inr h ↦ (
    λ same.
        let a = text_eq_same c.id id same.0 in
        let b = text_eq_same c.tenant_id ctx.tenant_id same.1 in
        let d = text_eq_same c.user_id ctx.user_id same.2 in absurd (ground arith),
    first_none ctx id cs (rw h at e),
  )
]

-- An own conversation and no message yet; or 404 for one that the caller does not have.
Opened :
    {F : Type 0} → RequestContext → Option Text → Text → Db F → Reply Conversation × Db F → Type 0
Opened ctx named channel db (ok c, t) =
    (c.tenant_id ≡ ctx.tenant_id)
    × (c.user_id ≡ ctx.user_id)
    × IsChosen named channel db.conversations t.conversations c
    × (t.messages ≡ db.messages)
Opened ctx named channel db (refused status_code _, t) =
    (status_code ≡ 404) × IsMissing ctx named db × (t ≡ db)
Opened ctx named channel db (crashed, t) = ⊥

load_or_create_conversation-Opened :
    {F : Type 0} (ctx : RequestContext) (named : Option Text) (channel new_id : Text) (now : ℕ)
    (db : Db F)
    → Opened ctx named channel db (load_or_create_conversation ctx named channel new_id now db)
unfolding load_or_create_conversation ◌>>=◌ gets or_refuse modify pure refuse Opened
load_or_create_conversation-Opened ctx none channel new_id now db = (refl, refl, (refl, refl), refl)
load_or_create_conversation-Opened ctx (some id) channel new_id now db =
    elim (Option-cases (first (is_mine ctx id) db.conversations)) [
      | inl e ↦ rw (e, or_refuse) (refl, first_none ctx id db.conversations e, refl)
      | inr (c, e) ↦
          let (same_id, own) =
            both (text_eq c.id id) _ (first_holds (is_mine ctx id) db.conversations c e) in
          let (same_tenant, same_user) = both (text_eq c.tenant_id ctx.tenant_id) _ own in
          rw (e, or_refuse)
            (
              text_eq→eq c.tenant_id ctx.tenant_id same_tenant,
              text_eq→eq c.user_id ctx.user_id same_user,
              (first-Mem (is_mine ctx id) db.conversations c e, text_eq→eq c.id id same_id, refl),
              refl,
            )
    ]

module _ (w : World) where
  module _ (ctx : RequestContext) (given : Given) (before : List (MessageRow w.float.F))
      (id question : Text) where
    -- The row of the question.
    abbrev IsQuestion : MessageRow w.float.F → Type 0
    IsQuestion m =
        (m.role ≡ codes "user")
        × (m.content ≡ question)
        × (m.tenant_id ≡ ctx.tenant_id)
        × (m.conversation_id ≡ id)

    -- The row of an answer, beside the final event that was sent: the same text, where none stands
    -- for the empty text, and the same ids, outcome and costs.
    abbrev IsAnswerOf : DoneData w.float.F → MessageRow w.float.F → Type 0
    IsAnswerOf f m =
        (m.role ≡ codes "assistant")
        × (m.content ≡ elim f.answer [ none ↦ [] | some text ↦ text ])
        × (m.tenant_id ≡ ctx.tenant_id)
        × (m.conversation_id ≡ id)
        × (f.conversation_id ≡ id)
        × (m.id ≡ f.message_id)
        × (m.status ≡ some f.status)
        × (m.confidence ≡ some f.confidence)
        × (m.needs_review ≡ f.needs_review)
        × (m.token_input ≡ f.token_input)
        × (m.token_output ≡ f.token_output)

    -- The messages and the final events: the question and, unless an exception ended the stream, the
    -- answer that was sent.
    abbrev Kept : List (MessageRow w.float.F) → List (Sse w.float.F) × Bool → Type 0
    Kept after (sent, raised) =
        (q : MessageRow w.float.F) × IsQuestion q
        × (((raised ≡ true) × (finals sent ≡ []) × (after ≡ before ++ (q ∷ [])))
            ⊎ ((raised ≡ false)
                × ((f : DoneData w.float.F) × (m : MessageRow w.float.F) × (finals sent ≡ f ∷ [])
                    × IsAnswerOf f m
                    × (after ≡ before ++ (q ∷ m ∷ [])))))

    abbrev asked : MessageRow w.float.F
    asked = user_message ctx id question given.question_id given.now

    asked-IsQuestion : IsQuestion asked
    asked-IsQuestion = (refl, refl, refl, refl)

    done_data-IsAnswerOf :
        (d : DoneEvent w.float.F)
        → IsAnswerOf
            (done_data d id given.answer_id)
            (assistant_message ctx id d given.answer_id given.now)
    done_data-IsAnswerOf d =
        (refl, shown d.answer, refl, refl, refl, refl, refl, refl, refl, refl, refl)
      where
        shown :
            (text : Text)
            → text ≡ elim (if is_empty text then none else some text) [ none ↦ [] | some t ↦ t ]
        shown [] = refl
        shown (c ∷ text) = refl

  replay_events-finishes :
      (cached : CachedAnswer w.float.F)
      → finishes (replay_events w cached) ≡ replayed_done cached ∷ []
  replay_events-finishes cached =
      finishes-append (citation_events w cached.citations cached.tool_citations)
        (AssistantEvent.finish (replayed_done cached) ∷ [])
      ∙ ap (λ ds. ds ++ (replayed_done cached ∷ []))
          (citation_events_lists w cached.citations cached.tool_citations).0

  module _ (python : Python) (redis : Cache (Payload w.float.F)) {A : Type 0}
      (server : Server w.float.F A) where
    events_of-Closes :
        (cached : Option (CachedAnswer w.float.F)) (ctx : ToolContext) (ask : Ask w.float.F)
        → Closes (events_of w python redis server cached ctx ask)
    unfolding events_of replay
    events_of-Closes (some cached) ctx ask =
        elim (Bool-cases (text_eq cached.tenant_id ctx.tenant_id)) [
          | inl same ↦
              rw (same, events_of)
                (inl (refl, (replayed_done cached, replay_events-finishes cached)))
          | inr other ↦ rw (other, events_of) (inr (refl, refl))
        ]
    events_of-Closes none ctx ask =
        elim (answer_question-Completes w server.registry server.graph_available ctx ask) [
          | inl (no_exception, e) ↦ inl (
            no_exception,
            (
              e.final,
              ap finishes e.last
                  ∙ finishes-append e.before (AssistantEvent.finish e.final ∷ [])
                  ∙ ap (λ ds. ds ++ (e.final ∷ [])) e.only,
            ),
          )
          | inr broken ↦ inr broken
        ]

    send_events-messages :
        (ctx : RequestContext) (tool_ctx : ToolContext) (id question : Text) (stores : Bool)
        (given : Given) (es : Events w.float.F) (s : State w python redis server)
        → (send_events w python redis server ctx tool_ctx id question stores given es
            s).1.db.messages
          ≡ s.db.messages
            ++ map (λ d. assistant_message ctx id d given.answer_id given.now) (finishes es)
    unfolding send_events send_event
    send_events-messages ctx tool_ctx id question stores given [] s = sym (append-nil s.db.messages)
    send_events-messages ctx tool_ctx id question stores given (AssistantEvent.status _ _ ∷ es) s =
        send_events-messages ctx tool_ctx id question stores given es s
    send_events-messages ctx tool_ctx id question stores given (AssistantEvent.token _ ∷ es) s =
        send_events-messages ctx tool_ctx id question stores given es s
    send_events-messages ctx tool_ctx id question stores given (AssistantEvent.citation _ ∷ es) s =
        send_events-messages ctx tool_ctx id question stores given es s
    send_events-messages ctx tool_ctx id question stores given (AssistantEvent.tool_citation _ ∷ es)
          s =
        send_events-messages ctx tool_ctx id question stores given es s
    send_events-messages ctx tool_ctx id question stores given (AssistantEvent.finish d ∷ es) s =
        send_events-messages ctx tool_ctx id question stores given es _
        ∙ append_assoc s.db.messages (assistant_message ctx id d given.answer_id given.now ∷ []) _

    send_events-finals :
        (ctx : RequestContext) (tool_ctx : ToolContext) (id question : Text) (stores : Bool)
        (given : Given) (es : Events w.float.F) (s : State w python redis server)
        → finals (send_events w python redis server ctx tool_ctx id question stores given es s).0
          ≡ map (λ d. done_data d id given.answer_id) (finishes es)
    unfolding send_events send_event
    send_events-finals ctx tool_ctx id question stores given [] s = refl
    send_events-finals ctx tool_ctx id question stores given (AssistantEvent.status _ _ ∷ es) s =
        send_events-finals ctx tool_ctx id question stores given es s
    send_events-finals ctx tool_ctx id question stores given (AssistantEvent.token _ ∷ es) s =
        send_events-finals ctx tool_ctx id question stores given es s
    send_events-finals ctx tool_ctx id question stores given (AssistantEvent.citation _ ∷ es) s =
        send_events-finals ctx tool_ctx id question stores given es s
    send_events-finals ctx tool_ctx id question stores given (AssistantEvent.tool_citation _ ∷ es)
          s =
        send_events-finals ctx tool_ctx id question stores given es s
    send_events-finals ctx tool_ctx id question stores given (AssistantEvent.finish d ∷ es) s =
        ap (λ ds. done_data d id given.answer_id ∷ ds)
          (send_events-finals ctx tool_ctx id question stores given es _)

    module _ (ctx : RequestContext) (given : Given) (id question : Text) where
      sent-Kept :
          (tool_ctx : ToolContext) (stores : Bool) (r : Events w.float.F × Bool)
          (before : List (MessageRow w.float.F)) (t : State w python redis server)
          → t.db.messages ≡ before ++ (asked ctx given before id question ∷ [])
          → Closes r
          → Kept ctx given before id question
              (send_events w python redis server ctx tool_ctx id question stores given r.0
                t).1.db.messages
              (
                (send_events w python redis server ctx tool_ctx id question stores given r.0 t).0,
                r.1,
              )
      sent-Kept tool_ctx stores r before t h closes =
          let shown = send_events-finals ctx tool_ctx id question stores given r.0 t in
          let kept = send_events-messages ctx tool_ctx id question stores given r.0 t in
          let answer : DoneEvent w.float.F → MessageRow w.float.F =
            λ d. assistant_message ctx id d given.answer_id given.now in
          let row = asked ctx given before id question in
          (
            row,
            asked-IsQuestion ctx given before id question,
            elim closes [
              | inr (raised, no_final) ↦ inl (
                raised,
                shown ∙ ap (map (λ d. done_data d id given.answer_id)) no_final,
                kept
                    ∙ ap (λ ds. t.db.messages ++ map answer ds) no_final
                    ∙ append-nil t.db.messages
                    ∙ h,
              )
              | inl (raised, (d, only)) ↦ inr (
                raised,
                (
                  done_data d id given.answer_id,
                  answer d,
                  shown ∙ ap (map (λ d. done_data d id given.answer_id)) only,
                  done_data-IsAnswerOf ctx given before id question d,
                  kept
                      ∙ ap (λ ds. t.db.messages ++ map answer ds) only
                      ∙ ap (λ ms. ms ++ (answer d ∷ [])) h
                      ∙ append_assoc before _ (answer d ∷ []),
                ),
              )
            ],
          )

    send_events-conversations :
        (ctx : RequestContext) (tool_ctx : ToolContext) (id question : Text) (stores : Bool)
        (given : Given) (es : Events w.float.F) (s : State w python redis server)
        → (send_events w python redis server ctx tool_ctx id question stores given es
            s).1.db.conversations
          ≡ s.db.conversations
    unfolding send_events send_event
    send_events-conversations ctx tool_ctx id question stores given [] s = refl
    send_events-conversations ctx tool_ctx id question stores given (AssistantEvent.status _ _ ∷ es)
          s =
        send_events-conversations ctx tool_ctx id question stores given es s
    send_events-conversations ctx tool_ctx id question stores given (AssistantEvent.token _ ∷ es)
          s =
        send_events-conversations ctx tool_ctx id question stores given es s
    send_events-conversations ctx tool_ctx id question stores given (AssistantEvent.citation _ ∷ es)
          s =
        send_events-conversations ctx tool_ctx id question stores given es s
    send_events-conversations ctx tool_ctx id question stores given
          (AssistantEvent.tool_citation _ ∷ es) s =
        send_events-conversations ctx tool_ctx id question stores given es s
    send_events-conversations ctx tool_ctx id question stores given (AssistantEvent.finish d ∷ es)
          s =
        send_events-conversations ctx tool_ctx id question stores given es _

    respond-conversations :
        (ctx : RequestContext) (channel : Text) (body : AskRequest) (o : AdminOverrides)
        (given : Given) (id : Text) (history : History) (s : State w python redis server)
        → (respond w python redis server ctx channel body o given id history s).1.db.conversations
          ≡ s.db.conversations
    unfolding respond
    respond-conversations ctx channel body o given id history s =
        send_events-conversations ctx _ id body.question _ given _ _

    respond-Kept :
        (ctx : RequestContext) (channel : Text) (body : AskRequest) (o : AdminOverrides)
        (given : Given) (id : Text) (history : History) (before : List (MessageRow w.float.F))
        (s : State w python redis server)
        → s.db.messages ≡ before
        → Kept ctx given before id body.question
            (respond w python redis server ctx channel body o given id history s).1.db.messages
            (respond w python redis server ctx channel body o given id history s).0
    unfolding respond
    respond-Kept ctx channel body o given id history before s same =
        sent-Kept ctx given id body.question _ _ _ before _
          (ap (λ ms. ms ++ (asked ctx given before id body.question ∷ [])) same)
          (events_of-Closes _ _ _)

    -- What a question may leave: nothing, behind 404 for a conversation that is not the caller's;
    -- or one more turn of an own conversation.
    unfoldable pub IsSaved :
        RequestContext
        → Text
        → AskRequest
        → Given
        → State w python redis server
        → Reply (List (Sse w.float.F) × Bool) × State w python redis server
        → Type 0
    IsSaved ctx channel body given s (ok answer, t) =
        (c : Conversation) × (c.tenant_id ≡ ctx.tenant_id)
        × (c.user_id ≡ ctx.user_id)
        × IsChosen body.conversation_id channel s.db.conversations t.db.conversations c
        × Kept ctx given s.db.messages c.id body.question t.db.messages answer
    IsSaved ctx channel body given s (refused status_code _, t) =
        (status_code ≡ 404) × IsMissing ctx body.conversation_id s.db × (t ≡ s)
    IsSaved ctx channel body given s (crashed, t) = ⊥

    continued-IsSaved :
        (ctx : RequestContext) (channel answer_prompt : Text) (admin : Bool) (body : AskRequest)
        (given : Given) (s : State w python redis server) (r : Reply Conversation × Db w.float.F)
        → Opened ctx body.conversation_id channel s.db r
        → IsSaved ctx channel body given s
            (continued w python redis server ctx channel answer_prompt admin body given s r)
    unfolding continued IsSaved Opened
    continued-IsSaved ctx channel answer_prompt admin body given s (ok c, db) h = (
      c,
      h.0,
      h.1,
      IsChosen-after body.conversation_id channel s.db.conversations db.conversations _ c
          (respond-conversations ctx channel body _ given c.id _ _) h.2,
      respond-Kept ctx channel body _ given c.id _ s.db.messages _ h.3,
    )
    continued-IsSaved ctx channel answer_prompt admin body given s (refused code _, db) h =
        (h.0, h.1, ap (λ d. record s { db = d }) h.2)
    continued-IsSaved ctx channel answer_prompt admin body given s (crashed, db) h = h

    -- A question over HTTP never crashes before its stream. It is refused with 404 only where no
    -- row is the conversation that was asked for and belongs to the caller, and then nothing
    -- changes. Otherwise it is answered in a conversation of the caller: the row that was asked
    -- for, the table of conversations staying as it was, or a new row, the only one that is
    -- added. The session adds the question with its text, and one of two things holds: an
    -- exception ended the stream, no final event was sent, and nothing else is added; or exactly
    -- one final event was sent, and the session also adds the answer, with the text, the ids, the
    -- outcome and the costs that this event tells.
    pub assistant_response-IsSaved :
        (ctx : RequestContext) (channel answer_prompt : Text) (admin : Bool) (body : AskRequest)
        (given : Given) (s : State w python redis server)
        → IsSaved ctx channel body given s
            (assistant_response w python redis server ctx channel answer_prompt admin body given s)
    unfolding assistant_response
    assistant_response-IsSaved ctx channel answer_prompt admin body given s =
        continued-IsSaved ctx channel answer_prompt admin body given s _ (
          load_or_create_conversation-Opened ctx body.conversation_id channel given.conversation_id
            given.now s.db)
