-- ===== src/Inquiries/Tracked.antt =====
-- The tables against the machine: every change of the tables keeps every row what its timeline says.
use liviq.Base.{
  both, ◌≡◌, refl, sym, ap, ◌∙◌, subst, false, List, [], ◌∷◌, ◌++◌, map, Text, text_eq, text_eq→eq,
  All, All-append, All-map_weaken, Bool-cases, inl, inr,
}
use liviq.Inquiries.{
  Inquiry, EventBody, created, InquiryEvent, Db, put_row, is_event_of, reply_count,
}
use liviq.Inquiries.Timeline.{
  Ticket, unopened, open_as, advance, replay, replay-append, open_ticket,
}
use liviq.Inquiries.Changes.{
  Change, nothing, opened, edited, told, moved, ticket_of, counted, event_of,
}
use liviq.Inquiries.Events.{
  timeline, IsTracked, timeline_other, timeline_own, reply_count_other, reply_count_own,
  same_timeline, own_event, other_event, no_events,
}

-- A row that moved with its event.
moved-IsTracked :
    (i j : Inquiry) (actor : Text) (body : EventBody) (events : List InquiryEvent)
    → j.id ≡ i.id
    → j.tenant_id ≡ i.tenant_id
    → advance (open_as (ticket_of i (reply_count i events))) body
      ≡ open_as (ticket_of j (counted body (reply_count i events)))
    → IsTracked events i
    → IsTracked (events ++ (event_of i actor body ∷ [])) j
unfolding IsTracked
moved-IsTracked i j actor body events e f h tracked =
    let v = event_of i actor body in
    let own = own_event i j actor body e f in
    let same = same_timeline i j events e f in
    rw
      (
        timeline_own j events v own,
        reply_count_own j events v own,
        same.0,
        same.1,
        replay-append unopened (timeline i events) body,
        tracked,
      )
      h

-- A row of another inquiry.
other-IsTracked :
    (q : Inquiry) (v : InquiryEvent) (events : List InquiryEvent)
    → is_event_of q v ≡ false
    → IsTracked events q
    → IsTracked (events ++ (v ∷ [])) q
unfolding IsTracked
other-IsTracked q v events h tracked =
    rw (timeline_other q events v h, reply_count_other q events v h) tracked

-- A row that shares its timeline with a tracked row, and its ticket.
edited-IsTracked :
    (i j : Inquiry) (events : List InquiryEvent)
    → j.id ≡ i.id
    → j.tenant_id ≡ i.tenant_id
    → ticket_of j 0 ≡ ticket_of i 0
    → IsTracked events i
    → IsTracked events j
unfolding IsTracked
edited-IsTracked i j events e f h tracked =
    let same = same_timeline i j events e f in
    rw (same.0, same.1)
      (tracked ∙ ap (λ (k : Ticket). open_as (record k { replies = reply_count i events })) (sym h))

abbrev pub AllTracked : Db → Type 0
AllTracked s = All (IsTracked s.events) s.inquiries

-- The rows of a table in which one was written back.
put_rows :
    (P Q : Inquiry → Type 0) (j : Inquiry) (rows : List Inquiry)
    → Q j
    → ((q : Inquiry) → text_eq q.id j.id ≡ false → P q → Q q)
    → All P rows
    → All Q (map (put_row j) rows)
put_rows P Q j [] h f all = tt
put_rows P Q j (q ∷ rows) h f all = elim (Bool-cases (text_eq q.id j.id)) [
  | inl e ↦ (rw e h, put_rows P Q j rows h f all.1)
  | inr e ↦ (rw e (f q e all.0), put_rows P Q j rows h f all.1)
]

opened-IsTracked :
    (i : Inquiry) (actor : Text) (events : List InquiryEvent)
    → All (λ (e : InquiryEvent). text_eq e.inquiry_id i.id ≡ false) events
    → ticket_of i 0 ≡ open_ticket
    → IsTracked (events ++ (event_of i actor created ∷ [])) i
unfolding IsTracked replay advance
opened-IsTracked i actor events fresh h =
    let v = event_of i actor created in
    let own = own_event i i actor created refl refl in
    let none_yet = no_events i events fresh in
    rw (timeline_own i events v own, reply_count_own i events v own, none_yet.0, none_yet.1)
      (ap open_as (sym h))

-- Two tracked rows with one timeline have one ticket.
same_ticket :
    (i q : Inquiry) (events : List InquiryEvent)
    → q.id ≡ i.id
    → q.tenant_id ≡ i.tenant_id
    → IsTracked events i
    → IsTracked events q
    → ticket_of q 0 ≡ ticket_of i 0
unfolding IsTracked
same_ticket i q events e f h g =
    let same = same_timeline i q events e f in
    ap (λ (k : Ticket). record k { replies = 0 })
      (ticket_cancel (sym g ∙ ap (replay unopened) same.0 ∙ h))
  where
    ticket_cancel : {k l : Ticket} → open_as k ≡ open_as l → k ≡ l
    ticket_cancel e = cc

told-IsTracked :
    (i q : Inquiry) (actor : Text) (body : EventBody) (events : List InquiryEvent)
    → advance (open_as (ticket_of i (reply_count i events))) body
      ≡ open_as (ticket_of i (counted body (reply_count i events)))
    → IsTracked events i
    → IsTracked events q
    → IsTracked (events ++ (event_of i actor body ∷ [])) q
told-IsTracked i q actor body events h track_i track_q =
    elim (Bool-cases (is_event_of q (event_of i actor body))) [
      | inr e ↦ other-IsTracked q (event_of i actor body) events e track_q
      | inl e ↦
          let ids = both (text_eq i.tenant_id q.tenant_id) (text_eq i.id q.id) e in
          let same_id = sym (text_eq→eq i.id q.id ids.1) in
          let same_tenant = sym (text_eq→eq i.tenant_id q.tenant_id ids.0) in
          edited-IsTracked i q (events ++ (event_of i actor body ∷ [])) same_id same_tenant
            (same_ticket i q events same_id same_tenant track_i track_q)
            (moved-IsTracked i i actor body events refl refl h track_i)
    ]

pub Change-AllTracked : (s t : Db) → Change s t → AllTracked s → AllTracked t
Change-AllTracked s t (nothing e) h = subst AllTracked (sym e) h
Change-AllTracked s t (opened i actor fresh k rows events) h =
    rw (rows, events)
      (All-append (IsTracked (s.events ++ (event_of i actor created ∷ []))) s.inquiries (i ∷ [])
        (All_both (IsTracked s.events) (λ q. text_eq q.id i.id ≡ false) _ s.inquiries
          (λ q a b.
            other-IsTracked q (event_of i actor created) s.events (other_event q i actor created b)
              a)
          h fresh.no_row)
        (opened-IsTracked i actor s.events fresh.no_event k, tt))
  where
    All_both :
        (P Q R : Inquiry → Type 0) (xs : List Inquiry)
        → ((x : Inquiry) → P x → Q x → R x)
        → All P xs
        → All Q xs
        → All R xs
    All_both P Q R [] f a b = tt
    All_both P Q R (x ∷ xs) f a b = (f x a.0 b.0, All_both P Q R xs f a.1 b.1)
Change-AllTracked s t (edited i j u k events) h =
    rw (u.rows, events)
      (put_rows (IsTracked s.events) (IsTracked s.events) j s.inquiries
        (edited-IsTracked i j s.events u.same_id u.same_tenant k (u.row (IsTracked s.events) h))
        (λ q e a. a) h)
Change-AllTracked s t (told i actor body row k rows events) h =
    rw (rows, events)
      (All-map_weaken (IsTracked s.events) _ s.inquiries
        (λ q a. told-IsTracked i q actor body s.events k (row (IsTracked s.events) h) a) h)
Change-AllTracked s t (moved i j actor body u k events) h =
    rw (u.rows, events)
      (put_rows (IsTracked s.events) (IsTracked (s.events ++ (event_of i actor body ∷ []))) j
        s.inquiries
        (moved-IsTracked i j actor body s.events u.same_id u.same_tenant k
          (u.row (IsTracked s.events) h))
        (λ q e a.
          other-IsTracked q (event_of i actor body) s.events
            (other_event q i actor body (subst (λ (x : Text). text_eq q.id x ≡ false) u.same_id e))
            a)
        h)
