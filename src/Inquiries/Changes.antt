-- ===== src/Inquiries/Changes.antt =====
-- What a request may do to the tables: nothing, a new inquiry, a change of a row that its timeline
-- does not tell, or one event with the change of the row that goes with it.
use liviq.Base.{
  ℕ, ◌+◌, ◌≡◌, refl, Bool, false, Option, none, some, List, [], ◌∷◌, ◌++◌, map, if◌then◌else◌, Text,
  text_eq, All, subst, Bool-cases, inl, inr,
}
use liviq.Http.{Reply, is_ok, ok, refused}
use liviq.Inquiries.{
  Inquiry, EventBody, created, InquiryEvent, Db, InquiryOut, first, put_row, is_reply, reply_count,
}
use liviq.Inquiries.Timeline.{Ticket, open_as, advance, open_ticket}

-- A row of the table: what holds of every row holds of it.
abbrev pub IsRow : Inquiry → List Inquiry → Type 1
IsRow i rows = (P : Inquiry → Type 0) → All P rows → P i

pub first-IsRow :
    (p : Inquiry → Bool) (rows : List Inquiry) (i : Inquiry) → first p rows ≡ some i → IsRow i rows
first-IsRow p [] i e = cc
first-IsRow p (q ∷ rows) i e = elim (Bool-cases (p q)) [
  | inl h ↦ λ P all.
      subst (λ (o : Option Inquiry). elim o [ none ↦ P q | some j ↦ P j ]) (rw h at e) all.0
  | inr h ↦ λ P all. first-IsRow p rows i (rw h at e) P all.1
]

abbrev pub ticket_of : Inquiry → ℕ → Ticket
ticket_of i replies = record {
  status = i.status;
  assignee = i.assignee_user_id;
  facility = i.facility_id;
  replies = replies;
}

abbrev pub counted : EventBody → ℕ → ℕ
counted body n = if is_reply body then n + 1 else n

abbrev pub event_of : Inquiry → Text → EventBody → InquiryEvent
event_of i actor body = record {
  tenant_id = i.tenant_id;
  inquiry_id = i.id;
  actor_user_id = some actor;
  body = body;
}

-- The change of a row to another of the same inquiry.
pub record IsUpdate (i j : Inquiry) (s t : Db) : Type 1 where
  pub row : IsRow i s.inquiries
  pub same_id : j.id ≡ i.id
  pub same_tenant : j.tenant_id ≡ i.tenant_id
  pub rows : t.inquiries ≡ map (put_row j) s.inquiries

-- An id that neither a row nor an event has.
pub record IsFresh (id : Text) (s : Db) : Type 0 where
  pub no_row : All (λ (q : Inquiry). text_eq q.id id ≡ false) s.inquiries
  pub no_event : All (λ (e : InquiryEvent). text_eq e.inquiry_id id ≡ false) s.events

pub data Change (s t : Db) : Type 1 where
  nothing : t ≡ s → Change s t
  opened :
      (i : Inquiry) (actor : Text)
      → IsFresh i.id s
      → ticket_of i 0 ≡ open_ticket
      → t.inquiries ≡ s.inquiries ++ (i ∷ [])
      → t.events ≡ s.events ++ (event_of i actor created ∷ [])
      → Change s t
  edited :
      (i j : Inquiry)
      → IsUpdate i j s t
      → ticket_of j 0 ≡ ticket_of i 0
      → t.events ≡ s.events
      → Change s t
  told :
      (i : Inquiry) (actor : Text) (body : EventBody)
      → IsRow i s.inquiries
      → advance (open_as (ticket_of i (reply_count i s.events))) body
        ≡ open_as (ticket_of i (counted body (reply_count i s.events)))
      → t.inquiries ≡ s.inquiries
      → t.events ≡ s.events ++ (event_of i actor body ∷ [])
      → Change s t
  moved :
      (i j : Inquiry) (actor : Text) (body : EventBody)
      → IsUpdate i j s t
      → advance (open_as (ticket_of i (reply_count i s.events))) body
        ≡ open_as (ticket_of j (counted body (reply_count i s.events)))
      → t.events ≡ s.events ++ (event_of i actor body ∷ [])
      → Change s t

-- A request's answer and the tables behind it: a refusal leaves them as they were.
pub record Effect (s : Db) (x : Reply InquiryOut × Db) : Type 1 where
  pub change : Change s x.1
  pub refusal : is_ok x.0 ≡ false → x.1 ≡ s

pub refused-Effect : (s : Db) (c : ℕ) (d : Text) → Effect s (refused c d, s)
refused-Effect s c d = record { change = nothing refl; refusal = λ e. refl }

pub ok-Effect : (s t : Db) (out : InquiryOut) → Change s t → Effect s (ok out, t)
ok-Effect s t out h = record { change = h; refusal = λ e. cc }
