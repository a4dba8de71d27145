-- ===== src/Inquiries/Events.antt =====
-- The timeline of an inquiry, and what one more event does to it.
use liviq.Base.{
  ◌≡◌, refl, ap, Bool, true, false, ◌&&◌, List, [], ◌∷◌, ◌++◌, map, filter, length, if◌then◌else◌,
  Text, text_eq, text_eq_refl, text_eq_sym, arith, All, Bool-cases, inl, inr,
}
use liviq.Inquiries.{Inquiry, EventBody, InquiryEvent, is_event_of, is_reply, reply_count}
use liviq.Inquiries.Timeline.{unopened, open_as, replay}
use liviq.Inquiries.Changes.{ticket_of, counted, event_of}

-- `list_inquiry_events`, without the check of who reads
unfoldable pub timeline : Inquiry → List InquiryEvent → List EventBody
timeline i events = map (λ (e : InquiryEvent). e.body) (filter (is_event_of i) events)

-- The row of an inquiry is the machine's state after the inquiry's timeline.
unfoldable pub IsTracked : List InquiryEvent → Inquiry → Type 0
IsTracked events i =
    replay unopened (timeline i events) ≡ open_as (ticket_of i (reply_count i events))

filter_snoc :
    {A : Type 0} (p : A → Bool) (xs : List A) (x : A)
    → filter p (xs ++ (x ∷ [])) ≡ filter p xs ++ (if p x then x ∷ [] else [])
filter_snoc p [] x = ground arith
filter_snoc p (y ∷ xs) x = elim (Bool-cases (p y)) [
  | inl e ↦ rw e (ap (λ zs. y ∷ zs) (filter_snoc p xs x))
  | inr e ↦ rw e (filter_snoc p xs x)
]

map_append : {A B : Type 0} (f : A → B) (xs ys : List A) → map f (xs ++ ys) ≡ map f xs ++ map f ys
map_append f [] ys = refl
map_append f (x ∷ xs) ys = ap (λ zs. f x ∷ zs) (map_append f xs ys)

append_nil : {A : Type 0} (xs : List A) → xs ++ [] ≡ xs
append_nil [] = refl
append_nil (x ∷ xs) = ap (λ zs. x ∷ zs) (append_nil xs)

-- An event of another inquiry leaves a timeline as it is, one of its own stands at the end.
pub timeline_other :
    (i : Inquiry) (events : List InquiryEvent) (e : InquiryEvent)
    → is_event_of i e ≡ false
    → timeline i (events ++ (e ∷ [])) ≡ timeline i events
unfolding timeline
timeline_other i events e h =
    rw (filter_snoc (is_event_of i) events e, h, append_nil (filter (is_event_of i) events)) refl

pub timeline_own :
    (i : Inquiry) (events : List InquiryEvent) (e : InquiryEvent)
    → is_event_of i e ≡ true
    → timeline i (events ++ (e ∷ [])) ≡ timeline i events ++ (e.body ∷ [])
unfolding timeline
timeline_own i events e h =
    rw
      (
        filter_snoc (is_event_of i) events e,
        h,
        map_append (λ (x : InquiryEvent). x.body) (filter (is_event_of i) events) (e ∷ []),
      )
      refl

pub reply_count_other :
    (i : Inquiry) (events : List InquiryEvent) (e : InquiryEvent)
    → is_event_of i e ≡ false
    → reply_count i (events ++ (e ∷ [])) ≡ reply_count i events
unfolding reply_count
reply_count_other i [] e h = rw h refl
reply_count_other i (d ∷ events) e h = ground (arith, reply_count_other i events e h)

pub reply_count_own :
    (i : Inquiry) (events : List InquiryEvent) (e : InquiryEvent)
    → is_event_of i e ≡ true
    → reply_count i (events ++ (e ∷ [])) ≡ counted e.body (reply_count i events)
unfolding reply_count
reply_count_own i [] e h = ground arith
reply_count_own i (d ∷ events) e h = ground (arith, reply_count_own i events e h)

-- Rows that agree on the two ids have one timeline.
pub same_timeline :
    (i j : Inquiry) (events : List InquiryEvent)
    → j.id ≡ i.id
    → j.tenant_id ≡ i.tenant_id
    → (timeline j events ≡ timeline i events) × (reply_count j events ≡ reply_count i events)
unfolding timeline reply_count
same_timeline i j events e f = (
  λ k.
      map (λ (x : InquiryEvent). x.body)
        (filter (λ x. text_eq x.tenant_id (f k) && text_eq x.inquiry_id (e k)) events),
  λ k. length (
      filter (λ x. (text_eq x.tenant_id (f k) && text_eq x.inquiry_id (e k)) && is_reply x.body)
        events),
)

pub own_event :
    (i j : Inquiry) (actor : Text) (body : EventBody)
    → j.id ≡ i.id
    → j.tenant_id ≡ i.tenant_id
    → is_event_of j (event_of i actor body) ≡ true
own_event i j actor body e f = rw (e, f, text_eq_refl i.tenant_id, text_eq_refl i.id) refl

-- The event of one inquiry is not of another.
pub other_event :
    (q i : Inquiry) (actor : Text) (body : EventBody)
    → text_eq q.id i.id ≡ false
    → is_event_of q (event_of i actor body) ≡ false
other_event q i actor body e = rw (text_eq_sym i.id q.id, e) (ground arith)

pub no_events :
    (i : Inquiry) (events : List InquiryEvent)
    → All (λ (e : InquiryEvent). text_eq e.inquiry_id i.id ≡ false) events
    → (timeline i events ≡ []) × (reply_count i events ≡ 0)
unfolding timeline reply_count
no_events i [] h = (refl, refl)
no_events i (e ∷ events) h =
    let rest = no_events i events h.1 in
    elim (Bool-cases (text_eq e.tenant_id i.tenant_id)) [
      | inl t ↦ rw (t, h.0) rest
      | inr t ↦ rw t rest
    ]
