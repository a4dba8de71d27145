-- ===== src/Inquiries/Timeline.antt =====
-- The life of an inquiry as a machine over its timeline, apart from the tables and the callers
-- (docs/01 §13): which event may follow, and where it leads.
use liviq.Base.{
  ℕ, ◌+◌, ◌≤◌, ◌≡◌, refl, Bool, true, false, not, Option, none, some, List, [], ◌∷◌, ◌++◌,
  if◌then◌else◌, ltb, Text, arith, is_some, Bool-cases, inl, inr,
}
use liviq.Inquiries.{
  InquiryStatus, received, assigned, in_progress, done, reopened, feedback, reply, EventBody,
  created, assigned_to, comment, status_changed, facility_linked, is_received, is_done, is_running,
}
use liviq.Inquiries.Handlers.{link_id}

-- What a timeline says of its inquiry.
pub record Ticket : Type 0 where
  pub status : InquiryStatus
  pub assignee : Option Text
  pub facility : Option Text
  pub replies : ℕ

pub data Progress : Type 0 where
  unopened : Progress
  open_as : Ticket → Progress
  illegal : Progress

-- The moves that are not made by an assignment.
abbrev pub may_change : InquiryStatus → InquiryStatus → ℕ → Bool
may_change assigned in_progress n = true
may_change in_progress done n = ltb 0 n
may_change reopened done n = ltb 0 n
may_change done reopened n = true
may_change _ _ n = false

abbrev pub same_status : InquiryStatus → InquiryStatus → Bool
same_status received received = true
same_status assigned assigned = true
same_status in_progress in_progress = true
same_status done done = true
same_status reopened reopened = true
same_status _ _ = false

abbrev pub allow : Bool → Ticket → Progress
allow b k = if b then open_as k else illegal

abbrev pub open_ticket : Ticket
open_ticket = record { status = received; assignee = none; facility = none; replies = 0 }

unfoldable pub advance : Progress → EventBody → Progress
advance unopened created = open_as open_ticket
advance (open_as k) (assigned_to a) =
    allow (not (is_done k.status))
      (record k { status = if is_received k.status then assigned else k.status; assignee = some a })
advance (open_as k) (comment feedback body) = allow (is_running k.status) k
advance (open_as k) (comment reply body) =
    if is_received k.status
    then illegal
    else allow (not (is_done k.status)) (record k { replies = k.replies + 1 })
advance (open_as k) (status_changed previous next) =
    if same_status previous k.status
    then allow (may_change k.status next k.replies) (record k { status = next })
    else illegal
advance (open_as k) (facility_linked f) = open_as (record k { facility = link_id f })
advance _ _ = illegal

unfoldable pub replay : Progress → List EventBody → Progress
replay p [] = p
replay p (e ∷ es) = replay (advance p e) es

pub replay-append :
    (p : Progress) (es : List EventBody) (e : EventBody)
    → replay p (es ++ (e ∷ [])) ≡ advance (replay p es) e
unfolding replay
replay-append p [] e = refl
replay-append p (d ∷ es) e = replay-append (advance p d) es e

-- What every legal timeline ensures: an inquiry that left `received` has an assignee, and one
-- that was ever done has a reply.
pub record IsSound (k : Ticket) : Type 0 where
  pub handled : is_received k.status ≡ false → is_some k.assignee ≡ true
  pub waiting : is_received k.status ≡ true → k.replies ≡ 0
  pub answered : is_done k.status ≡ true → 1 ≤ k.replies

abbrev pub IsSoundProgress : Progress → Type 0
IsSoundProgress (open_as k) = IsSound k
IsSoundProgress _ = Unit

allow-IsSound : (b : Bool) (k : Ticket) → (b ≡ true → IsSound k) → IsSoundProgress (allow b k)
allow-IsSound true k h = h refl
allow-IsSound false k h = tt

change-IsSound :
    (status next : InquiryStatus) (a f : Option Text) (n : ℕ)
    → (is_received status ≡ false → is_some a ≡ true)
    → may_change status next n ≡ true
    → IsSound (record { status = next; assignee = a; facility = f; replies = n })
change-IsSound assigned in_progress a f n h may = record {
  handled = λ e. h refl;
  waiting = λ e. cc;
  answered = λ e. cc;
}
change-IsSound in_progress done a f n h may = record {
  handled = λ e. h refl;
  waiting = λ e. cc;
  answered = λ e. ground arith;
}
change-IsSound reopened done a f n h may = record {
  handled = λ e. h refl;
  waiting = λ e. cc;
  answered = λ e. ground arith;
}
change-IsSound done reopened a f n h may = record {
  handled = λ e. h refl;
  waiting = λ e. cc;
  answered = λ e. cc;
}
change-IsSound _ _ a f n h may = cc

assign-IsSound :
    (status : InquiryStatus) (a : Text) (f : Option Text) (n : ℕ)
    → is_done status ≡ false
    → IsSound (record {
      status = if is_received status then assigned else status;
      assignee = some a;
      facility = f;
      replies = n;
    })
assign-IsSound received a f n h = record {
  handled = λ e. refl;
  waiting = λ e. cc;
  answered = λ e. cc;
}
assign-IsSound done a f n h = cc
assign-IsSound _ a f n h = record { handled = λ e. refl; waiting = λ e. cc; answered = λ e. cc }

pub advance-IsSound :
    (p : Progress) (e : EventBody) → IsSoundProgress p → IsSoundProgress (advance p e)
unfolding advance
advance-IsSound unopened created h = record {
  handled = λ e. cc;
  waiting = λ e. refl;
  answered = λ e. cc;
}
advance-IsSound (open_as k) (assigned_to a) h =
    allow-IsSound (not (is_done k.status)) _
      (λ e. assign-IsSound k.status a k.facility k.replies (ground arith))
advance-IsSound (open_as k) (comment feedback body) h =
    allow-IsSound (is_running k.status) k (λ e. h)
advance-IsSound (open_as k) (comment reply body) h = elim (Bool-cases (is_received k.status)) [
  | inl e ↦ rw e tt
  | inr e ↦ rw e (
      allow-IsSound (not (is_done k.status)) (record k { replies = k.replies + 1 })
        (λ g. record { handled = h.handled; waiting = λ w. cc; answered = λ d. omega arith }))
]
advance-IsSound (open_as k) (status_changed previous next) h =
    elim (Bool-cases (same_status previous k.status)) [
      | inl e ↦ rw e (
          allow-IsSound (may_change k.status next k.replies) _
            (change-IsSound k.status next k.assignee k.facility k.replies h.handled))
      | inr e ↦ rw e tt
    ]
advance-IsSound (open_as k) (facility_linked f) h = record {
  handled = h.handled;
  waiting = h.waiting;
  answered = h.answered;
}
advance-IsSound _ _ h = tt

pub replay-IsSound :
    (p : Progress) (es : List EventBody) → IsSoundProgress p → IsSoundProgress (replay p es)
unfolding replay
replay-IsSound p [] h = h
replay-IsSound p (e ∷ es) h = replay-IsSound (advance p e) es (advance-IsSound p e h)
