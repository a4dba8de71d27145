-- ===== src/Inquiries/Reach.antt =====
-- Every state of the tables that requests lead to: the rows are what their timelines say, whoever
-- calls, in whatever order, whatever else changes beside them.
use liviq.Base.{ℕ, ◌≡◌, subst, false, Option, [], Text, All, All-map_weaken}
use liviq.Access.{RequestContext}
use liviq.Http.{Action, is_ok}
use liviq.Inquiries.{Inquiry, Priority, Db, InquiryOut, reply_count}
use liviq.Inquiries.Handlers.{
  create_inquiry, add_inquiry_feedback, reopen_inquiry, assign_inquiry, reply_inquiry,
  set_inquiry_priority, ack_inquiry, complete_inquiry, set_inquiry_category, FacilityLink,
  link_inquiry_facility,
}
use liviq.Inquiries.Timeline.{unopened, IsSound, IsSoundProgress, replay-IsSound}
use liviq.Inquiries.Changes.{IsFresh, Effect, ticket_of}
use liviq.Inquiries.Requests.{
  create_inquiry-Effect, add_inquiry_feedback-Effect, reopen_inquiry-Effect, assign_inquiry-Effect,
  reply_inquiry-Effect, set_inquiry_priority-Effect, ack_inquiry-Effect, complete_inquiry-Effect,
  set_inquiry_category-Effect, link_inquiry_facility-Effect,
}
use liviq.Inquiries.Events.{timeline, IsTracked}
use liviq.Inquiries.Tracked.{Change-AllTracked}

-- A request that may change the tables; the database gives a new inquiry its id and its time.
pub data Request : Type 0 where
  creates : (new_id : Text) (now : ℕ) (title body : Text) (category : Option Text) → Request
  feeds_back replies : (inquiry_id body : Text) → Request
  reopens acks completes : (inquiry_id : Text) → Request
  assigns : (inquiry_id assignee : Text) → Request
  sets_priority : (inquiry_id : Text) (priority : Option Priority) → Request
  sets_category : (inquiry_id : Text) (category : Option Text) → Request
  links : (inquiry_id : Text) (link : FacilityLink) → Request

abbrev pub handle : RequestContext → Request → Action Db InquiryOut
handle ctx (creates id now title body category) = create_inquiry ctx id now title body category
handle ctx (feeds_back id body) = add_inquiry_feedback ctx id body
handle ctx (replies id body) = reply_inquiry ctx id body
handle ctx (reopens id) = reopen_inquiry ctx id
handle ctx (acks id) = ack_inquiry ctx id
handle ctx (completes id) = complete_inquiry ctx id
handle ctx (assigns id assignee) = assign_inquiry ctx id assignee
handle ctx (sets_priority id priority) = set_inquiry_priority ctx id priority
handle ctx (sets_category id category) = set_inquiry_category ctx id category
handle ctx (links id link) = link_inquiry_facility ctx id link

-- The database gives an id that is not in use.
abbrev pub IsGiven : Request → Db → Type 0
IsGiven (creates id now title body category) s = IsFresh id s
IsGiven _ s = Unit

handle-Effect :
    (ctx : RequestContext) (r : Request) (s : Db) → IsGiven r s → Effect s (handle ctx r s)
handle-Effect ctx (creates id now title body category) s fresh =
    create_inquiry-Effect ctx id s now title body category fresh
handle-Effect ctx (feeds_back id body) s _ = add_inquiry_feedback-Effect ctx id s body
handle-Effect ctx (replies id body) s _ = reply_inquiry-Effect ctx id s body
handle-Effect ctx (reopens id) s _ = reopen_inquiry-Effect ctx id s
handle-Effect ctx (acks id) s _ = ack_inquiry-Effect ctx id s
handle-Effect ctx (completes id) s _ = complete_inquiry-Effect ctx id s
handle-Effect ctx (assigns id assignee) s _ = assign_inquiry-Effect ctx id s assignee
handle-Effect ctx (sets_priority id priority) s _ = set_inquiry_priority-Effect ctx id s priority
handle-Effect ctx (sets_category id category) s _ = set_inquiry_category-Effect ctx id s category
handle-Effect ctx (links id link) s _ = link_inquiry_facility-Effect ctx id s link

-- The states that requests lead to from empty tables; what others do leaves the two tables alone.
pub data Reach : Db → Type 0 where
  start : (s : Db) → s.inquiries ≡ [] → s.events ≡ [] → Reach s
  asked :
      (s : Db) (ctx : RequestContext) (r : Request)
      → Reach s
      → IsGiven r s
      → Reach (handle ctx r s).1
  beside : (s t : Db) → Reach s → t.inquiries ≡ s.inquiries → t.events ≡ s.events → Reach t

-- In every state that requests lead to, each row of the table has the status, the assignee and the
-- facility that the replay of its own timeline gives, and the replay is legal to the end.
pub Reach-IsTracked : (s : Db) → Reach s → All (IsTracked s.events) s.inquiries
Reach-IsTracked s (start _ e f) = rw e tt
Reach-IsTracked _ (asked s ctx r reach given) =
    Change-AllTracked s (handle ctx r s).1 (handle-Effect ctx r s given).change
      (Reach-IsTracked s reach)
Reach-IsTracked t (beside s _ reach e f) = rw (e, f) (Reach-IsTracked s reach)

-- In every state that requests lead to, each inquiry that left `received` has an assignee, each
-- that is still `received` has no reply, and each that is `done` has a reply at least.
pub Reach-IsSound :
    (s : Db)
    → Reach s
    → All (λ (i : Inquiry). IsSound (ticket_of i (reply_count i s.events))) s.inquiries
unfolding IsTracked
Reach-IsSound s reach =
    All-map_weaken (IsTracked s.events) _ s.inquiries
      (λ i e. subst IsSoundProgress e (replay-IsSound unopened (timeline i s.events) tt))
      (Reach-IsTracked s reach)

-- A request that is not answered with success leaves all tables as they were.
pub handle_refused :
    (ctx : RequestContext) (r : Request) (s : Db)
    → IsGiven r s
    → is_ok (handle ctx r s).0 ≡ false
    → (handle ctx r s).1 ≡ s
handle_refused ctx r s given e = (handle-Effect ctx r s given).refusal e
