-- ===== src/Inquiries.antt =====
-- apps/api/app/routers/inquiries.py: a resident's inquiry, from its receipt to its completion. The
-- tables are lists of rows, in the order of insertion; an id is its canonical text.
pub mod Handlers
pub mod Timeline
pub mod Changes
pub mod Moves
pub mod Requests
pub mod Events
pub mod Tracked
pub mod Reach
pub mod Reads
pub mod Views
use liviq.Base.{
  ℕ, ◌+◌, Bool, true, false, ◌&&◌, not, Option, none, some, List, [], ◌∷◌, ◌++◌, map, filter, any,
  length, if◌then◌else◌, Text, codes, text_eq,
}
use liviq.Http.{Action, or_refuse, refuse_if}

pub data InquiryStatus : Type 0 where
  received assigned in_progress done reopened : InquiryStatus

pub data Priority : Type 0 where
  urgent normal low : Priority

pub record Inquiry : Type 0 where
  pub id : Text
  pub tenant_id : Text
  pub household_id : Text
  pub author_user_id : Text
  pub category_code_id : Option Text
  pub title : Text
  pub body : Text
  pub priority : Option Priority
  pub status : InquiryStatus
  pub assignee_user_id : Option Text
  pub facility_id : Option Text
  -- whether `deleted_at` is set
  pub deleted : Bool
  pub created_at : ℕ

pub data CommentKind : Type 0 where
  feedback reply : CommentKind

-- The type of an event with its payload.
pub data EventBody : Type 0 where
  created : EventBody
  assigned_to : (assignee_user_id : Text) → EventBody
  comment : (kind : CommentKind) → (body : Text) → EventBody
  status_changed : (previous next : InquiryStatus) → EventBody
  facility_linked : (facility : Option (Text × Text)) → EventBody

pub record InquiryEvent : Type 0 where
  pub tenant_id : Text
  pub inquiry_id : Text
  pub actor_user_id : Option Text
  pub body : EventBody

pub record Notification : Type 0 where
  pub tenant_id : Text
  pub user_id : Text
  pub title : Text
  pub link : Text

pub record User : Type 0 where
  pub id : Text
  pub tenant_id : Text
  pub household_id : Option Text

pub record UserRole : Type 0 where
  pub tenant_id : Text
  pub user_id : Text
  pub role : Text

pub record Code : Type 0 where
  pub id : Text
  pub tenant_id : Text
  pub group_id : Text
  pub label : Text
  pub active : Bool
  pub sort_order : ℕ

pub record CodeGroup : Type 0 where
  pub id : Text
  pub tenant_id : Text
  pub group_key : Text

pub record Facility : Type 0 where
  pub id : Text
  pub tenant_id : Text
  pub code : Option Text
  pub name : Text
  pub deleted : Bool

pub record Db : Type 0 where
  pub inquiries : List Inquiry
  pub events : List InquiryEvent
  pub notifications : List Notification
  pub users : List User
  pub user_roles : List UserRole
  pub code_rows : List Code
  pub code_groups : List CodeGroup
  pub facilities : List Facility

pub record InquiryOut : Type 0 where
  pub id : Text
  pub title : Text
  pub body : Text
  pub status : InquiryStatus
  pub priority : Option Priority
  pub category_code_id : Option Text
  pub assignee_user_id : Option Text
  pub author_user_id : Text
  pub facility_id : Option Text
  pub facility_name : Option Text
  pub created_at : ℕ

-- `session.scalar(select(…).where(…))`
abbrev pub first : {A : Type 0} → (A → Bool) → List A → Option A
first p [] = none
first p (x ∷ xs) = if p x then some x else first p xs

abbrev pub is_received : InquiryStatus → Bool
is_received received = true
is_received _ = false

abbrev pub is_assigned : InquiryStatus → Bool
is_assigned assigned = true
is_assigned _ = false

abbrev pub is_done : InquiryStatus → Bool
is_done done = true
is_done _ = false

-- `status in ("in_progress", "reopened")`
abbrev pub is_running : InquiryStatus → Bool
is_running in_progress = true
is_running reopened = true
is_running _ = false

-- `x == y` for an optional id and an id
abbrev pub is_id : Option Text → Text → Bool
is_id none y = false
is_id (some x) y = text_eq x y

unfoldable pub inquiry_out : Inquiry → Option Text → InquiryOut
inquiry_out i facility_name = record {
  id = i.id;
  title = i.title;
  body = i.body;
  status = i.status;
  priority = i.priority;
  category_code_id = i.category_code_id;
  assignee_user_id = i.assignee_user_id;
  author_user_id = i.author_user_id;
  facility_id = i.facility_id;
  facility_name = facility_name;
  created_at = i.created_at;
}

-- The change of a row that is written back at the flush.
abbrev pub put_row : Inquiry → Inquiry → Inquiry
put_row i q = if text_eq q.id i.id then i else q

abbrev pub put_inquiry : Inquiry → Db → Db
put_inquiry i s = record s { inquiries = map (put_row i) s.inquiries }

abbrev pub add_event : Inquiry → Option Text → EventBody → Db → Db
add_event i actor_user_id body s = record s {
  events =
      s.events
      ++ (record {
        tenant_id = i.tenant_id;
        inquiry_id = i.id;
        actor_user_id = actor_user_id;
        body = body;
      }
          ∷ []);
}

abbrev pub notify_author : Inquiry → Text → Db → Db
notify_author i title s = record s {
  notifications =
      s.notifications
      ++ (record {
        tenant_id = i.tenant_id;
        user_id = i.author_user_id;
        title = title;
        link = codes "/inquiries/" ++ i.id;
      }
          ∷ []);
}

-- None where nobody is assigned
abbrev pub assignee_notes : Inquiry → Text → List Notification
assignee_notes i title = elim i.assignee_user_id [
  | none ↦ []
  | some assignee ↦
      record {
        tenant_id = i.tenant_id;
        user_id = assignee;
        title = title;
        link = codes "/admin/inquiries/" ++ i.id;
      }
      ∷ []
]

abbrev pub notify_assignee : Inquiry → Text → Db → Db
notify_assignee i title s = record s { notifications = s.notifications ++ assignee_notes i title }

-- The condition of `_get_inquiry`
unfoldable pub is_open : Text → Text → Inquiry → Bool
is_open tenant_id inquiry_id i =
    text_eq i.id inquiry_id && (text_eq i.tenant_id tenant_id && not i.deleted)

-- `_get_inquiry`
unfoldable pub find_inquiry : Text → Text → Action Db Inquiry
unfolding or_refuse
find_inquiry tenant_id inquiry_id s =
    or_refuse (first (is_open tenant_id inquiry_id) s.inquiries) 404 (codes "민원을 찾을 수 없음") s

abbrev pub guard_not_done : Inquiry → Action Db (Unit {0})
guard_not_done i = refuse_if (is_done i.status) 422 (codes "완료된 민원은 수정할 수 없음")

abbrev pub is_reply : EventBody → Bool
is_reply (comment reply body) = true
is_reply _ = false

-- Whether an event is one of an inquiry's timeline.
abbrev pub is_event_of : Inquiry → InquiryEvent → Bool
is_event_of i e = text_eq e.tenant_id i.tenant_id && text_eq e.inquiry_id i.id

-- `_reply_count`
unfoldable pub reply_count : Inquiry → List InquiryEvent → ℕ
reply_count i events = length (filter (λ e. is_event_of i e && is_reply e.body) events)

-- code_refs.py
unfoldable pub is_category_code : Text → Text → Text → Db → Bool
is_category_code tenant_id code_id group_key s =
    any
      (λ c.
        (text_eq c.id code_id && text_eq c.tenant_id tenant_id)
        && any
            (λ g.
              (text_eq c.group_id g.id && text_eq c.tenant_id g.tenant_id)
              && text_eq g.group_key group_key)
            s.code_groups)
      s.code_rows

abbrev pub validate_category_code : Text → Text → Text → Action Db (Unit {0})
validate_category_code tenant_id code_id group_key s =
    refuse_if (not (is_category_code tenant_id code_id group_key s)) 422
      (group_key ++ codes " 그룹의 코드가 아님") s
