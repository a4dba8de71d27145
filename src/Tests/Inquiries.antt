-- ===== src/Tests/Inquiries.antt =====
-- An estate with a resident, a clerk and a manager, and an inquiry that goes from its receipt to its
-- completion.
use liviq.Base.{
  ◌≡◌, refl, false, none, some, List, [], ◌∷◌, Text, codes, All, map, mem_text, text_eq,
}
use liviq.Base.Sort.{sorted}
use liviq.Http.{ok, is_ok, ◌>>=◌, pure, refuse_if, or_refuse, gets, modify}
use liviq.Access.{RequestContext, require_roles, has_role}
use liviq.Inquiries.{
  Inquiry, received, done, InquiryStatus, Db, inquiry_out, reply_count, find_inquiry, is_open,
}
use liviq.Inquiries.Handlers.{
  create_inquiry, assign_inquiry, ack_inquiry, reply_inquiry, complete_inquiry, with_inquiry,
  household_of, is_assignable,
}
use liviq.Inquiries.Timeline.{IsSound}
use liviq.Inquiries.Changes.{ticket_of}
use liviq.Inquiries.Events.{IsTracked}
use liviq.Inquiries.Reach.{
  Request, creates, replies, acks, completes, assigns, handle, Reach, start, asked, Reach-IsTracked,
  Reach-IsSound, handle_refused,
}
use liviq.Inquiries.Reads.{mine, read, list_my_inquiries}
use liviq.Inquiries.Views.{IsShownFrom, read-IsReadable}

abbrev estate : Text
estate = codes "t1"

abbrev person : Text → List Text → RequestContext
person id roles = record { tenant_id = estate; user_id = id; roles = roles; visibilities = [] }

abbrev resident_ctx : RequestContext
resident_ctx = person (codes "u1") (codes "RESIDENT" ∷ [])

abbrev clerk_ctx : RequestContext
clerk_ctx = person (codes "u2") (codes "STAFF" ∷ [])

abbrev before : Db
before = record {
  inquiries = [];
  events = [];
  notifications = [];
  users = record { id = codes "u1"; tenant_id = estate; household_id = some (codes "h1") } ∷ [];
  user_roles = record { tenant_id = estate; user_id = codes "u2"; role = codes "STAFF" } ∷ [];
  code_rows = [];
  code_groups = [];
  facilities = [];
}

abbrev after : RequestContext → Request → Db → Db
after ctx r s = (handle ctx r s).1

abbrev opening : Request
opening = creates (codes "i1") 7 (codes "leak") (codes "water") none

abbrev opened_db : Db
opened_db = after resident_ctx opening before

abbrev acked_db : Db
acked_db =
    after clerk_ctx (acks (codes "i1"))
      (after clerk_ctx (assigns (codes "i1") (codes "u2")) opened_db)

abbrev finished : Db
finished =
    after clerk_ctx (completes (codes "i1"))
      (after clerk_ctx (replies (codes "i1") (codes "fixed")) acked_db)

finished-Reach : Reach finished
finished-Reach =
    asked _ clerk_ctx (completes (codes "i1"))
      (asked _ clerk_ctx (replies (codes "i1") (codes "fixed"))
        (asked _ clerk_ctx (acks (codes "i1"))
          (asked _ clerk_ctx (assigns (codes "i1") (codes "u2"))
            (asked before resident_ctx opening (start before refl refl)
              (record { no_row = tt; no_event = tt }))
            tt)
          tt)
        tt)
      tt

abbrev statuses : Db → List InquiryStatus
statuses s = map (λ (i : Inquiry). i.status) s.inquiries

-- The inquiry is done behind the five requests.
finished_done : statuses finished ≡ done ∷ []
unfolding create_inquiry assign_inquiry ack_inquiry reply_inquiry complete_inquiry with_inquiry
    require_roles has_role find_inquiry is_open household_of is_assignable reply_count ◌>>=◌ pure
    refuse_if or_refuse gets modify mem_text text_eq
finished_done = refl

Reach-IsTracked_example : All (IsTracked finished.events) finished.inquiries
Reach-IsTracked_example = Reach-IsTracked finished finished-Reach

Reach-IsSound_example :
    All (λ (i : Inquiry). IsSound (ticket_of i (reply_count i finished.events))) finished.inquiries
Reach-IsSound_example = Reach-IsSound finished finished-Reach

-- The clerk cannot complete an inquiry that has no reply.
too_early : is_ok (handle clerk_ctx (completes (codes "i1")) acked_db).0 ≡ false
unfolding create_inquiry assign_inquiry ack_inquiry complete_inquiry with_inquiry require_roles
    has_role find_inquiry is_open household_of is_assignable reply_count ◌>>=◌ pure refuse_if
    or_refuse gets modify mem_text text_eq
too_early = refl

handle_refused_example : (handle clerk_ctx (completes (codes "i1")) acked_db).1 ≡ acked_db
handle_refused_example = handle_refused clerk_ctx (completes (codes "i1")) acked_db tt too_early

abbrev opened_row : Inquiry
opened_row = record {
  id = codes "i1";
  tenant_id = estate;
  household_id = codes "h1";
  author_user_id = codes "u1";
  category_code_id = none;
  title = codes "leak";
  body = codes "water";
  priority = none;
  status = received;
  assignee_user_id = none;
  facility_id = none;
  deleted = false;
  created_at = 7;
}

mine_read : (read resident_ctx mine opened_db).0 ≡ ok (inquiry_out opened_row none ∷ [])
unfolding read list_my_inquiries create_inquiry require_roles has_role household_of ◌>>=◌ pure
    refuse_if or_refuse gets modify mem_text text_eq sorted
mine_read = refl

read-IsReadable_example :
    All (IsShownFrom resident_ctx opened_db.inquiries) (inquiry_out opened_row none ∷ [])
read-IsReadable_example = read-IsReadable resident_ctx mine opened_db _ mine_read
