-- ===== src/Inquiries/Handlers.antt =====
-- apps/api/app/routers/inquiries.py: the requests of residents and of the office.
use liviq.Base.{
  ℕ, ltb, Bool, false, ◌&&◌, not, Option, none, some, List, [], ◌∷◌, ◌++◌, any, if◌then◌else◌, Text,
  codes, text_eq, mem_text,
}
use liviq.Http.{Action, pure, gets, or_refuse, refuse_if, modify, ◌>>=◌, ◌>>◌}
use liviq.Access.{RequestContext, require_roles}
use liviq.Inquiries.{
  Inquiry, received, assigned, in_progress, done, reopened, Priority, feedback, reply, created,
  assigned_to, comment, status_changed, facility_linked, Facility, Db, InquiryOut, first,
  is_received, is_assigned, is_done, is_running, is_id, inquiry_out, put_inquiry, add_event,
  notify_author, notify_assignee, find_inquiry, guard_not_done, reply_count, validate_category_code,
}

abbrev pub admin_roles : List Text
admin_roles = codes "MANAGER" ∷ codes "STAFF" ∷ []

abbrev pub assignable_roles : List Text
assignable_roles = codes "MANAGER" ∷ codes "STAFF" ∷ []

abbrev pub facility_roles : List Text
facility_roles = codes "MANAGER" ∷ []

abbrev pub inquiry_category_group : Text
inquiry_category_group = codes "INQUIRY_CATEGORY"

abbrev pub resident : List Text
resident = codes "RESIDENT" ∷ []

-- A guard for an optional category.
abbrev pub check_category : Text → Option Text → Action Db (Unit {0})
check_category tenant_id none = pure tt
check_category tenant_id (some code_id) =
    validate_category_code tenant_id code_id inquiry_category_group

-- `inquiry.author_user_id != ctx.user_id`: the existence is not shown
abbrev pub guard_author : RequestContext → Inquiry → Action Db (Unit {0})
guard_author ctx i =
    refuse_if (not (text_eq i.author_user_id ctx.user_id)) 404 (codes "민원을 찾을 수 없음")

-- `inquiry.assignee_user_id != ctx.user_id and "MANAGER" not in ctx.roles`
abbrev pub guard_assignee : RequestContext → Inquiry → Text → Action Db (Unit {0})
guard_assignee ctx i detail =
    refuse_if
      (not (is_id i.assignee_user_id ctx.user_id) && not (mem_text (codes "MANAGER") ctx.roles)) 403
      detail

-- The new row; the database gives the id and the time.
abbrev pub new_inquiry : RequestContext → Text → ℕ → Text → Text → Text → Option Text → Inquiry
new_inquiry ctx new_id now household_id title body category_code_id = record {
  id = new_id;
  tenant_id = ctx.tenant_id;
  household_id = household_id;
  author_user_id = ctx.user_id;
  category_code_id = category_code_id;
  title = title;
  body = body;
  priority = none;
  status = received;
  assignee_user_id = none;
  facility_id = none;
  deleted = false;
  created_at = now;
}

abbrev pub add_inquiry : Inquiry → Db → Db
add_inquiry i s = record s { inquiries = s.inquiries ++ (i ∷ []) }

-- `select(User.household_id)`, which is also none where there is no user
unfoldable pub household_of : RequestContext → Db → Option Text
household_of ctx s =
    elim (first (λ u. text_eq u.id ctx.user_id && text_eq u.tenant_id ctx.tenant_id) s.users) [
      | none ↦ none
      | some u ↦ u.household_id
    ]

unfoldable pub create_inquiry :
    RequestContext → Text → ℕ → Text → Text → Option Text → Action Db InquiryOut
create_inquiry caller new_id now title body category_code_id = do
  ctx ← require_roles resident caller
  household ← gets (household_of ctx)
  household_id ← or_refuse household 422 (codes "세대 미배정 — 접수 불가")
  check_category ctx.tenant_id category_code_id
  let i = new_inquiry ctx new_id now household_id title body category_code_id
  modify (add_inquiry i)
  modify (add_event i (some ctx.user_id) created)
  pure (inquiry_out i none)

-- What every request to an inquiry begins with: the caller's role, and the row of the estate.
unfoldable pub with_inquiry :
    List Text
    → RequestContext
    → Text
    → (RequestContext → Inquiry → Action Db InquiryOut)
    → Action Db InquiryOut
with_inquiry roles caller inquiry_id request = do
  ctx ← require_roles roles caller
  i ← find_inquiry ctx.tenant_id inquiry_id
  request ctx i

unfoldable pub add_inquiry_feedback : RequestContext → Text → Text → Action Db InquiryOut
add_inquiry_feedback caller inquiry_id body = with_inquiry resident caller inquiry_id λ ctx i. do
  guard_author ctx i
  refuse_if (not (is_running i.status)) 422 (codes "처리중인 민원에만 피드백을 남길 수 있음")
  modify (add_event i (some ctx.user_id) (comment feedback body))
  modify (notify_assignee i (codes "담당 민원에 입주민 피드백이 등록되었습니다"))
  pure (inquiry_out i none)

unfoldable pub reopen_inquiry : RequestContext → Text → Action Db InquiryOut
reopen_inquiry caller inquiry_id = with_inquiry resident caller inquiry_id λ ctx i. do
  guard_author ctx i
  refuse_if (not (is_done i.status)) 422 (codes "완료된 민원만 재접수할 수 있음")
  let changed = record i { status = reopened }
  modify (put_inquiry changed)
  modify (add_event changed (some ctx.user_id) (status_changed done reopened))
  modify (notify_assignee changed (codes "담당 민원이 재접수되었습니다"))
  pure (inquiry_out changed none)

-- Whether a user of the estate has one of the roles that an inquiry may be assigned to.
unfoldable pub is_assignable : Text → Text → Db → Bool
is_assignable tenant_id user_id s =
    any
      (λ r.
        (text_eq r.tenant_id tenant_id && text_eq r.user_id user_id)
        && mem_text r.role assignable_roles)
      s.user_roles

unfoldable pub assign_inquiry : RequestContext → Text → Text → Action Db InquiryOut
assign_inquiry caller inquiry_id assignee = with_inquiry admin_roles caller inquiry_id λ ctx i. do
  guard_not_done i
  can ← gets (is_assignable ctx.tenant_id assignee)
  refuse_if (not can) 422 (codes "배정 불가 — 처리 역할이 아닌 사용자")
  let changed = record i {
    assignee_user_id = some assignee;
    status = if is_received i.status then assigned else i.status;
  }
  modify (put_inquiry changed)
  modify (add_event changed (some ctx.user_id) (assigned_to assignee))
  modify (notify_author changed (codes "민원 담당자가 배정되었습니다"))
  pure (inquiry_out changed none)

unfoldable pub reply_inquiry : RequestContext → Text → Text → Action Db InquiryOut
reply_inquiry caller inquiry_id body = with_inquiry admin_roles caller inquiry_id λ ctx i. do
  guard_assignee ctx i (codes "담당자 또는 소장만 답변할 수 있음")
  guard_not_done i
  refuse_if (is_received i.status) 422 (codes "배정 후 답변 가능")
  modify (add_event i (some ctx.user_id) (comment reply body))
  modify (notify_author i (codes "민원에 답변이 등록되었습니다"))
  pure (inquiry_out i none)

unfoldable pub set_inquiry_priority : RequestContext → Text → Option Priority → Action Db InquiryOut
set_inquiry_priority caller inquiry_id priority =
    with_inquiry admin_roles caller inquiry_id λ ctx i. do
      guard_not_done i
      let changed = record i { priority = priority }
      modify (put_inquiry changed)
      pure (inquiry_out changed none)

unfoldable pub ack_inquiry : RequestContext → Text → Action Db InquiryOut
ack_inquiry caller inquiry_id = with_inquiry admin_roles caller inquiry_id λ ctx i. do
  let changed = record i { status = in_progress }
  if is_id i.assignee_user_id ctx.user_id && is_assigned i.status
      then (do
        modify (put_inquiry changed)
        modify (add_event changed (some ctx.user_id) (status_changed assigned in_progress))
        pure (inquiry_out changed none))
      else pure (inquiry_out i none)

unfoldable pub complete_inquiry : RequestContext → Text → Action Db InquiryOut
complete_inquiry caller inquiry_id = with_inquiry admin_roles caller inquiry_id λ ctx i. do
  guard_assignee ctx i (codes "담당자 또는 소장만 완료할 수 있음")
  guard_not_done i
  refuse_if (not (is_running i.status)) 422 (codes "처리중인 민원만 완료할 수 있음")
  replies ← gets (λ s. reply_count i s.events)
  refuse_if (ltb replies 1) 422 (codes "답변 입력 후 완료 가능")
  let changed = record i { status = done }
  modify (put_inquiry changed)
  modify (add_event changed (some ctx.user_id) (status_changed i.status done))
  modify (notify_author changed (codes "민원이 완료 처리되었습니다"))
  pure (inquiry_out changed none)

unfoldable pub set_inquiry_category : RequestContext → Text → Option Text → Action Db InquiryOut
set_inquiry_category caller inquiry_id category_code_id =
    with_inquiry admin_roles caller inquiry_id λ ctx i. do
      guard_not_done i
      check_category ctx.tenant_id category_code_id
      let changed = record i { category_code_id = category_code_id }
      modify (put_inquiry changed)
      pure (inquiry_out changed none)

-- `FacilityLinkIn`, whose validator refuses two references
pub data FacilityLink : Type 0 where
  by_id by_code : Text → FacilityLink
  unlink : FacilityLink

-- `_get_linkable_facility`
unfoldable pub find_facility : Text → (Facility → Bool) → Action Db Facility
find_facility tenant_id matches s =
    or_refuse
      (first (λ f. matches f && (text_eq f.tenant_id tenant_id && not f.deleted)) s.facilities) 404
      (codes "시설을 찾을 수 없음") s

unfoldable pub linked_facility : Text → FacilityLink → Action Db (Option (Text × Text))
linked_facility tenant_id unlink = pure none
linked_facility tenant_id (by_id facility_id) = do
  f ← find_facility tenant_id (λ f. text_eq f.id facility_id)
  pure (some (f.id, f.name))
linked_facility tenant_id (by_code code) = do
  f ← find_facility tenant_id (λ f. is_id f.code code)
  pure (some (f.id, f.name))

abbrev pub link_id : Option (Text × Text) → Option Text
link_id none = none
link_id (some (id, name)) = some id

abbrev pub link_name : Option (Text × Text) → Option Text
link_name none = none
link_name (some (id, name)) = some name

unfoldable pub link_inquiry_facility : RequestContext → Text → FacilityLink → Action Db InquiryOut
link_inquiry_facility caller inquiry_id link =
    with_inquiry facility_roles caller inquiry_id λ ctx i. do
      facility ← linked_facility ctx.tenant_id link
      let changed = record i { facility_id = link_id facility }
      modify (put_inquiry changed)
      modify (add_event changed (some ctx.user_id) (facility_linked facility))
      pure (inquiry_out changed (link_name facility))
