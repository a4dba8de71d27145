-- ===== src/Inquiries/Moves.antt =====
-- The guards of the requests against the machine of the timeline, and the steps that only read.
use liviq.Base.{
  ℕ, ◌≡◌, ◌⊎◌, refl, true, false, ◌&&◌, not, Option, none, some, List, ◌++◌, ltb, Text, codes,
  text_eq, arith, Bool-cases, Option-cases, inl, inr,
}
use liviq.Access.{RequestContext, has_role, require_roles}
use liviq.Http.{pure, or_refuse, ok, refused, refuse_if, ◌>>=◌}
use liviq.Inquiries.{
  Inquiry, InquiryStatus, assigned, in_progress, done, reopened, feedback, comment, status_changed,
  Db, first, is_assigned, is_done, is_running, is_id, find_inquiry, is_open, is_category_code,
}
use liviq.Inquiries.Handlers.{
  check_category, inquiry_category_group, FacilityLink, by_id, by_code, unlink, find_facility,
  linked_facility,
}
use liviq.Inquiries.Timeline.{open_as, advance}

-- The moves of the machine that the guards of a request let through.
pub feedback_advances :
    (status : InquiryStatus) (a f : Option Text) (n : ℕ) (body : Text)
    → not (is_running status) ≡ false
    → advance
        (open_as (record { status = status; assignee = a; facility = f; replies = n }))
        (comment feedback body)
      ≡ open_as (record { status = status; assignee = a; facility = f; replies = n })
unfolding advance
feedback_advances in_progress a f n body h = refl
feedback_advances reopened a f n body h = refl
feedback_advances _ a f n body h = cc

pub reopen_advances :
    (status : InquiryStatus) (a f : Option Text) (n : ℕ)
    → not (is_done status) ≡ false
    → advance
        (open_as (record { status = status; assignee = a; facility = f; replies = n }))
        (status_changed done reopened)
      ≡ open_as (record { status = reopened; assignee = a; facility = f; replies = n })
unfolding advance
reopen_advances done a f n h = refl
reopen_advances _ a f n h = cc

pub ack_advances :
    (status : InquiryStatus) (a f : Option Text) (n : ℕ) (user : Text)
    → (is_id a user && is_assigned status) ≡ true
    → advance
        (open_as (record { status = status; assignee = a; facility = f; replies = n }))
        (status_changed assigned in_progress)
      ≡ open_as (record { status = in_progress; assignee = a; facility = f; replies = n })
unfolding advance
ack_advances assigned a f n user h = refl
ack_advances _ a f n user h = ground arith

pub complete_advances :
    (status : InquiryStatus) (a f : Option Text) (n : ℕ)
    → not (is_running status) ≡ false
    → ltb n 1 ≡ false
    → advance
        (open_as (record { status = status; assignee = a; facility = f; replies = n }))
        (status_changed status done)
      ≡ open_as (record { status = done; assignee = a; facility = f; replies = n })
unfolding advance
complete_advances in_progress a f n h g = ground arith
complete_advances reopened a f n h g = ground arith
complete_advances _ a f n h g = cc

pub linked_facility_reads :
    (tenant_id : Text) (link : FacilityLink) (s : Db)
    → ((c : ℕ) × (d : Text) × (linked_facility tenant_id link s ≡ (refused c d, s)))
      ⊎ ((f : Option (Text × Text)) × (linked_facility tenant_id link s ≡ (ok f, s)) × Unit {0})
unfolding linked_facility find_facility ◌>>=◌ or_refuse pure
linked_facility_reads tenant_id unlink s = inr (none, refl, tt)
linked_facility_reads tenant_id (by_id x) s =
    elim (Option-cases (
      first (λ f. text_eq f.id x && (text_eq f.tenant_id tenant_id && not f.deleted))
        s.facilities)) [
          | inl e ↦ inl (404, codes "시설을 찾을 수 없음", ground arith)
          | inr (f, e) ↦ inr (some (f.id, f.name), ground arith, tt)
        ]
linked_facility_reads tenant_id (by_code x) s =
    elim (Option-cases (
      first (λ f. is_id f.code x && (text_eq f.tenant_id tenant_id && not f.deleted))
        s.facilities)) [
          | inl e ↦ inl (404, codes "시설을 찾을 수 없음", ground arith)
          | inr (f, e) ↦ inr (some (f.id, f.name), ground arith, tt)
        ]

pub check_category_reads :
    (tenant_id : Text) (category : Option Text) (s : Db)
    → ((c : ℕ) × (d : Text) × (check_category tenant_id category s ≡ (refused c d, s)))
      ⊎ ((u : Unit {0}) × (check_category tenant_id category s ≡ (ok u, s)) × Unit {0})
unfolding refuse_if pure
check_category_reads tenant_id none s = inr (tt, refl, tt)
check_category_reads tenant_id (some code_id) s =
    elim (Bool-cases (is_category_code tenant_id code_id inquiry_category_group s)) [
      | inl e ↦ inr (tt, rw e refl, tt)
      | inr e ↦ inl (422, inquiry_category_group ++ codes " 그룹의 코드가 아님", rw e refl)
    ]

-- A caller's role and a row that is found, which every request to an inquiry begins with.
pub find_inquiry_reads :
    (tenant_id id : Text) (s : Db)
    → ((c : ℕ) × (d : Text) × (find_inquiry tenant_id id s ≡ (refused c d, s)))
      ⊎ ((i : Inquiry) × (find_inquiry tenant_id id s ≡ (ok i, s))
          × (first (is_open tenant_id id) s.inquiries ≡ some i))
unfolding find_inquiry or_refuse
find_inquiry_reads tenant_id id s = elim (Option-cases (first (is_open tenant_id id) s.inquiries)) [
  | inl f ↦ inl (404, codes "민원을 찾을 수 없음", rw f refl)
  | inr (i, f) ↦ inr (i, rw f refl, f)
]

pub require_roles_reads :
    {S : Type 0} (roles : List Text) (ctx : RequestContext) (s : S)
    → ((c : ℕ) × (d : Text) × (require_roles roles ctx s ≡ (refused c d, s)))
      ⊎ ((x : RequestContext) × (require_roles roles ctx s ≡ (ok x, s))
          × ((x ≡ ctx) × (has_role roles ctx ≡ true)))
unfolding require_roles ◌>>=◌ refuse_if pure
require_roles_reads roles ctx s = elim (Bool-cases (has_role roles ctx)) [
  | inl e ↦ inr (ctx, rw e refl, (refl, e))
  | inr e ↦ inl (403, codes "권한 없음", rw e refl)
]
