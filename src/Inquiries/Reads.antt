-- ===== src/Inquiries/Reads.antt =====
-- apps/api/app/routers/inquiries.py: the requests that only read.
use liviq.Base.{
  Bool, true, ◌&&◌, not, Option, none, some, List, [], ◌∷◌, map, filter, any, ltb, Text, codes,
  text_eq,
}
use liviq.Base.Sort.{sorted}
use liviq.Http.{Action, Reply, ok, refused, crashed, pure, gets, refuse_if, ◌>>=◌, ◌>>◌}
use liviq.Access.{RequestContext, require_roles, has_role}
use liviq.Inquiries.{
  Inquiry, InquiryStatus, InquiryEvent, Db, InquiryOut, inquiry_out, is_id, find_inquiry,
}
use liviq.Inquiries.Handlers.{admin_roles, resident, inquiry_category_group}
use liviq.Inquiries.Timeline.{same_status}

-- `order_by(Inquiry.created_at.desc())`: the later row comes first
abbrev pub later : Inquiry → Inquiry → Bool
later i j = ltb j.created_at i.created_at

abbrev pub shown : List Inquiry → List InquiryOut
shown rows = map (λ i. inquiry_out i none) (sorted later rows)

unfoldable pub list_my_inquiries : RequestContext → Action Db (List InquiryOut)
list_my_inquiries caller = do
  ctx ← require_roles resident caller
  gets (λ s. shown (
      filter
        (λ i.
          text_eq i.tenant_id ctx.tenant_id
          && (text_eq i.author_user_id ctx.user_id && not i.deleted))
        s.inquiries))

-- `inquiry.author_user_id != ctx.user_id and not _is_admin(ctx)`
abbrev pub guard_reader : RequestContext → Inquiry → Action Db (Unit {0})
guard_reader ctx i =
    refuse_if (not (text_eq i.author_user_id ctx.user_id) && not (has_role admin_roles ctx)) 404
      (codes "민원을 찾을 수 없음")

unfoldable pub get_inquiry : RequestContext → Text → Action Db InquiryOut
get_inquiry ctx inquiry_id = do
  i ← find_inquiry ctx.tenant_id inquiry_id
  guard_reader ctx i
  pure (inquiry_out i none)

unfoldable pub list_inquiry_events : RequestContext → Text → Action Db (List InquiryEvent)
list_inquiry_events ctx inquiry_id = do
  i ← find_inquiry ctx.tenant_id inquiry_id
  guard_reader ctx i
  gets (λ s.
      filter (λ e. text_eq e.tenant_id ctx.tenant_id && text_eq e.inquiry_id inquiry_id) s.events)

abbrev pub fits_status : Option InquiryStatus → Inquiry → Bool
fits_status none i = true
fits_status (some status) i = same_status i.status status

abbrev pub fits_category : Option Text → Inquiry → Bool
fits_category none i = true
fits_category (some code_id) i = is_id i.category_code_id code_id

unfoldable pub list_admin_inquiries :
    RequestContext → Option InquiryStatus → Option Text → Action Db (List InquiryOut)
list_admin_inquiries caller status category_code_id = do
  ctx ← require_roles admin_roles caller
  gets (λ s. shown (
      filter
        (λ i.
          (text_eq i.tenant_id ctx.tenant_id && not i.deleted)
          && (fits_status status i && fits_category category_code_id i))
        s.inquiries))

-- The three ways to read inquiries.
pub data Query : Type 0 where
  mine : Query
  one : (inquiry_id : Text) → Query
  office : (status : Option InquiryStatus) (category_code_id : Option Text) → Query

-- The answer to one inquiry as a list of one.
abbrev pub listed : Reply InquiryOut → Reply (List InquiryOut)
listed (ok out) = ok (out ∷ [])
listed (refused status_code detail) = refused status_code detail
listed crashed = crashed

unfoldable pub read : RequestContext → Query → Action Db (List InquiryOut)
read ctx mine s = list_my_inquiries ctx s
read ctx (one inquiry_id) s = let (r, t) = get_inquiry ctx inquiry_id s in (listed r, t)
read ctx (office status category_code_id) s = list_admin_inquiries ctx status category_code_id s

-- The classes to choose from: the active codes of the group, in their order
unfoldable pub list_inquiry_categories : RequestContext → Action Db (List (Text × Text))
list_inquiry_categories ctx = gets λ s.
    map (λ c. (c.id, c.label))
      (sorted (λ c d. ltb c.sort_order d.sort_order)
        (filter
          (λ c.
            (text_eq c.tenant_id ctx.tenant_id && c.active)
            && any
                (λ g.
                  (text_eq c.group_id g.id && text_eq c.tenant_id g.tenant_id)
                  && text_eq g.group_key inquiry_category_group)
                s.code_groups)
          s.code_rows))
