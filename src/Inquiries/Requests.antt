-- ===== src/Inquiries/Requests.antt =====
-- Every request changes the tables in one of the known ways, and not at all where it is refused.
use liviq.Base.{ℕ, ◌≡◌, refl, sym, Bool, true, false, ◌&&◌, Option, some, List, Text, subst}
use liviq.Access.{RequestContext, has_role, require_roles}
use liviq.Http.{Action, pure, modify, refuse_if, ◌>>=◌, ◌>>◌}
use liviq.Http.Rules.{
  if_rule, pure_rule, modify_rule, gets_rule, refuse_if_rule, or_refuse_rule, reads_rule,
}
use liviq.Inquiries.{
  Inquiry, assigned, in_progress, done, reopened, Priority, feedback, reply, assigned_to, comment,
  status_changed, facility_linked, Db, InquiryOut, first, is_assigned, is_id, find_inquiry, is_open,
}
use liviq.Inquiries.Handlers.{
  admin_roles, resident, with_inquiry, check_category, new_inquiry, create_inquiry,
  add_inquiry_feedback, reopen_inquiry, assign_inquiry, reply_inquiry, set_inquiry_priority,
  ack_inquiry, complete_inquiry, set_inquiry_category, FacilityLink, link_id, facility_roles,
  link_inquiry_facility,
}
use liviq.Inquiries.Timeline.{advance}
use liviq.Inquiries.Changes.{
  IsRow, first-IsRow, IsFresh, Change, nothing, opened, edited, told, moved, Effect, refused-Effect,
  ok-Effect,
}
use liviq.Inquiries.Moves.{
  find_inquiry_reads, require_roles_reads, feedback_advances, reopen_advances, ack_advances,
  complete_advances, linked_facility_reads, check_category_reads,
}

-- The caller's role and the row, then the rest of the request.
on_row :
    (roles : List Text) (ctx : RequestContext) (id : Text)
    (k : RequestContext → Inquiry → Action Db InquiryOut) (s : Db)
    → ((i : Inquiry) → IsRow i s.inquiries → Effect s (k ctx i s))
    → Effect s (with_inquiry roles ctx id k s)
unfolding with_inquiry
on_row roles ctx id k s next =
    reads_rule (Effect s) (λ x. (x ≡ ctx) × (has_role roles ctx ≡ true)) (require_roles roles ctx)
      (λ x. find_inquiry x.tenant_id id >>= k x) s (require_roles_reads roles ctx s)
      (refused-Effect s)
      (λ x same.
        subst (λ y. Effect s ((find_inquiry y.tenant_id id >>= k y) s)) (sym same.0)
          (reads_rule (Effect s) (λ i. first (is_open ctx.tenant_id id) s.inquiries ≡ some i)
            (find_inquiry ctx.tenant_id id) (k ctx) s (find_inquiry_reads ctx.tenant_id id s)
            (refused-Effect s)
            (λ i f. next i (first-IsRow (is_open ctx.tenant_id id) s.inquiries i f))))

module _ (ctx : RequestContext) (id : Text) (s : Db) where
  -- A guard of the request.
  guarded :
      (b : Bool) (status_code : ℕ) (detail : Text) (k : Action Db InquiryOut)
      → (b ≡ false → Effect s (k s))
      → Effect s ((refuse_if b status_code detail >> k) s)
  guarded b c d k next = refuse_if_rule (Effect s) b c d k s (refused-Effect s c d) next

  -- What a request does to the tables once its guards let it pass.
  one_write :
      (f : Db → Db) (out : InquiryOut) → Change s (f s) → Effect s ((modify f >> pure out) s)
  one_write f out h =
      modify_rule (Effect s) f _ s (pure_rule (Effect s) out (f s) (ok-Effect s _ out h))

  writes :
      (f g : Db → Db) (out : InquiryOut)
      → Change s (g (f s))
      → Effect s ((modify f >> (modify g >> pure out)) s)
  writes f g out h =
      modify_rule (Effect s) f _ s (
        modify_rule (Effect s) g _ (f s) (pure_rule (Effect s) out (g (f s)) (ok-Effect s _ out h)))

  three_writes :
      (f g h : Db → Db) (out : InquiryOut)
      → Change s (h (g (f s)))
      → Effect s ((modify f >> (modify g >> (modify h >> pure out))) s)
  three_writes f g h out c = modify_rule (Effect s) f _ s (
      modify_rule (Effect s) g _ (f s) (
        modify_rule (Effect s) h _ (g (f s))
          (pure_rule (Effect s) out (h (g (f s))) (ok-Effect s _ out c))))

  pub reply_inquiry-Effect : (body : Text) → Effect s (reply_inquiry ctx id body s)
  unfolding reply_inquiry advance
  reply_inquiry-Effect body = on_row admin_roles ctx id _ s λ i row. guarded _ _ _ _ λ _.
      guarded _ _ _ _ λ open_still. guarded _ _ _ _ λ given.
        writes _ _ _
          (told i ctx.user_id (comment reply body) row (rw (given, open_still) refl) refl refl)

  pub add_inquiry_feedback-Effect : (body : Text) → Effect s (add_inquiry_feedback ctx id body s)
  unfolding add_inquiry_feedback advance
  add_inquiry_feedback-Effect body = on_row resident ctx id _ s λ i row. guarded _ _ _ _ λ _.
      guarded _ _ _ _ λ running. writes _ _ _ (
        told i ctx.user_id (comment feedback body) row
          (feedback_advances i.status i.assignee_user_id i.facility_id _ body running) refl refl)

  pub reopen_inquiry-Effect : Effect s (reopen_inquiry ctx id s)
  unfolding reopen_inquiry
  reopen_inquiry-Effect = on_row resident ctx id _ s λ i row. guarded _ _ _ _ λ _.
      guarded _ _ _ _ λ finished. three_writes _ _ _ _ (
        moved i (record i { status = reopened }) ctx.user_id (status_changed done reopened)
          (record { row = row; same_id = refl; same_tenant = refl; rows = refl })
          (reopen_advances i.status i.assignee_user_id i.facility_id _ finished) refl)

  pub assign_inquiry-Effect : (assignee : Text) → Effect s (assign_inquiry ctx id assignee s)
  unfolding assign_inquiry advance
  assign_inquiry-Effect assignee = on_row admin_roles ctx id _ s λ i row.
      guarded _ _ _ _ λ open_still. gets_rule (Effect s) _ _ s (
        guarded _ _ _ _ λ _. three_writes _ _ _ _ (
          moved i _ ctx.user_id (assigned_to assignee)
            (record { row = row; same_id = refl; same_tenant = refl; rows = refl })
            (rw open_still refl) refl))

  pub set_inquiry_priority-Effect :
      (priority : Option Priority) → Effect s (set_inquiry_priority ctx id priority s)
  unfolding set_inquiry_priority
  set_inquiry_priority-Effect priority = on_row admin_roles ctx id _ s λ i row. guarded _ _ _ _ λ _.
      one_write _ _ (
        edited i (record i { priority = priority })
          (record { row = row; same_id = refl; same_tenant = refl; rows = refl }) refl refl)

  pub ack_inquiry-Effect : Effect s (ack_inquiry ctx id s)
  unfolding ack_inquiry
  ack_inquiry-Effect = on_row admin_roles ctx id _ s λ i row.
      if_rule (Effect s) (is_id i.assignee_user_id ctx.user_id && is_assigned i.status) _ _ s
        (λ mine. writes _ _ _ (
          moved i (record i { status = in_progress }) ctx.user_id
            (status_changed assigned in_progress)
            (record { row = row; same_id = refl; same_tenant = refl; rows = refl })
            (ack_advances i.status i.assignee_user_id i.facility_id _ ctx.user_id mine) refl))
        (λ _. pure_rule (Effect s) _ s (ok-Effect s s _ (nothing refl)))

  pub complete_inquiry-Effect : Effect s (complete_inquiry ctx id s)
  unfolding complete_inquiry
  complete_inquiry-Effect = on_row admin_roles ctx id _ s λ i row. guarded _ _ _ _ λ _.
      guarded _ _ _ _ λ _. guarded _ _ _ _ λ running. gets_rule (Effect s) _ _ s (
        guarded _ _ _ _ λ answered. three_writes _ _ _ _ (
          moved i (record i { status = done }) ctx.user_id (status_changed i.status done)
            (record { row = row; same_id = refl; same_tenant = refl; rows = refl })
            (complete_advances i.status i.assignee_user_id i.facility_id _ running answered) refl))

  category_checked :
      (tenant_id : Text) (category : Option Text) (k : Action Db InquiryOut)
      → Effect s (k s)
      → Effect s ((check_category tenant_id category >> k) s)
  category_checked tenant_id category k h =
      reads_rule (Effect s) (λ _. Unit) (check_category tenant_id category) _ s
        (check_category_reads tenant_id category s) (refused-Effect s) (λ _ _. h)

  pub set_inquiry_category-Effect :
      (category : Option Text) → Effect s (set_inquiry_category ctx id category s)
  unfolding set_inquiry_category
  set_inquiry_category-Effect category = on_row admin_roles ctx id _ s λ i row. guarded _ _ _ _ λ _.
      category_checked _ category _ (
        one_write _ _ (
          edited i (record i { category_code_id = category })
            (record { row = row; same_id = refl; same_tenant = refl; rows = refl }) refl refl))

  pub link_inquiry_facility-Effect :
      (link : FacilityLink) → Effect s (link_inquiry_facility ctx id link s)
  unfolding link_inquiry_facility advance
  link_inquiry_facility-Effect link = on_row facility_roles ctx id _ s λ i row.
      reads_rule (Effect s) (λ _. Unit) _ _ s (linked_facility_reads ctx.tenant_id link s)
        (refused-Effect s)
        (λ facility _. writes _ _ _ (
          moved i (record i { facility_id = link_id facility }) ctx.user_id
            (facility_linked facility)
            (record { row = row; same_id = refl; same_tenant = refl; rows = refl }) refl refl))

  pub create_inquiry-Effect :
      (now : ℕ) (title body : Text) (category : Option Text)
      → IsFresh id s
      → Effect s (create_inquiry ctx id now title body category s)
  unfolding create_inquiry
  create_inquiry-Effect now title body category fresh =
      reads_rule (Effect s) (λ x. (x ≡ ctx) × (has_role resident ctx ≡ true)) _ _ s
        (require_roles_reads resident ctx s) (refused-Effect s)
        (λ x _. gets_rule (Effect s) _ _ s (
          or_refuse_rule (Effect s) _ _ _ _ s (refused-Effect s _ _) λ household _.
            category_checked _ category _ (
              writes _ _ _ (
                opened (new_inquiry x id now household title body category) x.user_id fresh refl
                  refl refl))))
