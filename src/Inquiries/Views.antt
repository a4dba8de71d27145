-- ===== src/Inquiries/Views.antt =====
-- What a person can read of the inquiries.
use liviq.Base.{
  ◌≡◌, refl, sym, Bool, true, false, ◌&&◌, ◌||◌, not, Option, none, some, List, [], ◌∷◌, map,
  filter, Text, text_eq, All, All-map_weaken, some_cancel, subst, Bool-cases, inl, inr, arith,
}
use liviq.Base.Sort.{All-sorted}
use liviq.Http.{Reply, ok, gets}
use liviq.Http.Rules.{pure_rule, refuse_if_rule, reads_rule}
use liviq.Access.{RequestContext, has_role}
use liviq.Inquiries.{Inquiry, InquiryStatus, Db, InquiryOut, inquiry_out, is_open, first}
use liviq.Inquiries.Handlers.{admin_roles, resident}
use liviq.Inquiries.Moves.{find_inquiry_reads, require_roles_reads}
use liviq.Inquiries.Reads.{
  later, shown, list_my_inquiries, get_inquiry, list_admin_inquiries, fits_status, fits_category,
  Query, mine, one, office, listed, read,
}

-- The row behind what is shown is of the reader's estate, not deleted, and the reader's own or
-- read by the office.
pub record IsReadable (ctx : RequestContext) (i : Inquiry) : Type 0 where
  pub own_estate : text_eq i.tenant_id ctx.tenant_id ≡ true
  pub kept : i.deleted ≡ false
  pub own_or_office : (text_eq i.author_user_id ctx.user_id || has_role admin_roles ctx) ≡ true

-- A row of the table.
pub data IsIn (i : Inquiry) : List Inquiry → Type 0 where
  here : {rows : List Inquiry} → IsIn i (i ∷ rows)
  there : {q : Inquiry} {rows : List Inquiry} → IsIn i rows → IsIn i (q ∷ rows)

abbrev pub IsRead : RequestContext → List Inquiry → Inquiry → Type 0
IsRead ctx rows i = IsIn i rows × IsReadable ctx i

-- What is shown stands for a row that the reader may read.
abbrev pub IsShownFrom : RequestContext → List Inquiry → InquiryOut → Type 0
IsShownFrom ctx rows out = (i : Inquiry) × IsRead ctx rows i × (out ≡ inquiry_out i none)

first-IsIn :
    (p : Inquiry → Bool) (rows : List Inquiry) (i : Inquiry)
    → first p rows ≡ some i
    → IsIn i rows × (p i ≡ true)
first-IsIn p [] i e = cc
first-IsIn p (q ∷ rows) i e = elim (Bool-cases (p q)) [
  | inl h ↦ subst (λ j. IsIn j (q ∷ rows) × (p j ≡ true)) (some_cancel (rw h at e)) (here, h)
  | inr h ↦ let (m, g) = first-IsIn p rows i (rw h at e) in (there m, g)
]

filter-IsIn :
    (p : Inquiry → Bool) (rows : List Inquiry)
    → All (λ i. IsIn i rows × (p i ≡ true)) (filter p rows)
filter-IsIn p [] = tt
filter-IsIn p (q ∷ rows) =
    let rest =
      All-map_weaken (λ i. IsIn i rows × (p i ≡ true)) (λ i. IsIn i (q ∷ rows) × (p i ≡ true))
        (filter p rows) (λ i h. (there h.0, h.1)) (filter-IsIn p rows) in
    elim (Bool-cases (p q)) [ inl e ↦ rw e ((here, e), rest) | inr e ↦ rw e rest ]

map_shown :
    (ctx : RequestContext) (rows xs : List Inquiry)
    → All (IsRead ctx rows) xs
    → All (IsShownFrom ctx rows) (map (λ i. inquiry_out i none) xs)
map_shown ctx rows [] h = tt
map_shown ctx rows (x ∷ xs) h = ((x, h.0, refl), map_shown ctx rows xs h.1)

-- A filter that lets only readable rows through.
filter-shown :
    (ctx : RequestContext) (p : Inquiry → Bool) (rows : List Inquiry)
    → ((i : Inquiry) → p i ≡ true → IsReadable ctx i)
    → All (IsShownFrom ctx rows) (shown (filter p rows))
filter-shown ctx p rows f = map_shown ctx rows _ (
    All-sorted later (IsRead ctx rows) (filter p rows) (
      All-map_weaken (λ i. IsIn i rows × (p i ≡ true)) (IsRead ctx rows) (filter p rows)
        (λ i h. (h.0, f i h.1)) (filter-IsIn p rows)))

mine-IsReadable :
    (ctx : RequestContext) (i : Inquiry)
    → (text_eq i.tenant_id ctx.tenant_id && (text_eq i.author_user_id ctx.user_id && not i.deleted))
      ≡ true
    → IsReadable ctx i
mine-IsReadable ctx i h = ground arith

office-IsReadable :
    (ctx : RequestContext) (i : Inquiry) (b : Bool)
    → has_role admin_roles ctx ≡ true
    → ((text_eq i.tenant_id ctx.tenant_id && not i.deleted) && b) ≡ true
    → IsReadable ctx i
office-IsReadable ctx i b r h = ground arith

one-IsReadable :
    (ctx : RequestContext) (id : Text) (i : Inquiry)
    → is_open ctx.tenant_id id i ≡ true
    → (not (text_eq i.author_user_id ctx.user_id) && not (has_role admin_roles ctx)) ≡ false
    → IsReadable ctx i
unfolding is_open
one-IsReadable ctx id i h g = ground arith

-- What an answer shows.
abbrev pub ShowsReadable : RequestContext → List Inquiry → Reply (List InquiryOut) → Type 0
ShowsReadable ctx rows (ok outs) = All (IsShownFrom ctx rows) outs
ShowsReadable ctx rows _ = Unit

module _ (ctx : RequestContext) (s : Db) where
  mine_shows : ShowsReadable ctx s.inquiries (list_my_inquiries ctx s).0
  unfolding list_my_inquiries gets
  mine_shows =
      reads_rule (λ x. ShowsReadable ctx s.inquiries x.0)
        (λ x. (x ≡ ctx) × (has_role resident ctx ≡ true)) _ _ s (require_roles_reads resident ctx s)
        (λ c d. tt)
        (λ x same.
          subst
            (λ y. ShowsReadable ctx s.inquiries (
              ok (
                shown (
                  filter
                    (λ i.
                      text_eq i.tenant_id y.tenant_id
                      && (text_eq i.author_user_id y.user_id && not i.deleted))
                    s.inquiries))))
            (sym same.0) (filter-shown ctx _ s.inquiries (mine-IsReadable ctx)))

  office_shows :
      (status : Option InquiryStatus) (code_id : Option Text)
      → ShowsReadable ctx s.inquiries (list_admin_inquiries ctx status code_id s).0
  unfolding list_admin_inquiries gets
  office_shows status code_id =
      reads_rule (λ x. ShowsReadable ctx s.inquiries x.0)
        (λ x. (x ≡ ctx) × (has_role admin_roles ctx ≡ true)) _ _ s
        (require_roles_reads admin_roles ctx s) (λ c d. tt)
        (λ x same.
          subst
            (λ y. ShowsReadable ctx s.inquiries (
              ok (
                shown (
                  filter
                    (λ i.
                      (text_eq i.tenant_id y.tenant_id && not i.deleted)
                      && (fits_status status i && fits_category code_id i))
                    s.inquiries))))
            (sym same.0)
            (filter-shown ctx _ s.inquiries (λ i h. office-IsReadable ctx i _ same.1 h)))

  one_shows : (id : Text) → ShowsReadable ctx s.inquiries (listed (get_inquiry ctx id s).0)
  unfolding get_inquiry
  one_shows id =
      reads_rule (λ x. ShowsReadable ctx s.inquiries (listed x.0))
        (λ i. first (is_open ctx.tenant_id id) s.inquiries ≡ some i) _ _ s
        (find_inquiry_reads ctx.tenant_id id s) (λ c d. tt)
        (λ i found.
          let (m, o) = first-IsIn (is_open ctx.tenant_id id) s.inquiries i found in
          refuse_if_rule (λ x. ShowsReadable ctx s.inquiries (listed x.0)) _ _ _ _ s tt
            (λ passed.
              pure_rule (λ x. ShowsReadable ctx s.inquiries (listed x.0)) _ s
                ((i, (m, one-IsReadable ctx id i o passed), refl), tt)))

-- Whatever a person asks to read, in a list or by an id, each inquiry shown is a row of the
-- person's own estate that is not deleted, and the person wrote it or belongs to the office.
pub read-IsReadable :
    (ctx : RequestContext) (q : Query) (s : Db) (outs : List InquiryOut)
    → (read ctx q s).0 ≡ ok outs
    → All (IsShownFrom ctx s.inquiries) outs
unfolding read
read-IsReadable ctx mine s outs e = subst (ShowsReadable ctx s.inquiries) e (mine_shows ctx s)
read-IsReadable ctx (one id) s outs e = subst (ShowsReadable ctx s.inquiries) e (one_shows ctx s id)
read-IsReadable ctx (office status code_id) s outs e =
    subst (ShowsReadable ctx s.inquiries) e (office_shows ctx s status code_id)
