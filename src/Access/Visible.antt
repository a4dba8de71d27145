-- ===== src/Access/Visible.antt =====
-- `visibilities_for`: what a person's roles let the person see.
use liviq.Base.{
  ◌≡◌, ◌⊎◌, inl, inr, refl, sym, ◌∙◌, subst, Bool, false, ◌||◌, List, [], ◌∷◌, ◌++◌, if◌then◌else◌,
  Text, codes, text_eq, text_eq→eq, text_eq_sym, mem_text, arith, Bool-cases,
}
use liviq.Access.{
  role_visibilities, granted, visibilities_for, resident_visibilities, visibility_order,
}

-- Whether one of the roles is of the office.
abbrev pub is_office : List Text → Bool
is_office roles = mem_text (codes "MANAGER") roles || mem_text (codes "STAFF") roles

abbrev is_known : List Text → Bool
is_known roles = mem_text (codes "RESIDENT") roles || is_office roles

mem_text-append :
    (x : Text) (xs ys : List Text) → mem_text x (xs ++ ys) ≡ (mem_text x xs || mem_text x ys)
unfolding mem_text
mem_text-append x [] ys = refl
mem_text-append x (y ∷ xs) ys = ground (arith, mem_text-append x xs ys)

-- A role that the table names, or one that it does not.
role-cases :
    (role : Text)
    → (role ≡ codes "RESIDENT")
      ⊎ ((role ≡ codes "MANAGER")
          ⊎ ((role ≡ codes "STAFF")
              ⊎ ((text_eq role (codes "RESIDENT") ≡ false)
                  × ((text_eq role (codes "MANAGER") ≡ false)
                      × (text_eq role (codes "STAFF") ≡ false)))))
role-cases role = elim (Bool-cases (text_eq role (codes "RESIDENT"))) [
  | inl e ↦ inl (text_eq→eq role _ e)
  | inr e ↦ elim (Bool-cases (text_eq role (codes "MANAGER"))) [
    | inl f ↦ inr (inl (text_eq→eq role _ f))
    | inr f ↦ elim (Bool-cases (text_eq role (codes "STAFF"))) [
      | inl g ↦ inr (inr (inl (text_eq→eq role _ g)))
      | inr g ↦ inr (inr (inr (e, (f, g))))
    ]
  ]
]

-- The set `granted`, by the roles alone.
record IsByRole (roles : List Text) : Type 0 where
  all_of : mem_text (codes "ALL") (granted roles) ≡ is_known roles
  resident_of : mem_text (codes "RESIDENT") (granted roles) ≡ is_known roles
  admin_of : mem_text (codes "ADMIN") (granted roles) ≡ is_office roles

named-IsByRole :
    (roles : List Text)
    → IsByRole roles
    → IsByRole (codes "RESIDENT" ∷ roles)
      × IsByRole (codes "MANAGER" ∷ roles)
      × IsByRole (codes "STAFF" ∷ roles)
unfolding granted role_visibilities mem_text text_eq
named-IsByRole roles h = (
  record { all_of = refl; resident_of = refl; admin_of = h.admin_of },
  record { all_of = ground arith; resident_of = ground arith; admin_of = refl },
  record { all_of = ground arith; resident_of = ground arith; admin_of = ground arith },
)

unnamed-IsByRole :
    (role : Text) (roles : List Text)
    → text_eq role (codes "RESIDENT") ≡ false
    → text_eq role (codes "MANAGER") ≡ false
    → text_eq role (codes "STAFF") ≡ false
    → IsByRole roles
    → IsByRole (role ∷ roles)
unfolding granted role_visibilities mem_text
unnamed-IsByRole role roles e f g h =
    let e' = text_eq_sym (codes "RESIDENT") role ∙ e in
    let f' = text_eq_sym (codes "MANAGER") role ∙ f in
    let g' = text_eq_sym (codes "STAFF") role ∙ g in
    record {
      all_of = rw (e, f, g, e', f', g') h.all_of;
      resident_of = rw (e, f, g, e', f', g') h.resident_of;
      admin_of = rw (e, f, g, f', g') h.admin_of;
    }

granted-IsByRole : (roles : List Text) → IsByRole roles
unfolding granted mem_text
granted-IsByRole [] = record { all_of = refl; resident_of = refl; admin_of = refl }
granted-IsByRole (role ∷ roles) =
    let rest = granted-IsByRole roles in
    let named = named-IsByRole roles rest in
    elim (role-cases role) [
      | inl e ↦ subst (λ (r : Text). IsByRole (r ∷ roles)) (sym e) named.0
      | inr (inl e) ↦ subst (λ (r : Text). IsByRole (r ∷ roles)) (sym e) named.1
      | inr (inr (inl e)) ↦ subst (λ (r : Text). IsByRole (r ∷ roles)) (sym e) named.2
      | inr (inr (inr (e, (f, g)))) ↦ unnamed-IsByRole role roles e f g rest
    ]

-- A person sees what the office sees exactly when one of the roles is of the office, and what
-- every resident sees otherwise, whatever other roles there are.
pub visibilities_for_lem :
    (roles : List Text)
    → visibilities_for roles ≡ (if is_office roles then visibility_order else resident_visibilities)
unfolding visibilities_for
visibilities_for_lem roles =
    let h = granted-IsByRole roles in
    elim (Bool-cases (is_office roles)) [
      | inl o ↦ rw (h.all_of, h.resident_of, h.admin_of, o) (ground arith)
      | inr o ↦ rw (h.all_of, h.resident_of, h.admin_of, o) (ground arith)
    ]
