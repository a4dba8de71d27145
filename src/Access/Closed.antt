-- ===== src/Access/Closed.antt =====
-- Who gets a context: the sessions of `app/session.py` behind the check of each request.
use liviq.Base.{
  ℕ, ◌+◌, ◌≡◌, inl, inr, sym, ap, ◌∙◌, Bool, true, false, Option, none, some, List, Text, codes,
  text_eq, leb, subst, some_cancel, Bool-cases, Option-cases,
}
use liviq.Http.{ok, refused, crashed}
use liviq.Session.{
  Payload, Redis, RedisLaws, SessionData, data_of, session_key, get_session, revoke_all_for_user,
}
use liviq.Session.Ends.{get_reads_live}
use liviq.Session.Lifetime.{Operation, run}
use liviq.Session.Logout.{revoke_all_for_user-ends, revoked_entry}
use liviq.Access.{RequestContext, visibilities_for, given, session_context, session_of, get_context}

-- A context that comes from a session: an active one, whose password need not be changed.
pub record IsOfSession (parse_uuid : Text → Option Text) (found : SessionData)
    (ctx : RequestContext) : Type 0 where
  pub may_act : found.must_change_password ≡ false
  pub active : text_eq found.status (codes "active") ≡ true
  pub tenant : parse_uuid found.tenant_id ≡ some ctx.tenant_id
  pub user : parse_uuid found.user_id ≡ some ctx.user_id
  pub roles : ctx.roles ≡ found.roles
  pub visibilities : ctx.visibilities ≡ visibilities_for found.roles

none≢some : {A : Type 0} {a : A} → none ≡ some a → ⊥
none≢some e = cc

ok_cancel : {A : Type 0} {a b : A} → ok a ≡ ok b → a ≡ b
ok_cancel e = cc

crashed≢ok : {A : Type 0} {a : A} → crashed ≡ ok a → ⊥
crashed≢ok e = cc

refused≢ok : {A : Type 0} {a : A} {c : ℕ} {d : Text} → refused c d ≡ ok a → ⊥
refused≢ok e = cc

session_context-IsOfSession :
    (parse_uuid : Text → Option Text) (found : SessionData) (ctx : RequestContext)
    → session_context parse_uuid found ≡ ok ctx
    → IsOfSession parse_uuid found ctx
unfolding session_context
session_context-IsOfSession parse_uuid found ctx e = elim (Bool-cases found.must_change_password) [
  | inl m ↦ absurd (refused≢ok (rw m at e))
  | inr m ↦ elim (Bool-cases (text_eq found.status (codes "active"))) [
    | inr a ↦ absurd (refused≢ok (rw (m, a) at e))
    | inl a ↦ elim (Option-cases (parse_uuid found.tenant_id)) [
      | inl t ↦ absurd (crashed≢ok (rw (m, a, t) at e))
      | inr (tenant, t) ↦ elim (Option-cases (parse_uuid found.user_id)) [
        | inl u ↦ absurd (crashed≢ok (rw (m, a, t, u) at e))
        | inr (user, u) ↦
            let same = ok_cancel (rw (m, a, t, u) at e) in
            record {
              may_act = m;
              active = a;
              tenant = t ∙ ap (λ (c : RequestContext). some c.tenant_id) same;
              user = u ∙ ap (λ (c : RequestContext). some c.user_id) same;
              roles = sym (ap (λ (c : RequestContext). c.roles) same);
              visibilities = sym (ap (λ (c : RequestContext). c.visibilities) same);
            }
      ]
    ]
  ]
]

module _ (redis : Redis) (parse_uuid : Text → Option Text) where
  open redis use {S}

  -- Outside a local environment a context is given for a session that `get` finds, while Redis
  -- answers, and for nothing else; the session is active, its password need not be changed, and the
  -- context has its ids, roles and visibilities.
  pub get_context-IsOfSession :
      (reachable : Bool) (now : ℕ) (cookie x_tenant x_user : Option Text) (s : S)
      (ctx : RequestContext)
      → (get_context redis parse_uuid false reachable now cookie x_tenant x_user s).0 ≡ ok ctx
      → (session_id : Text) × (found : SessionData) × (given cookie ≡ some session_id)
        × (reachable ≡ true)
        × ((get_session redis now session_id s).0 ≡ some found)
        × IsOfSession parse_uuid found ctx
  unfolding get_context session_of
  get_context-IsOfSession reachable now cookie x_tenant x_user s ctx e =
      elim (Option-cases (given cookie)) [
        | inl c ↦ absurd (refused≢ok (rw (c, get_context) at e))
        | inr (session_id, c) ↦ elim (Bool-cases reachable) [
          | inr r ↦ absurd (refused≢ok (rw (c, r, get_context) at e))
          | inl r ↦ elim (Option-cases (get_session redis now session_id s).0) [
            | inl f ↦ absurd (refused≢ok (rw (c, r, f, get_context, session_of) at e))
            | inr (found, f) ↦ (
              session_id,
              found,
              c,
              r,
              f,
              session_context-IsOfSession parse_uuid found ctx
                  (rw (c, r, f, get_context, session_of) at e),
            )
          ]
        ]
      ]

  -- What is found of a session stands in the store.
  get_session-entry :
      (laws : RedisLaws redis) (now : ℕ) (i : Text) (s : S) (found : SessionData)
      → (get_session redis now i s).0 ≡ some found
      → (p : Payload) × (d : ℕ) × (redis.entry s (session_key i) ≡ some (p, d))
        × (data_of p ≡ found)
  unfolding get_session
  get_session-entry laws now i s found e = elim (Option-cases (redis.get now (session_key i) s)) [
    | inl f ↦ absurd (none≢some (rw (f, get_session) at e))
    | inr (p, f) ↦ elim (Bool-cases (leb p.expires_at now)) [
      | inl over ↦ absurd (none≢some (rw (f, over, get_session) at e))
      | inr within ↦
          let (d, at, alive) = get_reads_live redis laws now (session_key i) s p f in
          (p, d, at, some_cancel (rw (f, within, get_session) at e))
    ]
  ]

  -- Under the documented laws of Redis, from a store without entries, through any operations:
  -- once the sessions of a user are revoked, a cookie whose session was found for that user until
  -- then gives no context outside a local environment, however long afterwards.
  pub get_context-revoked :
      (laws : RedisLaws redis) (empty : S) (ops : List (ℕ × Operation)) (wait : ℕ) (i : Text)
      (own : SessionData) (reachable : Bool) (cookie x_tenant x_user : Option Text)
      (ctx : RequestContext)
      → ((k : Text) → redis.entry empty k ≡ none)
      → (get_session redis (run redis 0 empty ops).0 i (run redis 0 empty ops).1).0 ≡ some own
      → given cookie ≡ some i
      → ¬ (
          (get_context redis parse_uuid false reachable
            ((run redis 0 empty ops).0 + wait)
            cookie
            x_tenant
            x_user
            (revoke_all_for_user redis
              (run redis 0 empty ops).0
              own.tenant_id
              own.user_id
              (run redis 0 empty ops).1)).0
          ≡ ok ctx)
  get_context-revoked laws empty ops wait i own reachable cookie x_tenant x_user ctx clear before c
        e =
      let now = (run redis 0 empty ops).0 in
      let s = (run redis 0 empty ops).1 in
      let after = revoke_all_for_user redis now own.tenant_id own.user_id s in
      let (j, found, c', r, f, h) =
        get_context-IsOfSession reachable (now + wait) cookie x_tenant x_user after ctx e in
      let same_id : j ≡ i = some_cancel (sym c' ∙ c) in
      let later : (get_session redis (now + wait) i after).0 ≡ some found =
        subst (λ k. (get_session redis (now + wait) k after).0 ≡ some found) same_id f in
      let (p, d, at, is_own) = get_session-entry laws now i s own before in
      let (p', d', at', is_found) = get_session-entry laws (now + wait) i after found later in
      let (out, stood) = revoked_entry redis laws now own.tenant_id own.user_id s i p' d' at' in
      let same : own ≡ found =
        sym is_own
        ∙ ap (λ (x : Payload × ℕ). data_of x.0) (some_cancel (sym at ∙ stood))
        ∙ is_found in
      revoke_all_for_user-ends redis laws empty ops own.tenant_id own.user_id wait i found clear
        later
        (
          sym (ap (λ (x : SessionData). x.tenant_id) same),
          sym (ap (λ (x : SessionData). x.user_id) same),
        )
