-- ===== src/Access.antt =====
-- apps/api/app/deps.py: who makes a request, and what that person may see and do. An id is its
-- canonical text; `parse_uuid` is `uuid.UUID`, and `reachable` says whether Redis answers.
pub mod Visible
pub mod Closed
use liviq.Base.{
  ℕ, ◌≡◌, Bool, true, false, not, Option, none, some, List, [], ◌∷◌, ◌++◌, if◌then◌else◌, any,
  filter, is_empty, Text, codes, text_eq, mem_text,
}
use liviq.Session.{Redis, SessionData, get_session}
use liviq.Http.{Reply, ok, refused, crashed, Action, pure, refuse_if, ◌>>=◌, ◌>>◌}

pub record RequestContext : Type 0 where
  pub tenant_id : Text
  pub user_id : Text
  pub roles : List Text
  pub visibilities : List Text

abbrev pub resident_visibilities : List Text
resident_visibilities = codes "ALL" ∷ codes "RESIDENT" ∷ []

abbrev pub visibility_order : List Text
visibility_order = codes "ALL" ∷ codes "RESIDENT" ∷ codes "ADMIN" ∷ []

abbrev pub dev_roles : List Text
dev_roles = codes "RESIDENT" ∷ codes "MANAGER" ∷ codes "STAFF" ∷ []

-- `_ROLE_VISIBILITIES.get(role, ())`
unfoldable pub role_visibilities : Text → List Text
role_visibilities role =
    if text_eq role (codes "RESIDENT")
    then resident_visibilities
    else if text_eq role (codes "MANAGER")
    then visibility_order
    else if text_eq role (codes "STAFF")
    then visibility_order
    else []

-- The set `granted`
unfoldable pub granted : List Text → List Text
granted [] = []
granted (role ∷ roles) = role_visibilities role ++ granted roles

unfoldable pub visibilities_for : List Text → List Text
visibilities_for roles =
    let result = filter (λ v. mem_text v (granted roles)) visibility_order in
    if is_empty result then resident_visibilities else result

-- `frozenset(roles).isdisjoint(ctx.roles)`, and its negation
unfoldable pub has_role : List Text → RequestContext → Bool
has_role roles ctx = any (λ r. mem_text r roles) ctx.roles

unfoldable pub require_roles : {S : Type 0} → List Text → RequestContext → Action S RequestContext
require_roles roles ctx = do refuse_if (not (has_role roles ctx)) 403 (codes "권한 없음"); pure ctx

-- `if not x` for an optional text
abbrev pub given : Option Text → Option Text
given none = none
given (some x) = if is_empty x then none else some x

-- The headers of a local development request.
unfoldable pub dev_context : (Text → Option Text) → Option Text → Option Text → Reply RequestContext
dev_context parse_uuid x_dev_tenant_id x_dev_user_id = elim (given x_dev_tenant_id) [
  | none ↦ refused 401 (codes "X-Dev-Tenant-Id·X-Dev-User-Id 헤더 필요")
  | some tenant ↦ elim (given x_dev_user_id) [
    | none ↦ refused 401 (codes "X-Dev-Tenant-Id·X-Dev-User-Id 헤더 필요")
    | some user ↦ elim (parse_uuid tenant) [
      | none ↦ refused 400 (codes "헤더 UUID 형식 오류")
      | some tenant_id ↦ elim (parse_uuid user) [
        | none ↦ refused 400 (codes "헤더 UUID 형식 오류")
        | some user_id ↦ ok (record {
          tenant_id = tenant_id;
          user_id = user_id;
          roles = dev_roles;
          visibilities = visibilities_for dev_roles;
        })
      ]
    ]
  ]
]

-- The context of a session that was found.
unfoldable pub session_context : (Text → Option Text) → SessionData → Reply RequestContext
session_context parse_uuid found =
    if found.must_change_password
    then refused 403 (codes "password_change_required")
    else if not (text_eq found.status (codes "active"))
    then refused 403 found.status
    else elim (parse_uuid found.tenant_id) [
      | none ↦ crashed
      | some tenant_id ↦ elim (parse_uuid found.user_id) [
        | none ↦ crashed
        | some user_id ↦ ok (record {
          tenant_id = tenant_id;
          user_id = user_id;
          roles = found.roles;
          visibilities = visibilities_for found.roles;
        })
      ]
    ]

module _ (redis : Redis) (parse_uuid : Text → Option Text) where
  open redis use {S}

  -- `get_session_raw`, whose cookie was given
  unfoldable pub session_of : Bool → ℕ → Text → Action S SessionData
  session_of reachable now session_id s =
      if reachable
      then (let (found, t) = get_session redis now session_id s in
          elim found [ none ↦ (refused 401 (codes "세션 만료 또는 무효"), t) | some d ↦ (ok d, t) ])
      else (refused 401 (codes "세션 검증 실패"), s)

  unfoldable pub get_session_raw : Bool → ℕ → Option Text → Action S SessionData
  unfolding session_of
  get_session_raw reachable now cookie s = elim (given cookie) [
    | none ↦ (refused 401 (codes "인증 필요 — 세션 없음"), s)
    | some session_id ↦ session_of reachable now session_id s
  ]

  -- `local` says that `api_env` is `local`
  unfoldable pub get_context :
      Bool → Bool → ℕ → Option Text → Option Text → Option Text → Action S RequestContext
  get_context local reachable now cookie x_dev_tenant_id x_dev_user_id s = elim (given cookie) [
    | none ↦
        if local
        then (dev_context parse_uuid x_dev_tenant_id x_dev_user_id, s)
        else (refused 401 (codes "인증 필요 — 세션 없음"), s)
    | some session_id ↦
        let (r, t) = session_of reachable now session_id s in
        elim r [
          | ok found ↦ (session_context parse_uuid found, t)
          | refused status_code detail ↦ (refused status_code detail, t)
          | crashed ↦ (crashed, t)
        ]
  ]
