-- ===== src/Tests/Access.antt =====
-- Requests with the cookies of two residents, before and after one of them is logged out everywhere.
use liviq.Base.{
  ◌+◌, ◌≡◌, refl, false, true, none, some, [], ◌∷◌, Text, codes, text_eq, mem_text, if◌then◌else◌,
}
use liviq.Http.{ok}
use liviq.Session.{
  SessionData, data_of, payload_of, get_session, create, revoke_all_for_user, session_key,
  user_sessions_key,
}
use liviq.Session.Lifetime.{run}
use liviq.Access.{
  RequestContext, get_context, session_context, session_of, visibilities_for, role_visibilities,
  granted, resident_visibilities, visibility_order, given,
}
use liviq.Access.Visible.{is_office, visibilities_for_lem}
use liviq.Access.Closed.{IsOfSession, get_context-IsOfSession, get_context-revoked}
use liviq.Tests.Session.{tables, tables-RedisLaws, empty, history, login, two, after_revocation}

visibilities_for_lem_example : visibilities_for (codes "RESIDENT" ∷ codes "STAFF" ∷ []) ≡ (
    if is_office (codes "RESIDENT" ∷ codes "STAFF" ∷ [])
    then visibility_order
    else resident_visibilities)
visibilities_for_lem_example = visibilities_for_lem (codes "RESIDENT" ∷ codes "STAFF" ∷ [])

abbrev resident_of : Text → RequestContext
resident_of user = record {
  tenant_id = codes "t";
  user_id = user;
  roles = codes "RESIDENT" ∷ [];
  visibilities = resident_visibilities;
}

accepted :
    (get_context tables some false true
      ((run tables 0 empty history).0 + 60000)
      (some (codes "a"))
      none
      none
      (run tables 0 empty history).1).0
    ≡ ok (resident_of (codes "u"))
unfolding get_context session_of session_context visibilities_for granted role_visibilities
    get_session create session_key user_sessions_key text_eq mem_text
accepted = refl

get_context-IsOfSession_example :
    (session_id : Text) × (found : SessionData) × (given (some (codes "a")) ≡ some session_id)
    × (true ≡ true)
    × ((get_session tables
          ((run tables 0 empty history).0 + 60000)
          session_id
          (run tables 0 empty history).1).0
        ≡ some found)
    × IsOfSession some found (resident_of (codes "u"))
get_context-IsOfSession_example =
    get_context-IsOfSession tables some true ((run tables 0 empty history).0 + 60000)
      (some (codes "a")) none none (run tables 0 empty history).1 (resident_of (codes "u")) accepted

still_accepted :
    (get_context tables some false true
      ((run tables 0 empty two).0 + 10)
      (some (codes "b"))
      none
      none
      after_revocation).0
    ≡ ok (resident_of (codes "v"))
unfolding get_context session_of session_context visibilities_for granted role_visibilities
    revoke_all_for_user get_session create session_key user_sessions_key text_eq mem_text
still_accepted = refl

was_found :
    (get_session tables (run tables 0 empty two).0 (codes "a") (run tables 0 empty two).1).0
    ≡ some (data_of (payload_of 5 login))
unfolding get_session create session_key user_sessions_key text_eq mem_text
was_found = refl

get_context-revoked_example : ¬ (
    (get_context tables some false true
      ((run tables 0 empty two).0 + 10)
      (some (codes "a"))
      none
      none
      after_revocation).0
    ≡ ok (resident_of (codes "u")))
get_context-revoked_example =
    get_context-revoked tables some tables-RedisLaws empty two 10 (codes "a")
      (data_of (payload_of 5 login)) true (some (codes "a")) none none (resident_of (codes "u"))
      (λ k. refl) was_found refl
