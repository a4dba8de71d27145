-- ===== src/Tests/Session.antt =====
-- A Redis that keeps its strings and its sets as two functions, and two sessions in it.
use liviq.Base.{
  ℕ, ◌+◌, ◌*◌, ◌≡◌, refl, false, Option, none, some, List, [], ◌∷◌, if◌then◌else◌, Text, codes,
  text_eq, mem_text,
}
use liviq.Session.{
  revoke_all_for_user, Payload, Login, Redis, RedisLaws, live, members_at, added, renewed,
  renewed_set, session_key, user_sessions_key, create, get_session, payload_of, data_of,
}
use liviq.Session.Lifetime.{Operation, creates, gets, run}
use liviq.Session.Logout.{revoke_all_for_user-ends}
use liviq.Session.Ends.{IsCurrent, get_session-ends}

pub record Tables : Type 0 where
  pub strings : Text → Option (Payload × ℕ)
  pub sets : Text → Option (List Text × Option ℕ)

abbrev put : {A : Type 0} → Text → A → (Text → A) → Text → A
put k a f q = if text_eq q k then a else f q

abbrev without : {A : Type 0} → List Text → (Text → Option A) → Text → Option A
without ks f q = if mem_text q ks then none else f q

abbrev pub tables : Redis
tables = record {
  S = Tables;
  entry = λ s k. s.strings k;
  group = λ s k. s.sets k;
  get = λ now k s. live now (s.strings k);
  set = λ now k v ttl s. record {
    strings = put k (some (v, now + ttl * 1000)) s.strings;
    sets = put k none s.sets;
  };
  sadd = λ now k m s. record {
    strings = put k none s.strings;
    sets = λ q. if text_eq q k then added now m (s.sets q) else s.sets q;
  };
  smembers = λ now k s. members_at now (s.sets k);
  expire = λ now k ttl s. record {
    strings = λ q. if text_eq q k then renewed now ttl (s.strings q) else s.strings q;
    sets = λ q. if text_eq q k then renewed_set now ttl (s.sets q) else s.sets q;
  };
  delete = λ ks s. record { strings = without ks s.strings; sets = without ks s.sets };
}

pub tables-RedisLaws : RedisLaws tables
tables-RedisLaws = record {
  get_reads = λ now k s. refl;
  smembers_reads = λ now k s. refl;
  set_entry = λ now k v ttl s q. refl;
  set_group = λ now k v ttl s q h. rw h refl;
  sadd_entry = λ now k m s q h. rw h refl;
  sadd_group = λ now k m s q. refl;
  expire_entry = λ now k ttl s q. refl;
  expire_group = λ now k ttl s q. refl;
  delete_entry = λ ks s q. refl;
  delete_group = λ ks s q. refl;
}

abbrev pub empty : Tables
empty = record { strings = λ k. none; sets = λ k. none }

abbrev pub login : Login
login = record {
  tenant_id = codes "t";
  user_id = codes "u";
  roles = codes "RESIDENT" ∷ [];
  status = codes "active";
  must_change_password = false;
  email = [];
}

abbrev pub history : List (ℕ × Operation)
history = (5, creates (codes "a") login) ∷ (1000, gets (codes "a")) ∷ []

found :
    (get_session tables
      ((run tables 0 empty history).0 + 60000)
      (codes "a")
      (run tables 0 empty history).1).0
    ≡ some (data_of (payload_of 5 login))
unfolding get_session create session_key user_sessions_key text_eq mem_text
found = refl

get_session-ends_example :
    IsCurrent tables tables-RedisLaws
      (run tables 0 empty history).0
      60000
      (codes "a")
      (run tables 0 empty history).1
      (data_of (payload_of 5 login))
get_session-ends_example =
    get_session-ends tables tables-RedisLaws empty history 60000 (codes "a")
      (data_of (payload_of 5 login)) (λ k. refl) found

-- The session of another user outlives the revocation.
abbrev pub other_login : Login
other_login = record login { user_id = codes "v" }

abbrev pub two : List (ℕ × Operation)
two = (5, creates (codes "a") login) ∷ (5, creates (codes "b") other_login) ∷ []

abbrev pub after_revocation : Tables
after_revocation =
    revoke_all_for_user tables (run tables 0 empty two).0 (codes "t") (codes "u")
      (run tables 0 empty two).1

left_over :
    (get_session tables ((run tables 0 empty two).0 + 10) (codes "b") after_revocation).0
    ≡ some (data_of (payload_of 10 other_login))
unfolding revoke_all_for_user get_session create session_key user_sessions_key text_eq mem_text
left_over = refl

revoke_all_for_user-ends_example : (codes "t" ≡ codes "t") × (codes "v" ≡ codes "u") → ⊥
revoke_all_for_user-ends_example =
    revoke_all_for_user-ends tables tables-RedisLaws empty two (codes "t") (codes "u") 10
      (codes "b") (data_of (payload_of 10 other_login)) (λ k. refl) left_over
