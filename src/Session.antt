-- ===== src/Session.antt =====
-- apps/api/app/session.py: the sessions that Redis keeps. Times are whole milliseconds; a value
-- that went through `json.dumps` and `json.loads` is the record that went in.
pub mod Lifetime
pub mod Ends
pub mod Index
pub mod Revoked
pub mod Logout
use liviq.Base.{
  ℕ, ◌+◌, ◌-◌, ◌*◌, ◌/◌, ◌≡◌, Bool, true, false, ◌&&◌, Option, none, some, List, [], ◌∷◌, ◌++◌, map,
  if◌then◌else◌, ltb, leb, is_empty, Text, codes, text_eq, mem_text,
}

-- The value of a session: `SessionData` with the two times.
pub record Payload : Type 0 where
  pub tenant_id : Text
  pub user_id : Text
  pub roles : List Text
  pub status : Text
  pub must_change_password : Bool
  pub email : Text
  pub created_at : ℕ
  pub expires_at : ℕ

pub record SessionData : Type 0 where
  pub tenant_id : Text
  pub user_id : Text
  pub roles : List Text
  pub kind : Text
  pub status : Text
  pub must_change_password : Bool
  pub email : Text

abbrev pub live : {A : Type 0} → ℕ → Option (A × ℕ) → Option A
live now none = none
live now (some (v, deadline)) = if ltb now deadline then some v else none

-- A set may have no deadline: it has none between `sadd` and `expire`.
abbrev pub members_at : ℕ → Option (List Text × Option ℕ) → List Text
members_at now none = []
members_at now (some (ms, none)) = ms
members_at now (some (ms, some deadline)) = if ltb now deadline then ms else []

-- Whether a set is still there.
abbrev pub stands : ℕ → Option (List Text × Option ℕ) → Bool
stands now none = false
stands now (some (ms, none)) = true
stands now (some (ms, some deadline)) = ltb now deadline

abbrev pub renewed : ℕ → ℕ → Option (Payload × ℕ) → Option (Payload × ℕ)
renewed now ttl none = none
renewed now ttl (some (v, deadline)) =
    if ltb now deadline then some (v, now + ttl * 1000) else some (v, deadline)

abbrev pub renewed_set : ℕ → ℕ → Option (List Text × Option ℕ) → Option (List Text × Option ℕ)
renewed_set now ttl g = if stands now g then some (members_at now g, some (now + ttl * 1000)) else g

-- A `sadd` keeps the deadline of a set that is there.
abbrev pub deadline_of : Option (List Text × Option ℕ) → Option ℕ
deadline_of none = none
deadline_of (some (ms, d)) = d

abbrev pub added : ℕ → Text → Option (List Text × Option ℕ) → Option (List Text × Option ℕ)
added now m g = some (m ∷ members_at now g, if stands now g then deadline_of g else none)

-- What the code uses of Redis, by its documentation. `entry` and `group` show the string and the
-- set at a key with their deadlines; times to live are seconds.
pub record Redis : Type 1 where
  pub S : Type 0
  pub entry : S → Text → Option (Payload × ℕ)
  pub group : S → Text → Option (List Text × Option ℕ)
  pub get : ℕ → Text → S → Option Payload
  pub set : ℕ → Text → Payload → ℕ → S → S
  pub sadd : ℕ → Text → Text → S → S
  pub smembers : ℕ → Text → S → List Text
  pub expire : ℕ → Text → ℕ → S → S
  pub delete : List Text → S → S

pub record RedisLaws (r : Redis) : Type 0 where
  pub get_reads : (now : ℕ) (k : Text) (s : r.S) → r.get now k s ≡ live now (r.entry s k)
  pub smembers_reads :
      (now : ℕ) (k : Text) (s : r.S) → r.smembers now k s ≡ members_at now (r.group s k)
  pub set_entry :
      (now : ℕ) (k : Text) (v : Payload) (ttl : ℕ) (s : r.S) (q : Text)
      → r.entry (r.set now k v ttl s) q
        ≡ (if text_eq q k then some (v, now + ttl * 1000) else r.entry s q)
  pub set_group :
      (now : ℕ) (k : Text) (v : Payload) (ttl : ℕ) (s : r.S) (q : Text)
      → text_eq q k ≡ false
      → r.group (r.set now k v ttl s) q ≡ r.group s q
  pub sadd_entry :
      (now : ℕ) (k m : Text) (s : r.S) (q : Text)
      → text_eq q k ≡ false
      → r.entry (r.sadd now k m s) q ≡ r.entry s q
  pub sadd_group :
      (now : ℕ) (k m : Text) (s : r.S) (q : Text)
      → r.group (r.sadd now k m s) q
        ≡ (if text_eq q k then added now m (r.group s q) else r.group s q)
  pub expire_entry :
      (now : ℕ) (k : Text) (ttl : ℕ) (s : r.S) (q : Text)
      → r.entry (r.expire now k ttl s) q
        ≡ (if text_eq q k then renewed now ttl (r.entry s q) else r.entry s q)
  pub expire_group :
      (now : ℕ) (k : Text) (ttl : ℕ) (s : r.S) (q : Text)
      → r.group (r.expire now k ttl s) q
        ≡ (if text_eq q k then renewed_set now ttl (r.group s q) else r.group s q)
  pub delete_entry :
      (ks : List Text) (s : r.S) (q : Text)
      → r.entry (r.delete ks s) q ≡ (if mem_text q ks then none else r.entry s q)
  pub delete_group :
      (ks : List Text) (s : r.S) (q : Text)
      → r.group (r.delete ks s) q ≡ (if mem_text q ks then none else r.group s q)

abbrev pub absolute_seconds : ℕ
absolute_seconds = 86400

abbrev pub idle_seconds : ℕ
idle_seconds = 7200

-- `_session_key`
unfoldable pub session_key : Text → Text
session_key session_id = codes "session:" ++ session_id

-- `_user_sessions_key`
unfoldable pub user_sessions_key : Text → Text → Text
user_sessions_key tenant_id user_id = codes "user_sessions:" ++ (tenant_id ++ (58 ∷ user_id))

-- The arguments of `create`.
pub record Login : Type 0 where
  pub tenant_id : Text
  pub user_id : Text
  pub roles : List Text
  pub status : Text
  pub must_change_password : Bool
  pub email : Text

abbrev pub payload_of : ℕ → Login → Payload
payload_of now l = record {
  tenant_id = l.tenant_id;
  user_id = l.user_id;
  roles = l.roles;
  status = l.status;
  must_change_password = l.must_change_password;
  email = l.email;
  created_at = now;
  expires_at = now + absolute_seconds * 1000;
}

abbrev pub data_of : Payload → SessionData
data_of p = record {
  tenant_id = p.tenant_id;
  user_id = p.user_id;
  roles = p.roles;
  kind = codes "user";
  status = p.status;
  must_change_password = p.must_change_password;
  email = p.email;
}

abbrev pub smaller : ℕ → ℕ → ℕ
smaller a b = if ltb b a then b else a

module _ (redis : Redis) where
  open redis use {S}

  -- `create`, with the token that `secrets` gives
  unfoldable pub create : ℕ → Text → Login → S → S
  create now session_id l s =
      let set_key = user_sessions_key l.tenant_id l.user_id in
      redis.expire now set_key absolute_seconds (
        redis.sadd now set_key session_id
          (redis.set now (session_key session_id) (payload_of now l) idle_seconds s))

  -- `get` of `SessionStore`
  unfoldable pub get_session : ℕ → Text → S → Option SessionData × S
  get_session now session_id s =
      let key = session_key session_id in
      elim (redis.get now key s) [
        | none ↦ (none, s)
        | some p ↦
            if leb p.expires_at now
            then (none, redis.delete (key ∷ []) s)
            else (let ttl = smaller idle_seconds ((p.expires_at - now) / 1000) in
                (some (data_of p), if ltb 0 ttl then redis.expire now key ttl s else s))
      ]

  unfoldable pub revoke : Text → S → S
  revoke session_id s = redis.delete (session_key session_id ∷ []) s

  unfoldable pub revoke_all_for_user : ℕ → Text → Text → S → S
  revoke_all_for_user now tenant_id user_id s =
      let set_key = user_sessions_key tenant_id user_id in
      let keys = map session_key (redis.smembers now set_key s) in
      redis.delete (set_key ∷ []) (if is_empty keys then s else redis.delete keys s)
