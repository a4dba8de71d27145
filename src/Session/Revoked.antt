-- ===== src/Session/Revoked.antt =====
-- After `revoke_all_for_user` no session of the user is found.
use liviq.Base.{
  ℕ, ◌-◌, ◌/◌, ◌<◌, ◌≡◌, refl, sym, ap, ◌∙◌, subst, Bool, true, false, ◌||◌, Option, none, some,
  List, [], ◌∷◌, arith, if◌then◌else◌, ltb, leb, is_empty, map, Text, text_eq, mem_text, Bool-cases,
  Option-cases, inl, inr, some_cancel,
}
use liviq.Session.{
  Payload, Redis, RedisLaws, renewed, renewed_set, idle_seconds, session_key, user_sessions_key,
  smaller, get_session,
}
use liviq.Session.Index.{IsListed, IsIndexed, user_key_differs, session_key-text_eq}

module _ (redis : Redis) (laws : RedisLaws redis) where
  open redis use {S}

  -- Any live entry of one store is a live entry of another, whose users' sets are the same.
  pub record Narrows (now : ℕ) (s t : S) : Type 0 where
    pub entries :
        (i : Text) (p : Payload) (d : ℕ)
        → redis.entry t (session_key i) ≡ some (p, d)
        → now < d
        → (d' : ℕ) × (redis.entry s (session_key i) ≡ some (p, d')) × (now < d')
    pub groups :
        (x u : Text) → redis.group t (user_sessions_key x u) ≡ redis.group s (user_sessions_key x u)

  pub Narrows-IsIndexed :
      (now : ℕ) (s t : S)
      → Narrows now s t
      → IsIndexed redis laws now s
      → IsIndexed redis laws now t
  Narrows-IsIndexed now s t n h i p d e alive =
      let (d', f, alive') = n.entries i p d e alive in
      subst (λ g. IsListed g i p) (sym (n.groups p.tenant_id p.user_id)) (h i p d' f alive')

  unchanged_Narrows : (now : ℕ) (s : S) → Narrows now s s
  unchanged_Narrows now s = record {
    entries = λ i p d e alive. (d, e, alive);
    groups = λ x u. refl;
  }

  pub kept_entry :
      (b : Bool) (o : Option (Payload × ℕ)) (p : Payload) (d : ℕ)
      → (if b then none else o) ≡ some (p, d)
      → (b ≡ false) × (o ≡ some (p, d))
  kept_entry true o p d e = cc
  kept_entry false o p d e = (refl, e)

  pub delete-Narrows :
      (now : ℕ) (i : Text) (s : S) → Narrows now s (redis.delete (session_key i ∷ []) s)
  unfolding mem_text
  delete-Narrows now i s = record {
    entries = λ q p d e alive. (
      d,
      (kept_entry (mem_text (session_key q) (session_key i ∷ [])) (redis.entry s (session_key q)) p
          d (sym (laws.delete_entry (session_key i ∷ []) s (session_key q)) ∙ e)).1,
      alive,
    );
    groups = λ x u.
        laws.delete_group (session_key i ∷ []) s (user_sessions_key x u)
        ∙ ap (λ b. if b || false then none else redis.group s (user_sessions_key x u))
            (user_key_differs redis laws i x u);
  }

  expire-Narrows :
      (now ttl : ℕ) (i : Text) (s : S) → Narrows now s (redis.expire now (session_key i) ttl s)
  expire-Narrows now ttl i s = record {
    entries = λ q p d e alive.
        go q p d alive (text_eq (session_key q) (session_key i))
          (sym (laws.expire_entry now (session_key i) ttl s (session_key q)) ∙ e);
    groups = λ x u.
        laws.expire_group now (session_key i) ttl s (user_sessions_key x u)
        ∙ ap
            (λ b.
              if b
              then renewed_set now ttl (redis.group s (user_sessions_key x u))
              else redis.group s (user_sessions_key x u))
            (user_key_differs redis laws i x u);
  }
    where
      renews :
          (p : Payload) (d : ℕ)
          → now < d
          → (o : Option (Payload × ℕ)) → renewed now ttl o ≡ some (p, d)
          → (d' : ℕ) × (o ≡ some (p, d')) × (now < d')
      renews p d alive none e = cc
      renews p d alive (some (v, dl)) e = elim (Bool-cases (ltb now dl)) [
        | inr dead ↦ (d, rw dead at e, alive)
        | inl lives ↦ (
          dl,
          ap (λ (r : Payload × ℕ). some (r.0, dl)) (some_cancel (rw lives at e)),
          ground arith,
        )
      ]

      go :
          (q : Text) (p : Payload) (d : ℕ)
          → now < d
          → (b : Bool)
          → (if b
              then renewed now ttl (redis.entry s (session_key q))
              else redis.entry s (session_key q))
            ≡ some (p, d)
          → (d' : ℕ) × (redis.entry s (session_key q) ≡ some (p, d')) × (now < d')
      go q p d alive true e = renews p d alive (redis.entry s (session_key q)) e
      go q p d alive false e = (d, e, alive)

  pub get_session-Narrows :
      (now : ℕ) (i : Text) (s : S) → Narrows now s (get_session redis now i s).1
  unfolding get_session
  get_session-Narrows now i s = elim (Option-cases (redis.get now (session_key i) s)) [
    | inl e ↦ rw (e, get_session) (unchanged_Narrows now s)
    | inr (p, e) ↦ elim (Bool-cases (leb p.expires_at now)) [
      | inl over ↦ rw (e, over, get_session) (delete-Narrows now i s)
      | inr within ↦
          let ttl = smaller idle_seconds ((p.expires_at - now) / 1000) in
          elim (Bool-cases (ltb 0 ttl)) [
            | inl some_left ↦ rw (e, within, some_left, get_session) (expire-Narrows now ttl i s)
            | inr none_left ↦ rw (e, within, none_left, get_session) (unchanged_Narrows now s)
          ]
    ]
  ]

  mem_keys :
      (i : Text) (ms : List Text) → mem_text (session_key i) (map session_key ms) ≡ mem_text i ms
  unfolding mem_text
  mem_keys i [] = refl
  mem_keys i (m ∷ ms) =
      rw (session_key-text_eq redis laws i m) (ap (λ b. text_eq i m || b) (mem_keys i ms))

  user_key_apart :
      (x u : Text) (ms : List Text) → mem_text (user_sessions_key x u) (map session_key ms) ≡ false
  unfolding mem_text
  user_key_apart x u [] = refl
  user_key_apart x u (m ∷ ms) = rw (user_key_differs redis laws m x u) (user_key_apart x u ms)

  -- The deletion of the sessions' keys, which is left out where there are none.
  unfoldable pub cleared : List Text → S → S
  cleared ms s = if is_empty (map session_key ms) then s else redis.delete (map session_key ms) s

  pub cleared-entry :
      (ms : List Text) (s : S) (i : Text)
      → redis.entry (cleared ms s) (session_key i)
        ≡ (if mem_text i ms then none else redis.entry s (session_key i))
  unfolding cleared mem_text
  cleared-entry [] s i = refl
  cleared-entry (m ∷ ms) s i =
      laws.delete_entry (map session_key (m ∷ ms)) s (session_key i)
      ∙ ap (λ b. if b then none else redis.entry s (session_key i)) (mem_keys i (m ∷ ms))

  pub cleared-group :
      (ms : List Text) (s : S) (x u : Text)
      → redis.group (cleared ms s) (user_sessions_key x u) ≡ redis.group s (user_sessions_key x u)
  unfolding cleared
  cleared-group [] s x u = refl
  cleared-group (m ∷ ms) s x u =
      laws.delete_group (map session_key (m ∷ ms)) s (user_sessions_key x u)
      ∙ ap (λ b. if b then none else redis.group s (user_sessions_key x u))
          (user_key_apart x u (m ∷ ms))
