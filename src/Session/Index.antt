-- ===== src/Session/Index.antt =====
-- Every live session stands in its user's set, so that `revoke_all_for_user` finds it.
use liviq.Base.{
  ℕ, ◌+◌, ◌*◌, ◌≤◌, ◌<◌, ◌≡◌, refl, sym, ap, ◌∙◌, subst, Bool, true, false, Option, none, some,
  List, ◌∷◌, arith, if◌then◌else◌, ltb, Text, text_eq, text_eq→eq, text_eq_refl, mem_text,
  Bool-cases, inl, inr, some_cancel,
}
use liviq.Session.{
  Payload, Login, Redis, RedisLaws, renewed_set, members_at, added, absolute_seconds, idle_seconds,
  session_key, user_sessions_key, payload_of, create,
}
use liviq.Session.Lifetime.{IsTimed, IsKept, keys_differ}

-- The set that lists a session, and outlives it.
pub record IsListed (group : Option (List Text × Option ℕ)) (i : Text) (p : Payload) : Type 0 where
  pub members : List Text
  pub until : ℕ
  pub stored : group ≡ some (members, some until)
  pub listed : mem_text i members ≡ true
  pub outlives : p.expires_at ≤ until

module _ (redis : Redis) (laws : RedisLaws redis) where
  open redis use {S}

  abbrev pub IsIndexed : ℕ → S → Type 0
  IsIndexed now s =
      (i : Text) (p : Payload) (d : ℕ)
      → redis.entry s (session_key i) ≡ some (p, d)
      → now < d
      → IsListed (redis.group s (user_sessions_key p.tenant_id p.user_id)) i p

  pub IsIndexed-later : (now wait : ℕ) (s : S) → IsIndexed now s → IsIndexed (now + wait) s
  IsIndexed-later now wait s h i p d e alive = h i p d e (omega arith)

  -- The two keys begin with different letters.
  pub user_key_differs : (i t u : Text) → text_eq (user_sessions_key t u) (session_key i) ≡ false
  unfolding session_key user_sessions_key text_eq
  user_key_differs i t u = refl

  renewed_set-added :
      (now : ℕ) (m : Text) (g : Option (List Text × Option ℕ))
      → renewed_set now absolute_seconds (added now m g)
        ≡ some (m ∷ members_at now g, some (now + 86400000))
  renewed_set-added now m none = refl
  renewed_set-added now m (some (ms, none)) = refl
  renewed_set-added now m (some (ms, some until)) = elim (Bool-cases (ltb now until)) [
    | inl alive ↦ rw (alive, alive) refl
    | inr dead ↦ rw dead refl
  ]

  pub members_listed :
      (now : ℕ) (i : Text) (p : Payload) (d : ℕ) (g : Option (List Text × Option ℕ))
      → IsTimed now p d
      → now < d
      → IsListed g i p
      → mem_text i (members_at now g) ≡ true
  members_listed now i p d g t alive l =
      let stands_still : ltb now l.until ≡ true = ground (arith, t.within, l.outlives) in
      rw (l.stored, stands_still) l.listed

  -- A set to which a session is added while its deadline moves a day ahead keeps what it lists.
  joined_IsListed :
      (now : ℕ) (m i : Text) (p : Payload) (d : ℕ) (g : Option (List Text × Option ℕ))
      → IsTimed now p d
      → now < d
      → IsListed g i p
      → IsListed (renewed_set now absolute_seconds (added now m g)) i p
  unfolding mem_text
  joined_IsListed now m i p d g t alive l = record {
    members = m ∷ members_at now g;
    until = now + 86400000;
    stored = renewed_set-added now m g;
    listed = ground (arith, members_listed now i p d g t alive l);
    outlives = omega (arith, t.day, t.past);
  }

  own_IsListed :
      (now : ℕ) (i : Text) (l : Login) (g : Option (List Text × Option ℕ))
      → IsListed (renewed_set now absolute_seconds (added now i g)) i (payload_of now l)
  unfolding mem_text
  own_IsListed now i l g = record {
    members = i ∷ members_at now g;
    until = now + 86400000;
    stored = renewed_set-added now i g;
    listed = ground (arith, text_eq_refl i);
    outlives = omega arith;
  }

  pub session_key-text_eq : (q i : Text) → text_eq (session_key q) (session_key i) ≡ text_eq q i
  unfolding session_key text_eq
  session_key-text_eq q i = refl

  create-group :
      (now : ℕ) (i : Text) (l : Login) (s : S) (t u : Text)
      → redis.group (create redis now i l s) (user_sessions_key t u) ≡ (
          if text_eq (user_sessions_key t u) (user_sessions_key l.tenant_id l.user_id)
          then renewed_set now absolute_seconds
              (added now i (redis.group s (user_sessions_key t u)))
          else redis.group s (user_sessions_key t u))
  unfolding create
  create-group now i l s t u =
      let k = user_sessions_key l.tenant_id l.user_id in
      let q = user_sessions_key t u in
      let s₁ = redis.set now (session_key i) (payload_of now l) idle_seconds s in
      let s₂ = redis.sadd now k i s₁ in
      let same : redis.group s₁ q ≡ redis.group s q =
        laws.set_group now (session_key i) (payload_of now l) idle_seconds s q
          (user_key_differs i t u) in
      elim (Bool-cases (text_eq q k)) [
        | inl own ↦
            rw
              (
                own,
                laws.expire_group now k absolute_seconds s₂ q,
                own,
                laws.sadd_group now k i s₁ q,
                own,
                same,
              )
              refl
        | inr other ↦
            rw
              (
                other,
                laws.expire_group now k absolute_seconds s₂ q,
                other,
                laws.sadd_group now k i s₁ q,
                other,
                same,
              )
              refl
      ]

  create-entry :
      (now : ℕ) (i : Text) (l : Login) (s : S) (q : Text)
      → redis.entry (create redis now i l s) (session_key q) ≡ (
          if text_eq q i
          then some (payload_of now l, now + idle_seconds * 1000)
          else redis.entry s (session_key q))
  unfolding create
  create-entry now i l s q =
      let k = user_sessions_key l.tenant_id l.user_id in
      let s₁ = redis.set now (session_key i) (payload_of now l) idle_seconds s in
      let s₂ = redis.sadd now k i s₁ in
      let differ = keys_differ redis laws q l.tenant_id l.user_id in
      rw
        (
          laws.expire_entry now k absolute_seconds s₂ (session_key q),
          differ,
          laws.sadd_entry now k i s₁ (session_key q) differ,
          laws.set_entry now (session_key i) (payload_of now l) idle_seconds s (session_key q),
          session_key-text_eq q i,
        )
        refl

  pub create-IsIndexed :
      (now : ℕ) (i : Text) (l : Login) (s : S)
      → IsKept redis now s
      → IsIndexed now s
      → IsIndexed now (create redis now i l s)
  create-IsIndexed now i l s kept h q p d e alive =
      go (text_eq q i) refl (sym (create-entry now i l s q) ∙ e)
    where
      at : (p : Payload) → Type 0
      at p =
          IsListed (redis.group (create redis now i l s) (user_sessions_key p.tenant_id p.user_id))
            q p

      old : redis.entry s (session_key q) ≡ some (p, d) → at p
      old f =
          let k' = user_sessions_key p.tenant_id p.user_id in
          elim (Bool-cases (text_eq k' (user_sessions_key l.tenant_id l.user_id))) [
            | inl own ↦
                rw (create-group now i l s p.tenant_id p.user_id, own)
                  (joined_IsListed now i q p d (redis.group s k') (kept q p d f) alive
                    (h q p d f alive))
            | inr other ↦ rw (create-group now i l s p.tenant_id p.user_id, other) (h q p d f alive)
          ]

      new : q ≡ i → at (payload_of now l)
      new same =
          rw
            (
              create-group now i l s l.tenant_id l.user_id,
              text_eq_refl (user_sessions_key l.tenant_id l.user_id),
              same,
            )
            (own_IsListed now i l (redis.group s (user_sessions_key l.tenant_id l.user_id)))

      go :
          (b : Bool)
          → text_eq q i ≡ b
          → (if b
              then some (payload_of now l, now + idle_seconds * 1000)
              else redis.entry s (session_key q))
            ≡ some (p, d)
          → at p
      go false other f = old f
      go true same f =
          subst at (ap (λ (r : Payload × ℕ). r.0) (some_cancel f)) (new (text_eq→eq q i same))
