-- ===== src/Session/Lifetime.antt =====
-- How long a session lives: a day at most, and two hours after its last use.
use liviq.Base.{
  ℕ, ◌+◌, ◌*◌, ◌≤◌, ◌<◌, ◌≡◌, refl, sym, ap, ◌∙◌, subst, Bool, true, false, Option, none, some,
  List, [], ◌∷◌, arith, if◌then◌else◌, ltb, Text, text_eq, mem_text, Bool-cases, inl, inr,
  some_cancel, text_eq→eq,
}
use liviq.Session.{
  Payload, Login, Redis, RedisLaws, renewed, absolute_seconds, idle_seconds, session_key,
  user_sessions_key, payload_of, create, get_session, revoke, revoke_all_for_user,
}

-- A value that was stored by `create`, and its deadline.
pub record IsTimed (now : ℕ) (p : Payload) (deadline : ℕ) : Type 0 where
  pub day : p.expires_at ≡ p.created_at + 86400000
  pub past : p.created_at ≤ now
  pub within : deadline ≤ p.expires_at
  pub idle : deadline ≤ now + 7200000

-- An operation of the store at its time.
pub data Operation : Type 0 where
  creates : (session_id : Text) → Login → Operation
  gets revokes : (session_id : Text) → Operation
  revokes_all : (tenant_id user_id : Text) → Operation

module _ (redis : Redis) where
  open redis use {S}

  abbrev pub perform : ℕ → Operation → S → S
  perform now (creates session_id l) s = create redis now session_id l s
  perform now (gets session_id) s = (get_session redis now session_id s).1
  perform now (revokes session_id) s = revoke redis session_id s
  perform now (revokes_all tenant_id user_id) s = revoke_all_for_user redis now tenant_id user_id s

  -- The operations with the time that passes before each; the time and the store behind them.
  abbrev pub run : ℕ → S → List (ℕ × Operation) → ℕ × S
  run now s [] = (now, s)
  run now s ((wait, op) ∷ ops) = run (now + wait) (perform (now + wait) op s) ops

  abbrev pub IsKept : ℕ → S → Type 0
  IsKept now s =
      (session_id : Text) (p : Payload) (deadline : ℕ)
      → redis.entry s (session_key session_id) ≡ some (p, deadline)
      → IsTimed now p deadline

  module _ (laws : RedisLaws redis) where
    pub Kept_later : (now wait : ℕ) (s : S) → IsKept now s → IsKept (now + wait) s
    Kept_later now wait s h k p d e =
        let t = h k p d e in
        record {
          day = t.day;
          past = omega (arith, t.past);
          within = t.within;
          idle = omega (arith, t.idle);
        }

    -- A store whose entries are among those of another keeps what it keeps.
    abbrev pub Fewer : S → S → Type 0
    Fewer s t =
        (k : Text) (p : Payload) (d : ℕ)
        → redis.entry s k ≡ some (p, d)
        → redis.entry t k ≡ some (p, d)

    pub delete-Fewer : (ks : List Text) (s : S) → Fewer (redis.delete ks s) s
    delete-Fewer ks s k p d e = go (mem_text k ks) (sym (laws.delete_entry ks s k) ∙ e)
      where
        go :
            (b : Bool)
            → (if b then none else redis.entry s k) ≡ some (p, d)
            → redis.entry s k ≡ some (p, d)
        go true f = cc
        go false f = f

    pub IsKept-Fewer : (now : ℕ) (s t : S) → Fewer t s → IsKept now s → IsKept now t
    IsKept-Fewer now s t f h k p d e = h k p d (f (session_key k) p d e)

    -- No key of a session is the key of a user's set.
    pub keys_differ : (i t u : Text) → text_eq (session_key i) (user_sessions_key t u) ≡ false
    unfolding session_key user_sessions_key text_eq
    keys_differ i t u = refl

    set-IsKept :
        (now : ℕ) (k : Text) (l : Login) (s : S)
        → IsKept now s
        → IsKept now (redis.set now k (payload_of now l) idle_seconds s)
    set-IsKept now k l s h q p d e =
        go (text_eq (session_key q) k)
          (sym (laws.set_entry now k (payload_of now l) idle_seconds s (session_key q)) ∙ e)
      where
        new : IsTimed now (payload_of now l) (now + idle_seconds * 1000)
        new = record { day = refl; past = omega arith; within = omega arith; idle = omega arith }

        go :
            (b : Bool)
            → (if b
                then some (payload_of now l, now + idle_seconds * 1000)
                else redis.entry s (session_key q))
              ≡ some (p, d)
            → IsTimed now p d
        go true f = subst (λ (r : Payload × ℕ). IsTimed now r.0 r.1) (some_cancel f) new
        go false f = h q p d f

    pub create-IsKept :
        (now : ℕ) (i : Text) (l : Login) (s : S)
        → IsKept now s
        → IsKept now (create redis now i l s)
    unfolding create
    create-IsKept now i l s h q p d e =
        let k = user_sessions_key l.tenant_id l.user_id in
        let s₁ = redis.set now (session_key i) (payload_of now l) idle_seconds s in
        let s₂ = redis.sadd now k i s₁ in
        let kept : redis.entry (redis.expire now k absolute_seconds s₂) (session_key q)
            ≡ redis.entry s₁ (session_key q) =
          laws.expire_entry now k absolute_seconds s₂ (session_key q)
          ∙ ap
              (λ b.
                if b
                then renewed now absolute_seconds (redis.entry s₂ (session_key q))
                else redis.entry s₂ (session_key q))
              (keys_differ q l.tenant_id l.user_id)
          ∙ laws.sadd_entry now k i s₁ (session_key q) (keys_differ q l.tenant_id l.user_id) in
        set-IsKept now (session_key i) l s h q p d (sym kept ∙ e)

    -- A renewal within the day and the two hours.
    pub expire-IsKept :
        (now ttl : ℕ) (k : Text) (s : S)
        → ((v : Payload) (d : ℕ)
            → redis.entry s k ≡ some (v, d)
            → now < d
            → (now + ttl * 1000 ≤ v.expires_at) × (ttl ≤ 7200))
        → IsKept now s
        → IsKept now (redis.expire now k ttl s)
    expire-IsKept now ttl k s small h q p d e =
        go (text_eq (session_key q) k) refl
          (sym (laws.expire_entry now k ttl s (session_key q)) ∙ e)
      where
        renews :
            (o : Option (Payload × ℕ))
            → redis.entry s (session_key q) ≡ o
            → session_key q ≡ k
            → renewed now ttl o ≡ some (p, d)
            → IsTimed now p d
        renews none f same g = cc
        renews (some (v, dl)) f same g = elim (Bool-cases (ltb now dl)) [
          | inr dead ↦ h q p d (f ∙ (rw dead at g))
          | inl alive ↦
              let t = h q v dl f in
              let small' =
                small v dl (subst (λ r. redis.entry s r ≡ some (v, dl)) same f) (ground arith) in
              subst (λ (r : Payload × ℕ). IsTimed now r.0 r.1) (some_cancel (rw alive at g))
                (record {
                  day = t.day;
                  past = t.past;
                  within = small'.0;
                  idle = omega (arith, small'.1);
                })
        ]

        go :
            (b : Bool)
            → text_eq (session_key q) k ≡ b
            → (if b
                then renewed now ttl (redis.entry s (session_key q))
                else redis.entry s (session_key q))
              ≡ some (p, d)
            → IsTimed now p d
        go true same f =
            renews (redis.entry s (session_key q)) refl (text_eq→eq (session_key q) k same) f
        go false other f = h q p d f
