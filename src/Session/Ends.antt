-- ===== src/Session/Ends.antt =====
-- Every operation of the store keeps the times of its sessions, and so every session ends.
use liviq.Base.{
  ℕ, ◌+◌, ◌-◌, ◌*◌, ◌/◌, ◌≤◌, ◌<◌, ◌≡◌, refl, sym, ap, ◌∙◌, subst, Bool, true, false, Option, none,
  some, List, [], ◌∷◌, arith, if◌then◌else◌, ltb, leb, is_empty, map, Text, Bool-cases,
  Option-cases, inl, inr, some_cancel,
}
use liviq.Session.{
  Payload, SessionData, Redis, RedisLaws, live, idle_seconds, session_key, user_sessions_key,
  data_of, smaller, get_session, revoke, revoke_all_for_user,
}
use liviq.Session.Lifetime.{
  IsKept, IsKept-Fewer, delete-Fewer, create-IsKept, expire-IsKept, Operation, creates, gets,
  revokes, revokes_all, perform, run, Kept_later,
}

none≢some : {A : Type 0} {a : A} → (none ≡ some a) → ⊥
none≢some e = cc

module _ (redis : Redis) (laws : RedisLaws redis) where
  open redis use {S}

  abbrev pub Read : ℕ → Text → S → Payload → Type 0
  Read now k s p = (d : ℕ) × (redis.entry s k ≡ some (p, d)) × (now < d)

  pub get_reads_live :
      (now : ℕ) (k : Text) (s : S) (p : Payload) → redis.get now k s ≡ some p → Read now k s p
  get_reads_live now k s p e = go (redis.entry s k) refl (sym (laws.get_reads now k s) ∙ e)
    where
      go :
          (o : Option (Payload × ℕ))
          → redis.entry s k ≡ o
          → live now o ≡ some p
          → (d : ℕ) × (redis.entry s k ≡ some (p, d)) × (now < d)
      go none f g = cc
      go (some (v, d)) f g = elim (Bool-cases (ltb now d)) [
        | inr dead ↦ let h : none ≡ some p = rw dead at g in cc
        | inl alive ↦
            (d, f ∙ ap (λ (q : Payload). some (q, d)) (some_cancel (rw alive at g)), ground arith)
      ]

  ttl_small :
      (now expires : ℕ)
      → now < expires
      → (now + smaller idle_seconds ((expires - now) / 1000) * 1000 ≤ expires)
        × (smaller idle_seconds ((expires - now) / 1000) ≤ 7200)
  ttl_small now expires h = (ground arith, ground arith)

  get_session-IsKept :
      (now : ℕ) (i : Text) (s : S)
      → IsKept redis now s
      → IsKept redis now (get_session redis now i s).1
  unfolding get_session
  get_session-IsKept now i s h = elim (Option-cases (redis.get now (session_key i) s)) [
    | inl e ↦ rw (e, get_session) h
    | inr (p, e) ↦ elim (Bool-cases (leb p.expires_at now)) [
      | inl over ↦
          rw (e, over, get_session)
            (IsKept-Fewer redis laws now s _ (delete-Fewer redis laws (session_key i ∷ []) s) h)
      | inr within ↦
          rw (e, within, get_session)
            (renew p (get_reads_live now (session_key i) s p e) (ground arith))
    ]
  ]
    where
      renew :
          (p : Payload)
          → (d : ℕ) × (redis.entry s (session_key i) ≡ some (p, d)) × (now < d)
          → now < p.expires_at
          → IsKept redis now (
              if ltb 0 (smaller idle_seconds ((p.expires_at - now) / 1000))
              then redis.expire now
                  (session_key i)
                  (smaller idle_seconds ((p.expires_at - now) / 1000))
                  s
              else s)
      renew p (d, f, alive) before =
          elim (Bool-cases (ltb 0 (smaller idle_seconds ((p.expires_at - now) / 1000)))) [
            | inr zero_left ↦ rw zero_left h
            | inl some_left ↦ rw some_left (
                expire-IsKept redis laws now (smaller idle_seconds ((p.expires_at - now) / 1000))
                  (session_key i) s
                  (λ v dl g l.
                    let same : p ≡ v = ap (λ (r : Payload × ℕ). r.0) (some_cancel (sym f ∙ g)) in
                    subst
                      (λ (q : Payload).
                        (now + smaller idle_seconds ((p.expires_at - now) / 1000) * 1000
                          ≤ q.expires_at)
                        × (smaller idle_seconds ((p.expires_at - now) / 1000) ≤ 7200))
                      same (ttl_small now p.expires_at before))
                  h)
          ]

  revoke_all-IsKept :
      (now : ℕ) (t u : Text) (s : S)
      → IsKept redis now s
      → IsKept redis now (revoke_all_for_user redis now t u s)
  unfolding revoke_all_for_user
  revoke_all-IsKept now t u s h =
      let k = user_sessions_key t u in
      let keys = map session_key (redis.smembers now k s) in
      IsKept-Fewer redis laws now (if is_empty keys then s else redis.delete keys s) _
        (delete-Fewer redis laws (k ∷ []) (if is_empty keys then s else redis.delete keys s))
        (go (is_empty keys) keys)
    where
      go : (b : Bool) (keys : List Text) → IsKept redis now (if b then s else redis.delete keys s)
      go true keys = h
      go false keys = IsKept-Fewer redis laws now s _ (delete-Fewer redis laws keys s) h

  pub perform-IsKept :
      (now : ℕ) (op : Operation) (s : S)
      → IsKept redis now s
      → IsKept redis now (perform redis now op s)
  unfolding revoke
  perform-IsKept now (creates i l) s h = create-IsKept redis laws now i l s h
  perform-IsKept now (gets i) s h = get_session-IsKept now i s h
  perform-IsKept now (revokes i) s h =
      IsKept-Fewer redis laws now s _ (delete-Fewer redis laws (session_key i ∷ []) s) h
  perform-IsKept now (revokes_all t u) s h = revoke_all-IsKept now t u s h

  pub run-IsKept :
      (now : ℕ) (s : S) (ops : List (ℕ × Operation))
      → IsKept redis now s
      → IsKept redis (run redis now s ops).0 (run redis now s ops).1
  run-IsKept now s [] h = h
  run-IsKept now s ((wait, op) ∷ ops) h =
      run-IsKept (now + wait) (perform redis (now + wait) op s) ops
        (perform-IsKept (now + wait) op s (Kept_later redis laws now wait s h))

  -- What a session that is found owes: it was created less than a day ago, and an operation of the
  -- store happened less than two hours ago.
  abbrev pub IsCurrent : ℕ → ℕ → Text → S → SessionData → Type 0
  IsCurrent now wait i s found =
      (p : Payload) × (d : ℕ) × (redis.entry s (session_key i) ≡ some (p, d))
      × (found ≡ data_of p)
      × (p.created_at ≤ now)
      × (now + wait < p.created_at + 86400000)
      × (wait < 7200000)

  -- Under the documented laws of Redis, from a store without entries, through any operations at any
  -- times: a session that `get` finds is the stored one, was created less than 24 hours ago however
  -- often it was used, and is not found when the store has been idle for 2 hours.
  pub get_session-ends :
      (empty : S) (ops : List (ℕ × Operation)) (wait : ℕ) (i : Text) (found : SessionData)
      → ((k : Text) → redis.entry empty k ≡ none)
      → (get_session redis ((run redis 0 empty ops).0 + wait) i (run redis 0 empty ops).1).0
        ≡ some found
      → IsCurrent (run redis 0 empty ops).0 wait i (run redis 0 empty ops).1 found
  unfolding get_session
  get_session-ends empty ops wait i found clear e =
      let now = (run redis 0 empty ops).0 in
      let s = (run redis 0 empty ops).1 in
      let kept : IsKept redis now s = run-IsKept 0 empty ops (λ q p d f. absurd (bare q p d f)) in
      elim (Option-cases (redis.get (now + wait) (session_key i) s)) [
        | inl f ↦ let g : none ≡ some found = rw (f, get_session) at e in cc
        | inr (p, f) ↦ elim (Bool-cases (leb p.expires_at (now + wait))) [
          | inl over ↦ let g : none ≡ some found = rw (f, over, get_session) at e in cc
          | inr within ↦
              let (d, at, alive) = get_reads_live (now + wait) (session_key i) s p f in
              let t = kept i p d at in
              let g : some (data_of p) ≡ some found = rw (f, within, get_session) at e in
              (
                p,
                d,
                at,
                sym (some_cancel g),
                t.past,
                ground (arith, t.day),
                ground (arith, t.idle, alive),
              )
        ]
      ]
    where
      bare : (q : Text) (p : Payload) (d : ℕ) → redis.entry empty (session_key q) ≡ some (p, d) → ⊥
      bare q p d f = none≢some (sym (clear (session_key q)) ∙ f)
