-- ===== src/Session/Logout.antt =====
-- `revoke_all_for_user` at the end of any run.
use liviq.Base.{
  ℕ, ◌+◌, ◌<◌, ◌≡◌, sym, ap, ◌∙◌, subst, true, false, ◌||◌, none, some, List, [], ◌∷◌, arith,
  if◌then◌else◌, leb, Text, text_eq, text_eq→eq, text_eq_refl, mem_text, Bool-cases, Option-cases,
  inl, inr, some_cancel,
}
use liviq.Session.{
  Payload, SessionData, Redis, RedisLaws, members_at, session_key, user_sessions_key, data_of,
  get_session, revoke, revoke_all_for_user,
}
use liviq.Session.Lifetime.{
  IsKept, Operation, creates, gets, revokes, revokes_all, perform, run, keys_differ, Kept_later,
}
use liviq.Session.Ends.{perform-IsKept, run-IsKept, get_reads_live}
use liviq.Session.Index.{IsListed, IsIndexed, IsIndexed-later, members_listed, create-IsIndexed}
use liviq.Session.Revoked.{
  Narrows-IsIndexed, delete-Narrows, get_session-Narrows, cleared, cleared-entry, cleared-group,
  kept_entry,
}

true≢false : (true ≡ false) → ⊥
true≢false h = cc

none≢some : {A : Type 0} {a : A} → (none ≡ some a) → ⊥
none≢some h = cc

module _ (redis : Redis) (laws : RedisLaws redis) where
  open redis use {S}

  pub revoked_entry :
      (now : ℕ) (t u : Text) (s : S) (i : Text) (p : Payload) (d : ℕ)
      → redis.entry (revoke_all_for_user redis now t u s) (session_key i) ≡ some (p, d)
      → (mem_text i (redis.smembers now (user_sessions_key t u) s) ≡ false)
        × (redis.entry s (session_key i) ≡ some (p, d))
  unfolding revoke_all_for_user cleared mem_text
  revoked_entry now t u s i p d e =
      let k = user_sessions_key t u in
      let ms = redis.smembers now k s in
      let kept : redis.entry (redis.delete (k ∷ []) (cleared redis laws ms s)) (session_key i)
          ≡ redis.entry (cleared redis laws ms s) (session_key i) =
        laws.delete_entry (k ∷ []) (cleared redis laws ms s) (session_key i)
        ∙ ap
            (λ b.
              if b || false then none else redis.entry (cleared redis laws ms s) (session_key i))
            (keys_differ redis laws i t u) in
      kept_entry redis laws (mem_text i ms) (redis.entry s (session_key i)) p d
        (sym (cleared-entry redis laws ms s i) ∙ sym kept ∙ e)

  -- A session that is left belongs to another key.
  revoked_other :
      (now : ℕ) (t u : Text) (s : S) (i : Text) (p : Payload) (d : ℕ)
      → IsKept redis now s
      → IsIndexed redis laws now s
      → redis.entry (revoke_all_for_user redis now t u s) (session_key i) ≡ some (p, d)
      → now < d
      → text_eq (user_sessions_key p.tenant_id p.user_id) (user_sessions_key t u) ≡ false
  revoked_other now t u s i p d kept h e alive =
      let k = user_sessions_key t u in
      let (out, f) = revoked_entry now t u s i p d e in
      elim (Bool-cases (text_eq (user_sessions_key p.tenant_id p.user_id) k)) [
        | inr other ↦ other
        | inl own ↦
            let l : IsListed (redis.group s k) i p =
              subst (λ q. IsListed (redis.group s q) i p)
                (text_eq→eq (user_sessions_key p.tenant_id p.user_id) k own) (h i p d f alive) in
            let there : mem_text i (members_at now (redis.group s k)) ≡ true =
              members_listed redis laws now i p d (redis.group s k) (kept i p d f) alive l in
            cc (there, out, laws.smembers_reads now k s)
      ]

  revoke_all-IsIndexed :
      (now : ℕ) (t u : Text) (s : S)
      → IsKept redis now s
      → IsIndexed redis laws now s
      → IsIndexed redis laws now (revoke_all_for_user redis now t u s)
  unfolding revoke_all_for_user cleared mem_text
  revoke_all-IsIndexed now t u s kept h i p d e alive =
      let k = user_sessions_key t u in
      let q = user_sessions_key p.tenant_id p.user_id in
      let ms = redis.smembers now k s in
      let same : redis.group (redis.delete (k ∷ []) (cleared redis laws ms s)) q ≡ redis.group s q =
        laws.delete_group (k ∷ []) (cleared redis laws ms s) q
        ∙ ap (λ b. if b || false then none else redis.group (cleared redis laws ms s) q)
            (revoked_other now t u s i p d kept h e alive)
        ∙ cleared-group redis laws ms s p.tenant_id p.user_id in
      subst (λ g. IsListed g i p) (sym same) (h i p d (revoked_entry now t u s i p d e).1 alive)

  perform-IsIndexed :
      (now : ℕ) (op : Operation) (s : S)
      → IsKept redis now s
      → IsIndexed redis laws now s
      → IsIndexed redis laws now (perform redis now op s)
  unfolding revoke
  perform-IsIndexed now (creates i l) s k h = create-IsIndexed redis laws now i l s k h
  perform-IsIndexed now (gets i) s k h =
      Narrows-IsIndexed redis laws now s _ (get_session-Narrows redis laws now i s) h
  perform-IsIndexed now (revokes i) s k h =
      Narrows-IsIndexed redis laws now s _ (delete-Narrows redis laws now i s) h
  perform-IsIndexed now (revokes_all t u) s k h = revoke_all-IsIndexed now t u s k h

  run-IsIndexed :
      (now : ℕ) (s : S) (ops : List (ℕ × Operation))
      → IsKept redis now s
      → IsIndexed redis laws now s
      → IsIndexed redis laws (run redis now s ops).0 (run redis now s ops).1
  run-IsIndexed now s [] k h = h
  run-IsIndexed now s ((wait, op) ∷ ops) k h =
      let k' = Kept_later redis laws now wait s k in
      run-IsIndexed (now + wait) (perform redis (now + wait) op s) ops
        (perform-IsKept redis laws (now + wait) op s k')
        (perform-IsIndexed (now + wait) op s k' (IsIndexed-later redis laws now wait s h))

  -- Under the documented laws of Redis, from a store without entries, through any operations at any
  -- times: once all sessions of a user are revoked, any session that `get` finds, under whatever
  -- identifier and however long afterwards, belongs to another complex or another user.
  pub revoke_all_for_user-ends :
      (empty : S) (ops : List (ℕ × Operation)) (t u : Text) (wait : ℕ) (i : Text)
      (found : SessionData)
      → ((k : Text) → redis.entry empty k ≡ none)
      → (get_session redis
          ((run redis 0 empty ops).0 + wait)
          i
          (revoke_all_for_user redis (run redis 0 empty ops).0 t u (run redis 0 empty ops).1)).0
        ≡ some found
      → (found.tenant_id ≡ t) × (found.user_id ≡ u)
      → ⊥
  unfolding get_session
  revoke_all_for_user-ends empty ops t u wait i found clear e (same_t, same_u) =
      let now = (run redis 0 empty ops).0 in
      let s = (run redis 0 empty ops).1 in
      let kept : IsKept redis now s =
        run-IsKept redis laws 0 empty ops (λ q p d f. absurd (bare q p d f)) in
      let indexed : IsIndexed redis laws now s =
        run-IsIndexed 0 empty ops (λ q p d f. absurd (bare q p d f))
          (λ q p d f alive. absurd (bare q p d f)) in
      let after = revoke_all_for_user redis now t u s in
      elim (Option-cases (redis.get (now + wait) (session_key i) after)) [
        | inl f ↦ absurd (none≢some (rw (f, get_session) at e))
        | inr (p, f) ↦ elim (Bool-cases (leb p.expires_at (now + wait))) [
          | inl over ↦ absurd (none≢some (rw (f, over, get_session) at e))
          | inr within ↦
              let (d, at, alive) =
                get_reads_live redis laws (now + wait) (session_key i) after p f in
              let g : some (data_of p) ≡ some found = rw (f, within, get_session) at e in
              let own : data_of p ≡ found = some_cancel g in
              let other = revoked_other now t u s i p d kept indexed at (omega (arith, alive)) in
              same_key p (ap (λ (r : SessionData). r.tenant_id) own ∙ same_t)
                (ap (λ (r : SessionData). r.user_id) own ∙ same_u) other
        ]
      ]
    where
      bare : (q : Text) (p : Payload) (d : ℕ) → redis.entry empty (session_key q) ≡ some (p, d) → ⊥
      bare q p d f = none≢some (sym (clear (session_key q)) ∙ f)

      same_key :
          (p : Payload)
          → p.tenant_id ≡ t
          → p.user_id ≡ u
          → text_eq (user_sessions_key p.tenant_id p.user_id) (user_sessions_key t u) ≡ false
          → ⊥
      same_key p a b h = true≢false (
          sym (text_eq_refl (user_sessions_key t u))
          ∙ sym (ap (λ x. text_eq (user_sessions_key x u) (user_sessions_key t u)) a)
          ∙ sym (ap (λ x. text_eq (user_sessions_key p.tenant_id x) (user_sessions_key t u)) b)
          ∙ h)
