-- ===== src/AnswerCache/Owned.antt =====
-- Every answer in the cache was stored by somebody, at the key of that store.
use liviq.Base.{
  ℕ, ◌≡◌, ◌⊎◌, inl, inr, refl, sym, ◌∙◌, true, false, Option, none, some, Text, ◌==◌, ◌||◌, not,
  Bool-cases, Option-cases, arith,
}
use liviq.Registry.{ToolContext}
use liviq.Suggestions.{is_answered}
use liviq.Orchestrator.Types.{DoneEvent}
use liviq.AnswerCache.{
  Payload, Cache, Python, encode, user_key, tenant_key, gen_key, qhash, generation, hit, lookup,
  store_key, store, bump_generation,
}
use liviq.AnswerCache.Keys.{IsPlain}

-- A Redis that may fail at any command: a value that is read stands there, a counter leaves the
-- answers alone, and `set` writes its own key or nothing.
pub record CacheLaws {P : Type 0} (redis : Cache P) : Type 0 where
  pub entries : redis.S → Text → Option (P × ℕ)
  pub answer_stands :
      (now : ℕ) (k : Text) (s : redis.S) (p : P)
      → redis.answer now k s ≡ some (some p)
      → (d : ℕ) × (entries s k ≡ some (p, d))
  pub incr_keeps : (k : Text) (s : redis.S) (q : Text) → entries (redis.incr k s).1 q ≡ entries s q
  pub set_writes :
      (now : ℕ) (k : Text) (p : P) (ttl : ℕ) (s : redis.S) (q : Text) (r : P) (d : ℕ)
      → entries (redis.set now k p ttl s).1 q ≡ some (r, d)
      → ((q ≡ k) × (r ≡ p)) ⊎ (entries s q ≡ some (r, d))

none≢some : {A : Type 0} {a : A} → none ≡ some a → ⊥
none≢some e = cc

module _ (python : Python) {F : Type 0} (redis : Cache (Payload F)) (laws : CacheLaws redis) where
  open redis use {S}

  -- The stores that lookups, stores and new generations lead to from one without answers.
  pub data Reach : S → Type 0 where
    start : (s : S) → ((k : Text) → laws.entries s k ≡ none) → Reach s
    looked :
        (s : S) (now : ℕ) (ctx : ToolContext) (question backend : Text) (ttl : ℕ)
        → Reach s
        → Reach (lookup python redis now ctx question backend ttl s).1
    stored :
        (s : S) (now : ℕ) (ctx : ToolContext) (question : Text) (done : DoneEvent F)
        (backend : Text) (ttl : ℕ)
        → IsPlain ctx
        → Reach s
        → Reach (store python redis now ctx question done backend ttl s)
    bumped : (s : S) (tenant_id : Text) → Reach s → Reach (bump_generation python redis tenant_id s)

  -- The store that an answer comes from.
  pub record Origin : Type 0 where
    pub owner : ToolContext
    pub plain : IsPlain owner
    pub question : Text
    pub backend : Text
    pub gen : ℕ
    pub done : DoneEvent F
    pub answered : is_answered done.status ≡ true
    pub settled : done.needs_review ≡ false

  abbrev pub IsFrom : Origin → Text → Payload F → Type 0
  IsFrom o k p =
      (k ≡ store_key python redis o.owner o.done o.gen o.backend (qhash python o.question))
      × (p ≡ encode o.done o.owner.tenant_id)

  -- That an answer comes from one of the stores of the history: the owner, the question, the backend
  -- and the answer are those of the call, and the generation is the one that stood then.
  abbrev IsStore : ToolContext → Text → DoneEvent F → Text → S → Origin → Type 0
  IsStore ctx question done backend s o =
      (o.owner ≡ ctx)
      × (o.question ≡ question)
      × (o.done ≡ done)
      × (o.backend ≡ backend)
      × (generation python redis ctx.tenant_id s ≡ some o.gen)

  abbrev pub WasStored : (s : S) → Reach s → Origin → Type 0
  WasStored s (start _ bare) o = ⊥
  WasStored _ (looked s now ctx question backend ttl r) o = WasStored s r o
  WasStored _ (stored s now ctx question done backend ttl plain r) o =
      IsStore ctx question done backend s o ⊎ WasStored s r o
  WasStored _ (bumped s tenant_id r) o = WasStored s r o

  -- Each answer comes from an origin of some kind.
  abbrev pub IsOwned : (Origin → Type 0) → S → Type 0
  IsOwned P s =
      (k : Text) (p : Payload F) (d : ℕ)
      → laws.entries s k ≡ some (p, d)
      → (o : Origin) × P o × IsFrom o k p

  incr-IsOwned :
      (P : Origin → Type 0) (k : Text) (s : S) → IsOwned P s → IsOwned P (redis.incr k s).1
  incr-IsOwned P k s h q p d e = h q p d (sym (laws.incr_keeps k s q) ∙ e)

  hit-IsOwned :
      (P : Origin → Type 0) (tenant_id : Text) (p : Payload F) (s : S)
      → IsOwned P s
      → IsOwned P (hit python redis tenant_id p s).1
  unfolding hit
  hit-IsOwned P tenant_id p s h = incr-IsOwned P _ s h

  lookup-IsOwned :
      (P : Origin → Type 0) (now : ℕ) (ctx : ToolContext) (question backend : Text) (ttl : ℕ)
      (s : S)
      → IsOwned P s
      → IsOwned P (lookup python redis now ctx question backend ttl s).1
  unfolding lookup
  lookup-IsOwned P now ctx question backend ttl s h = elim (Bool-cases (ttl == 0)) [
    | inl e ↦ rw (e, lookup) h
    | inr e ↦ elim (Option-cases (generation python redis ctx.tenant_id s)) [
      | inl g ↦ rw (e, g, lookup) h
      | inr (gen, g) ↦
          go gen e g (redis.answer now (user_key ctx gen backend (qhash python question)) s) refl
            (redis.answer now (tenant_key ctx gen backend (qhash python question)) s) refl
    ]
  ]
    where
      go :
          (gen : ℕ)
          → (ttl == 0) ≡ false
          → generation python redis ctx.tenant_id s ≡ some gen
          → (a : Option (Option (Payload F)))
          → redis.answer now (user_key ctx gen backend (qhash python question)) s ≡ a
          → (b : Option (Option (Payload F)))
          → redis.answer now (tenant_key ctx gen backend (qhash python question)) s ≡ b
          → IsOwned P (lookup python redis now ctx question backend ttl s).1
      go gen e g none f b k = rw (e, g, f, lookup) h
      go gen e g (some (some p)) f b k = rw (e, g, f, lookup) (hit-IsOwned P ctx.tenant_id p s h)
      go gen e g (some none) f none k = rw (e, g, f, k, lookup) h
      go gen e g (some none) f (some (some p)) k =
          rw (e, g, f, k, lookup) (hit-IsOwned P ctx.tenant_id p s h)
      go gen e g (some none) f (some none) k = rw (e, g, f, k, lookup) (incr-IsOwned P _ s h)

  set-IsOwned :
      (P : Origin → Type 0) (now : ℕ) (o : Origin) (ttl : ℕ) (s : S)
      → P o
      → IsOwned P s
      → IsOwned P
          (redis.set now
            (store_key python redis o.owner o.done o.gen o.backend (qhash python o.question))
            (encode o.done o.owner.tenant_id)
            ttl
            s).1
  set-IsOwned P now o ttl s known h q r d e =
      elim (laws.set_writes now _ (encode o.done o.owner.tenant_id) ttl s q r d e) [
        | inl own ↦ (o, known, own)
        | inr old ↦ h q r d old
      ]

  store-IsOwned :
      (P : Origin → Type 0) (now : ℕ) (ctx : ToolContext) (question : Text) (done : DoneEvent F)
      (backend : Text) (ttl : ℕ) (s : S)
      → (plain : IsPlain ctx) → ((o : Origin) → IsStore ctx question done backend s o → P o)
      → IsOwned P s
      → IsOwned P (store python redis now ctx question done backend ttl s)
  unfolding store
  store-IsOwned P now ctx question done backend ttl s plain known h =
      elim (Bool-cases (ttl == 0 || (not (is_answered done.status) || done.needs_review))) [
        | inl e ↦ rw (e, store) h
        | inr e ↦ elim (Option-cases (generation python redis ctx.tenant_id s)) [
          | inl g ↦ rw (e, g, store) h
          | inr (gen, g) ↦
              rw (e, g, store)
                (let o : Origin = record {
                  owner = ctx;
                  plain = plain;
                  question = question;
                  backend = backend;
                  gen = gen;
                  done = done;
                  answered = ground arith;
                  settled = ground arith;
                } in
                  set-IsOwned P now o ttl s (known o (refl, refl, refl, refl, g)) h)
        ]
      ]

  pub Reach-IsOwned : (s : S) (r : Reach s) → IsOwned (WasStored s r) s
  unfolding bump_generation
  Reach-IsOwned s (start _ bare) = λ k p d e. absurd (none≢some (sym (bare k) ∙ e))
  Reach-IsOwned _ (looked s now ctx question backend ttl r) =
      lookup-IsOwned (WasStored s r) now ctx question backend ttl s (Reach-IsOwned s r)
  Reach-IsOwned _ (stored s now ctx question done backend ttl plain r) =
      store-IsOwned (λ o. IsStore ctx question done backend s o ⊎ WasStored s r o) now ctx question
        done backend ttl s plain (λ o known. inl known)
        (λ k p d e. let (o, known, from) = Reach-IsOwned s r k p d e in (o, inr known, from))
  Reach-IsOwned _ (bumped s tenant_id r) =
      incr-IsOwned (WasStored s r) (gen_key tenant_id) s (Reach-IsOwned s r)
