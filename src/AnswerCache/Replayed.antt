-- ===== src/AnswerCache/Replayed.antt =====
-- What comes back of an answer that was stored.
use liviq.Base.{
  ℕ, ◌+◌, ◌*◌, ◌<◌, ◌≡◌, refl, ap, ◌∙◌, true, false, ◌||◌, not, Option, none, some, ◌++◌,
  if◌then◌else◌, ◌==◌, ltb, Text, codes, text_eq, text_eq_refl, arith, All, Bool-cases,
  Option-cases, ◌⊎◌, inl, inr,
}
use liviq.Session.{live}
use liviq.Registry.{ToolContext}
use liviq.Suggestions.{is_answered}
use liviq.Orchestrator.Types.{DoneEvent}
use liviq.AnswerCache.{
  Payload, Cache, Python, encode, is_personal, gen_key, user_key, tenant_key, normalize, qhash,
  decode, generation, hit, lookup, store_key, store,
}
use liviq.AnswerCache.Codec.{cached_of, all_documents, IsParsed, decode-encode}

-- A Redis that answers: strings with their deadlines, and counters.
pub record CacheAnswers {P : Type 0} (redis : Cache P) : Type 0 where
  pub entries : redis.S → Text → Option (P × ℕ)
  pub counts : redis.S → Text → Option ℕ
  pub answer_reads :
      (now : ℕ) (k : Text) (s : redis.S) → redis.answer now k s ≡ some (live now (entries s k))
  pub count_reads : (k : Text) (s : redis.S) → redis.count k s ≡ some (counts s k)
  pub incr_answers : (k : Text) (s : redis.S) → (redis.incr k s).0 ≡ true
  pub set_entries :
      (now : ℕ) (k : Text) (p : P) (ttl : ℕ) (s : redis.S) (q : Text)
      → entries (redis.set now k p ttl s).1 q
        ≡ (if text_eq q k then some (p, now + ttl * 1000) else entries s q)
  pub set_counts :
      (now : ℕ) (k : Text) (p : P) (ttl : ℕ) (s : redis.S) (q : Text)
      → text_eq q k ≡ false
      → counts (redis.set now k p ttl s).1 q ≡ counts s q

module _ (python : Python) where
  open python use {parse_uuid}

  module _ {F : Type 0} (redis : Cache (Payload F)) (answers : CacheAnswers redis) where
    open redis use {S}

    -- The generation that the counter shows.
    abbrev pub generation_of : Text → S → ℕ
    generation_of tenant_id s = elim (answers.counts s (gen_key tenant_id)) [
      | none ↦ 0
      | some n ↦ n
    ]

    generation-some :
        (tenant_id : Text) (s : S)
        → generation python redis tenant_id s ≡ some (generation_of tenant_id s)
    unfolding generation
    generation-some tenant_id s = elim (Option-cases (answers.counts s (gen_key tenant_id))) [
      | inl e ↦ rw (answers.count_reads (gen_key tenant_id) s, e, generation, generation_of) refl
      | inr (n, e) ↦
          rw (answers.count_reads (gen_key tenant_id) s, e, generation, generation_of) refl
    ]

    -- The counter of the generation is no answer.
    gen_key_differs :
        (t : Text) (ctx : ToolContext) (done : DoneEvent F) (gen : ℕ) (backend qhash : Text)
        → text_eq (gen_key t) (store_key python redis ctx done gen backend qhash) ≡ false
    unfolding user_key tenant_key text_eq
    gen_key_differs t ctx done gen backend qhash = elim (Bool-cases (is_personal done.tool_path)) [
      | inl e ↦ rw e refl
      | inr e ↦ rw e refl
    ]

    user_key_differs :
        (ctx : ToolContext) (gen : ℕ) (backend qhash : Text)
        → text_eq (user_key ctx gen backend qhash) (tenant_key ctx gen backend qhash) ≡ false
    unfolding user_key tenant_key text_eq
    user_key_differs ctx gen backend qhash = refl

    hit-decode :
        (tenant_id : Text) (p : Payload F) (s : S)
        → (hit python redis tenant_id p s).0 ≡ decode python p
    unfolding hit
    hit-decode tenant_id p s = rw (answers.incr_answers (codes "cache:hits:" ++ tenant_id) s) refl

    -- What a lookup at these two keys finds: the user's answer, or else the complex's.
    abbrev pub IsFound : ℕ → ToolContext → ℕ → Text → Text → S → Payload F → Type 0
    IsFound now ctx gen backend qhash s p =
        (live now (answers.entries s (user_key ctx gen backend qhash)) ≡ some p)
        ⊎ ((live now (answers.entries s (user_key ctx gen backend qhash)) ≡ none)
            × (live now (answers.entries s (tenant_key ctx gen backend qhash)) ≡ some p))

    lookup-hit :
        (now : ℕ) (ctx : ToolContext) (question backend : Text) (ttl : ℕ) (s : S) (p : Payload F)
        (gen : ℕ) (h : Text)
        → 0 < ttl
        → generation_of ctx.tenant_id s ≡ gen
        → qhash python question ≡ h
        → IsFound now ctx gen backend h s p
        → (lookup python redis now ctx question backend ttl s).0 ≡ decode python p
    unfolding lookup
    lookup-hit now ctx question backend ttl s p gen h positive same_gen same_hash found =
        let off : (ttl == 0) ≡ false = ground arith in
        let known = generation-some ctx.tenant_id s ∙ ap some same_gen in
        let user = answers.answer_reads now (user_key ctx gen backend h) s in
        let tenant = answers.answer_reads now (tenant_key ctx gen backend h) s in
        elim found [
          | inl e ↦ rw (off, known, same_hash, user, e, lookup) (hit-decode ctx.tenant_id p s)
          | inr (n, e) ↦
              rw (off, known, same_hash, user, n, same_hash, tenant, e, lookup)
                (hit-decode ctx.tenant_id p s)
        ]

    live_new :
        (now wait ttl : ℕ) (p : Payload F)
        → wait < ttl * 1000
        → live (now + wait) (some (p, now + ttl * 1000)) ≡ some p
    live_new now wait ttl p h =
        let lives : ltb (now + wait) (now + ttl * 1000) ≡ true = ground arith in rw lives refl

    -- What stands in the store behind `store`.
    store-set :
        (now : ℕ) (ctx : ToolContext) (question backend : Text) (ttl : ℕ) (done : DoneEvent F)
        (s : S)
        → 0 < ttl
        → is_answered done.status ≡ true
        → done.needs_review ≡ false
        → store python redis now ctx question done backend ttl s
          ≡ (redis.set now
              (store_key python redis ctx done
                (generation_of ctx.tenant_id s)
                backend
                (qhash python question))
              (encode done ctx.tenant_id)
              ttl
              s).1
    unfolding store
    store-set now ctx question backend ttl done s positive e f =
        let off : (ttl == 0) ≡ false = ground arith in
        let passes : (ttl == 0 || (not (is_answered done.status) || done.needs_review)) ≡ false =
          rw (off, e, f) refl in
        rw (passes, generation-some ctx.tenant_id s) refl

    generation_of-set :
        (now : ℕ) (k : Text) (p : Payload F) (ttl : ℕ) (s : S) (t : Text)
        → text_eq (gen_key t) k ≡ false
        → generation_of t (redis.set now k p ttl s).1 ≡ generation_of t s
    generation_of-set now k p ttl s t h =
        ap (λ (o : Option ℕ). elim o [ none ↦ 0 | some n ↦ n ])
          (answers.set_counts now k p ttl s (gen_key t) h)

    set_own :
        (now wait ttl : ℕ) (k : Text) (p : Payload F) (s : S)
        → wait < ttl * 1000
        → live (now + wait) (answers.entries (redis.set now k p ttl s).1 k) ≡ some p
    set_own now wait ttl k p s h =
        rw (answers.set_entries now k p ttl s k, text_eq_refl k) (live_new now wait ttl p h)

    set-IsFound :
        (now wait ttl : ℕ) (ctx : ToolContext) (done : DoneEvent F) (gen : ℕ) (backend h : Text)
        (p : Payload F) (s : S)
        → wait < ttl * 1000
        → live (now + wait) (answers.entries s (user_key ctx gen backend h)) ≡ none
        → IsFound
            (now + wait)
            ctx
            gen
            backend
            h
            (redis.set now (store_key python redis ctx done gen backend h) p ttl s).1
            p
    set-IsFound now wait ttl ctx done gen backend h p s short free =
        elim (Bool-cases (is_personal done.tool_path)) [
          | inl e ↦ inl (rw e (set_own now wait ttl (user_key ctx gen backend h) p s short))
          | inr e ↦ inr (
            rw
                (
                  e,
                  answers.set_entries now (tenant_key ctx gen backend h) p ttl s
                      (user_key ctx gen backend h),
                  user_key_differs ctx gen backend h,
                )
                free,
            rw e (set_own now wait ttl (tenant_key ctx gen backend h) p s short),
          )
        ]

    -- A Redis that answers, ids that `uuid.UUID` reads as they are, and no own answer of the user in
    -- the way: an answer that was stored comes back for the same question up to white space and
    -- case, as long as it lives, if each of its citations is of a document. An answer that cites a
    -- notice, which has no document, is stored but never comes back.
    pub lookup-store :
        (now wait ttl : ℕ) (ctx : ToolContext) (question asked backend : Text) (done : DoneEvent F)
        (s : S)
        → wait < ttl * 1000
        → is_answered done.status ≡ true
        → done.needs_review ≡ false
        → normalize python asked ≡ normalize python question
        → live (now + wait) (
            answers.entries s
              (user_key ctx (generation_of ctx.tenant_id s) backend (qhash python question)))
          ≡ none
        → All (IsParsed parse_uuid) done.citations
        → parse_uuid (codes "None") ≡ none
        → (lookup python redis
            (now + wait)
            ctx
            asked
            backend
            ttl
            (store python redis now ctx question done backend ttl s)).0
          ≡ (if all_documents done.citations then some (cached_of done ctx.tenant_id) else none)
    unfolding qhash
    lookup-store now wait ttl ctx question asked backend done s short e f same free parsed strange =
        let positive : 0 < ttl = omega (arith, short) in
        let h = qhash python question in
        let g = generation_of ctx.tenant_id s in
        let k = store_key python redis ctx done g backend h in
        let p = encode done ctx.tenant_id in
        let t = (redis.set now k p ttl s).1 in
        let later =
          generation_of-set now k p ttl s ctx.tenant_id
            (gen_key_differs ctx.tenant_id ctx done g backend h) in
        rw (store-set now ctx question backend ttl done s positive e f) (
          lookup-hit (now + wait) ctx asked backend ttl t p g h positive later
            (ap python.sha256 same) (set-IsFound now wait ttl ctx done g backend h p s short free)
          ∙ decode-encode python strange done ctx.tenant_id parsed)
