-- ===== src/AnswerCache.antt =====
-- apps/api/app/answer_cache.py: the answers that are kept in Redis, so that a question asked again is
-- replayed without a model. A value that went through `json.dumps` and `json.loads` is the record
-- that went in; a time to live that is zero or negative is 0.
pub mod Codec
pub mod Replayed
pub mod Keys
pub mod Owned
pub mod Isolated
pub mod Events
use liviq.Base.{
  ℕ, ◌≡◌, Bool, true, false, ◌&&◌, ◌||◌, not, Option, none, some, List, [], ◌∷◌, ◌++◌, map, any,
  if◌then◌else◌, ◌==◌, Text, codes, text_eq, mem_text, join, is_empty,
}
use liviq.Base.Decimal.{dec}
use liviq.Base.Sort.{sorted}
use liviq.Budget.{text_ltb}
use liviq.Citations.{Citation}
use liviq.Registry.{ToolContext}
use liviq.Suggestions.{Status, is_answered, suggest_next_actions}
use liviq.Orchestrator.Types.{
  World, ChatUsage, FallbackReason, ToolCitation, DoneEvent, AssistantEvent, Stage,
}
use liviq.Orchestrator.Judge.{citation_events}

pub record CachedAnswer (F : Type 0) : Type 0 where
  pub tenant_id : Text
  pub answer : Text
  pub status : Status
  pub confidence : F
  pub needs_review : Bool
  pub fallback_reason : Option FallbackReason
  pub tool_path : List Text
  pub citations : List Citation
  pub tool_citations : List ToolCitation

-- A citation in the JSON, where the ids are texts.
pub record CitationEntry : Type 0 where
  pub ref : ℕ
  pub chunk_id : Text
  pub document_id : Text
  pub document_title : Text
  pub quote : Text
  pub page : Option ℕ
  pub clause : Option Text

-- The JSON of an answer.
pub record Payload (F : Type 0) : Type 0 where
  pub tenant_id : Text
  pub answer : Text
  pub status : Status
  pub confidence : F
  pub needs_review : Bool
  pub fallback_reason : Option FallbackReason
  pub tool_path : List Text
  pub citations : List CitationEntry
  pub tool_citations : List ToolCitation

-- What the code uses of Redis. An answer is none for a `RedisError`, as is the flag of `incr`.
pub record Cache (P : Type 0) : Type 1 where
  pub S : Type 0
  pub count : Text → S → Option (Option ℕ)
  pub answer : ℕ → Text → S → Option (Option P)
  pub incr : Text → S → Bool × S
  pub set : ℕ → Text → P → ℕ → S → Bool × S

-- What the code uses of Python: `str.isspace` on a character, `str.lower`, SHA-256 in hexadecimal
-- digits, and `uuid.UUID` on a text.
pub record Python : Type 0 where
  pub is_space : ℕ → Bool
  pub lower : Text → Text
  pub sha256 : Text → Text
  pub parse_uuid : Text → Option Text

-- `str(x)` for an optional id
abbrev pub str_of : Option Text → Text
str_of none = codes "None"
str_of (some id) = id

abbrev pub entry_of : Citation → CitationEntry
entry_of c = record {
  ref = c.ref;
  chunk_id = c.chunk_id;
  document_id = str_of c.document_id;
  document_title = c.document_title;
  quote = c.quote;
  page = c.page;
  clause = c.clause;
}

unfoldable pub encode : {F : Type 0} → DoneEvent F → Text → Payload F
encode done tenant_id = record {
  tenant_id = tenant_id;
  answer = done.answer;
  status = done.status;
  confidence = done.confidence;
  needs_review = done.needs_review;
  fallback_reason = done.fallback_reason;
  tool_path = done.tool_path;
  citations = map entry_of done.citations;
  tool_citations = done.tool_citations;
}

abbrev pub personal_tools : List Text
personal_tools = codes "get_fees" ∷ codes "get_my_inquiries" ∷ []

unfoldable pub is_personal : List Text → Bool
is_personal tool_path = any (λ name. mem_text name personal_tools) tool_path

abbrev pub colon : Text
colon = 58 ∷ []

abbrev pub key_prefix : Text
key_prefix = codes "cache:ans:"

abbrev pub gen_key : Text → Text
gen_key tenant_id = codes "cache:gen:" ++ tenant_id

-- `_user_key`, with the generation, the backend and the hash of the question
unfoldable pub user_key : ToolContext → ℕ → Text → Text → Text
user_key ctx gen backend qhash =
    (key_prefix ++ codes "u:")
    ++ (ctx.tenant_id
        ++ (58 ∷ (ctx.user_id ++ (58 ∷ (dec gen ++ (58 ∷ (backend ++ (58 ∷ qhash))))))))

-- `ctx.building_id or "-"`
abbrev pub building_of : ToolContext → Text
building_of ctx = elim ctx.building_id [ none ↦ codes "-" | some id ↦ id ]

abbrev pub joined : List Text → Text
joined names = join (codes ",") (sorted text_ltb names)

unfoldable pub tenant_key : ToolContext → ℕ → Text → Text → Text
tenant_key ctx gen backend qhash =
    (key_prefix ++ codes "t:")
    ++ (ctx.tenant_id
        ++ (58
            ∷ (joined ctx.roles
                ++ (58
                    ∷ (joined ctx.visibilities
                        ++ (58
                            ∷ (building_of ctx
                                ++ (58 ∷ (dec gen ++ (58 ∷ (backend ++ (58 ∷ qhash))))))))))))

module _ (python : Python) where
  open python use {is_space, lower, sha256, parse_uuid}

  -- `question.split()`, the word that is read first
  unfoldable pub words : Text → Text → List Text
  words current [] = if is_empty current then [] else current ∷ []
  words current (c ∷ s) =
      let rest = words (if is_space c then [] else current ++ (c ∷ [])) s in
      if is_space c && not (is_empty current) then current ∷ rest else rest

  unfoldable pub normalize : Text → Text
  normalize question = lower (join (codes " ") (words [] question))

  unfoldable pub qhash : Text → Text
  qhash question = sha256 (normalize question)

  unfoldable pub read_entry : CitationEntry → Option Citation
  read_entry c = elim (parse_uuid c.chunk_id) [
    | none ↦ none
    | some chunk_id ↦ elim (parse_uuid c.document_id) [
      | none ↦ none
      | some document_id ↦ some (record {
        ref = c.ref;
        chunk_id = chunk_id;
        document_id = some document_id;
        document_title = c.document_title;
        quote = c.quote;
        page = c.page;
        clause = c.clause;
      })
    ]
  ]

  unfoldable pub read_entries : List CitationEntry → Option (List Citation)
  read_entries [] = some []
  read_entries (c ∷ cs) =
      let rest = read_entries cs in
      elim (read_entry c) [
        | none ↦ none
        | some citation ↦ elim rest [ none ↦ none | some citations ↦ some (citation ∷ citations) ]
      ]

  unfoldable pub decode : {F : Type 0} → Payload F → Option (CachedAnswer F)
  decode p = elim (read_entries p.citations) [
    | none ↦ none
    | some citations ↦ some (record {
      tenant_id = p.tenant_id;
      answer = p.answer;
      status = p.status;
      confidence = p.confidence;
      needs_review = p.needs_review;
      fallback_reason = p.fallback_reason;
      tool_path = p.tool_path;
      citations = citations;
      tool_citations = p.tool_citations;
    })
  ]

  module _ {F : Type 0} (redis : Cache (Payload F)) where
    open redis use {S}

    -- `_generation`: 0 where there is no counter
    unfoldable pub generation : Text → S → Option ℕ
    generation tenant_id s = elim (redis.count (gen_key tenant_id) s) [
      | none ↦ none
      | some none ↦ some 0
      | some (some n) ↦ some n
    ]

    -- A payload that was found is counted, then read.
    unfoldable pub hit : Text → Payload F → S → Option (CachedAnswer F) × S
    hit tenant_id p s =
        let (answered, t) = redis.incr (codes "cache:hits:" ++ tenant_id) s in
        (if answered then decode p else none, t)

    unfoldable pub lookup : ℕ → ToolContext → Text → Text → ℕ → S → Option (CachedAnswer F) × S
    lookup now ctx question backend ttl s =
        if ttl == 0 then (none, s) else elim (generation ctx.tenant_id s) [
          | none ↦ (none, s)
          | some gen ↦ elim (redis.answer now (user_key ctx gen backend (qhash question)) s) [
            | none ↦ (none, s)
            | some (some p) ↦ hit ctx.tenant_id p s
            | some none ↦ elim (redis.answer now (tenant_key ctx gen backend (qhash question)) s) [
              | none ↦ (none, s)
              | some (some p) ↦ hit ctx.tenant_id p s
              | some none ↦ (none, (redis.incr (codes "cache:misses:" ++ ctx.tenant_id) s).1)
            ]
          ]
        ]

    abbrev pub store_key : ToolContext → DoneEvent F → ℕ → Text → Text → Text
    store_key ctx done gen backend qhash =
        if is_personal done.tool_path
        then user_key ctx gen backend qhash
        else tenant_key ctx gen backend qhash

    unfoldable pub store : ℕ → ToolContext → Text → DoneEvent F → Text → ℕ → S → S
    store now ctx question done backend ttl s =
        if ttl == 0 || (not (is_answered done.status) || done.needs_review)
        then s
        else elim (generation ctx.tenant_id s) [
          | none ↦ s
          | some gen ↦
              (redis.set now (store_key ctx done gen backend (qhash question))
                (encode done ctx.tenant_id) ttl s).1
        ]

    unfoldable pub bump_generation : Text → S → S
    bump_generation tenant_id s = (redis.incr (gen_key tenant_id) s).1

-- The final event of a replay: no token was used, and the suggestions are made anew.
abbrev pub replayed_done : {F : Type 0} → CachedAnswer F → DoneEvent F
replayed_done cached = record {
  status = cached.status;
  confidence = cached.confidence;
  needs_review = cached.needs_review;
  usage = some (record { input_tokens = 0; output_tokens = 0; estimated = false });
  fallback_reason = cached.fallback_reason;
  citations = cached.citations;
  tool_citations = cached.tool_citations;
  answer = cached.answer;
  tool_path = cached.tool_path;
  suggestions = suggest_next_actions cached.tool_path cached.status;
}

abbrev pub replay_events : (w : World) → CachedAnswer w.float.F → List (AssistantEvent w.float.F)
replay_events w cached =
    AssistantEvent.status Stage.searching none
    ∷ AssistantEvent.status Stage.generating none
    ∷ AssistantEvent.token cached.answer
    ∷ AssistantEvent.status Stage.verifying none
    ∷ (citation_events w cached.citations cached.tool_citations
        ++ (AssistantEvent.finish (replayed_done cached) ∷ []))

-- The events of a hit; none is `CacheIsolationError`.
unfoldable pub replay :
    (w : World) → CachedAnswer w.float.F → Text → Option (List (AssistantEvent w.float.F))
replay w cached tenant_id =
    if text_eq cached.tenant_id tenant_id then some (replay_events w cached) else none
