-- ===== src/AnswerCache/Codec.antt =====
-- An answer through its JSON: what comes out of what went in.
use liviq.Base.{
  ◌≡◌, refl, Bool, true, ◌&&◌, Option, none, some, List, [], ◌∷◌, map, if◌then◌else◌, Text, codes,
  All, is_some, Bool-cases, inl, inr,
}
use liviq.Citations.{Citation}
use liviq.Orchestrator.Types.{DoneEvent}
use liviq.AnswerCache.{CachedAnswer, Python, entry_of, encode, read_entry, read_entries, decode}

-- The answer as it was, with the complex.
abbrev pub cached_of : {F : Type 0} → DoneEvent F → Text → CachedAnswer F
cached_of done tenant_id = record {
  tenant_id = tenant_id;
  answer = done.answer;
  status = done.status;
  confidence = done.confidence;
  needs_review = done.needs_review;
  fallback_reason = done.fallback_reason;
  tool_path = done.tool_path;
  citations = done.citations;
  tool_citations = done.tool_citations;
}

-- Whether every citation is of a document; a notice has none.
abbrev pub all_documents : List Citation → Bool
all_documents [] = true
all_documents (c ∷ cs) = is_some c.document_id && all_documents cs

-- `uuid.UUID` reads the ids of a citation as they are.
abbrev pub IsParsed : (Text → Option Text) → Citation → Type 0
IsParsed parse_uuid c =
    (parse_uuid c.chunk_id ≡ some c.chunk_id)
    × ((id : Text) → c.document_id ≡ some id → parse_uuid id ≡ some id)

module _ (python : Python) where
  open python use {parse_uuid}

  module _ (strange : parse_uuid (codes "None") ≡ none) where
    read_entry-entry_of :
        (c : Citation)
        → IsParsed parse_uuid c
        → read_entry python (entry_of c) ≡ (if is_some c.document_id then some c else none)
    unfolding read_entry
    read_entry-entry_of c h = go c.document_id h.1
      where
        go :
            (o : Option Text)
            → ((id : Text) → o ≡ some id → parse_uuid id ≡ some id)
            → read_entry python (entry_of (record c { document_id = o }))
              ≡ (if is_some o then some (record c { document_id = o }) else none)
        go none g = rw (h.0, strange, read_entry) refl
        go (some id) g = rw (h.0, g id refl, read_entry) refl

    read_entries-entries :
        (cs : List Citation)
        → All (IsParsed parse_uuid) cs
        → read_entries python (map entry_of cs) ≡ (if all_documents cs then some cs else none)
    unfolding read_entries
    read_entries-entries [] h = refl
    read_entries-entries (c ∷ cs) h = elim (Bool-cases (is_some c.document_id)) [
      | inr e ↦ rw (read_entry-entry_of c h.0, e, read_entries) refl
      | inl e ↦ elim (Bool-cases (all_documents cs)) [
        | inl f ↦
            rw (read_entry-entry_of c h.0, e, read_entries-entries cs h.1, f, read_entries) refl
        | inr f ↦
            rw (read_entry-entry_of c h.0, e, read_entries-entries cs h.1, f, read_entries) refl
      ]
    ]

    pub decode-encode :
        {F : Type 0} (done : DoneEvent F) (tenant_id : Text)
        → All (IsParsed parse_uuid) done.citations
        → decode python (encode done tenant_id)
          ≡ (if all_documents done.citations then some (cached_of done tenant_id) else none)
    unfolding decode encode
    decode-encode done tenant_id h = elim (Bool-cases (all_documents done.citations)) [
      | inl e ↦ rw (read_entries-entries done.citations h, e, decode) refl
      | inr e ↦ rw (read_entries-entries done.citations h, e, decode) refl
    ]
