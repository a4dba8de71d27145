-- ===== src/Tests/AnswerCache.antt =====
-- A cache in two functions: an answer about the parking rules, and one that cites a notice.
use liviq.Base.{
  ℕ, suc, ◌+◌, ◌*◌, ◌≡◌, refl, inl, inr, ◌⊎◌, ltb, Bool, true, false, Option, none, some, List, [],
  ◌∷◌, if◌then◌else◌, Text, codes, text_eq, text_eq→eq, some_cancel, ◌==◌, arith, Bool-cases, join,
  contains, starts_with, ap, sym,
}
use liviq.Session.{live}
use liviq.Citations.{Citation}
use liviq.Registry.{ToolContext}
use liviq.Suggestions.{Status}
use liviq.Orchestrator.Types.{DoneEvent, AssistantEvent}
use liviq.Orchestrator.Endings.{EndsWell}
use liviq.AnswerCache.{Payload, Cache, Python, lookup, store, replay, normalize, words}
use liviq.AnswerCache.Codec.{cached_of}
use liviq.AnswerCache.Replayed.{CacheAnswers, lookup-store}
use liviq.AnswerCache.Owned.{CacheLaws}
use liviq.AnswerCache.Events.{replay-EndsWell}
use liviq.Tests.Orchestrator.{world}

pub record Tables : Type 0 where
  strings : Text → Option (Payload ℕ × ℕ)
  numbers : Text → Option ℕ

abbrev pub cache : Cache (Payload ℕ)
cache = record {
  S = Tables;
  count = λ k s. some (s.numbers k);
  answer = λ now k s. some (live now (s.strings k));
  incr = λ k s. (
    true,
    record s {
      numbers = λ q.
          if text_eq q k
          then elim (s.numbers q) [ none ↦ some 1 | some n ↦ some (suc n) ]
          else s.numbers q;
    },
  );
  set = λ now k p ttl s. (
    true,
    record s { strings = λ q. if text_eq q k then some (p, now + ttl * 1000) else s.strings q },
  );
}

abbrev cache-CacheAnswers : CacheAnswers cache
cache-CacheAnswers = record {
  entries = λ s k. s.strings k;
  counts = λ s k. s.numbers k;
  answer_reads = λ now k s. refl;
  count_reads = λ k s. refl;
  incr_answers = λ k s. refl;
  set_entries = λ now k p ttl s q. refl;
  set_counts = λ now k p ttl s q h. refl;
}

none≢some : {A : Type 0} {a : A} → none ≡ some a → ⊥
none≢some e = cc

live-entry :
    (now : ℕ) (o : Option (Payload ℕ × ℕ)) (p : Payload ℕ)
    → live now o ≡ some p
    → (d : ℕ) × (o ≡ some (p, d))
live-entry now none p e = cc
live-entry now (some (q, d)) p e = elim (Bool-cases (ltb now d)) [
  | inl lives ↦ (d, ap (λ (r : Payload ℕ). some (r, d)) (some_cancel (rw lives at e)))
  | inr gone ↦ absurd (none≢some (rw gone at e))
]

written :
    (b : Bool) (p r : Payload ℕ) (until d : ℕ) (o : Option (Payload ℕ × ℕ))
    → (if b then some (p, until) else o) ≡ some (r, d)
    → ((b ≡ true) × (r ≡ p)) ⊎ (o ≡ some (r, d))
written true p r until d o e = inl (refl, sym (ap (λ (x : Payload ℕ × ℕ). x.0) (some_cancel e)))
written false p r until d o e = inr e

abbrev cache-CacheLaws : CacheLaws cache
cache-CacheLaws = record {
  entries = λ s k. s.strings k;
  answer_stands = λ now k s p e. live-entry now (s.strings k) p (some_cancel e);
  incr_keeps = λ k s q. refl;
  set_writes = λ now k p ttl s q r d e.
      elim (written (text_eq q k) p r (now + ttl * 1000) d (s.strings q) e) [
        | inl own ↦ inl (text_eq→eq q k own.0, own.1)
        | inr old ↦ inr old
      ];
}

abbrev pub python : Python
python = record {
  is_space = λ c. c == 32;
  lower = λ s. s;
  sha256 = λ s. s;
  parse_uuid = λ s. if text_eq s (codes "None") then none else some s;
}

abbrev pub neighbour : ToolContext
neighbour = record {
  tenant_id = codes "t";
  user_id = codes "u";
  roles = codes "RESIDENT" ∷ [];
  visibilities = codes "ALL" ∷ codes "RESIDENT" ∷ [];
  building_id = some (codes "b");
  target_unit = none;
  target_query = none;
}

abbrev rules : Citation
rules = record {
  ref = 1;
  chunk_id = codes "c1";
  document_id = some (codes "d1");
  document_title = codes "Rules";
  quote = codes "Park backwards.";
  page = none;
  clause = none;
}

abbrev answer : DoneEvent ℕ
answer = record {
  status = Status.answered;
  confidence = 900;
  needs_review = false;
  usage = none;
  fallback_reason = none;
  citations = rules ∷ [];
  tool_citations = [];
  answer = codes "Backwards [1].";
  tool_path = [];
  suggestions = [];
}

-- A notice has no document.
abbrev notice_answer : DoneEvent ℕ
notice_answer = record answer { citations = record rules { document_id = none } ∷ [] }

abbrev pub empty : Tables
empty = record { strings = λ k. none; numbers = λ k. none }

abbrev asked : Text
asked = codes "how  do I park"

abbrev reasked : Text
reasked = codes "how do I park "

same_question : normalize python reasked ≡ normalize python asked
unfolding normalize words join
same_question = refl

-- The answer comes back to the neighbour a minute later.
abbrev one_stored : Tables
one_stored = store python cache 7 neighbour asked answer (codes "m") 600 empty

lookup-store_example :
    (lookup python cache 60007 neighbour reasked
      (codes "m")
      600
      (store python cache 7 neighbour asked notice_answer (codes "m") 600 empty)).0
    ≡ none
unfolding text_eq
lookup-store_example =
    lookup-store python cache cache-CacheAnswers 7 60000 600 neighbour asked reasked (codes "m")
      notice_answer empty (omega arith) refl refl same_question refl
      ((refl, λ id e. absurd (none≢some e)), tt) refl

replay-EndsWell_example :
    (events : List (AssistantEvent ℕ)) × (replay world (cached_of answer (codes "t")) (codes "t")
      ≡ some events)
    × EndsWell events
unfolding contains starts_with
replay-EndsWell_example = replay-EndsWell world answer (codes "t") (refl, refl, refl, refl)
