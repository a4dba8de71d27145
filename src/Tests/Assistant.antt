-- ===== src/Tests/Assistant.antt =====
-- A resident who asks on in a conversation, and someone else's conversation.
use liviq.Base.{ℕ, ◌≡◌, refl, true, false, none, some, [], ◌∷◌, Text, codes, text_eq}
use liviq.Http.{refused, ◌>>=◌, gets, or_refuse, refuse}
use liviq.Access.{RequestContext}
use liviq.Assistant.{Conversation, Prompts}
use liviq.Assistant.Rows.{load_or_create_conversation}
use liviq.Assistant.Exchange.{AskRequest, Given, Server}
use liviq.Assistant.Respond.{State, continued, assistant_response}
use liviq.Assistant.Saved.{IsSaved, assistant_response-IsSaved}
use liviq.Tests.Orchestrator.{world}
use liviq.Tests.Registry.{tools}
use liviq.Tests.AnswerCache.{cache, python, empty}

abbrev prompts : Prompts
prompts = record {
  answer = codes "answer";
  agent = codes "agent";
  facility_answer = codes "facility";
  admin_answer = codes "admin";
  admin_unit = codes "unit";
  admin_ask_unit = codes "which unit";
}

abbrev server : Server ℕ Text
server = record {
  registry = tools;
  graph_available = false;
  prompts = prompts;
  unit_search = λ s. none;
  int = λ s. 0;
  backend = codes "m";
  answer_cache_ttl_s = 600;
  tool_confidence = 700;
}

abbrev caller : RequestContext
caller = record {
  tenant_id = codes "t";
  user_id = codes "u";
  roles = codes "RESIDENT" ∷ [];
  visibilities = codes "ALL" ∷ codes "RESIDENT" ∷ [];
}

abbrev own : Conversation
own = record {
  id = codes "k1";
  tenant_id = codes "t";
  user_id = codes "u";
  channel = codes "resident";
  updated_at = 3;
}

abbrev start : State world python cache server
start = record {
  db = record {
    conversations = own ∷ record own { id = codes "k2"; user_id = codes "v" } ∷ [];
    messages = [];
    citations = [];
    users = [];
    households = [];
  };
  cache = empty;
}

abbrev asks : Text → AskRequest
asks id = record { question = codes "parking?"; conversation_id = some id; allow_clarify = true }

abbrev given : Given
given = record {
  conversation_id = codes "k3";
  question_id = codes "m1";
  answer_id = codes "m2";
  now = 9;
}

stranger_is_refused :
    assistant_response world python cache server caller
      (codes "resident")
      (codes "answer")
      false
      (asks (codes "k2"))
      given
      start
    ≡ (refused 404 (codes "대화 없음"), start)
unfolding assistant_response continued load_or_create_conversation ◌>>=◌ gets or_refuse refuse
    text_eq
stranger_is_refused = refl

assistant_response-IsSaved_example :
    IsSaved world python cache server caller (codes "resident") (asks (codes "k1")) given start (
      assistant_response world python cache server caller
        (codes "resident")
        (codes "answer")
        false
        (asks (codes "k1"))
        given
        start)
assistant_response-IsSaved_example =
    assistant_response-IsSaved world python cache server caller (codes "resident") (codes "answer")
      false (asks (codes "k1")) given start
