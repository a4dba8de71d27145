-- ===== src/Assistant/Endpoints.antt =====
-- apps/api/app/routers/assistant.py: the requests themselves, who may make them, and the rate limit
-- of apps/api/app/rate_limit.py, which FastAPI runs before the roles are checked.
use liviq.Base.{Bool, true, false, List, [], ◌∷◌, ℕ, if◌then◌else◌, Text, codes}
use liviq.Http.{ok, refused, Action, gets, ◌>>=◌, ◌>>◌}
use liviq.Access.{RequestContext, require_roles}
use liviq.RateLimit.{Counters, check_rate_limit}
use liviq.Orchestrator.Types.{World}
use liviq.AnswerCache.{Payload, Cache, Python}
use liviq.Assistant.Rows.{Restored, latest_conversation}
use liviq.Assistant.Exchange.{AskRequest, Given, Server, Sse}
use liviq.Assistant.Respond.{State, assistant_response}

abbrev pub admin_assistant_roles : List Text
admin_assistant_roles = codes "MANAGER" ∷ []

abbrev pub facility_assistant_roles : List Text
facility_assistant_roles = codes "MANAGER" ∷ []

abbrev pub too_many : Text
too_many = codes "요청이 너무 많습니다. 잠시 후 다시 시도해 주세요."

-- The limits of the settings, the time of the request, and the window of its minute.
pub record Limits : Type 0 where
  pub user_limit : ℕ
  pub tenant_limit : ℕ
  pub now : ℕ
  pub window : Text

module _ (w : World) (python : Python) (redis : Cache (Payload w.float.F)) (counters : Counters)
    {A : Type 0} (server : Server w.float.F A) where
  open w use {float}

  abbrev pub Answer : Type 0
  Answer = List (Sse float.F) × Bool

  pub record Site : Type 0 where
    pub state : State w python redis server
    pub requests : counters.S

  unfoldable pub enforce_rate_limit : Limits → RequestContext → Action Site (Unit {0})
  enforce_rate_limit limits ctx s =
      let (passes, t) =
        check_rate_limit counters limits.now limits.window ctx.user_id ctx.tenant_id
          limits.user_limit limits.tenant_limit s.requests in
      (if passes then ok tt else refused 429 too_many, record s { requests = t })

  unfoldable pub answered :
      RequestContext → Text → Text → Bool → AskRequest → Given → Action Site Answer
  answered ctx channel answer_prompt admin body given s =
      let (r, t) =
        assistant_response w python redis server ctx channel answer_prompt admin body given
          s.state in
      (r, record s { state = t })

  unfoldable pub ask : Limits → RequestContext → AskRequest → Given → Action Site Answer
  ask limits ctx body given = do
    enforce_rate_limit limits ctx
    answered ctx (codes "resident") server.prompts.answer false body given

  unfoldable pub admin_ask : Limits → RequestContext → AskRequest → Given → Action Site Answer
  admin_ask limits ctx body given = do
    enforce_rate_limit limits ctx
    manager ← require_roles admin_assistant_roles ctx
    answered manager (codes "admin") server.prompts.answer true body given

  unfoldable pub facility_assistant :
      Limits → RequestContext → AskRequest → Given → Action Site Answer
  facility_assistant limits ctx body given = do
    enforce_rate_limit limits ctx
    manager ← require_roles facility_assistant_roles ctx
    answered manager (codes "admin") server.prompts.facility_answer false body given

  unfoldable pub own_latest_conversation :
      (ℕ → Bool) → RequestContext → Action Site (Restored float.F)
  own_latest_conversation is_today ctx =
      gets (λ s. latest_conversation is_today ctx (codes "resident") false s.state.db)

  unfoldable pub admin_latest_conversation :
      (ℕ → Bool) → RequestContext → Action Site (Restored float.F)
  admin_latest_conversation is_today ctx = do
    manager ← require_roles admin_assistant_roles ctx
    gets (λ s. latest_conversation is_today manager (codes "admin") true s.state.db)
