-- ===== src/Lib.antt =====
-- The decision core of LIVIQ, an assistant for apartment complexes, as executable definitions with
-- theorems about them.
--
-- The parts and how they interact. A question enters `answer_question`
-- (packages/ai-core/src/ai_core/orchestrator.py). The question and the relevant part of the
-- conversation (history.py) are masked (masking/masker.py, masking/gate.py) before a model sees
-- them. In at most four decision turns the model asks for tools; the registry (tools/registry.py)
-- shows and runs only what the caller's roles may see, and each result is masked before it goes
-- back to the model. The evidence is cut to a token budget (budget/context.py, llm/tokens.py), the
-- answer is streamed behind a gate, its references are checked (citations.py), and the confidence
-- (confidence.py) decides between an answer and a fallback with suggestions (suggestions.py).
-- Around this stand the sessions (apps/api/app/session.py), the rate limit
-- (apps/api/app/rate_limit.py), the check of each request (apps/api/app/deps.py), the router that takes
-- a question, keeps its answer (apps/api/app/routers/assistant.py) and may replay an earlier one
-- (apps/api/app/answer_cache.py), the inquiries of residents (apps/api/app/routers/inquiries.py), the HTTP client of the model (llm/client.py), the chunks that
-- documents are cut into (rag/chunking.py), and the parking geometry (parking/geometry.py).
--
-- Which file models which part, with paths below packages/ai-core/src/ai_core/ unless they say
-- otherwise:
--   Orchestrator  orchestrator.py, rag/prompt.py: Types has the events and the world, Texts the
--                 prompts and gates, Loop the decision turns, Evidence and Judge what follows,
--                 Answer the whole run; Steps restates the loop as a relation of single changes,
--                 and Sent, Outgoing, Gathered, Shown, Turns, Rounds, Streaming, Endings and Ends prove.
--   Masking       masking/masker.py, masking/gate.py
--   Registry      tools/registry.py
--   Citations     citations.py
--   Budget        budget/context.py; Tokens llm/tokens.py; Retrieval the records of rag/retrieval.py
--   Confidence    confidence.py; Suggestions suggestions.py; Clarify tools/clarify.py
--   History       history.py
--   Chunking      rag/chunking.py
--   Parking       parking/geometry.py
--   LlmClient     llm/client.py; FeePeriods the months of tools/fees_common.py;
--                 FeeComparison tools/fees_compare.py, with Arguments, Answer, and Disclosed on amounts
--   Session       apps/api/app/session.py; RateLimit apps/api/app/rate_limit.py, with
--                 Counting the counters of Redis and Bound the limits
--   Access        apps/api/app/deps.py: who makes a request, and what that person may see
--   Http          how a handler of apps/api answers, and the rules to reason about its steps
--   Assistant     apps/api/app/routers/assistant.py: Rows the tables, Exchange what is asked and
--                 sent, Respond a question with its stream, Endpoints the requests, Saved what
--                 a question leaves behind; FloorPlan tools/floor_plan_parser.py
--   AnswerCache   apps/api/app/answer_cache.py: Codec the JSON, Replayed what comes back, Keys, Owned
--                 and Isolated whose answer it may be, Events the replay
--   Inquiries     apps/api/app/routers/inquiries.py, apps/api/app/code_refs.py: Handlers and Reads
--                 have the requests, Timeline the life of an inquiry as a machine over its events;
--                 Changes, Moves, Requests, Events, Tracked and Reach show that the tables follow
--                 the machine, Views what a person can read.
--   Base          numbers, lists, texts, sorting and floats that the parts share; Tests the inputs
--                 at which the theorems are applied.
--
-- How the code is modelled. A text is the list of its code points. Python's generators are lists of
-- events, exceptions are none or a case of a result type, and the local variables of the loop are
-- the record LoopState; its fields `sent` and `executed`, which no code reads, note the conversations
-- that go to the model and the calls that are executed. Regular expressions, JSON, Pydantic, HTTP,
-- Redis, the model's endpoint, what a tool does, how numbers are printed, and Python's
-- tables of characters are parameters; where a theorem needs their documented behaviour, it takes
-- it as a named hypothesis (FloatLaws, RedisLaws, CounterLaws, CacheLaws, CacheAnswers,
-- ReadsDecimals), and Tests has a function that fulfils it. Floats are a record of operations, on a range without NaN. Times are
-- whole milliseconds, and negative limits count as 0.
--
-- Bounds and fuel. The loop of decision turns recurses on the steps that are left, four at first as
-- in the code, so its fuel is the code's own bound. The search for an unused plate takes one round
-- more than there are used plates, and is proved to find one. Everything else recurses on its data.
--
-- Not modelled: SQL and row-level security, the graph client, the other routers and the worker, which
-- are glue over a database or a queue, the web front ends, and logging.
pub mod Base
pub mod Http
pub mod Access
pub mod Inquiries
pub mod AnswerCache
pub mod FeeComparison
pub mod FloorPlan
pub mod Assistant
pub mod Tokens
pub mod Budget
pub mod Confidence
pub mod Suggestions
pub mod Retrieval
pub mod Session
pub mod FeePeriods
pub mod LlmClient
pub mod RateLimit
pub mod Chunking
pub mod Citations
pub mod Registry
pub mod History
pub mod Clarify
pub mod Orchestrator
pub mod Parking
pub mod Masking
pub mod Tests
