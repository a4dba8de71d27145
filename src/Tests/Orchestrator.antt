-- ===== src/Tests/Orchestrator.antt =====
-- A resident asks for the bill: the model calls one tool, then answers in two deltas.
use liviq.Base.{
  ℕ, zero, suc, ◌+◌, ◌≤◌, ◌≡◌, true, false, ◌&&◌, ◌||◌, not, is_some, mem_text, text_eq, none, some,
  List, [], ◌∷◌, length, Text, codes,
}
use liviq.Registry.{make_registry, get_visible}
use liviq.Clarify.{clarify_tool_name}
use liviq.Orchestrator.Shown.{spec_names, mem-shown_specs}
use liviq.Orchestrator.Types.{World, ChatReply, ChatUsage, StreamEnd}
use liviq.Orchestrator.Texts.{max_tool_steps}
use liviq.Orchestrator.Loop.{decide}
use liviq.Orchestrator.Evidence.{Ask, Trace, stream_deltas}
use liviq.Orchestrator.Answer.{answer_question, first_state, shown_specs}
use liviq.Orchestrator.Outgoing.{AllSent, answer_question-sends_masked}
use liviq.Orchestrator.Rounds.{length-sent_answer_question}
use liviq.Orchestrator.Streaming.{joined_text, shown, joined_text-stream_deltas}
use liviq.Orchestrator.Gathered.{IsAuthorized, decide-IsAuthorized}
use liviq.Orchestrator.Ends.{Completes, answer_question-Completes}
use liviq.Tests.World.{thousandths, engine, is_space, is_word, digit}
use liviq.Tests.Registry.{tools, resident, call}

abbrev pub spent : ChatUsage
spent = record { input_tokens = 10; output_tokens = 2; estimated = false }

abbrev pub replies : ℕ → ChatReply
replies zero = ChatReply.reply (record { text = []; usage = spent; tool_calls = call ∷ [] })
replies (suc n) = ChatReply.reply (record { text = []; usage = spent; tool_calls = [] })

abbrev pub deltas : List Text
deltas = codes " Your" ∷ codes " bill is 10." ∷ []

abbrev pub world : World
world = record {
  float = thousandths;
  engine = engine;
  is_space = is_space;
  is_word = is_word;
  digit = digit;
  normal_args = λ s. some s;
  clarify_args = λ s. none;
  chat = λ n messages specs. replies n;
  chat_stream = λ messages guided. (deltas, StreamEnd.finished);
  quote_first = false;
  today = codes "2026-01-01";
}

abbrev ask : Ask ℕ
ask = record {
  question = codes "My bill? 010-1234-5678";
  history = [];
  allow_clarify = true;
  extra_names = codes "Kim" ∷ [];
  answer_prompt = codes "Answer.";
  agent_prompt = codes "Decide.";
  exclude_tools = [];
  tool_confidence = 900;
}

abbrev trace : Trace ℕ
trace = answer_question world (make_registry tools) false resident ask

answer_question-sends_masked_example : AllSent world ask trace.sent
answer_question-sends_masked_example =
    answer_question-sends_masked world ask (make_registry tools) false resident

answer_question-Completes_example : Completes world trace
answer_question-Completes_example =
    answer_question-Completes world (make_registry tools) false resident ask

length-sent_answer_question_example : length trace.sent ≤ max_tool_steps + 1
length-sent_answer_question_example =
    length-sent_answer_question world (make_registry tools) false resident ask

joined_text-stream_deltas_example :
    joined_text (stream_deltas is_space [] false deltas).tokens
    ≡ shown is_space (joined_text deltas)
joined_text-stream_deltas_example = joined_text-stream_deltas is_space deltas

decide-IsAuthorized_example :
    IsAuthorized world
      (codes "Kim" ∷ [])
      (make_registry tools)
      false
      resident
      (decide world
        (codes "Kim" ∷ [])
        (make_registry tools)
        false
        resident
        max_tool_steps
        (shown_specs world (make_registry tools) false resident ask)
        true
        (first_state world ask (codes "My bill?") [])).1
decide-IsAuthorized_example =
    decide-IsAuthorized world (codes "Kim" ∷ []) (make_registry tools) false resident max_tool_steps
      (shown_specs world (make_registry tools) false resident ask) true ask (codes "My bill?") []

mem-shown_specs_example :
    mem_text
      (codes "get_fees")
      (spec_names (shown_specs world (make_registry tools) false resident ask))
    ≡ (is_some (get_visible (make_registry tools) (codes "get_fees") resident.roles false)
        && (not (mem_text (codes "get_fees") ask.exclude_tools)
            && (ask.allow_clarify || not (text_eq (codes "get_fees") clarify_tool_name))))
mem-shown_specs_example = mem-shown_specs world tools false resident ask (codes "get_fees")
