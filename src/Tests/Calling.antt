-- ===== src/Tests/Calling.antt =====
-- The methods of a turn, with a client that answers a tool call and has one hook.
use kimi_wire_go.Prelude.{ℕ, String, ◌≡◌, refl, Option, none, some, List, [], ◌∷◌, ok, err}
use kimi_wire_go.Tests.{test_env, blank, Json}
use kimi_wire_go.Protocol.Request.{
  QuestionResponse, Request, HookResponse, QuestionRequest, HookRequest,
}
use kimi_wire_go.Server.Calling.{
  go_error, Contexts, ReplyCodecs, asks, ask_question, trigger_hook, hook_handled,
  finish_agent_call, prepare,
}
use kimi_wire_go.Server.Calling.Answers.{finish_agent_call-IsAnswerTo, IsAnswerTo}
use kimi_wire_go.Server.{HookSubscription, new}
use kimi_wire_go.Server.Calling.Deadlines.{StartsRight, prepare-StartsRight}

abbrev test_contexts : Contexts (Option ℕ)
test_contexts = record { deadline = λ ctx. ctx; with_timeout = λ ctx d. some 7 }

abbrev shell_hook : HookSubscription
shell_hook = record { id = "h1"; event = "PreToolUse"; matcher = none; timeout = 0 }

abbrev shell_hooks : List (String × HookSubscription)
shell_hooks = ("h1", shell_hook) ∷ []

abbrev before_tool : HookRequest Json
before_tool = record {
  id = "r1";
  subscription_id = "";
  event = "PreToolUse";
  target = "Shell";
  input_data = blank;
}

abbrev hook_answer : HookResponse
hook_answer = record { request_id = "r1"; action = "block"; reason = "no" }

abbrev stale_answer : QuestionResponse
stale_answer = record { request_id = "r0"; answers = [] }

abbrev reply_codecs : ReplyCodecs Json
reply_codecs = record {
  approval_response = λ raw. err "not read";
  tool_call_response = λ raw. err "not read";
  question_response = λ raw. ok stale_answer;
  hook_response = λ raw. ok hook_answer;
  quote = λ text. text;
}

abbrev a_question : QuestionRequest
a_question = record { id = "r1"; tool_call_id = "t1"; questions = [] }

stale_answer_is_refused :
    finish_agent_call reply_codecs (ask_question a_question) (ok none)
    ≡ err (go_error "question response id mismatch: got r0, want r1")
unfolding finish_agent_call
stale_answer_is_refused = refl

finish_agent_call-IsAnswerTo_example :
    IsAnswerTo (trigger_hook before_tool) (hook_handled hook_answer)
unfolding finish_agent_call
finish_agent_call-IsAnswerTo_example =
    finish_agent_call-IsAnswerTo reply_codecs (trigger_hook before_tool) (ok (some blank))
      (hook_handled hook_answer) refl

prepare-StartsRight_example :
    StartsRight test_contexts test_env none shell_hooks new
      (trigger_hook before_tool)
      (prepare test_contexts test_env none shell_hooks new (trigger_hook before_tool))
prepare-StartsRight_example =
    prepare-StartsRight test_contexts test_env none shell_hooks new (trigger_hook before_tool)

hook_waits :
    prepare test_contexts test_env none shell_hooks new (trigger_hook before_tool)
    ≡ asks (some 7) (Request.hook_request (record before_tool { subscription_id = "h1" }))
unfolding prepare
hook_waits = refl
