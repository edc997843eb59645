-- ===== src/Server/Calling.antt =====
-- The methods of a turn that ask the client (RequestApproval, CallExternalTool, AskQuestion and
-- TriggerHook of server/request.go), with applyDefaultTimeout and applyHookTimeout. A method is what
-- it does up to the select of sendRequestAndWait, and what it returns once that has a result.
pub mod Answers
pub mod Deadlines
use kimi_wire_go.Prelude.{
  ℕ, zero, suc, ◌*◌, String, Bool, true, false, Option, none, some, List, ◌==◌, if◌then◌else◌,
  Result, ok, err,
}
use Prim.Native.String.{◌++◌ as str_append}
use kimi_wire_go.Server.Pending.{begin_call}
use kimi_wire_go.Protocol.Request.{
  ApprovalRequest, Request, ToolCallResponse, HookRequest, QuestionRequest, ApprovalResponse,
  QuestionResponse, HookResponse, ToolCallRequest,
}
use kimi_wire_go.Prelude.Int.{pos, negsuc, ℤ}
use kimi_wire_go.Server.Hooks.{find_hook, second}
use kimi_wire_go.Server.{Server, Env, code_question_not_supported, GoError, HookSubscription}
use kimi_wire_go.Server.Initialize.{is_set}

-- A call of one of the methods, with its request.
pub data AgentCall (Raw : Type 0) : Type 0 where
  request_approval : ApprovalRequest Raw → AgentCall Raw
  call_external_tool : ToolCallRequest → AgentCall Raw
  ask_question : QuestionRequest → AgentCall Raw
  trigger_hook : HookRequest Raw → AgentCall Raw

-- What the methods return when there is no error.
pub data AgentAnswer (Raw : Type 0) : Type 0 where
  approval_given : ApprovalResponse → AgentAnswer Raw
  tool_returned : ToolCallResponse Raw → AgentAnswer Raw
  question_answered : QuestionResponse → AgentAnswer Raw
  hook_handled : HookResponse → AgentAnswer Raw

-- A method has returned, or it waits for the client under this context, for this request.
pub data Started (Raw Context : Type 0) : Type 0 where
  returned_at_once : Result GoError (AgentAnswer Raw) → Started Raw Context
  asks : Context → Request Raw → Started Raw Context

-- Package context.
pub record Contexts (Context : Type 0) : Type 0 where
  pub deadline : Context → Option ℕ
  pub with_timeout : Context → ℤ → Context

-- encoding/json for the responses, where a missing result is a nil json.RawMessage, and the verb %q
-- of package fmt.
pub record ReplyCodecs (Raw : Type 0) : Type 0 where
  pub approval_response : Option Raw → Result String ApprovalResponse
  pub tool_call_response : Option Raw → Result String (ToolCallResponse Raw)
  pub question_response : Option Raw → Result String QuestionResponse
  pub hook_response : Option Raw → Result String HookResponse
  pub quote : String → String

-- HookActionAllow
abbrev pub hook_action_allow : String
hook_action_allow = "allow"

-- 30 * time.Second
abbrev pub default_hook_timeout : ℤ
default_hook_timeout = pos (30 * second)

-- d > 0
abbrev pub is_positive : ℤ → Bool
is_positive (pos zero) = false
is_positive (pos (suc n)) = true
is_positive (negsuc n) = false

abbrev pub go_error : String → GoError
go_error text = record { message = text; code = none; is_canceled = false }

module _ {Context : Type 0} (contexts : Contexts Context) where
  unfoldable pub apply_default_timeout : ℤ → Context → Context
  apply_default_timeout timeout ctx =
      if is_positive timeout
      then elim (contexts.deadline ctx) [ some t ↦ ctx | none ↦ contexts.with_timeout ctx timeout ]
      else ctx

  unfoldable pub apply_hook_timeout : ℤ → Context → Context
  apply_hook_timeout d ctx =
      let d' = if is_positive d then d else default_hook_timeout in
      elim (contexts.deadline ctx) [ some t ↦ ctx | none ↦ contexts.with_timeout ctx d' ]

  module _ {Raw : Type 0} (env : Env Raw) where
    -- The choice of a subscription, and what TriggerHook does with it. `hooks` is the map in the order
    -- in which it is gone through.
    unfoldable pub start_hook :
        Context → HookRequest Raw → Option HookSubscription → Started Raw Context
    unfolding apply_hook_timeout
    start_hook ctx req none = returned_at_once (
        ok (hook_handled (record { request_id = req.id; action = hook_action_allow; reason = "" })))
    start_hook ctx req (some sub) =
        asks (apply_hook_timeout (pos sub.timeout) ctx)
          (Request.hook_request (record req { subscription_id = sub.id }))

    -- A method up to its call of sendRequestAndWait.
    unfoldable pub prepare :
        Context
        → List (String × HookSubscription)
        → Server Raw
        → AgentCall Raw
        → Started Raw Context
    unfolding start_hook apply_default_timeout find_hook
    prepare ctx hooks s (request_approval req) = asks ctx (Request.approval_request req)
    prepare ctx hooks s (call_external_tool req) =
        asks (apply_default_timeout env.config.default_timeout ctx) (Request.tool_call_request req)
    prepare ctx hooks s (ask_question req) =
        if is_set s.client_caps.supports_question
        then asks (apply_default_timeout env.config.default_timeout ctx)
            (Request.question_request req)
        else returned_at_once (
            err (record {
              message = "Client does not support structured questions";
              code = some code_question_not_supported;
              is_canceled = false;
            }))
    prepare ctx hooks s (trigger_hook req) =
        start_hook ctx req (find_hook req.event req.target hooks)

    -- A method up to the select of sendRequestAndWait.
    unfoldable pub start_waiting : Started Raw Context → Server Raw → Server Raw
    unfolding begin_call
    start_waiting (returned_at_once r) s = s
    start_waiting (asks ctx req) s = begin_call env req s

    unfoldable pub start_call :
        Context → List (String × HookSubscription) → AgentCall Raw → Server Raw → Server Raw
    unfolding prepare start_waiting
    start_call ctx hooks call s = start_waiting (prepare ctx hooks s call) s

module _ {Raw : Type 0} (json : ReplyCodecs Raw) where
  -- fmt.Errorf with the text of the method's mismatch
  abbrev pub id_mismatch : String → String → String → GoError
  id_mismatch what got want = go_error (
      str_append what (
        str_append " response id mismatch: got "
          (str_append (json.quote got) (str_append ", want " (json.quote want)))))

  -- The response is decoded, and its id compared.
  abbrev pub checked :
      {A : Type 0}
      → String
      → String
      → (A → String)
      → (A → AgentAnswer Raw)
      → Result String A
      → Result GoError (AgentAnswer Raw)
  checked what want id_of answer (err text) = err (go_error text)
  checked what want id_of answer (ok resp) =
      if id_of resp == want then ok (answer resp) else err (id_mismatch what (id_of resp) want)

  -- A method from the result of sendRequestAndWait on.
  unfoldable pub finish_agent_call :
      AgentCall Raw → Result GoError (Option Raw) → Result GoError (AgentAnswer Raw)
  finish_agent_call call (err e) = err e
  finish_agent_call (request_approval req) (ok raw) =
      checked "approval" req.id (λ r. r.request_id) approval_given (json.approval_response raw)
  finish_agent_call (call_external_tool req) (ok raw) =
      checked "tool" req.id (λ r. r.tool_call_id) tool_returned (json.tool_call_response raw)
  finish_agent_call (ask_question req) (ok raw) =
      checked "question" req.id (λ r. r.request_id) question_answered (json.question_response raw)
  finish_agent_call (trigger_hook req) (ok raw) =
      checked "hook" req.id (λ r. r.request_id) hook_handled (json.hook_response raw)
