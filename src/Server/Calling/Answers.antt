-- ===== src/Server/Calling/Answers.antt =====
-- What the methods of a turn return, and under which deadline they wait.
use kimi_wire_go.Prelude.{
  String, ◌≡◌, refl, sym, subst, Bool, true, false, Option, arith, ◌==◌, eq_iff, if◌then◌else◌,
  Result, ok, err,
}
use kimi_wire_go.Server.Calling.{
  AgentAnswer, hook_handled, ReplyCodecs, call_external_tool, ask_question, request_approval,
  id_mismatch, trigger_hook, finish_agent_call, question_answered, AgentCall, tool_returned,
  checked, approval_given,
}
use kimi_wire_go.Server.{GoError}

-- The answer is of the method's type, and carries the id of the request.
unfoldable pub IsAnswerTo : {Raw : Type 0} → AgentCall Raw → AgentAnswer Raw → Type 0
IsAnswerTo (request_approval req) (approval_given r) = r.request_id ≡ req.id
IsAnswerTo (call_external_tool req) (tool_returned r) = r.tool_call_id ≡ req.id
IsAnswerTo (ask_question req) (question_answered r) = r.request_id ≡ req.id
IsAnswerTo (trigger_hook req) (hook_handled r) = r.request_id ≡ req.id
IsAnswerTo _ _ = ⊥

module _ {Raw : Type 0} (json : ReplyCodecs Raw) where
  checked-ok :
      {A : Type 0} (what want : String) (id_of : A → String) (answer : A → AgentAnswer Raw)
      (r : Result String A) (a : AgentAnswer Raw)
      → checked json what want id_of answer r ≡ ok a
      → (resp : A) × (a ≡ answer resp) × (id_of resp ≡ want)
  checked-ok what want id_of answer (err text) a h = absurd (cc h)
  checked-ok what want id_of answer (ok resp) a h = go (id_of resp == want) refl h
    where
      go :
          (b : Bool)
          → (id_of resp == want) ≡ b
          → (if b then ok (answer resp) else err (id_mismatch json what (id_of resp) want)) ≡ ok a
          → (x : _) × (a ≡ answer x) × (id_of x ≡ want)
      go true e h = (resp, ground arith, ground (arith, e, eq_iff (id_of resp) want))
      go false e h = absurd (cc h)

  -- A method that returns without an error after it has waited returns a response of its own type
  -- that carries the id of its request.
  pub finish_agent_call-IsAnswerTo :
      (call : AgentCall Raw) (r : Result GoError (Option Raw)) (a : AgentAnswer Raw)
      → finish_agent_call json call r ≡ ok a
      → IsAnswerTo call a
  unfolding finish_agent_call IsAnswerTo
  finish_agent_call-IsAnswerTo call (err e) a h = absurd (cc h)
  finish_agent_call-IsAnswerTo (request_approval req) (ok raw) a h =
      let (resp, same, own) =
        checked-ok "approval" req.id (λ r. r.request_id) approval_given (json.approval_response raw)
          a h in
      subst (IsAnswerTo (request_approval req)) (sym same) own
  finish_agent_call-IsAnswerTo (call_external_tool req) (ok raw) a h =
      let (resp, same, own) =
        checked-ok "tool" req.id (λ r. r.tool_call_id) tool_returned (json.tool_call_response raw) a
          h in
      subst (IsAnswerTo (call_external_tool req)) (sym same) own
  finish_agent_call-IsAnswerTo (ask_question req) (ok raw) a h =
      let (resp, same, own) =
        checked-ok "question" req.id (λ r. r.request_id) question_answered
          (json.question_response raw) a h in
      subst (IsAnswerTo (ask_question req)) (sym same) own
  finish_agent_call-IsAnswerTo (trigger_hook req) (ok raw) a h =
      let (resp, same, own) =
        checked-ok "hook" req.id (λ r. r.request_id) hook_handled (json.hook_response raw) a h in
      subst (IsAnswerTo (trigger_hook req)) (sym same) own
