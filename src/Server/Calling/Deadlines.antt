-- ===== src/Server/Calling/Deadlines.antt =====
-- What the methods of a turn do before they wait for the client, and under which deadline they wait.
use kimi_wire_go.Prelude.{
  ℕ, ◌≡◌, refl, true, false, Option, none, some, if◌then◌else◌, if_cases, option_cases, Result, ok,
  err, ◌⊎◌, inl, inr,
}
use kimi_wire_go.Server.Calling.{
  is_positive, AgentAnswer, default_hook_timeout, apply_hook_timeout, Started, trigger_hook,
  hook_handled, asks, start_hook, prepare, apply_default_timeout, AgentCall, request_approval,
  Contexts, hook_action_allow, returned_at_once, call_external_tool, ask_question,
}
use kimi_wire_go.Server.Hooks.Choice.{
  find_hook-Choice, IsChoice, Choice, no_hook, chosen_hook, NoneSuits, Hooks,
}
use kimi_wire_go.Server.{HookSubscription, GoError, code_question_not_supported, Env, Server}
use kimi_wire_go.Server.Initialize.{is_set}
use kimi_wire_go.Protocol.Request.{HookResponse, QuestionRequest, Request, HookRequest}
use kimi_wire_go.Prelude.Int.{ℤ, pos}
use kimi_wire_go.Server.Hooks.{find_hook}

module _ {Context : Type 0} (contexts : Contexts Context) where
  -- The context under which a method waits that has this timeout: a deadline that its context has is
  -- kept.
  pub data IsTimed (ctx : Context) (d : ℤ) : Context → Type 0 where
    has_its_own : (t : ℕ) → contexts.deadline ctx ≡ some t → IsTimed ctx d ctx
    has_timeout : contexts.deadline ctx ≡ none → IsTimed ctx d (contexts.with_timeout ctx d)

  -- The default timeout counts only if it is positive.
  abbrev pub IsTimedByDefault : ℤ → Context → Context → Type 0
  IsTimedByDefault d ctx ctx' =
      ((is_positive d ≡ false) × (ctx' ≡ ctx)) ⊎ ((is_positive d ≡ true) × IsTimed ctx d ctx')

  apply_default_timeout-IsTimedByDefault :
      (d : ℤ) (ctx : Context) → IsTimedByDefault d ctx (apply_default_timeout contexts d ctx)
  unfolding apply_default_timeout
  apply_default_timeout-IsTimedByDefault d ctx =
      if_cases (IsTimedByDefault d ctx) (is_positive d)
        (λ p. inr (p, option_cases (IsTimed ctx d) (contexts.deadline ctx) has_timeout has_its_own))
        (λ n. inl (n, refl))

  -- A hook has a positive timeout.
  abbrev pub IsTimedHook : Context → Context → Type 0
  IsTimedHook ctx ctx' = (d : ℤ) × (is_positive d ≡ true) × IsTimed ctx d ctx'

  apply_hook_timeout-IsTimedHook :
      (d : ℤ) (ctx : Context) → IsTimedHook ctx (apply_hook_timeout contexts d ctx)
  unfolding apply_hook_timeout
  apply_hook_timeout-IsTimedHook d ctx =
      let d' = if is_positive d then d else default_hook_timeout in
      (
        d',
        if_cases (λ e. is_positive e ≡ true) (is_positive d) (λ p. p) (λ _. refl),
        option_cases (IsTimed ctx d') (contexts.deadline ctx) has_timeout has_its_own,
      )

  module _ {Raw : Type 0} (env : Env Raw) where
    -- The context under which a method waits.
    unfoldable pub IsContextOf : Context → AgentCall Raw → Context → Type 0
    IsContextOf ctx (request_approval req) ctx' = ctx' ≡ ctx
    IsContextOf ctx (call_external_tool req) ctx' =
        IsTimedByDefault env.config.default_timeout ctx ctx'
    IsContextOf ctx (ask_question req) ctx' = IsTimedByDefault env.config.default_timeout ctx ctx'
    IsContextOf ctx (trigger_hook req) ctx' = IsTimedHook ctx ctx'

    -- Why a method returns without asking the client.
    pub data AtOnce (hooks : Hooks) (s : Server Raw)
        : AgentCall Raw → Result GoError (AgentAnswer Raw) → Type 0 where
      not_supported :
          (req : QuestionRequest) (e : GoError)
          → is_set s.client_caps.supports_question ≡ false
          → e.code ≡ some code_question_not_supported
          → AtOnce hooks s (ask_question req) (err e)
      no_subscription :
          (req : HookRequest Raw) (r : HookResponse)
          → NoneSuits req.event req.target hooks
          → r.request_id ≡ req.id
          → r.action ≡ hook_action_allow
          → AtOnce hooks s (trigger_hook req) (ok (hook_handled r))

    -- What a method sends to the client.
    unfoldable pub IsRequestOf : Hooks → AgentCall Raw → Request Raw → Type 0
    IsRequestOf hooks (request_approval r) req = req ≡ Request.approval_request r
    IsRequestOf hooks (call_external_tool r) req = req ≡ Request.tool_call_request r
    IsRequestOf hooks (ask_question r) req = req ≡ Request.question_request r
    IsRequestOf hooks (trigger_hook r) req =
        (sub : HookSubscription) × IsChoice r.event r.target hooks sub
        × (req ≡ Request.hook_request (record r { subscription_id = sub.id }))

    -- What a method does before it waits.
    unfoldable pub StartsRight :
        Context → Hooks → Server Raw → AgentCall Raw → Started Raw Context → Type 0
    StartsRight ctx hooks s call (returned_at_once r) = AtOnce hooks s call r
    StartsRight ctx hooks s call (asks ctx' req) =
        IsRequestOf hooks call req × IsContextOf ctx call ctx'

    start_hook-StartsRight :
        (ctx : Context) (hooks : Hooks) (s : Server Raw) (req : HookRequest Raw)
        (o : Option HookSubscription)
        → Choice req.event req.target hooks o
        → StartsRight ctx hooks s (trigger_hook req) (start_hook contexts env ctx req o)
    unfolding start_hook StartsRight IsContextOf IsRequestOf
    start_hook-StartsRight ctx hooks s req none (no_hook n) = no_subscription req _ n refl refl
    start_hook-StartsRight ctx hooks s req (some sub) (chosen_hook _ c) =
        ((sub, c, refl), apply_hook_timeout-IsTimedHook (pos sub.timeout) ctx)

    -- A method of a turn returns at once only if it asks a question of a client that does not support
    -- them, with that error, or triggers a hook to which no subscription is suited, which is then
    -- allowed. Otherwise it asks the client, with its request, which for a hook names a subscription that
    -- is suited. It waits under the context that it was given if that has a deadline, and otherwise with
    -- a positive timeout if it triggers a hook, with the server's default timeout if it calls a tool or
    -- asks a question and that is positive, and with no timeout in the other cases.
    pub prepare-StartsRight :
        (ctx : Context) (hooks : Hooks) (s : Server Raw) (call : AgentCall Raw)
        → StartsRight ctx hooks s call (prepare contexts env ctx hooks s call)
    unfolding prepare StartsRight IsContextOf IsRequestOf
    prepare-StartsRight ctx hooks s (request_approval req) = (refl, refl)
    prepare-StartsRight ctx hooks s (call_external_tool req) =
        (refl, apply_default_timeout-IsTimedByDefault env.config.default_timeout ctx)
    prepare-StartsRight ctx hooks s (ask_question req) =
        if_cases (StartsRight ctx hooks s (ask_question req))
          (is_set s.client_caps.supports_question)
          (λ _. (refl, apply_default_timeout-IsTimedByDefault env.config.default_timeout ctx))
          (λ n. not_supported req _ n refl)
    prepare-StartsRight ctx hooks s (trigger_hook req) =
        start_hook-StartsRight ctx hooks s req (find_hook req.event req.target hooks)
          (find_hook-Choice req.event req.target hooks)
