-- ===== src/Server/Exclusion/Waits.antt =====
-- A handler that goes on keeps the agreement.
use kimi_wire_go.Prelude.{
  ℕ, String, refl, Bool, true, false, Option, none, some, if_cases, option_cases,
}
use kimi_wire_go.Server.Control.{
  has_room, no_turn, call_steer, is_finished, mark_cancelled, op_is, continue,
}
use kimi_wire_go.Server.{
  Steerer, awaiting_end, awaiting_done, Server, stopped, Env, Loop, Answer, marking, ready,
  steering,
}
use kimi_wire_go.Server.Exclusion.Handlers.{
  send_response-IsExclusive, update_op-IsExclusive, send_error-IsExclusive,
}
use kimi_wire_go.Protocol.Content.{UserInput}
use kimi_wire_go.Server.Exclusion.{IsExclusive}
use kimi_wire_go.Server.Turn.{update_op}

module _ {Raw : Type 0} (env : Env Raw) where
  mark-IsExclusive :
      (i : ℕ) (t : Option ℕ) (s : Server Raw) → IsExclusive s → IsExclusive (mark_cancelled i t s)
  unfolding mark_cancelled
  mark-IsExclusive i none s h = update_op-IsExclusive env i _ s (λ o g. refl) (λ o g. refl) h
  mark-IsExclusive i (some t) s h =
      update_op-IsExclusive env i (λ o. record o { ctx_done = true })
        (update_op t (λ o. record o { cancelled = true }) s) (λ o g. refl) (λ o g. refl)
        (update_op-IsExclusive env t _ s (λ o g. refl) (λ o g. refl) h)

  call_steer-IsExclusive :
      (f : Steerer Raw) (j : String) (input : UserInput) (s : Server Raw)
      → IsExclusive s
      → IsExclusive (call_steer env f j input s)
  unfolding call_steer
  call_steer-IsExclusive f j input s h =
      option_cases IsExclusive (f s.written input) (λ _. send_response-IsExclusive env j _ s h)
        (λ e _. send_error-IsExclusive env j _ _ s h)

  pub continue-IsExclusive :
      (first : Bool) (l : Loop Raw) (s : Server Raw)
      → IsExclusive s
      → IsExclusive (continue env first l s)
  unfolding continue no_turn
  continue-IsExclusive first ready s h = h
  continue-IsExclusive first stopped s h = h
  continue-IsExclusive first (marking id i t) s h =
      mark-IsExclusive i t (record s { loop = awaiting_done id i }) h
  continue-IsExclusive true (awaiting_done id i) s h =
      if_cases IsExclusive (op_is (λ o. o.done) i s)
        (λ _. send_response-IsExclusive env id Answer.cancelled (record s { loop = ready }) h)
        (λ _. h)
  continue-IsExclusive false (awaiting_done id i) s h =
      if_cases IsExclusive s.serve_done
        (λ _. send_error-IsExclusive env id _ _ (record s { loop = ready }) h) (λ _. h)
  continue-IsExclusive true (steering id t input f) s h =
      if_cases IsExclusive (op_is has_room t s)
        (λ _. call_steer-IsExclusive f id input _ (
          update_op-IsExclusive env t (λ o. record o { steer = some input })
            (record s { loop = ready }) (λ o g. refl) (λ o g. refl) h))
        (λ _. h)
  continue-IsExclusive false (steering id t input f) s h =
      if_cases IsExclusive (op_is (λ o. o.ctx_done) t s)
        (λ _. send_error-IsExclusive env id _ _ (record s { loop = ready }) h) (λ _. h)
  continue-IsExclusive first (awaiting_end i) s h =
      if_cases IsExclusive (op_is is_finished i s) (λ _. h) (λ _. h)
