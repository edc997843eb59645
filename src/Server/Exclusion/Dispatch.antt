-- ===== src/Server/Exclusion/Dispatch.antt =====
-- The serve loop keeps the agreement, whichever handler it calls.
use kimi_wire_go.Prelude.{
  String, Option, List, [], ◌∷◌, ◌==◌, if_cases, option_cases, result_cases, Result, ok, err,
}
use kimi_wire_go.Server.{
  Server, awaiting_done, ready, Origin, steering, marking, Loop, awaiting_end, stopped, Env,
  GoError,
}
use kimi_wire_go.Server.Exclusion.Handlers.{
  send_error-IsExclusive, replay-IsExclusive, initialize-IsExclusive, send_response-IsExclusive,
  prompt-IsExclusive, emit_event-IsExclusive, cancel-IsExclusive, steer-IsExclusive,
}
use kimi_wire_go.Server.Control.{emit_all, handle_set_plan_mode, answer_plan_mode}
use kimi_wire_go.Server.Exclusion.{IsExclusive}
use kimi_wire_go.Server.Serve.{serve_next, dispatch}
use kimi_wire_go.Server.Initialize.{is_set}
use kimi_wire_go.Protocol.Method.{SetPlanModeResult}
use kimi_wire_go.Protocol.Jsonrpc.{RawWireMessage}
use kimi_wire_go.Protocol.Event.{Event}

module _ {Raw : Type 0} (env : Env Raw) where
  emit_all-IsExclusive :
      (es : List (Event Raw)) (s : Server Raw) → IsExclusive s → IsExclusive (emit_all env es s)
  unfolding emit_all
  emit_all-IsExclusive [] s h = h
  emit_all-IsExclusive (e ∷ es) s h =
      emit_all-IsExclusive es _ (emit_event-IsExclusive env Origin.agent e s h)

  answer_plan_mode-IsExclusive :
      (j : String) (r : Result GoError SetPlanModeResult) (s : Server Raw)
      → IsExclusive s
      → IsExclusive (answer_plan_mode env j r s)
  unfolding answer_plan_mode
  answer_plan_mode-IsExclusive j (ok r) s h = send_response-IsExclusive env j _ s h
  answer_plan_mode-IsExclusive j (err e) s h = send_error-IsExclusive env j _ _ s h

  plan_mode-IsExclusive :
      (j : String) (params : Option Raw) (s : Server Raw)
      → IsExclusive s
      → IsExclusive (handle_set_plan_mode env j params s)
  unfolding handle_set_plan_mode
  plan_mode-IsExclusive j params s h =
      if_cases IsExclusive (is_set s.client_caps.supports_plan_mode)
        (λ _.
          option_cases IsExclusive env.switcher (λ _. send_error-IsExclusive env j _ _ s h)
            λ f _.
              result_cases IsExclusive (env.unmarshal_set_plan_mode params)
                (λ e _. send_error-IsExclusive env j _ e s h)
                λ p _.
                  answer_plan_mode-IsExclusive j (f p.enabled).1 _
                    (emit_all-IsExclusive (f p.enabled).0 s h))
        λ _. send_error-IsExclusive env j _ _ s h

  dispatch-IsExclusive :
      (raw : RawWireMessage Raw) (s : Server Raw) → IsExclusive s → IsExclusive (dispatch env raw s)
  unfolding dispatch
  dispatch-IsExclusive raw s h =
      if_cases IsExclusive (raw.method == "initialize")
        (λ _. initialize-IsExclusive env raw.id raw.params s h)
        λ _.
          if_cases IsExclusive (raw.method == "prompt")
            (λ _. prompt-IsExclusive env raw.id raw.params s h)
            λ _.
              if_cases IsExclusive (raw.method == "steer")
                (λ _. steer-IsExclusive env raw.id raw.params s h)
                λ _.
                  if_cases IsExclusive (raw.method == "cancel")
                    (λ _. cancel-IsExclusive env raw.id s h)
                    λ _.
                      if_cases IsExclusive (raw.method == "replay")
                        (λ _. replay-IsExclusive env raw.id s h)
                        λ _.
                          if_cases IsExclusive (raw.method == "set_plan_mode")
                            (λ _. plan_mode-IsExclusive raw.id raw.params s h)
                            λ _. send_error-IsExclusive env raw.id _ _ s h

  pub serve_next-IsExclusive :
      (l : Loop Raw) (q : List (RawWireMessage Raw)) (s : Server Raw)
      → IsExclusive s
      → IsExclusive (serve_next env l q s)
  unfolding serve_next
  serve_next-IsExclusive ready (raw ∷ rest) s h = dispatch-IsExclusive raw _ h
  serve_next-IsExclusive ready [] s h = h
  serve_next-IsExclusive stopped q s h = h
  serve_next-IsExclusive (marking id i t) q s h = h
  serve_next-IsExclusive (awaiting_done id i) q s h = h
  serve_next-IsExclusive (steering id t u f) q s h = h
  serve_next-IsExclusive (awaiting_end i) q s h = h
