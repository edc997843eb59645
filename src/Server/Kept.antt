-- ===== src/Server/Kept.antt =====
-- What the handlers and the loops of server/server.go leave as it is: the calls, and what initialize
-- sets but for the first initialize.
pub mod Goroutines
use kimi_wire_go.Prelude.{
  ℕ, String, ◌≡◌, Bool, true, false, Option, none, some, List, [], ◌∷◌, ◌==◌, if_cases,
  option_cases, result_cases, Result, ok, err,
}
use kimi_wire_go.Server.Serve.{dispatch, serve_next, stop_serving}
use kimi_wire_go.Protocol.Jsonrpc.{RawWireMessage}
use kimi_wire_go.Server.Turn.{
  handle_prompt, is_busy, begin_prompt, start_turn, update_op, after_begin,
}
use kimi_wire_go.Protocol.Content.{UserInput}
use kimi_wire_go.Server.Write.{write_message, emit_event, send_error, send_response}
use kimi_wire_go.Server.{
  steering, ready, Outgoing, awaiting_done, Env, Calls, marking, Answer, GoError, Loop,
  awaiting_end, stopped, Steerer, Server, HookSubscription,
}
use kimi_wire_go.Server.Initialize.{is_set, handle_initialize, accept_initialize}
use kimi_wire_go.Server.Control.{
  emit_all, has_room, is_finished, answer_plan_mode, handle_steer, handle_cancel, no_turn, continue,
  op_is, call_steer, handle_replay, mark_cancelled, handle_set_plan_mode,
}
use kimi_wire_go.Prelude.Int.{ℤ}
use kimi_wire_go.Protocol.Method.{
  SetPlanModeResult, InitializeParams, ServerCapabilities, ClientCapabilities,
}
use kimi_wire_go.Protocol.Event.{Event}
use kimi_wire_go.Server.Replies.Write.{write_message_cases}

-- What initialize sets.
abbrev pub Settings : Type 0
Settings = String × ClientCapabilities × ServerCapabilities × List (String × HookSubscription)

abbrev pub settings : {Raw : Type 0} → Server Raw → Settings
settings s = (s.negotiated, s.client_caps, s.server_caps, s.hooks)

abbrev pub kept : {Raw : Type 0} → Server Raw → Calls Raw × Bool × Settings
kept s = (s.calls, s.handshake_done, settings s)

module _ {Raw : Type 0} (env : Env Raw) (P : Calls Raw × Bool × Settings → Type 0) where
  abbrev pub Keeps : Server Raw → Type 0
  Keeps t = P (kept t)

  pub Keeps-write : (o : Outgoing Raw) (s : Server Raw) → Keeps s → Keeps (write_message env o s).0
  Keeps-write o s h = write_message_cases env Keeps o s h h

  pub Keeps-send_error :
      (j : String) (x : ℤ) (msg : String) (s : Server Raw)
      → Keeps s
      → Keeps (send_error env j x msg s)
  unfolding send_error
  Keeps-send_error j x msg s h = Keeps-write _ s h

  pub Keeps-send_response :
      (j : String) (a : Answer) (s : Server Raw) → Keeps s → Keeps (send_response env j a s)
  unfolding send_response
  Keeps-send_response j a s h = Keeps-write _ s h

  -- The first initialize keeps it too.
  abbrev pub KeepsAccepted : Type 0
  KeepsAccepted =
      (j : String) (p : InitializeParams Raw) (s : Server Raw)
      → s.handshake_done ≡ false
      → Keeps s
      → Keeps (accept_initialize env j p s)

  Keeps-after_begin :
      (i : ℕ) (r : Server Raw × Option GoError) → Keeps r.0 → Keeps (after_begin env i r)
  unfolding after_begin update_op
  Keeps-after_begin i (s, none) h = h
  Keeps-after_begin i (s, some e) h = h

  Keeps-handle_prompt :
      (j : String) (params : Option Raw) (s : Server Raw)
      → Keeps s
      → Keeps (handle_prompt env j params s)
  unfolding handle_prompt begin_prompt emit_event start_turn
  Keeps-handle_prompt j params s h =
      result_cases Keeps (env.unmarshal_prompt params) (λ e _. Keeps-send_error j _ e s h)
        λ p _.
          if_cases Keeps (is_busy s) (λ _. Keeps-send_error j _ _ s h)
            (λ _. Keeps-after_begin _ _ (Keeps-write _ (start_turn j s) h))

  Keeps-handle_steer :
      (j : String) (params : Option Raw) (s : Server Raw)
      → Keeps s
      → Keeps (handle_steer env j params s)
  unfolding handle_steer no_turn
  Keeps-handle_steer j params s h =
      option_cases Keeps env.steerer (λ _. Keeps-send_error j _ _ s h)
        λ f _.
          result_cases Keeps (env.unmarshal_steer params) (λ e _. Keeps-send_error j _ e s h)
            λ p _. option_cases Keeps s.active_turn (λ _. Keeps-send_error j _ _ s h) (λ t _. h)

  Keeps-handle_cancel : (j : String) (s : Server Raw) → Keeps s → Keeps (handle_cancel env j s)
  unfolding handle_cancel no_turn
  Keeps-handle_cancel j s h =
      option_cases Keeps s.active_op (λ _. Keeps-send_error j _ _ s h) (λ i _. h)

  Keeps-handle_replay : (j : String) (s : Server Raw) → Keeps s → Keeps (handle_replay env j s)
  unfolding handle_replay
  Keeps-handle_replay j s h =
      if_cases Keeps env.replayer
        (λ _. if_cases Keeps (is_busy s) (λ _. Keeps-send_error j _ _ s h) (λ _. h))
        (λ _. Keeps-send_error j _ _ s h)

  Keeps-emit_all : (es : List (Event Raw)) (s : Server Raw) → Keeps s → Keeps (emit_all env es s)
  unfolding emit_all emit_event
  Keeps-emit_all [] s h = h
  Keeps-emit_all (e ∷ es) s h = Keeps-emit_all es _ (Keeps-write _ s h)

  Keeps-answer_plan_mode :
      (j : String) (r : Result GoError SetPlanModeResult) (s : Server Raw)
      → Keeps s
      → Keeps (answer_plan_mode env j r s)
  unfolding answer_plan_mode
  Keeps-answer_plan_mode j (ok r) s h = Keeps-send_response j _ s h
  Keeps-answer_plan_mode j (err e) s h = Keeps-send_error j _ _ s h

  Keeps-handle_set_plan_mode :
      (j : String) (params : Option Raw) (s : Server Raw)
      → Keeps s
      → Keeps (handle_set_plan_mode env j params s)
  unfolding handle_set_plan_mode
  Keeps-handle_set_plan_mode j params s h =
      if_cases Keeps (is_set s.client_caps.supports_plan_mode)
        (λ _.
          option_cases Keeps env.switcher (λ _. Keeps-send_error j _ _ s h)
            λ f _.
              result_cases Keeps (env.unmarshal_set_plan_mode params)
                (λ e _. Keeps-send_error j _ e s h)
                λ p _.
                  Keeps-answer_plan_mode j (f p.enabled).1 _ (Keeps-emit_all (f p.enabled).0 s h))
        λ _. Keeps-send_error j _ _ s h

  Keeps-handle_initialize :
      (j : String) (params : Option Raw) (s : Server Raw)
      → KeepsAccepted
      → Keeps s
      → Keeps (handle_initialize env j params s)
  unfolding handle_initialize
  Keeps-handle_initialize j params s accepts h =
      if_cases Keeps s.handshake_done (λ _. Keeps-send_error j _ _ s h)
        λ first.
          result_cases Keeps (env.unmarshal_initialize params) (λ e _. Keeps-send_error j _ e s h)
            (λ p _. accepts j p s first h)

  Keeps-dispatch :
      (raw : RawWireMessage Raw) (s : Server Raw)
      → KeepsAccepted
      → Keeps s
      → Keeps (dispatch env raw s)
  unfolding dispatch
  Keeps-dispatch raw s accepts h =
      if_cases Keeps (raw.method == "initialize")
        (λ _. Keeps-handle_initialize raw.id raw.params s accepts h)
        λ _.
          if_cases Keeps (raw.method == "prompt") (λ _. Keeps-handle_prompt raw.id raw.params s h)
            λ _.
              if_cases Keeps (raw.method == "steer") (λ _. Keeps-handle_steer raw.id raw.params s h)
                λ _.
                  if_cases Keeps (raw.method == "cancel") (λ _. Keeps-handle_cancel raw.id s h)
                    λ _.
                      if_cases Keeps (raw.method == "replay") (λ _. Keeps-handle_replay raw.id s h)
                        λ _.
                          if_cases Keeps (raw.method == "set_plan_mode")
                            (λ _. Keeps-handle_set_plan_mode raw.id raw.params s h)
                            λ _. Keeps-send_error raw.id _ _ s h

  pub Keeps-serve_next :
      (l : Loop Raw) (q : List (RawWireMessage Raw)) (s : Server Raw)
      → KeepsAccepted
      → Keeps s
      → Keeps (serve_next env l q s)
  unfolding serve_next
  Keeps-serve_next ready (raw ∷ rest) s accepts h =
      Keeps-dispatch raw (record s { queue = rest }) accepts h
  Keeps-serve_next ready [] s accepts h = h
  Keeps-serve_next stopped q s accepts h = h
  Keeps-serve_next (marking id i t) q s accepts h = h
  Keeps-serve_next (awaiting_done id i) q s accepts h = h
  Keeps-serve_next (steering id t u f) q s accepts h = h
  Keeps-serve_next (awaiting_end i) q s accepts h = h

  pub Keeps-stop_serving : (l : Loop Raw) (s : Server Raw) → Keeps s → Keeps (stop_serving l s)
  unfolding stop_serving
  Keeps-stop_serving ready s h = if_cases Keeps s.serve_done (λ _. h) (λ _. h)
  Keeps-stop_serving _ s h = h

  Keeps-call_steer :
      (f : Steerer Raw) (j : String) (input : UserInput) (s : Server Raw)
      → Keeps s
      → Keeps (call_steer env f j input s)
  unfolding call_steer
  Keeps-call_steer f j input s h =
      option_cases Keeps (f s.written input) (λ _. Keeps-send_response j _ s h)
        (λ e _. Keeps-send_error j _ _ s h)

  Keeps-mark_cancelled :
      (i : ℕ) (t : Option ℕ) (s : Server Raw) → Keeps s → Keeps (mark_cancelled i t s)
  unfolding mark_cancelled update_op
  Keeps-mark_cancelled i none s h = h
  Keeps-mark_cancelled i (some t) s h = h

  pub Keeps-continue :
      (first : Bool) (l : Loop Raw) (s : Server Raw) → Keeps s → Keeps (continue env first l s)
  unfolding continue no_turn update_op
  Keeps-continue first ready s h = h
  Keeps-continue first stopped s h = h
  Keeps-continue first (marking id i t) s h =
      Keeps-mark_cancelled i t (record s { loop = awaiting_done id i }) h
  Keeps-continue true (awaiting_done id i) s h =
      if_cases Keeps (op_is (λ o. o.done) i s)
        (λ _. Keeps-send_response id Answer.cancelled (record s { loop = ready }) h) (λ _. h)
  Keeps-continue false (awaiting_done id i) s h =
      if_cases Keeps s.serve_done (λ _. Keeps-send_error id _ _ (record s { loop = ready }) h)
        (λ _. h)
  Keeps-continue true (steering id t input f) s h =
      if_cases Keeps (op_is has_room t s) (λ _. Keeps-call_steer f id input _ h) (λ _. h)
  Keeps-continue false (steering id t input f) s h =
      if_cases Keeps (op_is (λ o. o.ctx_done) t s)
        (λ _. Keeps-send_error id _ _ (record s { loop = ready }) h) (λ _. h)
  Keeps-continue first (awaiting_end i) s h =
      if_cases Keeps (op_is is_finished i s) (λ _. h) (λ _. h)
