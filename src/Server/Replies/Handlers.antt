-- ===== src/Server/Replies/Handlers.antt =====
-- Each handler that the serve loop calls writes one reply, or leaves one owed.
use kimi_wire_go.Server.{awaiting_end, Server, Env, GoError, Operation, Origin, ready}
use kimi_wire_go.Server.Replies.{owes, hit, balance, op_weight, loop_weight}
use kimi_wire_go.Prelude.{
  ◌+◌, String, ◌≡◌, Option, if_cases, result_cases, ℕ, refl, ap, ◌∙◌, inl, inr, true, none, some,
  List, [], ◌∷◌, arith, ◌==◌, Option-cases, length, get_elem?, total-snoc, modify-none,
  option_cases, total-modify, get_elem?-append_last, Result, ok, err,
}
use kimi_wire_go.Server.Initialize.{accept_initialize, handle_initialize, is_set}
use kimi_wire_go.Server.Replies.Write.{
  RepliesMarshal, balance-send_error, balance-send_response, write_message_cases,
  balance-emit_event,
}
use kimi_wire_go.Server.Turn.{
  is_busy, start_turn, update_op, new_turn, after_begin, handle_prompt, begin_prompt,
}
use kimi_wire_go.Protocol.Event.{Event}
use kimi_wire_go.Server.Control.{
  handle_steer, answer_plan_mode, no_turn, emit_all, new_replay, handle_replay, handle_cancel,
  handle_set_plan_mode,
}
use kimi_wire_go.Server.Write.{emit_event}
use kimi_wire_go.Protocol.Method.{PromptParams, SetPlanModeResult}
use kimi_wire_go.Protocol.Jsonrpc.{RawWireMessage}
use kimi_wire_go.Server.Serve.{dispatch}

module _ {Raw : Type 0} (env : Env Raw) (m : RepliesMarshal env) (id : String) where
  -- A handler that answers the request `j`.
  abbrev Answers : String → Server Raw → Server Raw → Type 0
  Answers j s t = balance id t ≡ balance id s + hit id j

  initialize-Answers :
      (j : String) (params : Option Raw) (s : Server Raw)
      → Answers j s (handle_initialize env j params s)
  unfolding handle_initialize accept_initialize
  initialize-Answers j params s =
      if_cases (Answers j s) s.handshake_done (λ _. balance-send_error env m id j _ _ s)
        λ _.
          result_cases (Answers j s) (env.unmarshal_initialize params)
            (λ e _. balance-send_error env m id j _ e s)
            (λ p _. balance-send_response env m id j _ _)

  -- A change of phase that keeps a reply owed, or keeps it not owed.
  pub balance-update_op :
      (i : ℕ) (f : Operation → Operation) (s : Server Raw)
      → ((o : Operation) → get_elem? s.ops i ≡ some o → op_weight id (f o) ≡ op_weight id o)
      → balance id (update_op i f s) ≡ balance id s
  unfolding update_op
  balance-update_op i f s same = elim (Option-cases (get_elem? s.ops i)) [
    | inl e ↦ rw (modify-none s.ops i f e)
    | inr (o, e) ↦ omega (arith, total-modify (op_weight id) s.ops i f o e, same o e)
  ]

  after_begin-balance :
      (i : ℕ) (r : Server Raw × Option GoError) (o : Operation)
      → get_elem? r.0.ops i ≡ some o
      → owes o.phase ≡ true
      → loop_weight id r.0.loop ≡ 0
      → balance id (after_begin env i r) ≡ balance id r.0
  unfolding after_begin
  after_begin-balance i (s, none) o h w l = refl
  after_begin-balance i (s, some e) o h w l =
      balance-update_op i _ (record s { loop = awaiting_end i })
        (λ o' h'. let same : o ≡ o' = ground arith in ground arith)
      ∙ omega (arith, l)

  balance-start_turn :
      (j : String) (s : Server Raw) → balance id (start_turn j s) ≡ balance id s + hit id j
  unfolding start_turn new_turn
  balance-start_turn j s = omega (arith, total-snoc (op_weight id) s.ops (new_turn j s))

  begun-op :
      (j : String) (s : Server Raw) (from : Origin) (e : Event Raw)
      → get_elem? (emit_event env from e (start_turn j s)).0.ops (length s.ops)
        ≡ some (new_turn j s)
  unfolding emit_event start_turn
  begun-op j s from e =
      write_message_cases env (λ t. get_elem? t.ops (length s.ops) ≡ some (new_turn j s)) _ _
        (get_elem?-append_last s.ops (new_turn j s)) (get_elem?-append_last s.ops (new_turn j s))

  begun-loop :
      (j : String) (s : Server Raw) (from : Origin) (e : Event Raw)
      → s.loop ≡ ready
      → loop_weight id (emit_event env from e (start_turn j s)).0.loop ≡ 0
  unfolding emit_event start_turn
  begun-loop j s from e free =
      write_message_cases env (λ t. loop_weight id t.loop ≡ 0) _ _ (ap (loop_weight id) free)
        (ap (loop_weight id) free)

  prompt-Answers :
      (j : String) (params : Option Raw) (s : Server Raw)
      → s.loop ≡ ready
      → Answers j s (handle_prompt env j params s)
  unfolding handle_prompt begin_prompt
  prompt-Answers j params s free =
      result_cases (Answers j s) (env.unmarshal_prompt params)
        (λ e _. balance-send_error env m id j _ e s)
        λ p _.
          if_cases (Answers j s) (is_busy s) (λ _. balance-send_error env m id j _ _ s)
            λ _.
              after_begin-balance (length s.ops) (begun p) (new_turn j s) (begun-op j s _ _)
                (unfold new_turn in refl) (begun-loop j s _ _ free)
              ∙ balance-emit_event env id _ _ (start_turn j s)
              ∙ balance-start_turn j s
    where
      begun : PromptParams → Server Raw × Option GoError
      begun p =
          emit_event env Origin.server (Event.turn_begin (record { user_input = p.user_input }))
            (start_turn j s)

  steer-Answers :
      (j : String) (params : Option Raw) (s : Server Raw)
      → s.loop ≡ ready
      → Answers j s (handle_steer env j params s)
  unfolding handle_steer no_turn
  steer-Answers j params s free =
      option_cases (Answers j s) env.steerer (λ _. balance-send_error env m id j _ _ s)
        λ f _.
          result_cases (Answers j s) (env.unmarshal_steer params)
            (λ e _. balance-send_error env m id j _ e s)
            λ p _.
              option_cases (Answers j s) s.active_turn (λ _. balance-send_error env m id j _ _ s)
                (λ t _. omega (arith, ap (loop_weight id) free))

  cancel-Answers :
      (j : String) (s : Server Raw) → s.loop ≡ ready → Answers j s (handle_cancel env j s)
  unfolding handle_cancel no_turn
  cancel-Answers j s free =
      option_cases (Answers j s) s.active_op (λ _. balance-send_error env m id j _ _ s)
        (λ i _. omega (arith, ap (loop_weight id) free))

  replay-Answers : (j : String) (s : Server Raw) → Answers j s (handle_replay env j s)
  unfolding handle_replay new_replay
  replay-Answers j s =
      if_cases (Answers j s) env.replayer
        (λ _.
          if_cases (Answers j s) (is_busy s) (λ _. balance-send_error env m id j _ _ s)
            (λ _. omega (arith, total-snoc (op_weight id) s.ops (new_replay j s))))
        (λ _. balance-send_error env m id j _ _ s)

  balance-emit_all :
      (es : List (Event Raw)) (s : Server Raw) → balance id (emit_all env es s) ≡ balance id s
  unfolding emit_all
  balance-emit_all [] s = refl
  balance-emit_all (e ∷ es) s =
      balance-emit_all es (emit_event env Origin.agent e s).0
      ∙ balance-emit_event env id Origin.agent e s

  answer_plan_mode-Answers :
      (j : String) (r : Result GoError SetPlanModeResult) (s : Server Raw)
      → Answers j s (answer_plan_mode env j r s)
  unfolding answer_plan_mode
  answer_plan_mode-Answers j (ok r) s = balance-send_response env m id j _ s
  answer_plan_mode-Answers j (err e) s = balance-send_error env m id j _ _ s

  plan_mode-Answers :
      (j : String) (params : Option Raw) (s : Server Raw)
      → Answers j s (handle_set_plan_mode env j params s)
  unfolding handle_set_plan_mode
  plan_mode-Answers j params s =
      if_cases (Answers j s) (is_set s.client_caps.supports_plan_mode)
        (λ _.
          option_cases (Answers j s) env.switcher (λ _. balance-send_error env m id j _ _ s)
            λ f _.
              result_cases (Answers j s) (env.unmarshal_set_plan_mode params)
                (λ e _. balance-send_error env m id j _ e s)
                λ p _.
                  answer_plan_mode-Answers j (f p.enabled).1 (emit_all env (f p.enabled).0 s)
                  ∙ ap (λ n. n + hit id j) (balance-emit_all (f p.enabled).0 s))
        (λ _. balance-send_error env m id j _ _ s)

  -- Whatever the method, one reply is written or owed for the message.
  pub dispatch-Answers :
      (raw : RawWireMessage Raw) (s : Server Raw)
      → s.loop ≡ ready
      → Answers raw.id s (dispatch env raw s)
  unfolding dispatch
  dispatch-Answers raw s free =
      if_cases A (raw.method == "initialize") (λ _. initialize-Answers raw.id raw.params s)
        λ _.
          if_cases A (raw.method == "prompt") (λ _. prompt-Answers raw.id raw.params s free)
            λ _.
              if_cases A (raw.method == "steer") (λ _. steer-Answers raw.id raw.params s free)
                λ _.
                  if_cases A (raw.method == "cancel") (λ _. cancel-Answers raw.id s free)
                    λ _.
                      if_cases A (raw.method == "replay") (λ _. replay-Answers raw.id s)
                        λ _.
                          if_cases A (raw.method == "set_plan_mode")
                            (λ _. plan_mode-Answers raw.id raw.params s)
                            (λ _. balance-send_error env m id raw.id _ _ s)
    where
      A : Server Raw → Type 0
      A = Answers raw.id s
