-- ===== src/Server/Control.antt =====
-- handleSteer, handleCancel, handleReplay and handleSetPlanMode of server/server.go. A handler that
-- waits leaves the serve loop at a place from which `continue` goes on.
use kimi_wire_go.Prelude.{
  ℕ, String, Bool, true, false, Option, none, some, List, [], ◌∷◌, ◌++◌, if◌then◌else◌, length,
  get_elem?, Result, ok, err,
}
use kimi_wire_go.Protocol.Event.{Event}
use kimi_wire_go.Protocol.Content.{UserInput}
use kimi_wire_go.Protocol.Method.{SetPlanModeResult, steer_status_steered}
use kimi_wire_go.Server.{
  GoError, Answer, Origin, replay_running, finished, Operation, Loop, ready, stopped, marking,
  awaiting_done, steering, awaiting_end, Server, Env, code_internal_error, code_invalid_params,
  code_turn_in_progress, code_no_turn_in_progress, code_plan_mode_not_supported,
  code_method_not_found, Steerer,
}
use kimi_wire_go.Server.Initialize.{is_set}
use kimi_wire_go.Server.Turn.{is_busy, update_op}
use kimi_wire_go.Server.Write.{emit_event, send_response, send_error}

abbrev pub has_room : Operation → Bool
has_room op = elim op.steer [ none ↦ true | some x ↦ false ]

abbrev pub is_finished : Operation → Bool
is_finished op = elim op.phase [ finished ↦ true | _ ↦ false ]

module _ {Raw : Type 0} where
  -- `<-op.done` and `<-t.ctx.Done()` in a select: whether they can be taken. A closed channel stays
  -- so.
  abbrev pub op_is : (Operation → Bool) → ℕ → Server Raw → Bool
  op_is f i s = elim (get_elem? s.ops i) [ none ↦ false | some op ↦ f op ]

  unfoldable pub new_replay : String → Server Raw → Operation
  new_replay id s = record {
    id = id;
    phase = replay_running;
    cancelled = false;
    ctx_done = s.serve_done;
    done = false;
    steer = none;
  }

  -- t.cancelled = true and op.cancel(). A run in which another goroutine acts between the two is one
  -- in which it acts after both: the context only lets the agent return, which it may do anyway.
  unfoldable pub mark_cancelled : ℕ → Option ℕ → Server Raw → Server Raw
  unfolding update_op
  mark_cancelled i none s = update_op i (λ o. record o { ctx_done = true }) s
  mark_cancelled i (some t) s =
      update_op i (λ o. record o { ctx_done = true })
        (update_op t (λ o. record o { cancelled = true }) s)

module _ {Raw : Type 0} (env : Env Raw) where
  unfoldable pub no_turn : String → Server Raw → Server Raw
  unfolding send_error
  no_turn id s = send_error env id code_no_turn_in_progress "No agent turn is in progress" s

  -- handleSteer up to its select.
  unfoldable pub handle_steer : String → Option Raw → Server Raw → Server Raw
  unfolding no_turn send_error
  handle_steer id params s = elim env.steerer [
    | none ↦ send_error env id code_method_not_found "method not found" s
    | some f ↦ elim (env.unmarshal_steer params) [
      | err e ↦ send_error env id code_invalid_params e s
      | ok p ↦ elim s.active_turn [
        | none ↦ no_turn id s
        | some t ↦ record s { loop = steering id t p.user_input f }
      ]
    ]
  ]

  -- The end of handleSteer, once the input is in the channel.
  unfoldable pub call_steer : Steerer Raw → String → UserInput → Server Raw → Server Raw
  unfolding send_response send_error
  call_steer f id input s = elim (f s.written input) [
    | none ↦ send_response env id (Answer.steered (record { status = steer_status_steered })) s
    | some e ↦ send_error env id code_internal_error e.message s
  ]

  -- handleCancel up to the point where it holds the operation that it read.
  unfoldable pub handle_cancel : String → Server Raw → Server Raw
  unfolding no_turn
  handle_cancel id s = elim s.active_op [
    | none ↦ no_turn id s
    | some i ↦ record s { loop = marking id i s.active_turn }
  ]

  unfoldable pub handle_replay : String → Server Raw → Server Raw
  unfolding is_busy new_replay send_error
  handle_replay id s =
      if env.replayer
      then (if is_busy s
          then send_error env id code_turn_in_progress "A turn is already in progress" s
          else record s { ops = s.ops ++ new_replay id s ∷ []; active_op = some (length s.ops) })
      else send_error env id code_method_not_found "method not found" s

  -- What the switcher emits while it runs.
  unfoldable pub emit_all : List (Event Raw) → Server Raw → Server Raw
  unfolding emit_event
  emit_all [] s = s
  emit_all (e ∷ es) s = emit_all es (emit_event env Origin.agent e s).0

  unfoldable pub answer_plan_mode :
      String → Result GoError SetPlanModeResult → Server Raw → Server Raw
  unfolding send_response send_error
  answer_plan_mode id (ok r) s = send_response env id (Answer.plan_mode_set r) s
  answer_plan_mode id (err e) s = send_error env id code_internal_error e.message s

  unfoldable pub handle_set_plan_mode : String → Option Raw → Server Raw → Server Raw
  unfolding emit_all answer_plan_mode send_error
  handle_set_plan_mode id params s =
      if is_set s.client_caps.supports_plan_mode
      then elim env.switcher [
        | none ↦ send_error env id code_method_not_found "method not found" s
        | some f ↦ elim (env.unmarshal_set_plan_mode params) [
          | err e ↦ send_error env id code_invalid_params e s
          | ok p ↦ answer_plan_mode id (f p.enabled).1 (emit_all (f p.enabled).0 s)
        ]
      ]
      else send_error env id code_plan_mode_not_supported "Plan mode is not supported" s

  -- The serve loop goes on inside the handler in which it waits; `first` says which case of a select
  -- it tries. A case that is not ready leaves the state as it is.
  unfoldable pub continue : Bool → Loop Raw → Server Raw → Server Raw
  unfolding mark_cancelled call_steer no_turn send_response send_error update_op
  continue first ready s = s
  continue first stopped s = s
  continue first (marking id i t) s = mark_cancelled i t (record s { loop = awaiting_done id i })
  continue true (awaiting_done id i) s =
      if op_is (λ o. o.done) i s
      then send_response env id Answer.cancelled (record s { loop = ready })
      else s
  continue false (awaiting_done id i) s =
      if s.serve_done
      then send_error env id code_internal_error "server shutting down" (record s { loop = ready })
      else s
  continue true (steering id t input f) s =
      if op_is has_room t s
      then call_steer f id input
          (update_op t (λ o. record o { steer = some input }) (record s { loop = ready }))
      else s
  continue false (steering id t input f) s =
      if op_is (λ o. o.ctx_done) t s then no_turn id (record s { loop = ready }) else s
  continue first (awaiting_end i) s = if op_is is_finished i s then record s { loop = ready } else s
