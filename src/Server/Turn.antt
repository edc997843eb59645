-- ===== src/Server/Turn.antt =====
-- handlePrompt and endTurn of server/server.go, newTurn, close and SteerInput of server/turn.go.
-- endTurn runs on the goroutine of the turn (or, when TurnBegin cannot be emitted, on the serve loop,
-- which then waits for it): one phase for each stretch between two locks.
use kimi_wire_go.Prelude.{
  ℕ, String, Bool, true, false, ◌||◌, Option, none, some, [], ◌∷◌, ◌++◌, eqb, if◌then◌else◌, length,
  ok, err, modify,
}
use kimi_wire_go.Prelude.Int.{ℤ, pos, int_eq}
use kimi_wire_go.Protocol.Event.{Event}
use kimi_wire_go.Protocol.Method.{
  PromptParams, PromptResult, ReplayResult, prompt_status_cancelled, replay_status_cancelled,
}
use kimi_wire_go.Server.{
  GoError, Answer, Origin, Returned, Phase, turn_running, turn_ending, turn_closing, turn_clearing,
  turn_replying, replay_running, replay_replying, replay_panicked, replay_clearing, replay_closing,
  finished, Operation, awaiting_end, Server, Env, code_internal_error, code_invalid_params,
  code_turn_in_progress, turn_answering,
}
use kimi_wire_go.Server.Write.{emit_event, send_response, send_error}

abbrev pub is_some {ℓ} : {A : Type ℓ} → Option A → Bool
is_some none = false
is_some (some a) = true

-- `o == some i` on pointers.
abbrev pub points_to : Option ℕ → ℕ → Bool
points_to none i = false
points_to (some j) i = eqb j i

abbrev pub with_phase : Phase → Operation → Operation
with_phase p op = record op { phase = p }

-- t.close() on a turn that is open: the context is cancelled and `done` is closed.
abbrev pub close : Phase → Operation → Operation
close p op = record op { phase = p; ctx_done = true; done = true }

module _ {Raw : Type 0} where
  unfoldable pub update_op : ℕ → (Operation → Operation) → Server Raw → Server Raw
  update_op i f s = record s { ops = modify s.ops i f }

  unfoldable pub is_busy : Server Raw → Bool
  is_busy s = is_some s.active_turn || is_some s.active_op

  -- newTurn: the context is derived from the server's.
  unfoldable pub new_turn : String → Server Raw → Operation
  new_turn id s = record {
    id = id;
    phase = turn_running;
    cancelled = false;
    ctx_done = s.serve_done;
    done = false;
    steer = none;
  }

  unfoldable pub start_turn : String → Server Raw → Server Raw
  unfolding new_turn
  start_turn id s = record s {
    ops = s.ops ++ new_turn id s ∷ [];
    active_turn = some (length s.ops);
    active_op = some (length s.ops);
  }

  -- The locked part of endTurn that forgets the turn.
  unfoldable pub clear_turn : ℕ → Server Raw → Server Raw
  clear_turn i s =
      if points_to s.active_turn i then record s { active_turn = none; active_op = none } else s

  -- The locked part of the deferred function of handleReplay.
  unfoldable pub clear_replay : ℕ → Server Raw → Server Raw
  clear_replay i s = if points_to s.active_op i then record s { active_op = none } else s

-- The code and the text of the error reply to a prompt.
unfoldable pub error_reply : GoError → ℤ × String
error_reply e = elim e.code [
  | none ↦ (code_internal_error, "internal error")
  | some c ↦ if int_eq c (pos 0) then (code_internal_error, "internal error") else (c, e.message)
]

abbrev pub cancelled_prompt : PromptResult
cancelled_prompt = record { status = prompt_status_cancelled; steps = none }

abbrev pub empty_prompt : PromptResult
empty_prompt = record { status = ""; steps = none }

-- The code of a recovered panic in Agent.Prompt.
abbrev pub panic_error : GoError
panic_error = record {
  message = "internal error";
  code = some code_internal_error;
  is_canceled = false;
}

module _ {Raw : Type 0} (env : Env Raw) where
  -- The replies of endTurn, by whether the turn was cancelled.
  unfoldable pub reply_prompt : String → Bool → Returned PromptResult → Server Raw → Server Raw
  unfolding error_reply send_response send_error
  reply_prompt id was_cancelled r s = elim r.error [
    | none ↦
        if was_cancelled
        then send_response env id (Answer.prompted cancelled_prompt) s
        else send_response env id (Answer.prompted r.result) s
    | some e ↦
        if was_cancelled || e.is_canceled
        then send_response env id (Answer.prompted cancelled_prompt) s
        else send_error env id (error_reply e).0 (error_reply e).1 s
  ]

  unfoldable pub reply_replay : String → Returned ReplayResult → Server Raw → Server Raw
  unfolding send_response send_error
  reply_replay id r s = elim r.error [
    | none ↦ send_response env id (Answer.replayed r.result) s
    | some e ↦
        if e.is_canceled
        then send_response env id
            (Answer.replayed
              (record { status = replay_status_cancelled; events = 0; requests = 0 }))
            s
        else send_error env id code_internal_error e.message s
  ]

  -- One stretch of the goroutine of operation `i`, which stands at the given phase.
  unfoldable pub advance_op : ℕ → Operation → Phase → Server Raw → Server Raw
  unfolding update_op clear_turn clear_replay reply_prompt reply_replay emit_event send_error
  advance_op i op turn_running s = s
  advance_op i op (turn_ending r) s =
      update_op i (with_phase (turn_closing r)) (emit_event env Origin.server Event.turn_end s).0
  advance_op i op (turn_closing r) s = update_op i (close (turn_clearing r)) s
  advance_op i op (turn_clearing r) s = update_op i (with_phase (turn_replying r)) (clear_turn i s)
  advance_op i op (turn_replying r) s = update_op i (with_phase (turn_answering r op.cancelled)) s
  advance_op i op (turn_answering r was_cancelled) s =
      update_op i (with_phase finished) (reply_prompt op.id was_cancelled r s)
  advance_op i op replay_running s = s
  advance_op i op (replay_replying r) s =
      update_op i (with_phase replay_clearing) (reply_replay op.id r s)
  advance_op i op replay_panicked s =
      update_op i (with_phase replay_clearing)
        (send_error env op.id code_internal_error "internal error" s)
  advance_op i op replay_clearing s = update_op i (with_phase replay_closing) (clear_replay i s)
  advance_op i op replay_closing s = update_op i (λ o. record o { phase = finished; done = true }) s
  advance_op i op finished s = s

  -- A TurnBegin that cannot be emitted ends the turn at once.
  unfoldable pub after_begin : ℕ → Server Raw × Option GoError → Server Raw
  unfolding update_op
  after_begin i (s, none) = s
  after_begin i (s, some e) =
      update_op i (with_phase (turn_ending (record { result = empty_prompt; error = some e })))
        (record s { loop = awaiting_end i })

  unfoldable pub begin_prompt : String → PromptParams → Server Raw → Server Raw
  unfolding is_busy start_turn after_begin emit_event send_error
  begin_prompt id p s =
      if is_busy s
      then send_error env id code_turn_in_progress "A turn is already in progress" s
      else after_begin (length s.ops) (
          emit_event env Origin.server (Event.turn_begin (record { user_input = p.user_input }))
            (start_turn id s))

  unfoldable pub handle_prompt : String → Option Raw → Server Raw → Server Raw
  unfolding begin_prompt send_error
  handle_prompt id params s = elim (env.unmarshal_prompt params) [
    | err e ↦ send_error env id code_invalid_params e s
    | ok p ↦ begin_prompt id p s
  ]
