-- ===== src/Server/Serve.antt =====
-- readLoop, serveLoop, dispatch, Serve and clearActiveTurn of server/server.go, as the actions that
-- the goroutines, the agent and the client's lines may take in any order. An action that is not
-- enabled leaves the state as it is.
use mathlib.Core.List.{map}
use kimi_wire_go.Prelude.{
  ℕ, String, Bool, true, false, ◌&&◌, Option, none, some, List, [], ◌∷◌, ◌++◌, ◌==◌, ltb,
  if◌then◌else◌, length, get_elem?,
}
use kimi_wire_go.Protocol.Event.{Event}
use kimi_wire_go.Protocol.Method.{PromptResult, ReplayResult}
use kimi_wire_go.Protocol.Jsonrpc.{RawWireMessage}
use kimi_wire_go.Protocol.Request.{Request}
use kimi_wire_go.Server.{
  GoError, Origin, Outgoing, Returned, Phase, turn_running, turn_ending, replay_running,
  replay_replying, replay_panicked, Loop, ready, stopped, Ending, cancelling, failing, sending,
  clearing, past_end, Server, Env, code_method_not_found, Operation,
}
use kimi_wire_go.Server.Initialize.{handle_initialize}
use kimi_wire_go.Server.Pending.{
  route_response, copy_pending, send_closing, receive_call, abandon_call, begin_call,
}
use kimi_wire_go.Server.Turn.{
  update_op, with_phase, advance_op, handle_prompt, empty_prompt, panic_error,
}
use kimi_wire_go.Server.Control.{
  handle_steer, handle_cancel, handle_replay, handle_set_plan_mode, continue,
}
use kimi_wire_go.Server.Write.{emit_event, send_error}

-- The capacity of dispatchCh.
abbrev pub dispatch_capacity : ℕ
dispatch_capacity = 1024

pub data Action (Raw : Type 0) : Type 0 where
  receive : RawWireMessage Raw → Action Raw
  receive_lost : RawWireMessage Raw → Action Raw
  receive_garbage : String → Action Raw
  reader_stops : Option GoError → Action Raw
  serve_ends : Action Raw
  context_ends : Action Raw
  serve : Action Raw
  serve_stops : Action Raw
  go_on : Bool → Action Raw
  advance : ℕ → Action Raw
  prompt_returns : ℕ → Returned PromptResult → Action Raw
  prompt_panics : ℕ → Action Raw
  replay_returns : ℕ → Returned ReplayResult → Action Raw
  replay_panics : ℕ → Action Raw
  agent_emits : Event Raw → Action Raw
  takes_steer : ℕ → Action Raw
  calls_client : Request Raw → Action Raw
  call_receives : ℕ → Action Raw
  call_gives_up : ℕ → GoError → Action Raw

abbrev pub end_op : Operation → Operation
end_op o = record o { ctx_done = true }

module _ {Raw : Type 0} where
  -- A message that the read loop hands to routeResponse.
  abbrev pub is_response : RawWireMessage Raw → Bool
  is_response raw = if raw.id == "" then false else raw.method == ""

  -- Cancelling the server's context cancels every context derived from it.
  unfoldable pub end_context : Server Raw → Server Raw
  end_context s = record s { serve_done = true; ops = map end_op s.ops }

  -- The locked part of clearActiveTurn.
  unfoldable pub clear_active : Server Raw → Server Raw
  clear_active s = record s { active_turn = none; active_op = none }

  -- The agent's Prompt, or Replay, comes back on operation `i`.
  unfoldable pub resume_prompt : ℕ → Returned PromptResult → Phase → Server Raw → Server Raw
  unfolding update_op
  resume_prompt i r turn_running s = update_op i (with_phase (turn_ending r)) s
  resume_prompt i r _ s = s

  unfoldable pub returns_prompt : ℕ → Returned PromptResult → Server Raw → Server Raw
  unfolding resume_prompt
  returns_prompt i r s = elim (get_elem? s.ops i) [
    | none ↦ s
    | some op ↦ resume_prompt i r op.phase s
  ]

  unfoldable pub resume_replay : ℕ → Phase → Phase → Server Raw → Server Raw
  unfolding update_op
  resume_replay i next replay_running s = update_op i (with_phase next) s
  resume_replay i next _ s = s

  unfoldable pub returns_replay : ℕ → Phase → Server Raw → Server Raw
  unfolding resume_replay
  returns_replay i next s = elim (get_elem? s.ops i) [
    | none ↦ s
    | some op ↦ resume_replay i next op.phase s
  ]

  -- A line that parses. The send on a full dispatchCh waits.
  unfoldable pub receive_message : RawWireMessage Raw → Server Raw → Server Raw
  unfolding route_response
  receive_message raw s =
      if s.reading
      then (if is_response raw
          then record s { calls = route_response false raw s.calls }
          else if ltb (length s.queue) dispatch_capacity
          then record s { queue = s.queue ++ raw ∷ [] }
          else s)
      else s

  -- A response for which the select takes the case of the context that is done.
  unfoldable pub lose_response : RawWireMessage Raw → Server Raw → Server Raw
  unfolding route_response
  lose_response raw s =
      if s.reading && (is_response raw && s.serve_done)
      then record s { calls = route_response true raw s.calls }
      else s

  -- A line that does not parse: the reply is written past writeMu, and its text is not redacted.
  unfoldable pub receive_line_error : String → Server Raw → Server Raw
  receive_line_error msg s =
      if s.reading then record s { written = s.written ++ Outgoing.parse_failure msg ∷ [] } else s

  -- The read loop ends.
  unfoldable pub stop_reading : Option GoError → Server Raw → Server Raw
  stop_reading failure s = if s.reading then record s { reading = false; read_err = failure } else s

  -- The next pass of the loop of closePending, or its end.
  unfoldable pub close_next : String → List (String × ℕ) → Server Raw → Server Raw
  unfolding send_closing
  close_next msg [] s = record s { ending = clearing }
  close_next msg ((id, k) ∷ rest) s = record s { calls = send_closing msg id k s.calls }

  unfoldable pub stop_serving : Loop Raw → Server Raw → Server Raw
  stop_serving ready s = if s.serve_done then record s { loop = stopped } else s
  stop_serving _ s = s

module _ {Raw : Type 0} (env : Env Raw) where
  unfoldable pub dispatch : RawWireMessage Raw → Server Raw → Server Raw
  unfolding handle_initialize handle_prompt handle_steer handle_cancel handle_replay
      handle_set_plan_mode send_error
  dispatch raw s =
      if raw.method == "initialize"
      then handle_initialize env raw.id raw.params s
      else if raw.method == "prompt"
      then handle_prompt env raw.id raw.params s
      else if raw.method == "steer"
      then handle_steer env raw.id raw.params s
      else if raw.method == "cancel"
      then handle_cancel env raw.id s
      else if raw.method == "replay"
      then handle_replay env raw.id s
      else if raw.method == "set_plan_mode"
      then handle_set_plan_mode env raw.id raw.params s
      else send_error env raw.id code_method_not_found "method not found" s

  -- The pending calls are failed if the read loop left an error.
  unfoldable pub fail_pending : Option GoError → Server Raw → Server Raw
  unfolding copy_pending
  fail_pending none s = record s { ending = clearing }
  fail_pending (some e) s = record s {
    calls = copy_pending s.calls;
    ending = sending (env.redact e.message);
  }

  -- One stretch of Serve after its read loop.
  unfoldable pub end_next : Ending → Server Raw → Server Raw
  unfolding end_context fail_pending close_next clear_active
  end_next cancelling s = end_context (record s { ending = failing })
  end_next failing s = fail_pending s.read_err s
  end_next (sending msg) s = close_next msg s.calls.pending_copy s
  end_next clearing s = clear_active (record s { ending = past_end })
  end_next past_end s = s

  -- Serve waits until the read loop has ended.
  unfoldable pub end_serve : Server Raw → Server Raw
  unfolding end_next
  end_serve s = if s.reading then s else end_next s.ending s

  unfoldable pub serve_next : Loop Raw → List (RawWireMessage Raw) → Server Raw → Server Raw
  unfolding dispatch
  serve_next ready (raw ∷ rest) s = dispatch raw (record s { queue = rest })
  serve_next _ _ s = s

  unfoldable pub advance_at : ℕ → Server Raw → Server Raw
  unfolding advance_op
  advance_at i s = elim (get_elem? s.ops i) [ none ↦ s | some op ↦ advance_op env i op op.phase s ]

  unfoldable pub step : Action Raw → Server Raw → Server Raw
  unfolding receive_message lose_response receive_line_error stop_reading end_serve serve_next
      stop_serving continue advance_at returns_prompt returns_replay emit_event begin_call
      receive_call abandon_call update_op end_context
  step (receive raw) s = receive_message raw s
  step (receive_lost raw) s = lose_response raw s
  step (receive_garbage msg) s = receive_line_error msg s
  step (reader_stops failure) s = stop_reading failure s
  step serve_ends s = end_serve s
  step context_ends s = end_context s
  step serve s = serve_next s.loop s.queue s
  step serve_stops s = stop_serving s.loop s
  step (go_on first) s = continue env first s.loop s
  step (advance i) s = advance_at i s
  step (prompt_returns i r) s = returns_prompt i r s
  step (prompt_panics i) s =
      returns_prompt i (record { result = empty_prompt; error = some panic_error }) s
  step (replay_returns i r) s = returns_replay i (replay_replying r) s
  step (replay_panics i) s = returns_replay i replay_panicked s
  step (agent_emits e) s = (emit_event env Origin.agent e s).0
  step (takes_steer i) s = update_op i (λ o. record o { steer = none }) s
  step (calls_client req) s = begin_call env req s
  step (call_receives k) s = record s { calls = receive_call env k s.calls }
  step (call_gives_up k e) s = record s { calls = abandon_call env k e s.calls }

  unfoldable pub run : List (Action Raw) → Server Raw → Server Raw
  unfolding step
  run [] s = s
  run (a ∷ as_) s = run as_ (step a s)
