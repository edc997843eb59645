-- ===== src/Server/Settled.antt =====
-- What handleInitialize of server/server.go sets is set once.
use kimi_wire_go.Prelude.{
  ◌≡◌, refl, Bool, true, ◌&&◌, Option, none, some, List, [], ◌∷◌, ltb, length, if_cases,
  option_cases,
}
use kimi_wire_go.Server.Kept.{
  Keeps, KeepsAccepted, Settings, settings, Keeps-continue, Keeps-serve_next, Keeps-write,
  Keeps-stop_serving,
}
use kimi_wire_go.Server.{
  Env, Server, Calls, GoError, clearing, cancelling, failing, sending, Outgoing, past_end, Ending,
}
use kimi_wire_go.Server.Serve.{
  end_next, serve_stops, replay_returns, receive_lost, receive_garbage, dispatch_capacity,
  receive_line_error, close_next, is_response, end_context, receive_message, step, context_ends,
  go_on, advance, agent_emits, fail_pending, prompt_panics, receive, call_receives, Action,
  reader_stops, calls_client, lose_response, clear_active, prompt_returns, replay_panics,
  serve_ends, end_serve, call_gives_up, stop_reading, serve, run, takes_steer,
}
use kimi_wire_go.Server.Pending.{begin_call, count_next, register, request_id}
use kimi_wire_go.Server.Write.{emit_event, write_message}
use kimi_wire_go.Protocol.Request.{Request}
use kimi_wire_go.Server.Turn.{update_op}
use kimi_wire_go.Server.Kept.Goroutines.{
  Keeps-advance_at, Keeps-returns_prompt, Keeps-returns_replay,
}
use kimi_wire_go.Protocol.Jsonrpc.{RawWireMessage}

module _ {Raw : Type 0} (env : Env Raw) (x : Settings) where
  -- The handshake is done, with these settings.
  abbrev IsSettled : Calls Raw × Bool × Settings → Type 0
  IsSettled v = (v.1 ≡ true) × (v.2 ≡ x)

  -- There is no second initialize that is accepted.
  accepts_none : KeepsAccepted env IsSettled
  accepts_none j p s first h = absurd (cc (first, h.0))

  Settled-begin_call :
      (req : Request Raw) (s : Server Raw)
      → Keeps env IsSettled s
      → Keeps env IsSettled (begin_call env req s)
  unfolding begin_call
  Settled-begin_call req s h = option_cases (Keeps env IsSettled) sent.1 (λ _. one) (λ e _. one)
    where
      sent : Server Raw × Option GoError
      sent =
          write_message env (Outgoing.request (request_id (count_next s.calls.request_counter)) req)
            (record s { calls = register s.calls })

      one : Keeps env IsSettled sent.0
      one = Keeps-write env IsSettled _ (record s { calls = register s.calls }) h

  Settled-end_next :
      (e : Ending) (s : Server Raw) → Keeps env IsSettled s → Keeps env IsSettled (end_next env e s)
  unfolding end_next end_context clear_active fail_pending close_next
  Settled-end_next cancelling s h = h
  Settled-end_next failing s h =
      elim s.read_err as (λ f. Keeps env IsSettled (fail_pending env f s)) [ none ↦ h | some e ↦ h ]
  Settled-end_next (sending msg) s h =
      elim s.calls.pending_copy as (λ l. Keeps env IsSettled (close_next msg l s)) [
        | [] ↦ h
        | c ∷ rest ↦ h
      ]
  Settled-end_next clearing s h = h
  Settled-end_next past_end s h = h

  Settled-receive :
      (raw : RawWireMessage Raw) (s : Server Raw)
      → Keeps env IsSettled s
      → Keeps env IsSettled (receive_message raw s)
  unfolding receive_message
  Settled-receive raw s h =
      if_cases (Keeps env IsSettled) s.reading
        (λ _.
          if_cases (Keeps env IsSettled) (is_response raw) (λ _. h)
            λ _.
              if_cases (Keeps env IsSettled) (ltb (length s.queue) dispatch_capacity) (λ _. h)
                (λ _. h))
        (λ _. h)

  Settled-step :
      (a : Action Raw) (s : Server Raw) → Keeps env IsSettled s → Keeps env IsSettled (step env a s)
  unfolding step receive_line_error lose_response stop_reading end_serve end_context emit_event
      update_op
  Settled-step (receive raw) s h = Settled-receive raw s h
  Settled-step (receive_lost raw) s h =
      if_cases (Keeps env IsSettled) (s.reading && (is_response raw && s.serve_done)) (λ _. h)
        (λ _. h)
  Settled-step (receive_garbage msg) s h =
      if_cases (Keeps env IsSettled) s.reading (λ _. h) (λ _. h)
  Settled-step (reader_stops f) s h = if_cases (Keeps env IsSettled) s.reading (λ _. h) (λ _. h)
  Settled-step serve_ends s h =
      if_cases (Keeps env IsSettled) s.reading (λ _. h) (λ _. Settled-end_next s.ending s h)
  Settled-step context_ends s h = h
  Settled-step serve s h = Keeps-serve_next env IsSettled s.loop s.queue s accepts_none h
  Settled-step serve_stops s h = Keeps-stop_serving env IsSettled s.loop s h
  Settled-step (go_on first) s h = Keeps-continue env IsSettled first s.loop s h
  Settled-step (advance i) s h = Keeps-advance_at env IsSettled i s h
  Settled-step (prompt_returns i r) s h = Keeps-returns_prompt env IsSettled i r s h
  Settled-step (prompt_panics i) s h = Keeps-returns_prompt env IsSettled i _ s h
  Settled-step (replay_returns i r) s h = Keeps-returns_replay env IsSettled i _ s h
  Settled-step (replay_panics i) s h = Keeps-returns_replay env IsSettled i _ s h
  Settled-step (agent_emits e) s h = Keeps-write env IsSettled _ s h
  Settled-step (takes_steer i) s h = h
  Settled-step (calls_client req) s h = Settled-begin_call req s h
  Settled-step (call_receives k) s h = h
  Settled-step (call_gives_up k e) s h = h

  Settled-run :
      (as_ : List (Action Raw)) (s : Server Raw)
      → Keeps env IsSettled s
      → Keeps env IsSettled (run env as_ s)
  unfolding run
  Settled-run [] s h = h
  Settled-run (a ∷ as_) s h = Settled-run as_ (step env a s) (Settled-step a s h)

module _ {Raw : Type 0} (env : Env Raw) where
  -- Once the handshake is done it stays done, and nothing that the client, the agent or the server
  -- does, a further initialize, the end of a turn or of the read loop included, changes the version,
  -- the capabilities or the hooks that were agreed on.
  pub initialize_once :
      (as_ : List (Action Raw)) (s : Server Raw)
      → s.handshake_done ≡ true
      → ((run env as_ s).handshake_done ≡ true) × (settings (run env as_ s) ≡ settings s)
  initialize_once as_ s h = Settled-run env (settings s) as_ s (h, refl)
