-- ===== src/Server/Replies/Run.antt =====
-- The balance over every action, and over every run.
use kimi_wire_go.Prelude.{
  ℕ, ◌+◌, String, ◌≡◌, refl, ap, ◌∙◌, true, Option, none, some, List, [], ◌∷◌, arith, get_elem?,
  total-snoc, total, if_cases, option_cases,
}
use kimi_wire_go.Server.Serve.{
  agent_emits, returns_replay, returns_prompt, go_on, serve_stops, resume_replay, call_gives_up,
  Action, calls_client, call_receives, reader_stops, receive, context_ends, step, replay_returns,
  receive_garbage, prompt_returns, advance, advance_at, prompt_panics, resume_prompt, takes_steer,
  run, replay_panics, stop_serving, serve, serve_ends, receive_lost,
}
use kimi_wire_go.Server.Write.{write_message}
use kimi_wire_go.Server.{
  Operation, GoError, new, Outgoing, Origin, replay_panicked, turn_running, Server, Env, Loop,
  ready, replay_running, Returned, replay_replying, Phase,
}
use kimi_wire_go.Server.Turn.{empty_prompt, with_phase, panic_error, update_op}
use kimi_wire_go.Protocol.Request.{Request}
use kimi_wire_go.Server.Replies.Loops.{
  balance-receive_line_error, balance-end_context, accepted_weight, balance-stop_reading,
  balance-serve_next, balance-receive, accepted_run, balance-lose_response, balance-end_serve,
}
use kimi_wire_go.Server.Replies.{owed, owes, loop_weight, balance, reply_weight, replies, Same}
use kimi_wire_go.Server.Replies.Write.{RepliesMarshal, write_message_cases, balance-emit_event}
use kimi_wire_go.Server.Pending.{begin_call, register, request_id, count_next}
use kimi_wire_go.Server.Replies.Waits.{Same-update_op, balance-continue}
use kimi_wire_go.Server.Replies.Handlers.{balance-update_op}
use kimi_wire_go.Protocol.Method.{PromptResult}
use kimi_wire_go.Server.Replies.Steps.{balance-advance_op}

module _ {Raw : Type 0} (env : Env Raw) (m : RepliesMarshal env) (id : String) where
  Same-phase :
      (i : ℕ) (p : Phase) (s : Server Raw) (o : Operation)
      → get_elem? s.ops i ≡ some o
      → owes o.phase ≡ true
      → owes p ≡ true
      → Same id s (update_op i (with_phase p) s)
  Same-phase i p s o h before after =
      balance-update_op env m id i _ s
        (λ o' h'. let one : o ≡ o' = ground (arith, h, h') in ground arith)

  balance-returns_prompt :
      (i : ℕ) (r : Returned PromptResult) (s : Server Raw) → Same id s (returns_prompt i r s)
  unfolding returns_prompt
  balance-returns_prompt i r s =
      option_cases (Same id s) (get_elem? s.ops i) (λ _. refl) (λ o h. by_phase o h o.phase refl)
    where
      by_phase :
          (o : Operation)
          → get_elem? s.ops i ≡ some o
          → (p : Phase) → o.phase ≡ p
          → Same id s (resume_prompt i r p s)
      by_phase o h turn_running e = Same-phase i _ s o h (ap owes e) refl
      by_phase o h _ e = refl

  balance-returns_replay :
      (i : ℕ) (p : Phase) (s : Server Raw) → owes p ≡ true → Same id s (returns_replay i p s)
  unfolding returns_replay
  balance-returns_replay i q s w =
      option_cases (Same id s) (get_elem? s.ops i) (λ _. refl) (λ o h. by_phase o h o.phase refl)
    where
      by_phase :
          (o : Operation)
          → get_elem? s.ops i ≡ some o
          → (p : Phase) → o.phase ≡ p
          → Same id s (resume_replay i q p s)
      by_phase o h replay_running e = Same-phase i q s o h (ap owes e) w
      by_phase o h _ e = refl

  balance-advance_at : (i : ℕ) (s : Server Raw) → Same id s (advance_at env i s)
  unfolding advance_at
  balance-advance_at i s =
      option_cases (Same id s) (get_elem? s.ops i) (λ _. refl)
        (λ o h. balance-advance_op env m id i o o.phase s h refl)

  balance-stop_serving : (l : Loop Raw) (s : Server Raw) → s.loop ≡ l → Same id s (stop_serving l s)
  unfolding stop_serving
  balance-stop_serving ready s e =
      if_cases (Same id s) s.serve_done (λ _. omega (arith, ap (loop_weight id) e)) (λ _. refl)
  balance-stop_serving _ s e = refl

  balance-begin_call : (req : Request Raw) (s : Server Raw) → Same id s (begin_call env req s)
  unfolding begin_call
  balance-begin_call req s = option_cases (Same id s) sent.1 (λ _. written) (λ _ _. written)
    where
      sent : Server Raw × Option GoError
      sent =
          write_message env (Outgoing.request (request_id (count_next s.calls.request_counter)) req)
            (record s { calls = register s.calls })

      written : Same id s sent.0
      written = write_message_cases env (Same id s) _ _ refl (
          omega (
            arith,
            total-snoc (reply_weight {Raw = Raw} id) s.written
                (Outgoing.request (request_id (count_next s.calls.request_counter)) req),
          ))

  -- One action, whichever it is.
  balance-step :
      (a : Action Raw) (s : Server Raw)
      → balance id (step env a s) ≡ balance id s + accepted_weight id a s
  unfolding step
  balance-step (receive raw) s = balance-receive env m id raw s
  balance-step (receive_garbage msg) s = omega (arith, balance-receive_line_error env m id msg s)
  balance-step (receive_lost raw) s = omega (arith, balance-lose_response env m id raw s)
  balance-step serve_ends s = omega (arith, balance-end_serve env m id s)
  balance-step (reader_stops f) s = omega (arith, balance-stop_reading env m id f s)
  balance-step context_ends s = omega (arith, balance-end_context env m id s)
  balance-step serve s = omega (arith, balance-serve_next env m id s.loop s.queue s refl refl)
  balance-step serve_stops s = omega (arith, balance-stop_serving s.loop s refl)
  balance-step (go_on first) s = omega (arith, balance-continue env m id first s.loop s refl)
  balance-step (advance i) s = omega (arith, balance-advance_at i s)
  balance-step (prompt_returns i r) s = omega (arith, balance-returns_prompt i r s)
  balance-step (prompt_panics i) s = omega (
    arith,
    balance-returns_prompt i (record { result = empty_prompt; error = some panic_error }) s,
  )
  balance-step (replay_returns i r) s =
      omega (arith, balance-returns_replay i (replay_replying r) s refl)
  balance-step (replay_panics i) s = omega (arith, balance-returns_replay i replay_panicked s refl)
  balance-step (agent_emits e) s = omega (arith, balance-emit_event env id Origin.agent e s)
  balance-step (takes_steer i) s =
      omega (arith, Same-update_op env m id i (λ o. record o { steer = none }) s (λ o. refl))
  balance-step (calls_client req) s = omega (arith, balance-begin_call req s)
  balance-step (call_receives k) s = omega arith
  balance-step (call_gives_up k e) s = omega arith

  pub balance-run :
      (as_ : List (Action Raw)) (s : Server Raw)
      → balance id (run env as_ s) ≡ balance id s + accepted_run env id as_ s
  unfolding run accepted_run
  balance-run [] s = omega arith
  balance-run (a ∷ as_) s = omega (arith, balance-step a s, balance-run as_ (step env a s))

  -- If encoding/json prints every reply, then in every run the replies with an id and those still
  -- owed (by the queue, by the handler that waits, by the goroutine of a turn or replay) are as many
  -- as the requests with that id that the read loop took: none is answered twice, none is lost.
  pub replies-run :
      (as_ : List (Action Raw))
      → replies id (run env as_ new) + owed id (run env as_ new) ≡ accepted_run env id as_ new
  unfolding new total
  replies-run as_ = balance-run as_ new ∙ omega arith
