-- ===== src/Server/Pending/Routing/Stepped.antt =====
-- Every action of the server moves its calls along the relation.
use kimi_wire_go.Prelude.{
  ℕ, ◌+◌, Bool, ◌≡◌, refl, sym, subst, true, Option, none, some, List, [], ◌∷◌, ltb, length,
  if_cases, option_cases, String, false, ◌&&◌,
}
use kimi_wire_go.Server.Serve.{
  prompt_panics, fail_pending, takes_steer, receive_message, replay_returns, is_response,
  end_context, agent_emits, replay_panics, calls_client, Action, step, go_on, serve_stops, run,
  call_receives, reader_stops, receive_garbage, dispatch_capacity, receive_line_error, receive,
  stop_reading, prompt_returns, call_gives_up, advance, context_ends, serve, clear_active,
  end_serve, end_next, serve_ends, close_next, receive_lost, lose_response,
}
use kimi_wire_go.Server.{
  GoError, Calls, Env, Server, Outgoing, clearing, sending, cancelling, failing, Ending, past_end,
}
use kimi_wire_go.Server.Turn.{update_op}
use kimi_wire_go.Server.Write.{write_message, emit_event}
use kimi_wire_go.Server.Kept.{
  Settings, KeepsAccepted, Keeps-send_response, Keeps-continue, Keeps-stop_serving, Keeps-write,
  Keeps-serve_next,
}
use kimi_wire_go.Server.Pending.{register, count_next, request_id, begin_call}
use kimi_wire_go.Server.Pending.Routing.{
  called, Reaches, answered, routed, given_up, call_failed, copied_over,
}
use kimi_wire_go.Protocol.Request.{Request}
use kimi_wire_go.Protocol.Jsonrpc.{RawWireMessage}
use kimi_wire_go.Server.Kept.Goroutines.{
  Keeps-advance_at, Keeps-returns_prompt, Keeps-returns_replay,
}
use kimi_wire_go.Server.Initialize.{accept_initialize}

-- The calls that an action makes, added to those made before.
abbrev pub count_calls : {Raw : Type 0} → Action Raw → ℕ → ℕ
count_calls (calls_client req) n = n + 1
count_calls _ n = n

abbrev pub calls_made : {Raw : Type 0} → List (Action Raw) → ℕ → ℕ
calls_made [] n = n
calls_made (a ∷ as_) n = calls_made as_ (count_calls a n)

module _ {Raw : Type 0} (env : Env Raw) where
  abbrev pub SameCalls : Calls Raw → Calls Raw × Bool × Settings → Type 0
  SameCalls c v = v.0 ≡ c

  pub accept_initialize-calls : (c : Calls Raw) → KeepsAccepted env (SameCalls c)
  unfolding accept_initialize
  accept_initialize-calls c j p s first h = Keeps-send_response env (SameCalls c) j _ _ h

  same_calls : (c d : Calls Raw) (n : ℕ) → d ≡ c → Reaches env c n → Reaches env d n
  same_calls c d n e r = subst (λ x. Reaches env x n) (sym e) r

  begin_call-Reaches :
      (req : Request Raw) (s : Server Raw) (n : ℕ)
      → Reaches env s.calls n
      → Reaches env (begin_call env req s).calls (n + 1)
  unfolding begin_call
  begin_call-Reaches req s n r =
      option_cases (λ (t : Server Raw). Reaches env t.calls (n + 1)) sent.1 (λ _. one)
        (λ e _. given_up (length s.calls.waiters) e sent.0.calls (n + 1) one)
    where
      sent : Server Raw × Option GoError
      sent =
          write_message env (Outgoing.request (request_id (count_next s.calls.request_counter)) req)
            (record s { calls = register s.calls })

      one : Reaches env sent.0.calls (n + 1)
      one =
          same_calls (register s.calls) _ (n + 1)
            (Keeps-write env (SameCalls (register s.calls)) _
              (record s { calls = register s.calls }) refl)
            (called s.calls n r)

  receive_message-Reaches :
      (raw : RawWireMessage Raw) (s : Server Raw) (n : ℕ)
      → Reaches env s.calls n
      → Reaches env (receive_message raw s).calls n
  unfolding receive_message
  receive_message-Reaches raw s n r =
      if_cases Good s.reading
        (λ _.
          if_cases Good (is_response raw) (λ _. routed false raw s.calls n r)
            (λ _. if_cases Good (ltb (length s.queue) dispatch_capacity) (λ _. r) (λ _. r)))
        (λ _. r)
    where
      Good : Server Raw → Type 0
      Good t = Reaches env t.calls n

  lose_response-Reaches :
      (raw : RawWireMessage Raw) (s : Server Raw) (n : ℕ)
      → Reaches env s.calls n
      → Reaches env (lose_response raw s).calls n
  unfolding lose_response
  lose_response-Reaches raw s n r =
      if_cases (λ (t : Server Raw). Reaches env t.calls n)
        (s.reading && (is_response raw && s.serve_done)) (λ _. routed true raw s.calls n r) (λ _. r)

  stop_reading-calls : (f : Option GoError) (s : Server Raw) → (stop_reading f s).calls ≡ s.calls
  unfolding stop_reading
  stop_reading-calls f s =
      if_cases (λ (t : Server Raw). t.calls ≡ s.calls) s.reading (λ _. refl) (λ _. refl)

  fail_pending-Reaches :
      (f : Option GoError) (s : Server Raw) (n : ℕ)
      → Reaches env s.calls n
      → Reaches env (fail_pending env f s).calls n
  unfolding fail_pending
  fail_pending-Reaches none s n r = r
  fail_pending-Reaches (some e) s n r = copied_over s.calls n r

  close_next-Reaches :
      (msg : String) (p : List (String × ℕ)) (s : Server Raw) (n : ℕ)
      → s.calls.pending_copy ≡ p
      → Reaches env s.calls n
      → Reaches env (close_next msg p s).calls n
  unfolding close_next
  close_next-Reaches msg [] s n e r = r
  close_next-Reaches msg ((id, k) ∷ p) s n e r = call_failed msg id k p s.calls n e r

  end_next-Reaches :
      (e : Ending) (s : Server Raw) (n : ℕ)
      → Reaches env s.calls n
      → Reaches env (end_next env e s).calls n
  unfolding end_next end_context clear_active
  end_next-Reaches cancelling s n r = r
  end_next-Reaches failing s n r = fail_pending-Reaches s.read_err s n r
  end_next-Reaches (sending msg) s n r = close_next-Reaches msg s.calls.pending_copy s n refl r
  end_next-Reaches clearing s n r = r
  end_next-Reaches past_end s n r = r

  end_serve-Reaches :
      (s : Server Raw) (n : ℕ) → Reaches env s.calls n → Reaches env (end_serve env s).calls n
  unfolding end_serve
  end_serve-Reaches s n r =
      if_cases (λ (t : Server Raw). Reaches env t.calls n) s.reading (λ _. r)
        (λ _. end_next-Reaches s.ending s n r)

  pub step-Reaches :
      (a : Action Raw) (s : Server Raw) (n : ℕ)
      → Reaches env s.calls n
      → Reaches env (step env a s).calls (count_calls a n)
  unfolding step receive_line_error end_context emit_event update_op
  step-Reaches (receive raw) s n r = receive_message-Reaches raw s n r
  step-Reaches (receive_garbage msg) s n r =
      if_cases (λ (t : Server Raw). Reaches env t.calls n) s.reading (λ _. r) (λ _. r)
  step-Reaches (receive_lost raw) s n r = lose_response-Reaches raw s n r
  step-Reaches (reader_stops f) s n r = same_calls s.calls _ n (stop_reading-calls f s) r
  step-Reaches serve_ends s n r = end_serve-Reaches s n r
  step-Reaches context_ends s n r = r
  step-Reaches serve s n r =
      same_calls s.calls _ n
        (Keeps-serve_next env (SameCalls s.calls) s.loop s.queue s (accept_initialize-calls s.calls)
          refl)
        r
  step-Reaches serve_stops s n r =
      same_calls s.calls _ n (Keeps-stop_serving env (SameCalls s.calls) s.loop s refl) r
  step-Reaches (go_on first) s n r =
      same_calls s.calls _ n (Keeps-continue env (SameCalls s.calls) first s.loop s refl) r
  step-Reaches (advance i) s n r =
      same_calls s.calls _ n (Keeps-advance_at env (SameCalls s.calls) i s refl) r
  step-Reaches (prompt_returns i x) s n r =
      same_calls s.calls _ n (Keeps-returns_prompt env (SameCalls s.calls) i x s refl) r
  step-Reaches (prompt_panics i) s n r =
      same_calls s.calls _ n (Keeps-returns_prompt env (SameCalls s.calls) i _ s refl) r
  step-Reaches (replay_returns i x) s n r =
      same_calls s.calls _ n (Keeps-returns_replay env (SameCalls s.calls) i _ s refl) r
  step-Reaches (replay_panics i) s n r =
      same_calls s.calls _ n (Keeps-returns_replay env (SameCalls s.calls) i _ s refl) r
  step-Reaches (agent_emits e) s n r =
      same_calls s.calls _ n (Keeps-write env (SameCalls s.calls) _ s refl) r
  step-Reaches (takes_steer i) s n r = r
  step-Reaches (calls_client req) s n r = begin_call-Reaches req s n r
  step-Reaches (call_receives k) s n r = answered k s.calls n r
  step-Reaches (call_gives_up k e) s n r = given_up k e s.calls n r

  pub run-Reaches :
      (as_ : List (Action Raw)) (s : Server Raw) (n : ℕ)
      → Reaches env s.calls n
      → Reaches env (run env as_ s).calls (calls_made as_ n)
  unfolding run
  run-Reaches [] s n r = r
  run-Reaches (a ∷ as_) s n r =
      run-Reaches as_ (step env a s) (count_calls a n) (step-Reaches a s n r)
