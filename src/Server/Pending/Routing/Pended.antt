-- ===== src/Server/Pending/Routing/Pended.antt =====
-- A call that waits is pending, as long as no response is lost and Serve is not past its read loop.
use kimi_wire_go.Prelude.{
  ℕ, ◌+◌, ◌^◌, ◌≤◌, ◌<◌, ◌≡◌, refl, sym, subst, Bool, true, false, ◌&&◌, Option, some, List, [],
  ◌∷◌, arith, ltb, length, get_elem?, if_cases, option_cases,
}
use kimi_wire_go.Server.Kept.{Keeps-continue, Keeps-stop_serving, Keeps-write, Keeps-serve_next}
use kimi_wire_go.Server.Pending.Routing.{Agrees, IsWaiting, Reaches, called, no_calls_yet}
use kimi_wire_go.Server.Pending.Routing.Reached.{reached}
use kimi_wire_go.Server.Serve.{
  replay_panics, is_response, step, serve_stops, reader_stops, receive_garbage, receive_message,
  receive_lost, run, receive, go_on, calls_client, dispatch_capacity, stop_reading, prompt_returns,
  end_context, Action, prompt_panics, takes_steer, call_receives, advance, call_gives_up,
  serve_ends, replay_returns, receive_line_error, context_ends, agent_emits, serve,
}
use kimi_wire_go.Server.{Calls, Env, new, Waiter, GoError, Server, Outgoing}
use kimi_wire_go.Server.Pending.Routing.Stepped.{
  accept_initialize-calls, calls_made, count_calls, SameCalls, step-Reaches,
}
use kimi_wire_go.Server.Pending.{register, begin_call, count_next, request_id}
use kimi_wire_go.Server.Kept.Goroutines.{
  Keeps-returns_replay, Keeps-advance_at, Keeps-returns_prompt,
}
use kimi_wire_go.Prelude.Maps.{lookup}
use kimi_wire_go.Server.Write.{emit_event, write_message}
use kimi_wire_go.Protocol.Jsonrpc.{RawWireMessage}
use kimi_wire_go.Protocol.Request.{Request}
use kimi_wire_go.Server.Turn.{update_op}
use kimi_wire_go.Server.Pending.Routing.Waiting.{
  AllPending-route_response, AllPending-register, AllPending-abandon_call, AllPending-receive_call,
  AllPending,
}

module _ {Raw : Type 0} where
  -- The actions but a response that is lost and what Serve does after its read loop.
  abbrev pub keeps_pending : Action Raw → Bool
  keeps_pending (receive_lost raw) = false
  keeps_pending serve_ends = false
  keeps_pending _ = true

  abbrev pub all_keep_pending : List (Action Raw) → Bool
  all_keep_pending [] = true
  all_keep_pending (a ∷ as_) = keeps_pending a && all_keep_pending as_

  calls_made_grows : (as_ : List (Action Raw)) (n : ℕ) → n ≤ calls_made as_ n
  calls_made_grows [] n = omega arith
  calls_made_grows (calls_client req ∷ as_) n = omega (arith, calls_made_grows as_ (n + 1))
  calls_made_grows (_ ∷ as_) n = calls_made_grows as_ n

module _ {Raw : Type 0} (env : Env Raw) where
  unmoved : (c d : Calls Raw) → d ≡ c → AllPending c → AllPending d
  unmoved c d e p = subst AllPending (sym e) p

  begin_call-AllPending :
      (req : Request Raw) (s : Server Raw) (n : ℕ)
      → n + 1 < 2 ^ 64
      → Reaches env s.calls n
      → AllPending s.calls
      → AllPending (begin_call env req s).calls
  unfolding begin_call
  begin_call-AllPending req s n small r p =
      option_cases (λ (t : Server Raw). AllPending t.calls) sent.1 (λ _. one)
        (λ e _. AllPending-abandon_call env (length s.calls.waiters) e sent.0.calls agrees one)
    where
      sent : Server Raw × Option GoError
      sent =
          write_message env (Outgoing.request (request_id (count_next s.calls.request_counter)) req)
            (record s { calls = register s.calls })

      same : sent.0.calls ≡ register s.calls
      same =
          Keeps-write env (SameCalls env (register s.calls)) _
            (record s { calls = register s.calls }) refl

      agrees : Agrees sent.0.calls
      agrees =
          subst Agrees (sym same)
            (reached env (register s.calls) (n + 1) small (called s.calls n r)).0

      before : Agrees s.calls × (s.calls.request_counter ≡ n)
      before = reached env s.calls n (omega (arith, small)) r

      one : AllPending sent.0.calls
      one = unmoved (register s.calls) sent.0.calls same (
          AllPending-register s.calls (omega (arith, small, before.1, before.0.counted)) before.0 p)

  receive-AllPending :
      (raw : RawWireMessage Raw) (s : Server Raw)
      → Agrees s.calls
      → AllPending s.calls
      → AllPending (receive_message raw s).calls
  unfolding receive_message
  receive-AllPending raw s a p =
      if_cases Good s.reading
        (λ _.
          if_cases Good (is_response raw) (λ _. AllPending-route_response raw s.calls a p)
            (λ _. if_cases Good (ltb (length s.queue) dispatch_capacity) (λ _. p) (λ _. p)))
        (λ _. p)
    where
      Good : Server Raw → Type 0
      Good t = AllPending t.calls

  step-AllPending :
      (a : Action Raw) (s : Server Raw) (n : ℕ)
      → keeps_pending a ≡ true
      → count_calls a n < 2 ^ 64
      → Reaches env s.calls n
      → AllPending s.calls
      → AllPending (step env a s).calls
  unfolding step receive_line_error stop_reading end_context emit_event update_op
  step-AllPending (receive raw) s n k small r p =
      receive-AllPending raw s (reached env s.calls n small r).0 p
  step-AllPending (receive_lost raw) s n k small r p = absurd (cc k)
  step-AllPending (receive_garbage msg) s n k small r p =
      if_cases (λ (t : Server Raw). AllPending t.calls) s.reading (λ _. p) (λ _. p)
  step-AllPending (reader_stops f) s n k small r p =
      if_cases (λ (t : Server Raw). AllPending t.calls) s.reading (λ _. p) (λ _. p)
  step-AllPending serve_ends s n k small r p = absurd (cc k)
  step-AllPending context_ends s n k small r p = p
  step-AllPending serve s n k small r p =
      unmoved s.calls _
        (Keeps-serve_next env (SameCalls env s.calls) s.loop s.queue s
          (accept_initialize-calls env s.calls) refl)
        p
  step-AllPending serve_stops s n k small r p =
      unmoved s.calls _ (Keeps-stop_serving env (SameCalls env s.calls) s.loop s refl) p
  step-AllPending (go_on first) s n k small r p =
      unmoved s.calls _ (Keeps-continue env (SameCalls env s.calls) first s.loop s refl) p
  step-AllPending (advance i) s n k small r p =
      unmoved s.calls _ (Keeps-advance_at env (SameCalls env s.calls) i s refl) p
  step-AllPending (prompt_returns i x) s n k small r p =
      unmoved s.calls _ (Keeps-returns_prompt env (SameCalls env s.calls) i x s refl) p
  step-AllPending (prompt_panics i) s n k small r p =
      unmoved s.calls _ (Keeps-returns_prompt env (SameCalls env s.calls) i _ s refl) p
  step-AllPending (replay_returns i x) s n k small r p =
      unmoved s.calls _ (Keeps-returns_replay env (SameCalls env s.calls) i _ s refl) p
  step-AllPending (replay_panics i) s n k small r p =
      unmoved s.calls _ (Keeps-returns_replay env (SameCalls env s.calls) i _ s refl) p
  step-AllPending (agent_emits e) s n k small r p =
      unmoved s.calls _ (Keeps-write env (SameCalls env s.calls) _ s refl) p
  step-AllPending (takes_steer i) s n k small r p = p
  step-AllPending (calls_client req) s n k small r p = begin_call-AllPending req s n small r p
  step-AllPending (call_receives j) s n k small r p =
      AllPending-receive_call env j s.calls (reached env s.calls n small r).0 p
  step-AllPending (call_gives_up j e) s n k small r p =
      AllPending-abandon_call env j e s.calls (reached env s.calls n small r).0 p

  run-AllPending :
      (as_ : List (Action Raw)) (s : Server Raw) (n : ℕ)
      → all_keep_pending as_ ≡ true
      → calls_made as_ n < 2 ^ 64
      → Reaches env s.calls n
      → AllPending s.calls
      → AllPending (run env as_ s).calls
  unfolding run
  run-AllPending [] s n k small r p = p
  run-AllPending (a ∷ as_) s n k small r p =
      let first : keeps_pending a ≡ true = ground arith in
      let rest : all_keep_pending as_ ≡ true = ground arith in
      let fits : count_calls a n < 2 ^ 64 =
        omega (arith, small, calls_made_grows as_ (count_calls a n)) in
      run-AllPending as_ (step env a s) (count_calls a n) rest small (step-Reaches env a s n r)
        (step-AllPending a s n first fits r p)

  -- In every run with fewer than 2^64 calls in which no response is lost to a context that is done
  -- and Serve is not past its read loop: a call that still waits, with nothing in its channel, is
  -- pending under its own id, so that a response to it will find it.
  pub waiting_is_pending :
      (as_ : List (Action Raw)) (k : ℕ) (w : Waiter Raw)
      → all_keep_pending as_ ≡ true
      → calls_made as_ 0 < 2 ^ 64
      → get_elem? (run env as_ new).calls.waiters k ≡ some w
      → IsWaiting w
      → lookup w.id (run env as_ new).calls.pending ≡ some k
  unfolding new
  waiting_is_pending as_ k w keep small g u =
      run-AllPending as_ new 0 keep small no_calls_yet (λ j v h x. absurd (cc h)) k w g u
