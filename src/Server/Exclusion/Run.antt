-- ===== src/Server/Exclusion/Run.antt =====
-- The agreement holds in every run in which the read loop does not end.
use kimi_wire_go.Prelude.{
  ℕ, ◌≡◌, refl, sym, ◌∙◌, ◌↔◌, Bool, true, false, ◌&&◌, ◌||◌, Option, none, some, List, [], ◌∷◌,
  arith, ltb, length, get_elem?, if_cases, option_cases,
}
use kimi_wire_go.Server.Serve.{
  Action, prompt_returns, end_context, go_on, dispatch_capacity, receive_garbage, serve, advance,
  calls_client, resume_replay, returns_prompt, step, end_op, serve_stops, run, replay_panics,
  prompt_panics, resume_prompt, receive, advance_at, replay_returns, agent_emits, is_response,
  receive_message, receive_line_error, reader_stops, returns_replay, stop_serving, context_ends,
  call_gives_up, takes_steer, call_receives, serve_ends, receive_lost, lose_response,
}
use kimi_wire_go.Server.Exclusion.{holds, IsExclusive, holds_turn}
use kimi_wire_go.Server.{
  Server, replay_replying, ready, Origin, replay_running, Operation, Phase, Loop, turn_running,
  replay_panicked, new, turn_ending, Outgoing, Returned, Env, GoError,
}
use kimi_wire_go.Server.Exclusion.Handlers.{
  emit_event-IsExclusive, update_op-IsExclusive, written-IsExclusive,
}
use kimi_wire_go.Server.Pending.{register, begin_call, count_next, request_id}
use kimi_wire_go.Server.Write.{write_message}
use kimi_wire_go.Server.Exclusion.Dispatch.{serve_next-IsExclusive}
use kimi_wire_go.Server.Exclusion.Goroutines.{advance_op-IsExclusive, phase-IsExclusive}
use kimi_wire_go.Server.Turn.{is_busy, is_some}
use kimi_wire_go.Protocol.Request.{Request}
use kimi_wire_go.Server.Exclusion.Moves.{Agree-map}
use kimi_wire_go.Protocol.Method.{PromptResult}
use kimi_wire_go.Server.Exclusion.Waits.{continue-IsExclusive}

-- The actions but the end of the read loop and what Serve does after it.
abbrev pub keeps_reading : {Raw : Type 0} → Action Raw → Bool
keeps_reading (reader_stops failure) = false
keeps_reading serve_ends = false
keeps_reading _ = true

abbrev pub all_reading : {Raw : Type 0} → List (Action Raw) → Bool
all_reading [] = true
all_reading (a ∷ as_) = keeps_reading a && all_reading as_

module _ {Raw : Type 0} (env : Env Raw) where
  advance_at-IsExclusive :
      (i : ℕ) (s : Server Raw) → IsExclusive s → IsExclusive (advance_at env i s)
  unfolding advance_at
  advance_at-IsExclusive i s h =
      option_cases IsExclusive (get_elem? s.ops i) (λ _. h)
        (λ o g. advance_op-IsExclusive env i o o.phase s g refl h)

  stop_serving-IsExclusive :
      (l : Loop Raw) (s : Server Raw) → IsExclusive s → IsExclusive (stop_serving l s)
  unfolding stop_serving
  stop_serving-IsExclusive ready s h = if_cases IsExclusive s.serve_done (λ _. h) (λ _. h)
  stop_serving-IsExclusive _ s h = h

  resume_prompt-IsExclusive :
      (i : ℕ) (r : Returned PromptResult) (s : Server Raw)
      → IsExclusive s
      → IsExclusive (returns_prompt i r s)
  unfolding returns_prompt resume_prompt
  resume_prompt-IsExclusive i r s h =
      option_cases IsExclusive (get_elem? s.ops i) (λ _. h) (λ o g. by_phase o g o.phase refl)
    where
      by_phase :
          (o : Operation)
          → get_elem? s.ops i ≡ some o
          → (p : Phase) → o.phase ≡ p
          → IsExclusive (resume_prompt i r p s)
      by_phase o g turn_running e =
          phase-IsExclusive env i o turn_running (turn_ending r) s s refl g e refl refl h
      by_phase o g _ e = h

  resume_replay-IsExclusive :
      (i : ℕ) (q : Phase) (s : Server Raw)
      → holds q ≡ true
      → holds_turn q ≡ false
      → IsExclusive s
      → IsExclusive (returns_replay i q s)
  unfolding returns_replay resume_replay
  resume_replay-IsExclusive i q s x y h =
      option_cases IsExclusive (get_elem? s.ops i) (λ _. h) (λ o g. by_phase o g o.phase refl)
    where
      by_phase :
          (o : Operation)
          → get_elem? s.ops i ≡ some o
          → (p : Phase) → o.phase ≡ p
          → IsExclusive (resume_replay i q p s)
      by_phase o g replay_running e = phase-IsExclusive env i o replay_running q s s refl g e x y h
      by_phase o g _ e = h

  end_context-IsExclusive : (s : Server Raw) → IsExclusive s → IsExclusive (end_context s)
  unfolding end_context
  end_context-IsExclusive s h = Agree-map s.ops s.active_turn s.active_op end_op (λ o. refl) h

  begin_call-IsExclusive :
      (req : Request Raw) (s : Server Raw) → IsExclusive s → IsExclusive (begin_call env req s)
  unfolding begin_call
  begin_call-IsExclusive req s h = option_cases IsExclusive sent.1 (λ _. one) (λ _ _. one)
    where
      sent : Server Raw × Option GoError
      sent =
          write_message env (Outgoing.request (request_id (count_next s.calls.request_counter)) req)
            (record s { calls = register s.calls })

      one : IsExclusive sent.0
      one = written-IsExclusive env _ (record s { calls = register s.calls }) h

  step-IsExclusive :
      (a : Action Raw) (s : Server Raw)
      → keeps_reading a ≡ true
      → IsExclusive s
      → IsExclusive (step env a s)
  unfolding step receive_message lose_response receive_line_error
  step-IsExclusive (receive raw) s k h =
      if_cases IsExclusive s.reading
        (λ _.
          if_cases IsExclusive (is_response raw) (λ _. h)
            (λ _. if_cases IsExclusive (ltb (length s.queue) dispatch_capacity) (λ _. h) (λ _. h)))
        (λ _. h)
  step-IsExclusive (receive_garbage msg) s k h = if_cases IsExclusive s.reading (λ _. h) (λ _. h)
  step-IsExclusive (receive_lost raw) s k h =
      if_cases IsExclusive (s.reading && (is_response raw && s.serve_done)) (λ _. h) (λ _. h)
  step-IsExclusive (reader_stops f) s k h = absurd (cc)
  step-IsExclusive serve_ends s k h = absurd (cc)
  step-IsExclusive context_ends s k h = end_context-IsExclusive s h
  step-IsExclusive serve s k h = serve_next-IsExclusive env s.loop s.queue s h
  step-IsExclusive serve_stops s k h = stop_serving-IsExclusive s.loop s h
  step-IsExclusive (go_on first) s k h = continue-IsExclusive env first s.loop s h
  step-IsExclusive (advance i) s k h = advance_at-IsExclusive i s h
  step-IsExclusive (prompt_returns i r) s k h = resume_prompt-IsExclusive i r s h
  step-IsExclusive (prompt_panics i) s k h = resume_prompt-IsExclusive i _ s h
  step-IsExclusive (replay_returns i r) s k h =
      resume_replay-IsExclusive i (replay_replying r) s refl refl h
  step-IsExclusive (replay_panics i) s k h =
      resume_replay-IsExclusive i replay_panicked s refl refl h
  step-IsExclusive (agent_emits e) s k h = emit_event-IsExclusive env Origin.agent e s h
  step-IsExclusive (takes_steer i) s k h =
      update_op-IsExclusive env i (λ o. record o { steer = none }) s (λ o g. refl) (λ o g. refl) h
  step-IsExclusive (calls_client req) s k h = begin_call-IsExclusive req s h
  step-IsExclusive (call_receives n) s k h = h
  step-IsExclusive (call_gives_up n e) s k h = h

  run-IsExclusive :
      (as_ : List (Action Raw)) (s : Server Raw)
      → all_reading as_ ≡ true
      → IsExclusive s
      → IsExclusive (run env as_ s)
  unfolding run
  run-IsExclusive [] s k h = h
  run-IsExclusive (a ∷ as_) s k h =
      let ka : keeps_reading a ≡ true = ground arith in
      let ks : all_reading as_ ≡ true = ground arith in
      run-IsExclusive as_ (step env a s) ks (step-IsExclusive a s ka h)

  new-IsExclusive : IsExclusive (new {Raw = Raw})
  unfolding new
  new-IsExclusive = record {
    held_active = λ i o h k. absurd (cc);
    turn_active = λ i o h k. absurd (cc);
    turn_is_op = λ i e. e;
    active_turn_held = λ i e. absurd (cc);
    active_held = λ i e. absurd (cc);
  }

  -- In every run in which the read loop does not end, two goroutines that both hold the server are
  -- one: at most one turn or replay runs at a time.
  pub at_most_one_runs :
      (as_ : List (Action Raw))
      → all_reading as_ ≡ true
      → (i j : ℕ) (o p : Operation) → get_elem? (run env as_ new).ops i ≡ some o
      → get_elem? (run env as_ new).ops j ≡ some p
      → holds o.phase ≡ true
      → holds p.phase ≡ true
      → i ≡ j
  at_most_one_runs as_ k i j o p g g' h h' =
      let inv = run-IsExclusive as_ new k new-IsExclusive in
      let e : some i ≡ some j = sym (inv.held_active i o g h) ∙ inv.held_active j p g' h' in
      ground arith

  held_iff_busy :
      (s : Server Raw)
      → IsExclusive s
      → (is_busy s ≡ true)
        ↔ ((i : ℕ) × ((o : Operation) × (get_elem? s.ops i ≡ some o) × (holds o.phase ≡ true)))
  unfolding is_busy
  held_iff_busy s h = (
    λ b. someone s.active_turn s.active_op refl refl b,
    λ (i, (o, g, p)). let e : s.active_op ≡ some i = h.held_active i o g p in ground arith,
  )
    where
      someone :
          (t u : Option ℕ)
          → s.active_turn ≡ t
          → s.active_op ≡ u
          → is_some t || is_some u ≡ true
          → (i : ℕ) × ((o : Operation) × (get_elem? s.ops i ≡ some o) × (holds o.phase ≡ true))
      someone t (some i) e e' b = (i, h.active_held i e')
      someone (some i) none e e' b = absurd (cc (h.turn_is_op i e, e'))
      someone none none e e' b = absurd (cc)

  -- In every run in which the read loop does not end, a server that refuses prompts as busy has a
  -- turn or a replay that holds it, so no finished operation keeps the server busy; and a server that
  -- has one is busy.
  pub busy_is_held :
      (as_ : List (Action Raw))
      → all_reading as_ ≡ true
      → (is_busy (run env as_ new) ≡ true) ↔ (
          (i : ℕ) × ((o : Operation) × (get_elem? (run env as_ new).ops i ≡ some o)
            × (holds o.phase ≡ true)))
  busy_is_held as_ k = held_iff_busy (run env as_ new) (run-IsExclusive as_ new k new-IsExclusive)
