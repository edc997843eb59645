-- ===== src/Server/Kept/Goroutines.antt =====
-- The goroutines of turns and replays keep the calls and what initialize sets.
use kimi_wire_go.Prelude.{ℕ, String, Bool, ◌||◌, get_elem?, if_cases, option_cases}
use kimi_wire_go.Server.{
  replay_clearing, turn_replying, turn_ending, replay_running, replay_replying, turn_closing,
  replay_closing, Env, Server, turn_running, turn_clearing, Returned, Phase, Operation, Outgoing,
  finished, replay_panicked, turn_answering, Calls,
}
use kimi_wire_go.Server.Turn.{
  clear_turn, reply_replay, points_to, clear_replay, reply_prompt, advance_op, update_op,
}
use kimi_wire_go.Protocol.Method.{PromptResult, ReplayResult}
use kimi_wire_go.Server.Write.{send_response, send_error, emit_event, write_message}
use kimi_wire_go.Server.Serve.{
  returns_replay, resume_replay, resume_prompt, advance_at, returns_prompt,
}
use kimi_wire_go.Server.Kept.{Keeps-write, Keeps, Settings}

module _ {Raw : Type 0} (env : Env Raw) (P : Calls Raw × Bool × Settings → Type 0) where
  Keeps-reply_prompt :
      (j : String) (x : Bool) (r : Returned PromptResult) (s : Server Raw)
      → Keeps env P s
      → Keeps env P (reply_prompt env j x r s)
  unfolding reply_prompt send_response send_error
  Keeps-reply_prompt j x r s h =
      option_cases (Keeps env P) r.error (λ _. if_cases (Keeps env P) x (λ _. one _) (λ _. one _))
        λ e _. if_cases (Keeps env P) (x || e.is_canceled) (λ _. one _) (λ _. one _)
    where
      one : (o : Outgoing Raw) → Keeps env P (write_message env o s).0
      one o = Keeps-write env P o s h

  Keeps-reply_replay :
      (j : String) (r : Returned ReplayResult) (s : Server Raw)
      → Keeps env P s
      → Keeps env P (reply_replay env j r s)
  unfolding reply_replay send_response send_error
  Keeps-reply_replay j r s h =
      option_cases (Keeps env P) r.error (λ _. one _)
        λ e _. if_cases (Keeps env P) e.is_canceled (λ _. one _) (λ _. one _)
    where
      one : (o : Outgoing Raw) → Keeps env P (write_message env o s).0
      one o = Keeps-write env P o s h

  Keeps-advance_op :
      (i : ℕ) (op : Operation) (p : Phase) (s : Server Raw)
      → Keeps env P s
      → Keeps env P (advance_op env i op p s)
  unfolding advance_op update_op clear_turn clear_replay emit_event send_error
  Keeps-advance_op i op turn_running s h = h
  Keeps-advance_op i op (turn_ending r) s h = Keeps-write env P _ s h
  Keeps-advance_op i op (turn_closing r) s h = h
  Keeps-advance_op i op (turn_clearing r) s h =
      if_cases (Keeps env P) (points_to s.active_turn i) (λ _. h) (λ _. h)
  Keeps-advance_op i op (turn_replying r) s h = h
  Keeps-advance_op i op (turn_answering r x) s h = Keeps-reply_prompt op.id x r s h
  Keeps-advance_op i op replay_running s h = h
  Keeps-advance_op i op (replay_replying r) s h = Keeps-reply_replay op.id r s h
  Keeps-advance_op i op replay_panicked s h = Keeps-write env P _ s h
  Keeps-advance_op i op replay_clearing s h =
      if_cases (Keeps env P) (points_to s.active_op i) (λ _. h) (λ _. h)
  Keeps-advance_op i op replay_closing s h = h
  Keeps-advance_op i op finished s h = h

  pub Keeps-advance_at : (i : ℕ) (s : Server Raw) → Keeps env P s → Keeps env P (advance_at env i s)
  unfolding advance_at
  Keeps-advance_at i s h =
      option_cases (Keeps env P) (get_elem? s.ops i) (λ _. h)
        (λ o _. Keeps-advance_op i o o.phase s h)

module _ {Raw : Type 0} (env : Env Raw) (P : Calls Raw × Bool × Settings → Type 0) where
  pub Keeps-returns_prompt :
      (i : ℕ) (r : Returned PromptResult) (s : Server Raw)
      → Keeps env P s
      → Keeps env P (returns_prompt i r s)
  unfolding returns_prompt resume_prompt update_op
  Keeps-returns_prompt i r s h =
      option_cases (Keeps env P) (get_elem? s.ops i) (λ _. h) (λ o _. by_phase o.phase)
    where
      by_phase : (p : Phase) → Keeps env P (resume_prompt i r p s)
      by_phase turn_running = h
      by_phase _ = h

  pub Keeps-returns_replay :
      (i : ℕ) (q : Phase) (s : Server Raw) → Keeps env P s → Keeps env P (returns_replay i q s)
  unfolding returns_replay resume_replay update_op
  Keeps-returns_replay i q s h =
      option_cases (Keeps env P) (get_elem? s.ops i) (λ _. h) (λ o _. by_phase o.phase)
    where
      by_phase : (p : Phase) → Keeps env P (resume_replay i q p s)
      by_phase replay_running = h
      by_phase _ = h
