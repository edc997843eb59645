-- ===== src/Server/Replies/Steps.antt =====
-- Every action keeps the balance, but for the message that it accepts.
use kimi_wire_go.Server.Turn.{
  points_to, reply_prompt, clear_turn, update_op, advance_op, reply_replay, clear_replay,
}
use kimi_wire_go.Prelude.{
  ◌+◌, String, ◌≡◌, ap, Bool, ◌||◌, List, if_cases, option_cases, ℕ, refl, sym, subst, ◌∙◌, true,
  false, some, arith, get_elem?, total-modify,
}
use kimi_wire_go.Protocol.Method.{PromptResult, ReplayResult}
use kimi_wire_go.Server.{
  Returned, Operation, Server, Env, replay_panicked, replay_clearing, replay_closing, turn_closing,
  turn_replying, Phase, replay_replying, Origin, replay_running, turn_running, finished,
  turn_ending, turn_clearing, code_internal_error, turn_answering,
}
use kimi_wire_go.Server.Replies.{hit, balance, op_weight, owes}
use kimi_wire_go.Server.Replies.Write.{
  RepliesMarshal, balance-send_response, balance-send_error, send_response-eq, send_error-eq,
  balance-emit_event, write_message_cases,
}
use kimi_wire_go.Protocol.Event.{Event}
use kimi_wire_go.Server.Write.{emit_event, send_error}
use kimi_wire_go.Server.Replies.Handlers.{balance-update_op}

module _ {Raw : Type 0} (env : Env Raw) (m : RepliesMarshal env) (id : String) where
  -- The replies change nothing but the log.
  reply_prompt-Answers :
      (j : String) (c : Bool) (r : Returned PromptResult) (s : Server Raw)
      → balance id (reply_prompt env j c r s) ≡ balance id s + hit id j
  unfolding reply_prompt
  reply_prompt-Answers j c r s =
      option_cases P r.error
        (λ _.
          if_cases P c (λ _. balance-send_response env m id j _ s)
            (λ _. balance-send_response env m id j _ s))
        (λ e _.
          if_cases P (c || e.is_canceled) (λ _. balance-send_response env m id j _ s)
            (λ _. balance-send_error env m id j _ _ s))
    where
      P : Server Raw → Type 0
      P t = balance id t ≡ balance id s + hit id j

  ops-reply_prompt :
      (j : String) (c : Bool) (r : Returned PromptResult) (s : Server Raw)
      → (reply_prompt env j c r s).ops ≡ s.ops
  unfolding reply_prompt
  ops-reply_prompt j c r s =
      option_cases P r.error
        (λ _.
          if_cases P c (λ _. ap ops (send_response-eq env m j _ s))
            (λ _. ap ops (send_response-eq env m j _ s)))
        (λ e _.
          if_cases P (c || e.is_canceled) (λ _. ap ops (send_response-eq env m j _ s))
            (λ _. ap ops (send_error-eq env m j _ _ s)))
    where
      ops : Server Raw → List Operation
      ops t = t.ops

      P : Server Raw → Type 0
      P t = t.ops ≡ s.ops

  reply_replay-Answers :
      (j : String) (r : Returned ReplayResult) (s : Server Raw)
      → balance id (reply_replay env j r s) ≡ balance id s + hit id j
  unfolding reply_replay
  reply_replay-Answers j r s =
      option_cases P r.error (λ _. balance-send_response env m id j _ s)
        (λ e _.
          if_cases P e.is_canceled (λ _. balance-send_response env m id j _ s)
            (λ _. balance-send_error env m id j _ _ s))
    where
      P : Server Raw → Type 0
      P t = balance id t ≡ balance id s + hit id j

  ops-reply_replay :
      (j : String) (r : Returned ReplayResult) (s : Server Raw)
      → (reply_replay env j r s).ops ≡ s.ops
  unfolding reply_replay
  ops-reply_replay j r s =
      option_cases P r.error (λ _. ap (λ t. t.ops) (send_response-eq env m j _ s))
        (λ e _.
          if_cases P e.is_canceled (λ _. ap (λ t. t.ops) (send_response-eq env m j _ s))
            (λ _. ap (λ t. t.ops) (send_error-eq env m j _ _ s)))
    where
      P : Server Raw → Type 0
      P t = t.ops ≡ s.ops

  -- A goroutine that has replied owes nothing more.
  settle :
      (i : ℕ) (f : Operation → Operation) (s t : Server Raw) (o : Operation)
      → t.ops ≡ s.ops
      → get_elem? s.ops i ≡ some o
      → owes (f o).phase ≡ false
      → owes o.phase ≡ true
      → balance id t ≡ balance id s + hit id o.id
      → balance id (update_op i f t) ≡ balance id s
  unfolding update_op
  settle i f s t o same h paid due e =
      let h' : get_elem? t.ops i ≡ some o = rw same h in
      omega (arith, total-modify (op_weight id) t.ops i f o h', unpaid, now, e)
    where
      unpaid : op_weight id o ≡ hit id o.id
      unpaid = rw due

      now : op_weight id (f o) ≡ 0
      now = rw paid

  -- A goroutine that moves on before, or after, its reply.
  move_on :
      (i : ℕ) (f : Operation → Operation) (s t : Server Raw) (o : Operation)
      → t.ops ≡ s.ops
      → get_elem? s.ops i ≡ some o
      → op_weight id (f o) ≡ op_weight id o
      → balance id t ≡ balance id s
      → balance id (update_op i f t) ≡ balance id s
  move_on i f s t o same h keep e =
      balance-update_op env m id i f t (λ o' h'.
        let both : some o ≡ some o' = sym h ∙ ap (λ l. get_elem? l i) (sym same) ∙ h' in
        let one : o ≡ o' = cc in subst (λ x. op_weight id (f x) ≡ op_weight id x) one keep)
      ∙ e

  ops-emit_event :
      (from : Origin) (e : Event Raw) (s : Server Raw) → (emit_event env from e s).0.ops ≡ s.ops
  unfolding emit_event
  ops-emit_event from e s =
      write_message_cases env (λ (t : Server Raw). t.ops ≡ s.ops) _ s refl refl

  balance-clear_turn : (i : ℕ) (s : Server Raw) → balance id (clear_turn i s) ≡ balance id s
  unfolding clear_turn
  balance-clear_turn i s =
      if_cases (λ (t : Server Raw). balance id t ≡ balance id s) (points_to s.active_turn i)
        (λ _. refl) (λ _. refl)

  ops-clear_turn : (i : ℕ) (s : Server Raw) → (clear_turn i s).ops ≡ s.ops
  unfolding clear_turn
  ops-clear_turn i s =
      if_cases (λ (t : Server Raw). t.ops ≡ s.ops) (points_to s.active_turn i) (λ _. refl)
        (λ _. refl)

  balance-clear_replay : (i : ℕ) (s : Server Raw) → balance id (clear_replay i s) ≡ balance id s
  unfolding clear_replay
  balance-clear_replay i s =
      if_cases (λ (t : Server Raw). balance id t ≡ balance id s) (points_to s.active_op i)
        (λ _. refl) (λ _. refl)

  ops-clear_replay : (i : ℕ) (s : Server Raw) → (clear_replay i s).ops ≡ s.ops
  unfolding clear_replay
  ops-clear_replay i s =
      if_cases (λ (t : Server Raw). t.ops ≡ s.ops) (points_to s.active_op i) (λ _. refl) (λ _. refl)

  -- One stretch of a goroutine: its reply is written when it is no longer owed.
  pub balance-advance_op :
      (i : ℕ) (o : Operation) (p : Phase) (s : Server Raw)
      → get_elem? s.ops i ≡ some o
      → o.phase ≡ p
      → balance id (advance_op env i o p s) ≡ balance id s
  unfolding advance_op
  balance-advance_op i o turn_running s h e = refl
  balance-advance_op i o (turn_ending r) s h e =
      move_on i _ s (emit_event env Origin.server Event.turn_end s).0 o (ops-emit_event _ _ s) h
        (rw (ap owes e)) (balance-emit_event env id _ _ s)
  balance-advance_op i o (turn_closing r) s h e = move_on i _ s s o refl h (rw (ap owes e)) refl
  balance-advance_op i o (turn_clearing r) s h e =
      move_on i _ s (clear_turn i s) o (ops-clear_turn i s) h (rw (ap owes e))
        (balance-clear_turn i s)
  balance-advance_op i o (turn_replying r) s h e = move_on i _ s s o refl h (rw (ap owes e)) refl
  balance-advance_op i o (turn_answering r x) s h e =
      settle i _ s (reply_prompt env o.id x r s) o (ops-reply_prompt o.id x r s) h refl (ap owes e)
        (reply_prompt-Answers o.id x r s)
  balance-advance_op i o replay_running s h e = refl
  balance-advance_op i o (replay_replying r) s h e =
      settle i _ s (reply_replay env o.id r s) o (ops-reply_replay o.id r s) h refl (ap owes e)
        (reply_replay-Answers o.id r s)
  balance-advance_op i o replay_panicked s h e =
      settle i _ s (send_error env o.id code_internal_error "internal error" s) o
        (ap (λ t. t.ops) (send_error-eq env m o.id _ _ s)) h refl (ap owes e)
        (balance-send_error env m id o.id _ _ s)
  balance-advance_op i o replay_clearing s h e =
      move_on i _ s (clear_replay i s) o (ops-clear_replay i s) h (rw (ap owes e))
        (balance-clear_replay i s)
  balance-advance_op i o replay_closing s h e = move_on i _ s s o refl h (rw (ap owes e)) refl
  balance-advance_op i o finished s h e = refl
