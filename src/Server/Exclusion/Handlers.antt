-- ===== src/Server/Exclusion/Handlers.antt =====
-- Every handler keeps the agreement.
use kimi_wire_go.Prelude.{
  ℕ, String, ◌≡◌, refl, subst, false, Option, none, some, arith, length, get_elem?, if_cases,
  option_cases, result_cases, get_elem?-append_last,
}
use kimi_wire_go.Server.{
  response, error_response, notification, awaiting_end, turn_running, Server, Env, Operation,
  Outgoing, Origin, Answer, GoError,
}
use kimi_wire_go.Server.Control.{handle_steer, handle_replay, no_turn, new_replay, handle_cancel}
use kimi_wire_go.Server.Exclusion.{Agree, IsExclusive, holds, holds_turn}
use kimi_wire_go.Server.Write.{write_message, emit_event, send_response, send_error}
use kimi_wire_go.Server.Turn.{
  after_begin, new_turn, is_busy, begin_prompt, start_turn, handle_prompt, update_op,
}
use kimi_wire_go.Server.Replies.Write.{write_message_cases}
use kimi_wire_go.Protocol.Event.{Event}
use kimi_wire_go.Server.Initialize.{accept_initialize, handle_initialize}
use kimi_wire_go.Server.Exclusion.Moves.{Agree-modify, Agree-start_turn, Agree-start_replay}
use kimi_wire_go.Prelude.Int.{ℤ}

module _ {Raw : Type 0} (env : Env Raw) where
  -- Writing changes no operation.
  pub written-IsExclusive :
      (o : Outgoing Raw) (s : Server Raw) → IsExclusive s → IsExclusive (write_message env o s).0
  written-IsExclusive o s h = write_message_cases env IsExclusive o s h h

  pub emit_event-IsExclusive :
      (from : Origin) (e : Event Raw) (s : Server Raw)
      → IsExclusive s
      → IsExclusive (emit_event env from e s).0
  unfolding emit_event
  emit_event-IsExclusive from e s h = written-IsExclusive (notification from e) s h

  pub send_response-IsExclusive :
      (j : String) (a : Answer) (s : Server Raw)
      → IsExclusive s
      → IsExclusive (send_response env j a s)
  unfolding send_response
  send_response-IsExclusive j a s h = written-IsExclusive (response j a) s h

  pub send_error-IsExclusive :
      (j : String) (c : ℤ) (msg : String) (s : Server Raw)
      → IsExclusive s
      → IsExclusive (send_error env j c msg s)
  unfolding send_error
  send_error-IsExclusive j c msg s h = written-IsExclusive (error_response j c (env.redact msg)) s h

  -- A write to an operation that keeps what it holds.
  pub update_op-IsExclusive :
      (i : ℕ) (f : Operation → Operation) (s : Server Raw)
      → ((o : Operation) → get_elem? s.ops i ≡ some o → holds (f o).phase ≡ holds o.phase)
      → ((o : Operation) → get_elem? s.ops i ≡ some o → holds_turn (f o).phase ≡ holds_turn o.phase)
      → IsExclusive s
      → IsExclusive (update_op i f s)
  unfolding update_op
  update_op-IsExclusive i f s same same_turn h =
      Agree-modify s.ops s.active_turn s.active_op i f same same_turn h

  pub initialize-IsExclusive :
      (j : String) (params : Option Raw) (s : Server Raw)
      → IsExclusive s
      → IsExclusive (handle_initialize env j params s)
  unfolding handle_initialize accept_initialize
  initialize-IsExclusive j params s h =
      if_cases IsExclusive s.handshake_done (λ _. send_error-IsExclusive j _ _ s h)
        λ _.
          result_cases IsExclusive (env.unmarshal_initialize params)
            (λ e _. send_error-IsExclusive j _ e s h) (λ p _. send_response-IsExclusive j _ _ h)

  -- A server that is not busy has no active pointer.
  pub idle_pointers :
      (s : Server Raw) → is_busy s ≡ false → (s.active_turn ≡ none) × (s.active_op ≡ none)
  unfolding is_busy
  idle_pointers s e = ground arith

  pub idle-Agree : (s : Server Raw) → is_busy s ≡ false → IsExclusive s → Agree s.ops none none
  idle-Agree s e h =
      let (t, o) = idle_pointers s e in
      subst (λ x. Agree s.ops x none) t (subst (λ x. Agree s.ops s.active_turn x) o h)

  pub start_turn-IsExclusive :
      (j : String) (s : Server Raw)
      → is_busy s ≡ false
      → IsExclusive s
      → IsExclusive (start_turn j s)
  unfolding start_turn new_turn
  start_turn-IsExclusive j s e h = Agree-start_turn s.ops _ refl (idle-Agree s e h)

  pub after_begin-IsExclusive :
      (i : ℕ) (r : Server Raw × Option GoError) (o : Operation)
      → get_elem? r.0.ops i ≡ some o
      → o.phase ≡ turn_running
      → IsExclusive r.0
      → IsExclusive (after_begin env i r)
  unfolding after_begin
  after_begin-IsExclusive i (s, none) o g p h = h
  after_begin-IsExclusive i (s, some e) o g p h =
      update_op-IsExclusive i _ (record s { loop = awaiting_end i })
        (λ o' g'. let one : o ≡ o' = ground (arith, g, g') in ground arith)
        (λ o' g'. let one : o ≡ o' = ground (arith, g, g') in ground arith) h

  pub begun-turn :
      (j : String) (s : Server Raw) (from : Origin) (e : Event Raw)
      → get_elem? (emit_event env from e (start_turn j s)).0.ops (length s.ops)
        ≡ some (new_turn j s)
  unfolding emit_event start_turn
  begun-turn j s from e =
      write_message_cases env (λ t. get_elem? t.ops (length s.ops) ≡ some (new_turn j s)) _ _
        (get_elem?-append_last s.ops (new_turn j s)) (get_elem?-append_last s.ops (new_turn j s))

  pub prompt-IsExclusive :
      (j : String) (params : Option Raw) (s : Server Raw)
      → IsExclusive s
      → IsExclusive (handle_prompt env j params s)
  unfolding handle_prompt begin_prompt
  prompt-IsExclusive j params s h =
      result_cases IsExclusive (env.unmarshal_prompt params)
        (λ e _. send_error-IsExclusive j _ e s h)
        λ p _.
          if_cases IsExclusive (is_busy s) (λ _. send_error-IsExclusive j _ _ s h)
            λ idle.
              after_begin-IsExclusive (length s.ops) _ (new_turn j s) (begun-turn j s _ _)
                (unfold new_turn in refl)
                (emit_event-IsExclusive _ _ (start_turn j s) (start_turn-IsExclusive j s idle h))

  pub steer-IsExclusive :
      (j : String) (params : Option Raw) (s : Server Raw)
      → IsExclusive s
      → IsExclusive (handle_steer env j params s)
  unfolding handle_steer no_turn
  steer-IsExclusive j params s h =
      option_cases IsExclusive env.steerer (λ _. send_error-IsExclusive j _ _ s h)
        λ f _.
          result_cases IsExclusive (env.unmarshal_steer params)
            (λ e _. send_error-IsExclusive j _ e s h)
            λ p _.
              option_cases IsExclusive s.active_turn (λ _. send_error-IsExclusive j _ _ s h)
                (λ t _. h)

  pub cancel-IsExclusive :
      (j : String) (s : Server Raw) → IsExclusive s → IsExclusive (handle_cancel env j s)
  unfolding handle_cancel no_turn
  cancel-IsExclusive j s h =
      option_cases IsExclusive s.active_op (λ _. send_error-IsExclusive j _ _ s h) (λ i _. h)

  pub replay-IsExclusive :
      (j : String) (s : Server Raw) → IsExclusive s → IsExclusive (handle_replay env j s)
  unfolding handle_replay new_replay
  replay-IsExclusive j s h =
      if_cases IsExclusive env.replayer
        (λ _.
          if_cases IsExclusive (is_busy s) (λ _. send_error-IsExclusive j _ _ s h)
            (λ idle.
              rw ((idle_pointers s idle).0)
                (Agree-start_replay s.ops _ refl refl (idle-Agree s idle h))))
        (λ _. send_error-IsExclusive j _ _ s h)
