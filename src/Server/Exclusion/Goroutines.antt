-- ===== src/Server/Exclusion/Goroutines.antt =====
-- The goroutine of a turn or a replay keeps the agreement.
use kimi_wire_go.Prelude.{
  eqb_refl, ℕ, String, ◌≡◌, refl, sym, ap, subst, ◌∙◌, Bool, true, ◌||◌, none, some, arith,
  get_elem?, if_cases, option_cases,
}
use kimi_wire_go.Server.Replies.Write.{write_message_cases}
use kimi_wire_go.Server.Exclusion.{holds, IsExclusive, holds_turn, Agree}
use kimi_wire_go.Server.{
  Server, replay_closing, replay_replying, Origin, replay_clearing, replay_running, Operation,
  Phase, turn_running, turn_clearing, turn_closing, replay_panicked, turn_replying,
  code_internal_error, turn_ending, Outgoing, finished, Returned, Env, turn_answering,
}
use kimi_wire_go.Server.Exclusion.Handlers.{
  send_error-IsExclusive, emit_event-IsExclusive, update_op-IsExclusive, written-IsExclusive,
}
use kimi_wire_go.Server.Write.{write_message, send_error, send_response, emit_event}
use kimi_wire_go.Server.Turn.{
  clear_turn, reply_prompt, with_phase, reply_replay, clear_replay, update_op, advance_op, close,
  points_to,
}
use kimi_wire_go.Protocol.Method.{ReplayResult, PromptResult}
use kimi_wire_go.Server.Exclusion.Moves.{Agree-release, replay_has_no_turn}
use kimi_wire_go.Protocol.Event.{Event}

module _ {Raw : Type 0} (env : Env Raw) where
  written_ops : (o : Outgoing Raw) (s : Server Raw) → (write_message env o s).0.ops ≡ s.ops
  written_ops o s = write_message_cases env (λ t. t.ops ≡ s.ops) o s refl refl

  -- The goroutine of an operation moves to a phase that holds the same.
  pub phase-IsExclusive :
      (i : ℕ) (op : Operation) (p q : Phase) (s t : Server Raw)
      → t.ops ≡ s.ops
      → get_elem? s.ops i ≡ some op
      → op.phase ≡ p
      → holds q ≡ holds p
      → holds_turn q ≡ holds_turn p
      → IsExclusive t
      → IsExclusive (update_op i (with_phase q) t)
  phase-IsExclusive i op p q s t same g e x y h =
      update_op-IsExclusive env i (with_phase q) t
        (λ o g'.
          let one : o ≡ op = at o g' in x ∙ ap holds (sym e) ∙ ap (λ z. holds z.phase) (sym one))
        (λ o g'.
          let one : o ≡ op = at o g' in
          y ∙ ap holds_turn (sym e) ∙ ap (λ z. holds_turn z.phase) (sym one))
        h
    where
      at : (o : Operation) → get_elem? t.ops i ≡ some o → o ≡ op
      at o g' =
          let g'' : get_elem? s.ops i ≡ some o = ap (λ z. get_elem? z i) (sym same) ∙ g' in
          ground (arith, g, g'')

  replied_prompt :
      (j : String) (c : Bool) (r : Returned PromptResult) (s : Server Raw)
      → IsExclusive s
      → ((reply_prompt env j c r s).ops ≡ s.ops) × IsExclusive (reply_prompt env j c r s)
  unfolding reply_prompt send_response send_error
  replied_prompt j c r s h =
      option_cases Good r.error (λ _. if_cases Good c (λ _. one _) (λ _. one _))
        λ e _. if_cases Good (c || e.is_canceled) (λ _. one _) (λ _. one _)
    where
      Good : Server Raw → Type 0
      Good t = (t.ops ≡ s.ops) × IsExclusive t

      one : (o : Outgoing Raw) → Good (write_message env o s).0
      one o = (written_ops o s, written-IsExclusive env o s h)

  replied_replay :
      (j : String) (r : Returned ReplayResult) (s : Server Raw)
      → IsExclusive s
      → ((reply_replay env j r s).ops ≡ s.ops) × IsExclusive (reply_replay env j r s)
  unfolding reply_replay send_response send_error
  replied_replay j r s h =
      option_cases Good r.error (λ _. one _)
        λ e _. if_cases Good e.is_canceled (λ _. one _) (λ _. one _)
    where
      Good : Server Raw → Type 0
      Good t = (t.ops ≡ s.ops) × IsExclusive t

      one : (o : Outgoing Raw) → Good (write_message env o s).0
      one o = (written_ops o s, written-IsExclusive env o s h)

  pub advance_op-IsExclusive :
      (i : ℕ) (op : Operation) (p : Phase) (s : Server Raw)
      → get_elem? s.ops i ≡ some op
      → op.phase ≡ p
      → IsExclusive s
      → IsExclusive (advance_op env i op p s)
  unfolding advance_op clear_turn clear_replay emit_event send_error
  advance_op-IsExclusive i op turn_running s g e h = h
  advance_op-IsExclusive i op (turn_ending r) s g e h =
      phase-IsExclusive i op (turn_ending r) (turn_closing r) s
        (emit_event env Origin.server Event.turn_end s).0 (written_ops _ s) g e refl refl
        (emit_event-IsExclusive env Origin.server Event.turn_end s h)
  advance_op-IsExclusive i op (turn_closing r) s g e h =
      update_op-IsExclusive env i (close (turn_clearing r)) s
        (λ o g'.
          let one : o ≡ op = ground (arith, g, g') in
          ap holds (sym e) ∙ ap (λ z. holds z.phase) (sym one))
        (λ o g'.
          let one : o ≡ op = ground (arith, g, g') in
          ap holds_turn (sym e) ∙ ap (λ z. holds_turn z.phase) (sym one))
        h
  advance_op-IsExclusive i op (turn_clearing r) s g e h =
      let turn : s.active_turn ≡ some i = h.turn_active i op g (ap holds_turn e) in
      let active : s.active_op ≡ some i = h.turn_is_op i turn in
      let hit : points_to s.active_turn i ≡ true = rw turn (eqb_refl i) in
      rw (hit, update_op)
        (Agree-release s.ops s.active_turn i (with_phase (turn_replying r)) (λ o. refl)
          (subst (λ x. Agree s.ops s.active_turn x) active h))
  advance_op-IsExclusive i op (turn_replying r) s g e h =
      phase-IsExclusive i op (turn_replying r) (turn_answering r op.cancelled) s s refl g e refl
        refl h
  advance_op-IsExclusive i op (turn_answering r x) s g e h =
      let (same, h') = replied_prompt op.id x r s h in
      phase-IsExclusive i op (turn_answering r x) finished s (reply_prompt env op.id x r s) same g e
        refl refl h'
  advance_op-IsExclusive i op replay_running s g e h = h
  advance_op-IsExclusive i op (replay_replying r) s g e h =
      let (same, h') = replied_replay op.id r s h in
      phase-IsExclusive i op (replay_replying r) replay_clearing s (reply_replay env op.id r s) same
        g e refl refl h'
  advance_op-IsExclusive i op replay_panicked s g e h =
      phase-IsExclusive i op replay_panicked replay_clearing s
        (send_error env op.id code_internal_error "internal error" s) (written_ops _ s) g e refl
        refl (send_error-IsExclusive env op.id code_internal_error "internal error" s h)
  advance_op-IsExclusive i op replay_clearing s g e h =
      let active : s.active_op ≡ some i = h.held_active i op g (ap holds e) in
      let h' : Agree s.ops s.active_turn (some i) =
        subst (λ x. Agree s.ops s.active_turn x) active h in
      let turn : s.active_turn ≡ none = replay_has_no_turn s.ops _ i op h' g (ap holds_turn e) in
      let hit : points_to s.active_op i ≡ true = rw active (eqb_refl i) in
      rw (hit, turn, update_op)
        (Agree-release s.ops s.active_turn i (with_phase replay_closing) (λ o. refl) h')
  advance_op-IsExclusive i op replay_closing s g e h =
      update_op-IsExclusive env i (λ o. record o { phase = finished; done = true }) s
        (λ o g'.
          let one : o ≡ op = ground (arith, g, g') in
          ap holds (sym e) ∙ ap (λ z. holds z.phase) (sym one))
        (λ o g'.
          let one : o ≡ op = ground (arith, g, g') in
          ap holds_turn (sym e) ∙ ap (λ z. holds_turn z.phase) (sym one))
        h
  advance_op-IsExclusive i op finished s g e h = h
