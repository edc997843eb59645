-- ===== src/Server/Replies/Waits.antt =====
-- The balance over the handlers that wait.
use kimi_wire_go.Prelude.{
  ℕ, ◌+◌, String, ◌≡◌, refl, ap, ◌∙◌, Bool, true, false, Option, none, some, arith, if_cases,
  option_cases,
}
use kimi_wire_go.Server.Control.{
  has_room, no_turn, call_steer, is_finished, mark_cancelled, op_is, continue,
}
use kimi_wire_go.Prelude.Int.{ℤ}
use kimi_wire_go.Server.{
  Operation, Steerer, awaiting_end, awaiting_done, Server, stopped, Env, Loop, Answer, marking,
  ready, steering,
}
use kimi_wire_go.Server.Replies.{hit, op_weight, loop_weight, balance, Same}
use kimi_wire_go.Server.Replies.Write.{RepliesMarshal, balance-send_response, balance-send_error}
use kimi_wire_go.Protocol.Content.{UserInput}
use kimi_wire_go.Server.Turn.{update_op}
use kimi_wire_go.Server.Write.{send_error, send_response}
use kimi_wire_go.Server.Replies.Handlers.{balance-update_op}

module _ {Raw : Type 0} (env : Env Raw) (m : RepliesMarshal env) (id : String) where
  -- The loop leaves a handler in which it owed a reply to `j`, and writes that reply.
  freed :
      (s t : Server Raw) (j : String)
      → loop_weight id s.loop ≡ hit id j
      → balance id t ≡ balance id (record s { loop = ready }) + hit id j
      → Same id s t
  freed s t j w e = omega (arith, w, e)

  freed_by_response :
      (s : Server Raw) (j : String) (a : Answer)
      → loop_weight id s.loop ≡ hit id j
      → Same id s (send_response env j a (record s { loop = ready }))
  freed_by_response s j a w =
      freed s (send_response env j a (record s { loop = ready })) j w
        (balance-send_response env m id j a (record s { loop = ready }))

  freed_by_error :
      (s : Server Raw) (j : String) (c : ℤ) (msg : String)
      → loop_weight id s.loop ≡ hit id j
      → Same id s (send_error env j c msg (record s { loop = ready }))
  freed_by_error s j c msg w =
      freed s (send_error env j c msg (record s { loop = ready })) j w
        (balance-send_error env m id j c msg (record s { loop = ready }))

  pub Same-update_op :
      (i : ℕ) (f : Operation → Operation) (s : Server Raw)
      → ((o : Operation) → op_weight id (f o) ≡ op_weight id o)
      → Same id s (update_op i f s)
  Same-update_op i f s keep = balance-update_op env m id i f s (λ o _. keep o)

  balance-mark_cancelled :
      (i : ℕ) (t : Option ℕ) (s : Server Raw) → Same id s (mark_cancelled i t s)
  unfolding mark_cancelled
  balance-mark_cancelled i none s = Same-update_op i _ s (λ o. refl)
  balance-mark_cancelled i (some t) s =
      Same-update_op i _ (update_op t (λ o. record o { cancelled = true }) s) (λ o. refl)
      ∙ Same-update_op t _ s (λ o. refl)

  call_steer-Answers :
      (f : Steerer Raw) (j : String) (input : UserInput) (s : Server Raw)
      → balance id (call_steer env f j input s) ≡ balance id s + hit id j
  unfolding call_steer
  call_steer-Answers f j input s =
      option_cases (λ (t : Server Raw). balance id t ≡ balance id s + hit id j) (f s.written input)
        (λ _. balance-send_response env m id j _ s) (λ e _. balance-send_error env m id j _ _ s)

  abbrev steered : Server Raw → ℕ → UserInput → Server Raw
  steered s t input = update_op t (λ o. record o { steer = some input }) (record s { loop = ready })

  pub balance-continue :
      (first : Bool) (l : Loop Raw) (s : Server Raw)
      → s.loop ≡ l
      → Same id s (continue env first l s)
  unfolding continue no_turn
  balance-continue first ready s e = refl
  balance-continue first stopped s e = refl
  balance-continue first (marking j i t) s e =
      balance-mark_cancelled i t (record s { loop = awaiting_done j i })
      ∙ omega (arith, ap (loop_weight id) e)
  balance-continue true (awaiting_done j i) s e =
      if_cases (Same id s) (op_is (λ o. o.done) i s)
        (λ _. freed_by_response s j _ (ap (loop_weight id) e)) (λ _. refl)
  balance-continue false (awaiting_done j i) s e =
      if_cases (Same id s) s.serve_done (λ _. freed_by_error s j _ _ (ap (loop_weight id) e))
        (λ _. refl)
  balance-continue true (steering j t input f) s e =
      if_cases (Same id s) (op_is has_room t s)
        (λ _. freed s (call_steer env f j input (steered s t input)) j (ap (loop_weight id) e) (
          call_steer-Answers f j input (steered s t input)
          ∙ ap (λ n. n + hit id j) (Same-update_op t _ (record s { loop = ready }) (λ o. refl))))
        (λ _. refl)
  balance-continue false (steering j t input f) s e =
      if_cases (Same id s) (op_is (λ o. o.ctx_done) t s)
        (λ _. freed_by_error s j _ _ (ap (loop_weight id) e)) (λ _. refl)
  balance-continue first (awaiting_end i) s e =
      if_cases (Same id s) (op_is is_finished i s) (λ _. omega (arith, ap (loop_weight id) e))
        (λ _. refl)
