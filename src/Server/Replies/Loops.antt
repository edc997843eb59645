-- ===== src/Server/Replies/Loops.antt =====
-- The balance over what the read loop and the serve loop do.
use kimi_wire_go.Prelude.{
  ℕ, ◌+◌, String, ◌≡◌, refl, ap, ◌∙◌, ◌&&◌, Option, none, some, List, [], ◌∷◌, arith, ltb,
  if◌then◌else◌, length, total-snoc, not, map, total, if_cases,
}
use kimi_wire_go.Server.Serve.{
  serve_next, clear_active, receive_line_error, dispatch_capacity, Action, fail_pending, receive,
  end_context, end_op, step, is_response, receive_message, stop_reading, end_serve, end_next,
  close_next, lose_response,
}
use kimi_wire_go.Server.{
  Operation, GoError, Outgoing, Server, Env, Loop, ready, clearing, sending, cancelling, failing,
  Ending, past_end,
}
use kimi_wire_go.Server.Replies.{hit, op_weight, balance, message_weight, reply_weight, Same}
use kimi_wire_go.Server.Replies.Write.{RepliesMarshal}
use kimi_wire_go.Server.Replies.Handlers.{dispatch-Answers}
use kimi_wire_go.Protocol.Jsonrpc.{RawWireMessage}

-- What an action adds to the requests with this id: the message that the read loop takes.
abbrev pub accepted_weight : {Raw : Type 0} → String → Action Raw → Server Raw → ℕ
accepted_weight id (receive raw) s =
    if s.reading && (not (is_response raw) && ltb (length s.queue) dispatch_capacity)
    then hit id raw.id
    else 0
accepted_weight id _ s = 0

module _ {Raw : Type 0} (env : Env Raw) where
  -- The requests with this id that a run takes.
  unfoldable pub accepted_run : String → List (Action Raw) → Server Raw → ℕ
  accepted_run id [] s = 0
  accepted_run id (a ∷ as_) s = accepted_weight id a s + accepted_run id as_ (step env a s)

module _ {Raw : Type 0} (env : Env Raw) (m : RepliesMarshal env) (id : String) where
  pub balance-receive :
      (raw : RawWireMessage Raw) (s : Server Raw)
      → balance id (receive_message raw s) ≡ balance id s + accepted_weight id (receive raw) s
  unfolding receive_message
  balance-receive raw s = ground (arith, total-snoc (message_weight {Raw = Raw} id) s.queue raw)

  pub balance-receive_line_error :
      (msg : String) (s : Server Raw) → Same id s (receive_line_error msg s)
  unfolding receive_line_error
  balance-receive_line_error msg s =
      if_cases (Same id s) s.reading
        (λ _.
          omega (
            arith,
            total-snoc (reply_weight {Raw = Raw} id) s.written (Outgoing.parse_failure msg),
          ))
        (λ _. refl)

  total-end_op :
      (os : List Operation) → total (op_weight id) (map end_op os) ≡ total (op_weight id) os
  unfolding total
  total-end_op [] = refl
  total-end_op (o ∷ os) = omega (arith, total-end_op os)

  pub balance-end_context : (s : Server Raw) → Same id s (end_context s)
  unfolding end_context
  balance-end_context s = omega (arith, total-end_op s.ops)

  pub balance-stop_reading : (f : Option GoError) (s : Server Raw) → Same id s (stop_reading f s)
  unfolding stop_reading
  balance-stop_reading f s = if_cases (Same id s) s.reading (λ _. refl) (λ _. refl)

  pub balance-lose_response :
      (raw : RawWireMessage Raw) (s : Server Raw) → Same id s (lose_response raw s)
  unfolding lose_response
  balance-lose_response raw s =
      if_cases (Same id s) (s.reading && (is_response raw && s.serve_done)) (λ _. refl) (λ _. refl)

  balance-fail_pending : (f : Option GoError) (s : Server Raw) → Same id s (fail_pending env f s)
  unfolding fail_pending
  balance-fail_pending none s = refl
  balance-fail_pending (some e) s = refl

  balance-close_next :
      (msg : String) (p : List (String × ℕ)) (s : Server Raw) → Same id s (close_next msg p s)
  unfolding close_next
  balance-close_next msg [] s = refl
  balance-close_next msg ((i, k) ∷ p) s = refl

  balance-end_next : (e : Ending) (s : Server Raw) → Same id s (end_next env e s)
  unfolding end_next clear_active
  balance-end_next cancelling s = balance-end_context (record s { ending = failing })
  balance-end_next failing s = balance-fail_pending s.read_err s
  balance-end_next (sending msg) s = balance-close_next msg s.calls.pending_copy s
  balance-end_next clearing s = refl
  balance-end_next past_end s = refl

  pub balance-end_serve : (s : Server Raw) → Same id s (end_serve env s)
  unfolding end_serve
  balance-end_serve s =
      if_cases (Same id s) s.reading (λ _. refl) (λ _. balance-end_next s.ending s)

  pub balance-serve_next :
      (l : Loop Raw) (q : List (RawWireMessage Raw)) (s : Server Raw)
      → s.loop ≡ l
      → s.queue ≡ q
      → Same id s (serve_next env l q s)
  unfolding serve_next total
  balance-serve_next ready (raw ∷ rest) s free e =
      dispatch-Answers env m id raw (record s { queue = rest }) free ∙ omega (arith, head_counted)
    where
      head_counted :
          total (message_weight {Raw = Raw} id) s.queue
          ≡ hit id raw.id + total (message_weight {Raw = Raw} id) rest
      head_counted = ap (total (message_weight id)) e ∙ refl
  balance-serve_next _ _ s free e = refl
