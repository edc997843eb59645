-- ===== src/Server/Replies/Write.antt =====
-- How the functions that write change the balance.
use kimi_wire_go.Prelude.{
  ◌+◌, String, ◌≡◌, refl, inl, inr, none, [], ◌∷◌, ◌++◌, arith, Option-cases, total-snoc,
}
use kimi_wire_go.Prelude.Int.{ℤ}
use kimi_wire_go.Protocol.Event.{Event}
use kimi_wire_go.Server.{
  Answer, Origin, Outgoing, response, error_response, notification, Server, Env,
}
use kimi_wire_go.Server.Write.{write_message, emit_event, send_response, send_error}
use kimi_wire_go.Server.Replies.{hit, reply_weight, balance}

-- encoding/json prints every reply: its fields are texts, numbers, Booleans, and lists and maps of
-- such.
pub record RepliesMarshal {Raw : Type 0} (env : Env Raw) : Type 0 where
  pub response_marshals : (id : String) (a : Answer) → env.marshal (response id a) ≡ none
  pub error_marshals :
      (id : String) (c : ℤ) (m : String) → env.marshal (error_response id c m) ≡ none

module _ {Raw : Type 0} (env : Env Raw) where
  -- A message is added to the log or not, and nothing else changes.
  pub write_message_cases {ℓ} :
      (P : Server Raw → Type ℓ) (o : Outgoing Raw) (s : Server Raw)
      → P s
      → P (record s { written = s.written ++ o ∷ [] })
      → P (write_message env o s).0
  unfolding write_message
  write_message_cases P o s keep add = elim (Option-cases (env.marshal o)) [
    | inl e ↦ rw (e, write_message) add
    | inr (x, e) ↦ rw (e, write_message) keep
  ]

  pub balance-emit_event :
      (id : String) (from : Origin) (e : Event Raw) (s : Server Raw)
      → balance id (emit_event env from e s).0 ≡ balance id s
  unfolding emit_event
  balance-emit_event id from e s =
      write_message_cases (λ t. balance id t ≡ balance id s) (notification from e) s refl
        (omega (arith, total-snoc (reply_weight id) s.written (notification from e)))

  module _ (m : RepliesMarshal env) where
    pub send_response-eq :
        (j : String) (a : Answer) (s : Server Raw)
        → send_response env j a s ≡ record s { written = s.written ++ response j a ∷ [] }
    unfolding send_response write_message
    send_response-eq j a s = rw (m.response_marshals j a, send_response, write_message)

    pub send_error-eq :
        (j : String) (c : ℤ) (msg : String) (s : Server Raw)
        → send_error env j c msg s
          ≡ record s { written = s.written ++ error_response j c (env.redact msg) ∷ [] }
    unfolding send_error write_message
    send_error-eq j c msg s = rw (m.error_marshals j c (env.redact msg), send_error, write_message)

    pub balance-send_response :
        (id j : String) (a : Answer) (s : Server Raw)
        → balance id (send_response env j a s) ≡ balance id s + hit id j
    balance-send_response id j a s =
        rw (send_response-eq j a s)
          (omega (arith, total-snoc (reply_weight id) s.written (response j a)))

    pub balance-send_error :
        (id j : String) (c : ℤ) (msg : String) (s : Server Raw)
        → balance id (send_error env j c msg s) ≡ balance id s + hit id j
    balance-send_error id j c msg s = rw (send_error-eq j c msg s) (
        omega (arith, total-snoc (reply_weight id) s.written (error_response j c (env.redact msg))))
