-- ===== src/Server/Refusals.antt =====
-- Which error replies a prompt gets: endTurn of server/server.go.
use kimi_wire_go.Prelude.{String, ◌≢◌, if_cases, option_cases, arith}
use kimi_wire_go.Server.{GoError, code_internal_error}
use kimi_wire_go.Prelude.Int.{int_eq, ℤ, int_eq_iff, pos}
use kimi_wire_go.Server.Turn.{error_reply}

internal_nonzero : code_internal_error ≢ pos 0
internal_nonzero z = ground (arith, (int_eq_iff code_internal_error (pos 0)).1 z)

-- The error reply to a prompt never carries the code 0, whatever code the agent's error has.
pub error_reply_nonzero : (e : GoError) → (error_reply e).0 ≢ pos 0
unfolding error_reply
error_reply_nonzero e =
    option_cases Nonzero e.code (λ _. internal_nonzero)
      λ c _.
        if_cases Nonzero (int_eq c (pos 0)) (λ _. internal_nonzero)
          λ n z. ground (arith, n, (int_eq_iff c (pos 0)).1 z)
  where
    Nonzero : ℤ × String → Type 0
    Nonzero r = r.0 ≢ pos 0
