-- ===== src/Server/Write.antt =====
-- writeMessage, emitEvent (server/request.go), sendError (server/errors.go) and sendResponse
-- (server/server.go). A failure to write is logged, or returned where the caller looks at it.
use kimi_wire_go.Prelude.{String, Option, none, some, [], ◌∷◌, ◌++◌}
use kimi_wire_go.Prelude.Int.{ℤ}
use kimi_wire_go.Protocol.Event.{Event}
use kimi_wire_go.Server.{
  GoError, Answer, Origin, Outgoing, response, error_response, notification, Server, Env,
}

module _ {Raw : Type 0} (env : Env Raw) where
  unfoldable pub write_message : Outgoing Raw → Server Raw → Server Raw × Option GoError
  write_message o s = elim (env.marshal o) [
    | some e ↦ (s, some e)
    | none ↦ (record s { written = s.written ++ o ∷ [] }, env.write_line s.serve_done s.written o)
  ]

  unfoldable pub emit_event : Origin → Event Raw → Server Raw → Server Raw × Option GoError
  unfolding write_message
  emit_event from e s = write_message (notification from e) s

  unfoldable pub send_response : String → Answer → Server Raw → Server Raw
  unfolding write_message
  send_response id a s = (write_message (response id a) s).0

  unfoldable pub send_error : String → ℤ → String → Server Raw → Server Raw
  unfolding write_message
  send_error id code msg s = (write_message (error_response id code (env.redact msg)) s).0
