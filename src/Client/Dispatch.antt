-- ===== src/Client/Dispatch.antt =====
-- Dispatch of dispatch.go, with SendError and SendResponse of client.go.
use mathlib.Core.Option
use kimi_wire_go.Prelude.{
  String, Bool, true, false, Option, none, some, List, [], ◌∷◌, if◌then◌else◌, ok, err,
}
use kimi_wire_go.Client.{
  Client, Reader, response_message, write_client, other_error, error_message, ClientEnv,
  ClientError, reader_done,
}
use kimi_wire_go.Protocol.Message.{parse_wire_message, request_message, WireMessage, event_message}
use kimi_wire_go.Protocol.Jsonrpc.{RawWireMessage}
use kimi_wire_go.Prelude.Int.{negsuc, ℤ}

module _ {Raw : Type 0} where
  -- The case of a context that is done.
  unfoldable pub cancel_dispatch : String → Option (Option ClientError) → Client Raw → Client Raw
  cancel_dispatch text none c = record c { dispatch_end = some (some (other_error text)) }
  cancel_dispatch text (some r) c = c

  -- An iteration either goes on or returns an error.
  unfoldable pub after_dispatch : Client Raw × Option ClientError → Client Raw
  after_dispatch (c, none) = c
  after_dispatch (c, some e) = record c { dispatch_end = some (some e) }

  abbrev pub is_reader_done : Reader Raw → Bool
  is_reader_done reader_done = true
  is_reader_done _ = false

module _ {Raw : Type 0} (env : ClientEnv Raw) where
  unfoldable pub send_client_response : String → Raw → Client Raw → Client Raw × Option ClientError
  unfolding write_client
  send_client_response id result c = write_client env (response_message id result) c

  unfoldable pub send_client_error :
      String → ℤ → String → Client Raw → Client Raw × Option ClientError
  unfolding write_client
  send_client_error id code message c =
      write_client env (error_message id code (env.redact message)) c

  -- The body of the loop, for a message that parses.
  unfoldable pub handle_message : WireMessage Raw → Client Raw → Client Raw × Option ClientError
  unfolding send_client_response send_client_error
  handle_message (event_message j m e) c = (c, Option.map other_error (env.handle_event e))
  handle_message (request_message j m id req) c = elim (env.handle_request req) [
    | err text ↦ send_client_error id (negsuc 32602) (env.redact text) c
    | ok answer ↦ send_client_response id answer c
  ]
  handle_message _ c = (c, none)

  -- A message that does not parse is dropped.
  unfoldable pub dispatch_message :
      RawWireMessage Raw → Client Raw → Client Raw × Option ClientError
  unfolding handle_message parse_wire_message
  dispatch_message raw c = elim (parse_wire_message env.json raw) [
    | err e ↦ (c, none)
    | ok m ↦ handle_message m c
  ]

  -- The receive from dispatchCh, and an iteration on what it gives.
  unfoldable pub dispatch_next :
      Option (Option ClientError) → List (RawWireMessage Raw) → Client Raw → Client Raw
  unfolding after_dispatch dispatch_message
  dispatch_next none [] c =
      if is_reader_done c.reader then record c { dispatch_end = some none } else c
  dispatch_next none (raw ∷ rest) c =
      after_dispatch (dispatch_message raw (record c { queue = rest }))
  dispatch_next (some r) q c = c
