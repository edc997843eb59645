-- ===== src/Protocol/Message.antt =====
-- WireMessage and ParseWireMessage of message.go, WireError and ErrorKind of error.go.
use kimi_wire_go.Prelude.{String, Option, none, some, ◌==◌, if◌then◌else◌, Result, ok, err, ◌>>=◌}
use Prim.Native.String.{◌++◌ as str_append}
use kimi_wire_go.Protocol.Codec.{Codecs}
use kimi_wire_go.Protocol.Event.{Event}
use kimi_wire_go.Protocol.Request.{Request}
use kimi_wire_go.Protocol.Jsonrpc.{RawWireMessage, JsonRpcError}
use kimi_wire_go.Protocol.Envelope.{parse_event, parse_request}
use kimi_wire_go.Prelude.Int.{ℤ, pos}

pub data ErrorKind : Type 0 where
  stream_closed timeout spawn_failed json_parse json_serialize request_failed : ErrorKind
  unexpected_response_id method_not_found unknown_message_type invalid_payload_type io : ErrorKind
  internal : ErrorKind

-- The method String of ErrorKind, on the declared kinds.
unfoldable pub kind_name : ErrorKind → String
kind_name stream_closed = "stream_closed"
kind_name timeout = "timeout"
kind_name spawn_failed = "spawn_failed"
kind_name json_parse = "json_parse"
kind_name json_serialize = "json_serialize"
kind_name request_failed = "request_failed"
kind_name unexpected_response_id = "unexpected_response_id"
kind_name method_not_found = "method_not_found"
kind_name unknown_message_type = "unknown_message_type"
kind_name invalid_payload_type = "invalid_payload_type"
kind_name io = "io"
kind_name internal = "internal"

-- The fields that the client sets; a cause is kept as its text.
pub record WireError : Type 0 where
  pub kind : ErrorKind
  pub message : String
  pub cause : Option String
  pub code : ℤ

-- The method Error.
unfoldable pub error_text : WireError → String
unfolding kind_name
error_text e =
    if e.message == ""
    then str_append "wire error: " (kind_name e.kind)
    else str_append "wire error " (str_append (kind_name e.kind) (str_append ": " e.message))

pub data WireMessage (Raw : Type 0) : Type 0 where
  event_message : (jsonrpc method : String) (event : Event Raw) → WireMessage Raw
  request_message : (jsonrpc method id : String) (request : Request Raw) → WireMessage Raw
  success_response : (jsonrpc id : String) (result : Raw) → WireMessage Raw
  error_response : (jsonrpc id : String) (error : JsonRpcError Raw) → WireMessage Raw

-- An error with a kind and a message only.
abbrev pub plain : ErrorKind → String → WireError
plain k m = record { kind = k; message = m; cause = none; code = pos 0 }

-- `err != nil` becomes a parse error with its text.
abbrev pub or_parse_error {ℓ} : {A : Type ℓ} → Result String A → Result WireError A
or_parse_error (ok a) = ok a
or_parse_error (err e) = err (plain json_parse e)

-- `raw.Params` as it is handed to a parser: an absent one is the empty text.
abbrev pub parsed {ℓ} :
    {Raw : Type 0} {A : Type ℓ} → (Raw → Result String A) → Option Raw → Result WireError A
parsed parse none = err (plain json_parse "unexpected end of JSON input")
parsed parse (some raw) = or_parse_error (parse raw)

module _ {Raw : Type 0} (json : Codecs Raw) where
  unfoldable pub parse_response : RawWireMessage Raw → Result WireError (WireMessage Raw)
  parse_response raw = elim raw.error [
    | some e ↦ ok (error_response raw.jsonrpc raw.id e)
    | none ↦ elim raw.result [
      | some r ↦ ok (success_response raw.jsonrpc raw.id r)
      | none ↦ err (plain unknown_message_type "unrecognized wire message shape")
    ]
  ]

  unfoldable pub parse_wire_message : RawWireMessage Raw → Result WireError (WireMessage Raw)
  unfolding parse_response
  parse_wire_message raw =
      if raw.jsonrpc == "2.0"
      then if raw.method == ""
        then parse_response raw
        else if raw.method == "request"
        then (do
          req ← parsed (parse_request json) raw.params
          ok (request_message raw.jsonrpc raw.method raw.id req))
        else if raw.method == "event"
        then (do
          ev ← parsed (parse_event json) raw.params
          ok (event_message raw.jsonrpc raw.method ev))
        else err (plain unknown_message_type raw.method)
      else err (plain json_parse "invalid jsonrpc version")
