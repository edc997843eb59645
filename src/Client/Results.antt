-- ===== src/Client/Results.antt =====
-- decodeResponse, and what the six calls of client.go return.
use kimi_wire_go.Prelude.{
  String, Bool, true, false, ◌&&◌, none, some, [], if◌then◌else◌, Result, ok, err, ◌>>=◌,
}
use kimi_wire_go.Protocol.Jsonrpc.{method_not_found, RawWireMessage}
use kimi_wire_go.Prelude.Int.{int_eq, pos}
use kimi_wire_go.Protocol.Method.{InitializeResult}
use kimi_wire_go.Protocol.Message.{request_failed, ErrorKind, plain, json_parse}
use kimi_wire_go.Client.{
  wire_error, ClientRequest, other_error, ClientEnv, ClientError, ResultCodecs,
}
use kimi_wire_go.Version.{wire_protocol_legacy_version}
use kimi_wire_go.Server.{Answer}

abbrev pub map_result : {A B : Type 0} → (A → B) → Result String A → Result String B
map_result f (ok a) = ok (f a)
map_result f (err e) = err e

-- errors.As, Kind == ErrRequestFailed and Code == MethodNotFound.
abbrev pub is_request_failed : ErrorKind → Bool
is_request_failed request_failed = true
is_request_failed _ = false

abbrev pub says_method_not_found : ClientError → Bool
says_method_not_found (wire_error e) = is_request_failed e.kind && int_eq e.code method_not_found
says_method_not_found (other_error text) = false

-- The result of Initialize against a server that does not know the method.
abbrev pub legacy_result : InitializeResult
legacy_result = record {
  protocol_version = wire_protocol_legacy_version;
  server = record { name = "unknown"; version = "unknown" };
  slash_commands = [];
  external_tools = none;
  capabilities = none;
  hooks = none;
}

-- The end of Initialize: what it returns, and whether it sets handshakeDone.
unfoldable pub initialize_outcome : Result ClientError Answer → Result ClientError Answer × Bool
initialize_outcome (ok a) = (ok a, true)
initialize_outcome (err e) =
    if says_method_not_found e
    then (ok (Answer.initialized legacy_result), true)
    else (err e, false)

module _ {Raw : Type 0} (json : ResultCodecs Raw) where
  -- json.Unmarshal into the variable of each call.
  unfoldable pub unmarshal_answer : ClientRequest Raw → Raw → Result String Answer
  unmarshal_answer (ClientRequest.initialize p) raw =
      map_result Answer.initialized (json.initialize_result raw)
  unmarshal_answer (ClientRequest.prompt input) raw =
      map_result Answer.prompted (json.prompt_result raw)
  unmarshal_answer ClientRequest.replay raw = map_result Answer.replayed (json.replay_result raw)
  unmarshal_answer (ClientRequest.steer input) raw =
      map_result Answer.steered (json.steer_result raw)
  unmarshal_answer (ClientRequest.set_plan_mode enabled) raw =
      map_result Answer.plan_mode_set (json.set_plan_mode_result raw)
  unmarshal_answer ClientRequest.cancel raw =
      map_result (λ u. Answer.cancelled) (json.cancel_result raw)

module _ {Raw : Type 0} (env : ClientEnv Raw) where
  -- decodeResponse
  unfoldable pub decode_response :
      ClientRequest Raw → RawWireMessage Raw → Result ClientError Answer
  unfolding unmarshal_answer
  decode_response req msg = elim msg.error [
    | some e ↦ err (
        wire_error (record {
          kind = request_failed;
          message = env.redact e.message;
          cause = none;
          code = e.code;
        }))
    | none ↦ elim msg.result [
      | none ↦ err (wire_error (plain ErrorKind.internal "response missing result"))
      | some raw ↦ elim (unmarshal_answer env.results req raw) [
        | err e ↦
            err
              (wire_error (record { kind = json_parse; message = e; cause = some e; code = pos 0 }))
        | ok a ↦ ok a
      ]
    ]
  ]

  -- What a call returns, and whether it sets handshakeDone, once readResponse has its message or
  -- its error.
  unfoldable pub call_outcome :
      ClientRequest Raw → Result ClientError (RawWireMessage Raw) → Result ClientError Answer × Bool
  unfolding initialize_outcome decode_response
  call_outcome (ClientRequest.initialize p) r =
      initialize_outcome (r >>= decode_response (ClientRequest.initialize p))
  call_outcome req r = (r >>= decode_response req, false)
