-- ===== src/Tests/Client.antt =====
-- A client with a prompt, its response, and an event.
use kimi_wire_go.Protocol.Jsonrpc.{method_not_found, RawWireMessage}
use kimi_wire_go.Prelude.{◌≡◌, refl, true, false, none, List, [], ◌∷◌, ◌++◌, modify, ok, err, some}
use kimi_wire_go.Client.Run.{
  reads_raw, client_step, dispatches, registers, takes, ClientAction, client_run, begins_call,
  goes_on, concludes,
}
use kimi_wire_go.Tests.{
  request_with, blank, Json, response_with, hello, tagged, step_begin_json, bare_initialize,
}
use kimi_wire_go.Client.{
  new_client, ClientEnv, call_message, take_buffered, Client, ClientRequest, Call, ResultCodecs,
  has_returned, sent,
}
use kimi_wire_go.Client.Steps.{returns}
use kimi_wire_go.Client.Feed.{dispatched_messages, accepted_messages, backlog}
use kimi_wire_go.Client.Matching.{IsFor}
use kimi_wire_go.Tests.Protocol.{test_json}
use kimi_wire_go.Server.{Answer}
use kimi_wire_go.Prelude.Maps.{lookup}
use kimi_wire_go.Client.Results.{call_outcome}
use kimi_wire_go.Client.Fifo.{backlog-client_run}
use kimi_wire_go.Client.Answers.{IsFor-client_run}
use kimi_wire_go.Client.Order.{client_run_early_late}
use kimi_wire_go.Prelude.Decimal.{decimal}
use kimi_wire_go.Protocol.Envelope.{parse_event}
use kimi_wire_go.Client.Handshake.Runs.{handshake_done-client_run}
use kimi_wire_go.Client.Handshake.Kept.{IsInitialized}

abbrev result_codecs : ResultCodecs Json
result_codecs = record {
  initialize_result = λ raw. err "not read";
  prompt_result = λ raw. ok (record { status = "finished"; steps = none });
  replay_result = λ raw. err "not read";
  steer_result = λ raw. err "not read";
  set_plan_mode_result = λ raw. err "not read";
  cancel_result = λ raw. ok (record {});
}

abbrev client_env : ClientEnv Json
client_env = record {
  marshal = λ m. none;
  write_line = λ written m. none;
  redact = λ text. text;
  results = result_codecs;
  json = test_json;
  handle_event = λ e. none;
  handle_request = λ req. ok blank;
}

abbrev an_event : RawWireMessage Json
an_event = record (request_with "event" "") {
  params = some (tagged "StepBegin" (step_begin_json (record { n = 1 })));
}

abbrev first_response : RawWireMessage Json
first_response = response_with "req-1"

-- The prompt is written, and nothing has been read.
abbrev asked : List (ClientAction Json)
asked = begins_call (ClientRequest.prompt hello) ∷ []

abbrev asked_call : Call Json
asked_call = record {
  id = "req-1";
  request = ClientRequest.prompt hello;
  buffer = none;
  state = sent;
}

abbrev answered_call : Call Json
answered_call = record {
  id = "req-1";
  request = ClientRequest.prompt hello;
  buffer = none;
  state = has_returned (ok first_response);
}

abbrev answered : List (ClientAction Json)
answered =
    begins_call (ClientRequest.prompt hello)
    ∷ registers 0
    ∷ reads_raw first_response
    ∷ goes_on true
    ∷ takes 0
    ∷ []

abbrev asked_client : Client Json
asked_client = record new_client {
  request_counter = 1;
  calls = asked_call ∷ [];
  written = call_message "req-1" (ClientRequest.prompt hello) ∷ [];
}

test_asked : client_run client_env asked new_client ≡ asked_client
unfolding client_run client_step new_client decimal
test_asked = refl

test_answered : (client_run client_env answered new_client).calls ≡ answered_call ∷ []
unfolding client_run client_step new_client decimal
test_answered = refl

test_outcome :
    call_outcome client_env (ClientRequest.prompt hello) (ok first_response)
    ≡ (ok (Answer.prompted (record { status = "finished"; steps = none })), false)
unfolding call_outcome
test_outcome = refl

client_run_early_late_example :
    (client_run client_env (reads_raw first_response ∷ registers 0 ∷ []) asked_client
      ≡ client_run client_env
          (registers 0 ∷ reads_raw first_response ∷ goes_on true ∷ takes 0 ∷ [])
          asked_client)
    × (client_run client_env (reads_raw first_response ∷ registers 0 ∷ []) asked_client
        ≡ record asked_client { calls = modify asked_client.calls 0 (returns (ok first_response)) })
unfolding new_client lookup take_buffered
client_run_early_late_example =
    client_run_early_late client_env asked_client 0 asked_call first_response refl refl refl refl
      refl refl refl refl

IsFor-client_run_example : IsFor "req-1" first_response
unfolding client_run client_step new_client decimal
IsFor-client_run_example =
    IsFor-client_run client_env answered 0 answered_call first_response refl refl

-- An event is read while the prompt waits, and is dispatched once the response is read.
abbrev busy_feed : List (ClientAction Json)
busy_feed =
    reads_raw an_event
    ∷ goes_on true
    ∷ reads_raw first_response
    ∷ dispatches
    ∷ reads_raw (request_with "request" "a1")
    ∷ []

backlog-client_run_example :
    backlog asked_client ++ accepted_messages client_env busy_feed asked_client
    ≡ dispatched_messages client_env busy_feed asked_client
      ++ backlog (client_run client_env busy_feed asked_client)
unfolding client_run client_step new_client decimal parse_event
backlog-client_run_example = backlog-client_run client_env busy_feed asked_client refl

test_feed : dispatched_messages client_env busy_feed asked_client ≡ an_event ∷ []
unfolding dispatched_messages client_step new_client
test_feed = refl

-- The peer does not know the method initialize.
abbrev no_such_method : RawWireMessage Json
no_such_method = record (response_with "req-1") {
  result = none;
  error = some (record { code = method_not_found; message = "unknown"; raw_data = none });
}

abbrev shaken : List (ClientAction Json)
shaken =
    begins_call (ClientRequest.initialize bare_initialize)
    ∷ registers 0
    ∷ reads_raw no_such_method
    ∷ goes_on true
    ∷ takes 0
    ∷ concludes 0
    ∷ []

handshake_done-client_run_example :
    IsInitialized client_env (client_run client_env shaken new_client).calls
unfolding client_run client_step new_client decimal
handshake_done-client_run_example = handshake_done-client_run client_env shaken refl
