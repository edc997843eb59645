-- ===== src/Tests/Protocol.antt =====
-- Messages printed and read back.
use kimi_wire_go.Prelude.{[], String, ◌≡◌, refl, none, some, arith, Result, ok, err}
use kimi_wire_go.Protocol.Envelope.{
  marshal_event, marshal_request, parse_request, event_payload, parse_event, request_payload,
}
use kimi_wire_go.Tests.{step_begin_json, tagged, tool_call_json, no_codec, Json, list_files, blank}
use kimi_wire_go.Protocol.Envelope.RoundTrip.{parse-marshal_event, parse-marshal_request}
use kimi_wire_go.Protocol.Codec.{Codecs, ReadsBack, Codec, Envelope}
use kimi_wire_go.Protocol.Request.{request_type, Request, ToolCallRequest}
use kimi_wire_go.Protocol.Content.Json.{user_input_codec, marshal_text_or_parts}
use kimi_wire_go.Protocol.Content.Json.RoundTrip.{PrintsQuoted, unmarshal-marshal_user_input}
use kimi_wire_go.Protocol.Event.{event_type, Event, StepBeginEvent}

abbrev pub envelope_json : Codec Json (Envelope Json)
envelope_json = record { marshal = λ e. ok (tagged e.type e.payload); unmarshal = read_envelope }
  where
    read_envelope : Json → Result String (Envelope Json)
    read_envelope (tagged type payload) = ok (record { type = type; payload = payload })
    read_envelope _ = err "not an envelope"

abbrev pub step_begin_codec : Codec Json StepBeginEvent
step_begin_codec = record { marshal = λ p. ok (step_begin_json p); unmarshal = read }
  where
    read : Json → Result String StepBeginEvent
    read (step_begin_json p) = ok p
    read _ = err "not a step"

abbrev pub tool_call_codec : Codec Json ToolCallRequest
tool_call_codec = record { marshal = λ p. ok (tool_call_json p); unmarshal = read }
  where
    read : Json → Result String ToolCallRequest
    read (tool_call_json p) = ok p
    read _ = err "not a tool call"

abbrev pub test_json : Codecs Json
test_json = record {
  envelope = envelope_json;
  empty = no_codec;
  leading = λ raw. none;
  shown = λ raw. "";
  quote = λ s. s;
  text = no_codec;
  parts = λ c. no_codec;
  flat_text = no_codec;
  flat_think = no_codec;
  part_alias = no_codec;
  part_aux = no_codec;
  text_part = no_codec;
  think_part = no_codec;
  turn_begin = λ c. no_codec;
  step_begin = step_begin_codec;
  step_retry = no_codec;
  status_update = no_codec;
  tool_call = no_codec;
  tool_call_part = no_codec;
  tool_result = λ c. no_codec;
  approval_response = no_codec;
  subagent_event = no_codec;
  steer_input = λ c. no_codec;
  btw_begin = no_codec;
  btw_end = no_codec;
  plan_display = no_codec;
  hook_triggered = no_codec;
  hook_resolved = no_codec;
  approval_request = no_codec;
  tool_call_request = tool_call_codec;
  question_request = no_codec;
  hook_request = no_codec;
}

abbrev third_step : StepBeginEvent
third_step = record { n = 3 }

envelopes_read_back : (e : Envelope Json) → ReadsBack test_json.envelope e
envelopes_read_back e raw h = let same : tagged e.type e.payload ≡ raw = ground arith in rw (← same)

step-ReadsBack : ReadsBack test_json.step_begin third_step
step-ReadsBack raw h = let same : step_begin_json third_step ≡ raw = ground arith in rw (← same)

tool_call-ReadsBack : ReadsBack test_json.tool_call_request list_files
tool_call-ReadsBack raw h = let same : tool_call_json list_files ≡ raw = ground arith in rw (← same)

abbrev step_text : Json
step_text = tagged "StepBegin" (step_begin_json third_step)

step_prints : marshal_event test_json (some (Event.step_begin third_step)) ≡ ok step_text
unfolding marshal_event event_payload event_type
step_prints = refl

parse-marshal_event_example : parse_event test_json step_text ≡ ok (Event.step_begin third_step)
parse-marshal_event_example =
    parse-marshal_event test_json (Event.step_begin third_step) step_text refl envelopes_read_back
      step-ReadsBack step_prints

abbrev call_text : Json
call_text = tagged "ToolCallRequest" (tool_call_json list_files)

call_prints : marshal_request test_json (some (Request.tool_call_request list_files)) ≡ ok call_text
unfolding marshal_request request_payload request_type
call_prints = refl

parse-marshal_request_example :
    parse_request test_json call_text ≡ ok (Request.tool_call_request list_files)
parse-marshal_request_example =
    parse-marshal_request test_json (Request.tool_call_request list_files) call_text
      envelopes_read_back tool_call-ReadsBack call_prints

-- A text in quotation marks.
abbrev text_json : Codecs Json
text_json = record test_json {
  shown = λ raw. "a text";
  leading = λ raw. some b'"';
  text = record { marshal = λ s. ok (tagged s blank); unmarshal = read };
}
  where
    read : Json → Result String String
    read (tagged s raw) = ok s
    read _ = err "not a string"

text_is_quoted : PrintsQuoted text_json
text_is_quoted s raw h = (refl, refl)

text-ReadsBack : ReadsBack text_json.text "hello"
text-ReadsBack raw h = let same : tagged "hello" blank ≡ raw = ground arith in rw (← same)

text_prints :
    (user_input_codec text_json).marshal (record { text = "hello"; parts = [] })
    ≡ ok (tagged "hello" blank)
unfolding user_input_codec marshal_text_or_parts
text_prints = refl

unmarshal-marshal_user_input_example :
    (user_input_codec text_json).unmarshal (tagged "hello" blank)
    ≡ ok (record { text = "hello"; parts = [] })
unmarshal-marshal_user_input_example =
    unmarshal-marshal_user_input text_json "hello" (tagged "hello" blank) text_is_quoted
      text-ReadsBack text_prints
