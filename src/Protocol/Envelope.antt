-- ===== src/Protocol/Envelope.antt =====
-- MarshalEvent and ParseEvent of protocol/protocol_event.go, MarshalRequest and ParseRequest of
-- protocol/protocol_request.go. A pointer to an event is marshalled as the event is.
pub mod RoundTrip
use kimi_wire_go.Prelude.{String, Option, none, some, ◌==◌, if◌then◌else◌, Result, ok, err, ◌>>=◌}
use Prim.Native.String.{◌++◌ as str_append}
use kimi_wire_go.Protocol.Content.Json.{user_input_codec, tool_output_codec, content_part_codec}
use kimi_wire_go.Protocol.Codec.{Codecs, ToolCallPayload}
use kimi_wire_go.Protocol.Event.{Event, ToolCallEvent, event_type}
use kimi_wire_go.Protocol.Request.{Request, request_type}
use kimi_wire_go.Protocol.Event
use kimi_wire_go.Protocol.Request

module _ {Raw : Type 0} (json : Codecs Raw) where
  unfoldable tool_call_event_payload : ToolCallEvent Raw → ToolCallPayload Raw
  tool_call_event_payload v = record { type = "function"; event = v }

  -- The switch of MarshalEvent.
  unfoldable pub event_payload : Event Raw → Result String Raw
  unfolding tool_call_event_payload user_input_codec tool_output_codec content_part_codec
  event_payload (Event.turn_begin p) = (json.turn_begin (user_input_codec json)).marshal p
  event_payload Event.turn_end = json.empty.marshal (record { unit = tt })
  event_payload (Event.step_begin p) = json.step_begin.marshal p
  event_payload Event.step_interrupted = json.empty.marshal (record { unit = tt })
  event_payload (Event.step_retry p) = json.step_retry.marshal p
  event_payload Event.compaction_begin = json.empty.marshal (record { unit = tt })
  event_payload Event.compaction_end = json.empty.marshal (record { unit = tt })
  event_payload (Event.status_update p) = json.status_update.marshal p
  event_payload (Event.content_part p) = (content_part_codec json).marshal p.part
  event_payload (Event.tool_call p) = json.tool_call.marshal (tool_call_event_payload p)
  event_payload (Event.tool_call_part p) = json.tool_call_part.marshal p
  event_payload (Event.tool_result p) = (json.tool_result (tool_output_codec json)).marshal p
  event_payload (Event.approval_response p) = json.approval_response.marshal p
  event_payload (Event.subagent_event p) = json.subagent_event.marshal p
  event_payload (Event.steer_input p) = (json.steer_input (user_input_codec json)).marshal p
  event_payload (Event.btw_begin p) = json.btw_begin.marshal p
  event_payload (Event.btw_end p) = json.btw_end.marshal p
  event_payload (Event.plan_display p) = json.plan_display.marshal p
  event_payload (Event.hook_triggered p) = json.hook_triggered.marshal p
  event_payload (Event.hook_resolved p) = json.hook_resolved.marshal p

  unfoldable pub marshal_event : Option (Event Raw) → Result String Raw
  unfolding event_payload
  marshal_event none = err "cannot marshal nil event"
  marshal_event (some e) = do
    payload ← event_payload e
    json.envelope.marshal (record { type = event_type e; payload = payload })

  checked_tool_call : ToolCallPayload Raw → Result String (Event Raw)
  checked_tool_call p =
      if p.type == "function"
      then ok (Event.tool_call p.event)
      else err (str_append "tool call payload must have type=function, got " (json.quote p.type))

  parse_tool_call : Raw → Result String (Event Raw)
  unfolding checked_tool_call
  parse_tool_call raw = do payload ← json.tool_call.unmarshal raw; checked_tool_call payload

  -- The switch of ParseEvent.
  parse_payload : String → Raw → Result String (Event Raw)
  unfolding parse_tool_call user_input_codec tool_output_codec content_part_codec
  parse_payload type raw =
      if type == "TurnBegin"
      then (do p ← (json.turn_begin (user_input_codec json)).unmarshal raw; ok (Event.turn_begin p))
      else if type == "TurnEnd"
      then ok Event.turn_end
      else if type == "StepBegin"
      then (do p ← json.step_begin.unmarshal raw; ok (Event.step_begin p))
      else if type == "StepInterrupted"
      then ok Event.step_interrupted
      else if type == "StepRetry"
      then (do p ← json.step_retry.unmarshal raw; ok (Event.step_retry p))
      else if type == "CompactionBegin"
      then ok Event.compaction_begin
      else if type == "CompactionEnd"
      then ok Event.compaction_end
      else if type == "StatusUpdate"
      then (do p ← json.status_update.unmarshal raw; ok (Event.status_update p))
      else if type == "ContentPart"
      then (do
        p ← (content_part_codec json).unmarshal raw
        ok (Event.content_part (record { part = p })))
      else if type == "ToolCall"
      then parse_tool_call raw
      else if type == "ToolCallPart"
      then (do p ← json.tool_call_part.unmarshal raw; ok (Event.tool_call_part p))
      else if type == "ToolResult"
      then (do
        p ← (json.tool_result (tool_output_codec json)).unmarshal raw
        ok (Event.tool_result p))
      else if type == "ApprovalResponse"
      then (do p ← json.approval_response.unmarshal raw; ok (Event.approval_response p))
      else if type == "SubagentEvent"
      then (do p ← json.subagent_event.unmarshal raw; ok (Event.subagent_event p))
      else if type == "SteerInput"
      then (do
        p ← (json.steer_input (user_input_codec json)).unmarshal raw
        ok (Event.steer_input p))
      else if type == "BtwBegin"
      then (do p ← json.btw_begin.unmarshal raw; ok (Event.btw_begin p))
      else if type == "BtwEnd"
      then (do p ← json.btw_end.unmarshal raw; ok (Event.btw_end p))
      else if type == "PlanDisplay"
      then (do p ← json.plan_display.unmarshal raw; ok (Event.plan_display p))
      else if type == "HookTriggered"
      then (do p ← json.hook_triggered.unmarshal raw; ok (Event.hook_triggered p))
      else if type == "HookResolved"
      then (do p ← json.hook_resolved.unmarshal raw; ok (Event.hook_resolved p))
      else err (str_append "unknown event type: " type)

  unfoldable pub parse_event : Raw → Result String (Event Raw)
  unfolding parse_payload
  parse_event raw = do env ← json.envelope.unmarshal raw; parse_payload env.type env.payload

  -- `json.Marshal(r)` prints the type that `r` holds.
  unfoldable pub request_payload : Request Raw → Result String Raw
  request_payload (Request.approval_request p) = json.approval_request.marshal p
  request_payload (Request.tool_call_request p) = json.tool_call_request.marshal p
  request_payload (Request.question_request p) = json.question_request.marshal p
  request_payload (Request.hook_request p) = json.hook_request.marshal p

  unfoldable pub marshal_request : Option (Request Raw) → Result String Raw
  unfolding request_payload
  marshal_request none = err "cannot marshal nil request"
  marshal_request (some r) = do
    payload ← request_payload r
    json.envelope.marshal (record { type = request_type r; payload = payload })

  -- The switch of ParseRequest.
  parse_request_payload : String → Raw → Result String (Request Raw)
  parse_request_payload type raw =
      if type == "ApprovalRequest"
      then (do p ← json.approval_request.unmarshal raw; ok (Request.approval_request p))
      else if type == "ToolCallRequest"
      then (do p ← json.tool_call_request.unmarshal raw; ok (Request.tool_call_request p))
      else if type == "QuestionRequest"
      then (do p ← json.question_request.unmarshal raw; ok (Request.question_request p))
      else if type == "HookRequest"
      then (do p ← json.hook_request.unmarshal raw; ok (Request.hook_request p))
      else err (str_append "unknown request type: " type)

  pub parse_request : Raw → Result String (Request Raw)
  unfolding parse_request_payload
  parse_request raw = do
    env ← json.envelope.unmarshal raw
    parse_request_payload env.type env.payload
