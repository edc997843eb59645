-- ===== src/Protocol/Envelope/RoundTrip.antt =====
-- What MarshalEvent and MarshalRequest print is read back by ParseEvent and ParseRequest.
use kimi_wire_go.Prelude.{Bool, true, false, ◌≡◌, refl, some, Result, ok, err, ◌>>=◌}
use kimi_wire_go.Protocol.Envelope.{
  event_payload, request_payload, parse_payload, parse_request_payload, marshal_event,
  marshal_request, parse_event, parse_request,
}
use kimi_wire_go.Protocol.Request.{request_type, Request}
use kimi_wire_go.Protocol.Event.{event_type, Event}
use kimi_wire_go.Protocol.Codec.{Codecs, ReadsBack, Envelope}

pub >>=-eq-ok {ℓ κ μ} :
    {E : Type ℓ} {A : Type κ} {B : Type μ} (first : Result E A) (next : A → Result E B) {final : B}
    → (first >>= next) ≡ ok final
    → (between : A) × (first ≡ ok between) × (next between ≡ ok final)
>>=-eq-ok (err reason) next e = absurd (cc e)
>>=-eq-ok (ok between) next e = (between, refl, e)

module _ {Raw : Type 0} (json : Codecs Raw) where
  -- Whether the payload holds a UserInput, a ContentPart or a ToolOutput.
  abbrev pub has_content : Event Raw → Bool
  has_content (Event.turn_begin p) = true
  has_content (Event.content_part p) = true
  has_content (Event.tool_result p) = true
  has_content (Event.steer_input p) = true
  has_content _ = false

  -- encoding/json reads back the payload that the event prints. A payload with no fields is not read,
  -- and nothing is said of one with content.
  abbrev pub PayloadReadsBack : Event Raw → Type 0
  PayloadReadsBack (Event.turn_begin p) = Unit
  PayloadReadsBack Event.turn_end = Unit
  PayloadReadsBack (Event.step_begin p) = ReadsBack json.step_begin p
  PayloadReadsBack Event.step_interrupted = Unit
  PayloadReadsBack (Event.step_retry p) = ReadsBack json.step_retry p
  PayloadReadsBack Event.compaction_begin = Unit
  PayloadReadsBack Event.compaction_end = Unit
  PayloadReadsBack (Event.status_update p) = ReadsBack json.status_update p
  PayloadReadsBack (Event.content_part p) = Unit
  PayloadReadsBack (Event.tool_call p) =
      ReadsBack json.tool_call (record { type = "function"; event = p })
  PayloadReadsBack (Event.tool_call_part p) = ReadsBack json.tool_call_part p
  PayloadReadsBack (Event.tool_result p) = Unit
  PayloadReadsBack (Event.approval_response p) = ReadsBack json.approval_response p
  PayloadReadsBack (Event.subagent_event p) = ReadsBack json.subagent_event p
  PayloadReadsBack (Event.steer_input p) = Unit
  PayloadReadsBack (Event.btw_begin p) = ReadsBack json.btw_begin p
  PayloadReadsBack (Event.btw_end p) = ReadsBack json.btw_end p
  PayloadReadsBack (Event.plan_display p) = ReadsBack json.plan_display p
  PayloadReadsBack (Event.hook_triggered p) = ReadsBack json.hook_triggered p
  PayloadReadsBack (Event.hook_resolved p) = ReadsBack json.hook_resolved p

  payload_round_trip :
      (e : Event Raw) (raw : Raw)
      → has_content e ≡ false
      → PayloadReadsBack e
      → event_payload json e ≡ ok raw
      → parse_payload json (event_type e) raw ≡ ok e
  unfolding event_payload parse_payload event_type
  payload_round_trip (Event.turn_begin p) raw none_ r h = absurd (cc none_)
  payload_round_trip Event.turn_end raw none_ r h = refl
  payload_round_trip (Event.step_begin p) raw none_ r h = rw (r raw h)
  payload_round_trip Event.step_interrupted raw none_ r h = refl
  payload_round_trip (Event.step_retry p) raw none_ r h = rw (r raw h)
  payload_round_trip Event.compaction_begin raw none_ r h = refl
  payload_round_trip Event.compaction_end raw none_ r h = refl
  payload_round_trip (Event.status_update p) raw none_ r h = rw (r raw h)
  payload_round_trip (Event.content_part p) raw none_ r h = absurd (cc none_)
  payload_round_trip (Event.tool_call p) raw none_ r h = rw (r raw h)
  payload_round_trip (Event.tool_call_part p) raw none_ r h = rw (r raw h)
  payload_round_trip (Event.tool_result p) raw none_ r h = absurd (cc none_)
  payload_round_trip (Event.approval_response p) raw none_ r h = rw (r raw h)
  payload_round_trip (Event.subagent_event p) raw none_ r h = rw (r raw h)
  payload_round_trip (Event.steer_input p) raw none_ r h = absurd (cc none_)
  payload_round_trip (Event.btw_begin p) raw none_ r h = rw (r raw h)
  payload_round_trip (Event.btw_end p) raw none_ r h = rw (r raw h)
  payload_round_trip (Event.plan_display p) raw none_ r h = rw (r raw h)
  payload_round_trip (Event.hook_triggered p) raw none_ r h = rw (r raw h)
  payload_round_trip (Event.hook_resolved p) raw none_ r h = rw (r raw h)

  -- If encoding/json reads back envelopes and the payload of the event, then an event that MarshalEvent
  -- prints is read back by ParseEvent as it is, whatever its type is among those without user input,
  -- content parts or a tool's output.
  pub parse-marshal_event :
      (e : Event Raw) (raw : Raw)
      → has_content e ≡ false
      → ((env : Envelope Raw) → ReadsBack json.envelope env)
      → PayloadReadsBack e
      → marshal_event json (some e) ≡ ok raw
      → parse_event json raw ≡ ok e
  unfolding marshal_event parse_event
  parse-marshal_event e raw none_ envelopes r h =
      let (payload, printed, wrapped) = >>=-eq-ok (event_payload json e) _ h in
      rw (envelopes _ raw wrapped) (payload_round_trip e payload none_ r printed)

  -- encoding/json reads back the struct that the request holds.
  abbrev pub RequestReadsBack : Request Raw → Type 0
  RequestReadsBack (Request.approval_request p) = ReadsBack json.approval_request p
  RequestReadsBack (Request.tool_call_request p) = ReadsBack json.tool_call_request p
  RequestReadsBack (Request.question_request p) = ReadsBack json.question_request p
  RequestReadsBack (Request.hook_request p) = ReadsBack json.hook_request p

  request_round_trip :
      (q : Request Raw) (raw : Raw)
      → RequestReadsBack q
      → request_payload json q ≡ ok raw
      → parse_request_payload json (request_type q) raw ≡ ok q
  unfolding request_payload parse_request_payload request_type
  request_round_trip (Request.approval_request p) raw r h = rw (r raw h)
  request_round_trip (Request.tool_call_request p) raw r h = rw (r raw h)
  request_round_trip (Request.question_request p) raw r h = rw (r raw h)
  request_round_trip (Request.hook_request p) raw r h = rw (r raw h)

  -- If encoding/json reads back envelopes and the struct of the request, then a request of any type
  -- that MarshalRequest prints is read back by ParseRequest as it is.
  pub parse-marshal_request :
      (q : Request Raw) (raw : Raw)
      → ((env : Envelope Raw) → ReadsBack json.envelope env)
      → RequestReadsBack q
      → marshal_request json (some q) ≡ ok raw
      → parse_request json raw ≡ ok q
  unfolding marshal_request parse_request
  parse-marshal_request q raw envelopes r h =
      let (payload, printed, wrapped) = >>=-eq-ok (request_payload json q) _ h in
      rw (envelopes _ raw wrapped) (request_round_trip q payload r printed)
