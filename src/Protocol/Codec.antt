-- ===== src/Protocol/Codec.antt =====
-- encoding/json as the code uses it: for each type a function that prints it and one that reads it,
-- either of which may fail with a message. Nothing is assumed of them here.
use kimi_wire_go.Prelude.{ℕ, Option, List, String, ◌≡◌, Result, ok}
use kimi_wire_go.Protocol.Content.{ContentPart, UserInput, ToolOutput, TextPart, ThinkPart}
use kimi_wire_go.Protocol.Event.{
  TurnBeginEvent, StepBeginEvent, StepRetryEvent, StatusUpdateEvent, ToolCallEvent,
  ToolCallPartEvent, ToolResultEvent, ApprovalResponseEvent, SubagentEvent, SteerInputEvent,
  BtwBeginEvent, BtwEndEvent, PlanDisplayEvent, HookTriggeredEvent, HookResolvedEvent,
}
use kimi_wire_go.Protocol.Request.{ApprovalRequest, ToolCallRequest, QuestionRequest, HookRequest}

pub record Codec (Raw A : Type 0) : Type 0 where
  pub marshal : A → Result String Raw
  pub unmarshal : Raw → Result String A

-- What was printed is read back.
abbrev pub ReadsBack : {Raw A : Type 0} → Codec Raw A → A → Type 0
ReadsBack {Raw} c a = (raw : Raw) → c.marshal a ≡ ok raw → c.unmarshal raw ≡ ok a

-- The anonymous structs of ContentPart.MarshalJSON and UnmarshalJSON.
pub record FlatText : Type 0 where
  pub type : String
  pub text : String

pub record FlatThink : Type 0 where
  pub type : String
  pub think : String
  pub encrypted : String

pub record AuxPart (Raw : Type 0) : Type 0 where
  pub alias : ContentPart
  pub text : Option Raw
  pub think : Option Raw

-- The anonymous envelope of a type name and a payload.
pub record Envelope (Raw : Type 0) : Type 0 where
  pub type : String
  pub payload : Raw

-- The payload of a ToolCall event, which adds a type to the event's own fields.
pub record ToolCallPayload (Raw : Type 0) : Type 0 where
  pub type : String
  pub event : ToolCallEvent Raw

-- A struct with no fields.
pub record Empty : Type 0 where
  pub unit : Unit {0}

-- A struct that holds a value of a type with its own MarshalJSON and UnmarshalJSON is printed and read
-- with these. `leading` is the first byte that is not blank, `shown` the text itself, and `quote` the
-- verb %q of the package fmt.
pub record Codecs (Raw : Type 0) : Type 0 where
  pub envelope : Codec Raw (Envelope Raw)
  pub empty : Codec Raw Empty
  pub leading : Raw → Option ℕ
  pub shown : Raw → String
  pub quote : String → String
  pub text : Codec Raw String
  pub parts : Codec Raw ContentPart → Codec Raw (List ContentPart)
  pub flat_text : Codec Raw FlatText
  pub flat_think : Codec Raw FlatThink
  pub part_alias : Codec Raw ContentPart
  pub part_aux : Codec Raw (AuxPart Raw)
  pub text_part : Codec Raw TextPart
  pub think_part : Codec Raw ThinkPart
  pub turn_begin : Codec Raw UserInput → Codec Raw TurnBeginEvent
  pub step_begin : Codec Raw StepBeginEvent
  pub step_retry : Codec Raw StepRetryEvent
  pub status_update : Codec Raw StatusUpdateEvent
  pub tool_call : Codec Raw (ToolCallPayload Raw)
  pub tool_call_part : Codec Raw ToolCallPartEvent
  pub tool_result : Codec Raw ToolOutput → Codec Raw (ToolResultEvent Raw)
  pub approval_response : Codec Raw ApprovalResponseEvent
  pub subagent_event : Codec Raw (SubagentEvent Raw)
  pub steer_input : Codec Raw UserInput → Codec Raw SteerInputEvent
  pub btw_begin : Codec Raw BtwBeginEvent
  pub btw_end : Codec Raw BtwEndEvent
  pub plan_display : Codec Raw PlanDisplayEvent
  pub hook_triggered : Codec Raw HookTriggeredEvent
  pub hook_resolved : Codec Raw HookResolvedEvent
  pub approval_request : Codec Raw (ApprovalRequest Raw)
  pub tool_call_request : Codec Raw ToolCallRequest
  pub question_request : Codec Raw QuestionRequest
  pub hook_request : Codec Raw (HookRequest Raw)
