-- ===== src/Protocol/Event.antt =====
-- The event types of protocol/protocol_event.go. A `float64` is only stored, so it stands as its
-- bit pattern, a number; `uint32` and `uint64` are numbers.
use kimi_wire_go.Prelude.{ℕ, String, Bool, Option, none, some}
use kimi_wire_go.Protocol.Content.{ContentPart, UserInput, ToolReturnValue}

pub record TurnBeginEvent : Type 0 where
  pub user_input : UserInput

pub record StepBeginEvent : Type 0 where
  pub n : ℕ

pub record StepRetryEvent : Type 0 where
  pub n : ℕ
  pub next_attempt : ℕ
  pub max_attempts : ℕ
  pub wait_s : ℕ
  pub error_type : String
  pub status_code : Option ℕ

pub record TokenUsage : Type 0 where
  pub input_other : ℕ
  pub output : ℕ
  pub input_cache_read : ℕ
  pub input_cache_creation : ℕ

pub record StatusUpdateEvent : Type 0 where
  pub context_usage : Option ℕ
  pub context_tokens : Option ℕ
  pub max_context_tokens : Option ℕ
  pub token_usage : Option TokenUsage
  pub message_id : String
  pub plan_mode : Option Bool

pub record ContentPartEvent : Type 0 where
  pub part : ContentPart

pub record ToolCallFunction : Type 0 where
  pub name : String
  pub arguments : Option String

pub record ToolCallEvent (Raw : Type 0) : Type 0 where
  pub id : String
  pub function : ToolCallFunction
  pub extras : Option Raw

pub record ToolCallPartEvent : Type 0 where
  pub arguments_part : Option String

pub record ToolResultEvent (Raw : Type 0) : Type 0 where
  pub tool_call_id : String
  pub return_value : ToolReturnValue Raw

pub record ApprovalResponseEvent : Type 0 where
  pub request_id : String
  pub response : String
  pub feedback : String

pub record SubagentEventPayload (Raw : Type 0) : Type 0 where
  pub type_name : String
  pub payload : Raw

pub record SubagentEvent (Raw : Type 0) : Type 0 where
  pub parent_tool_call_id : Option String
  pub agent_id : Option String
  pub subagent_type : Option String
  pub event : SubagentEventPayload Raw

pub record SteerInputEvent : Type 0 where
  pub user_input : UserInput

pub record BtwBeginEvent : Type 0 where
  pub id : String
  pub question : String

pub record BtwEndEvent : Type 0 where
  pub id : String
  pub response : Option String
  pub error : Option String

pub record PlanDisplayEvent : Type 0 where
  pub content : String
  pub file_path : String

pub record HookTriggeredEvent : Type 0 where
  pub event : String
  pub target : String
  pub hook_count : ℕ

pub record HookResolvedEvent : Type 0 where
  pub event : String
  pub target : String
  pub action : String
  pub reason : String
  pub duration_ms : ℕ

-- The types that implement the interface Event.
pub data Event (Raw : Type 0) : Type 0 where
  turn_begin : TurnBeginEvent → Event Raw
  turn_end : Event Raw
  step_begin : StepBeginEvent → Event Raw
  step_interrupted : Event Raw
  step_retry : StepRetryEvent → Event Raw
  compaction_begin : Event Raw
  compaction_end : Event Raw
  status_update : StatusUpdateEvent → Event Raw
  content_part : ContentPartEvent → Event Raw
  tool_call : ToolCallEvent Raw → Event Raw
  tool_call_part : ToolCallPartEvent → Event Raw
  tool_result : ToolResultEvent Raw → Event Raw
  approval_response : ApprovalResponseEvent → Event Raw
  subagent_event : SubagentEvent Raw → Event Raw
  steer_input : SteerInputEvent → Event Raw
  btw_begin : BtwBeginEvent → Event Raw
  btw_end : BtwEndEvent → Event Raw
  plan_display : PlanDisplayEvent → Event Raw
  hook_triggered : HookTriggeredEvent → Event Raw
  hook_resolved : HookResolvedEvent → Event Raw

module _ {Raw : Type 0} where
  -- The method eventType.
  unfoldable pub event_type : Event Raw → String
  event_type (turn_begin _) = "TurnBegin"
  event_type turn_end = "TurnEnd"
  event_type (step_begin _) = "StepBegin"
  event_type step_interrupted = "StepInterrupted"
  event_type (step_retry _) = "StepRetry"
  event_type compaction_begin = "CompactionBegin"
  event_type compaction_end = "CompactionEnd"
  event_type (status_update _) = "StatusUpdate"
  event_type (content_part _) = "ContentPart"
  event_type (tool_call _) = "ToolCall"
  event_type (tool_call_part _) = "ToolCallPart"
  event_type (tool_result _) = "ToolResult"
  event_type (approval_response _) = "ApprovalResponse"
  event_type (subagent_event _) = "SubagentEvent"
  event_type (steer_input _) = "SteerInput"
  event_type (btw_begin _) = "BtwBegin"
  event_type (btw_end _) = "BtwEnd"
  event_type (plan_display _) = "PlanDisplay"
  event_type (hook_triggered _) = "HookTriggered"
  event_type (hook_resolved _) = "HookResolved"

  -- A nil interface value is `none`.
  unfoldable pub type_name : Option (Event Raw) → String
  unfolding event_type
  type_name none = ""
  type_name (some e) = event_type e
