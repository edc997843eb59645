-- ===== src/Protocol/Request.antt =====
-- The request and response types of protocol/protocol_request.go.
use kimi_wire_go.Prelude.{String, Bool, Option, none, some, List}
use kimi_wire_go.Protocol.Content.{DisplayBlock, ToolReturnValue}

pub record ApprovalRequest (Raw : Type 0) : Type 0 where
  pub id : String
  pub tool_call_id : String
  pub sender : String
  pub action : String
  pub description : String
  pub display : List (DisplayBlock Raw)
  pub source_kind : Option String
  pub source_id : String
  pub agent_id : String
  pub subagent_type : String
  pub source_description : String

pub record ToolCallRequest : Type 0 where
  pub id : String
  pub name : String
  pub arguments : Option String

pub record QuestionOption : Type 0 where
  pub label : String
  pub description : String

pub record QuestionItem : Type 0 where
  pub question : String
  pub header : String
  pub options : List QuestionOption
  pub multi_select : Option Bool

pub record QuestionRequest : Type 0 where
  pub id : String
  pub tool_call_id : String
  pub questions : List QuestionItem

pub record HookRequest (Raw : Type 0) : Type 0 where
  pub id : String
  pub subscription_id : String
  pub event : String
  pub target : String
  pub input_data : Raw

pub record ApprovalResponse : Type 0 where
  pub request_id : String
  pub response : String
  pub feedback : String

pub record ToolCallResponse (Raw : Type 0) : Type 0 where
  pub tool_call_id : String
  pub return_value : ToolReturnValue Raw

pub record QuestionResponse : Type 0 where
  pub request_id : String
  pub answers : List (String × String)

pub record HookResponse : Type 0 where
  pub request_id : String
  pub action : String
  pub reason : String

-- The types that implement the interface Request.
pub data Request (Raw : Type 0) : Type 0 where
  approval_request : ApprovalRequest Raw → Request Raw
  tool_call_request : ToolCallRequest → Request Raw
  question_request : QuestionRequest → Request Raw
  hook_request : HookRequest Raw → Request Raw

module _ {Raw : Type 0} where
  -- The method requestType.
  unfoldable pub request_type : Request Raw → String
  request_type (approval_request _) = "ApprovalRequest"
  request_type (tool_call_request _) = "ToolCallRequest"
  request_type (question_request _) = "QuestionRequest"
  request_type (hook_request _) = "HookRequest"

  -- A nil interface value is `none`.
  unfoldable pub kind : Option (Request Raw) → String
  unfolding request_type
  kind none = ""
  kind (some r) = request_type r
