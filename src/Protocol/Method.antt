-- ===== src/Protocol/Method.antt =====
-- The parameters and results of protocol/protocol_method.go.
use kimi_wire_go.Prelude.{ℕ, String, Bool, Option, List}
use kimi_wire_go.Protocol.Content.{UserInput}

pub record ClientInfo : Type 0 where
  pub name : String
  pub version : String

pub record ClientCapabilities : Type 0 where
  pub supports_question : Option Bool
  pub supports_plan_mode : Option Bool

pub record WireHookSubscription : Type 0 where
  pub id : String
  pub event : String
  pub matcher : String
  pub timeout : ℕ

pub record ExternalTool (Raw : Type 0) : Type 0 where
  pub name : String
  pub description : String
  pub parameters : Raw

pub record InitializeParams (Raw : Type 0) : Type 0 where
  pub protocol_version : String
  pub client : Option ClientInfo
  pub external_tools : List (ExternalTool Raw)
  pub capabilities : Option ClientCapabilities
  pub hooks : List WireHookSubscription

pub record ServerInfo : Type 0 where
  pub name : String
  pub version : String

pub record SlashCommandInfo : Type 0 where
  pub name : String
  pub description : String
  pub aliases : List String

pub record RejectedExternalTool : Type 0 where
  pub name : String
  pub reason : String

pub record ExternalToolsResult : Type 0 where
  pub accepted : List String
  pub rejected : List RejectedExternalTool

pub record ServerCapabilities : Type 0 where
  pub supports_question : Option Bool

pub record HooksInfo : Type 0 where
  pub supported_events : List String
  pub configured : List (String × ℕ)

pub record InitializeResult : Type 0 where
  pub protocol_version : String
  pub server : ServerInfo
  pub slash_commands : List SlashCommandInfo
  pub external_tools : Option ExternalToolsResult
  pub capabilities : Option ServerCapabilities
  pub hooks : Option HooksInfo

pub record PromptParams : Type 0 where
  pub user_input : UserInput

pub record PromptResult : Type 0 where
  pub status : String
  pub steps : Option ℕ

abbrev pub prompt_status_cancelled : String
prompt_status_cancelled = "cancelled"

abbrev pub prompt_status_finished : String
prompt_status_finished = "finished"

pub record ReplayResult : Type 0 where
  pub status : String
  pub events : ℕ
  pub requests : ℕ

abbrev pub replay_status_cancelled : String
replay_status_cancelled = "cancelled"

pub record SteerParams : Type 0 where
  pub user_input : UserInput

pub record SteerResult : Type 0 where
  pub status : String

abbrev pub steer_status_steered : String
steer_status_steered = "steered"

pub record SetPlanModeParams : Type 0 where
  pub enabled : Bool

pub record SetPlanModeResult : Type 0 where
  pub status : String
  pub plan_mode : Bool
