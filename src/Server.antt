-- ===== src/Server.antt =====
-- The state of the server: server/server.go, server/turn.go, server/errors.go. The goroutines that
-- share it (the read loop, the serve loop, one for each turn or replay) are interleaved: what each
-- does between two points where another may act is one function of the modules below.
pub mod Write
pub mod Hooks
pub mod Initialize
pub mod Pending
pub mod Turn
pub mod Control
pub mod Serve
pub mod Calling
pub mod Options
pub mod Replies
pub mod Exclusion
pub mod Kept
pub mod Refusals
pub mod Settled
use kimi_wire_go.Prelude.{ℕ, String, Bool, true, false, Option, none, List, [], Result}
use kimi_wire_go.Prelude.Int.{ℤ, negsuc}
use kimi_wire_go.Protocol.Content.{UserInput}
use kimi_wire_go.Protocol.Event.{Event}
use kimi_wire_go.Protocol.Request.{Request}
use kimi_wire_go.Protocol.Jsonrpc.{RawWireMessage}
use kimi_wire_go.Protocol.Method.{
  ClientCapabilities, ServerCapabilities, ServerInfo, SlashCommandInfo, ExternalTool,
  InitializeParams, InitializeResult, PromptParams, PromptResult, SteerParams, SteerResult,
  ReplayResult, SetPlanModeParams, SetPlanModeResult,
}

-- An `error` as the server looks at it: its text, the code of a CodedError in its chain, and
-- whether `errors.Is(err, context.Canceled)`.
pub record GoError : Type 0 where
  pub message : String
  pub code : Option ℤ
  pub is_canceled : Bool

abbrev pub code_turn_in_progress : ℤ
code_turn_in_progress = negsuc 31999

abbrev pub code_no_turn_in_progress : ℤ
code_no_turn_in_progress = negsuc 32000

abbrev pub code_question_not_supported : ℤ
code_question_not_supported = negsuc 31999

abbrev pub code_plan_mode_not_supported : ℤ
code_plan_mode_not_supported = negsuc 31999

abbrev pub code_parse_error : ℤ
code_parse_error = negsuc 32699

abbrev pub code_invalid_request : ℤ
code_invalid_request = negsuc 32599

abbrev pub code_method_not_found : ℤ
code_method_not_found = negsuc 32600

abbrev pub code_invalid_params : ℤ
code_invalid_params = negsuc 32601

abbrev pub code_internal_error : ℤ
code_internal_error = negsuc 32602

-- What sendResponse is given as its result.
pub data Answer : Type 0 where
  initialized : InitializeResult → Answer
  prompted : PromptResult → Answer
  steered : SteerResult → Answer
  cancelled : Answer
  replayed : ReplayResult → Answer
  plan_mode_set : SetPlanModeResult → Answer

-- Whether an event is the server's own or one that the agent emits. The wire does not show it.
pub data Origin : Type 0 where
  server agent : Origin

-- A message that is handed to the transport.
pub data Outgoing (Raw : Type 0) : Type 0 where
  response : String → Answer → Outgoing Raw
  error_response : String → ℤ → String → Outgoing Raw
  parse_failure : String → Outgoing Raw
  notification : Origin → Event Raw → Outgoing Raw
  request : String → Request Raw → Outgoing Raw

-- What the agent's Prompt or Replay returned: both values of Go's pair.
pub record Returned (A : Type 0) : Type 0 where
  pub result : A
  pub error : Option GoError

-- Where the goroutine of a turn or of a replay stands.
pub data Phase : Type 0 where
  turn_running : Phase
  turn_ending turn_closing turn_clearing turn_replying : Returned PromptResult → Phase
  turn_answering : Returned PromptResult → Bool → Phase
  replay_running : Phase
  replay_replying : Returned ReplayResult → Phase
  replay_panicked replay_clearing replay_closing : Phase
  finished : Phase

-- A turn, or the operation of a replay, with the request that it answers. `steer` is the content of
-- steerCh, which holds one value.
pub record Operation : Type 0 where
  pub id : String
  pub phase : Phase
  pub cancelled : Bool
  pub ctx_done : Bool
  pub done : Bool
  pub steer : Option UserInput

-- The method Steer of the agent: its error, which may depend on all that was written before.
abbrev pub Steerer : Type 0 → Type 0
Steerer Raw = List (Outgoing Raw) → UserInput → Option GoError

-- Where the serve loop stands: ready for a message, or inside a handler that waits.
pub data Loop (Raw : Type 0) : Type 0 where
  ready stopped : Loop Raw
  marking : String → ℕ → Option ℕ → Loop Raw
  awaiting_done : String → ℕ → Loop Raw
  steering : String → ℕ → UserInput → Steerer Raw → Loop Raw
  awaiting_end : ℕ → Loop Raw

-- `timeout` is in nanoseconds.
pub record HookSubscription : Type 0 where
  pub id : String
  pub event : String
  pub matcher : Option (String → Bool)
  pub timeout : ℕ

-- A call of sendRequestAndWait: the buffer of its channel, and what it returned.
pub record Waiter (Raw : Type 0) : Type 0 where
  pub id : String
  pub buffer : Option (RawWireMessage Raw)
  pub returned : Option (Result GoError (Option Raw))

-- requestCounter, pending and the pendingCopy of closePending. A channel is an index into `waiters`.
pub record Calls (Raw : Type 0) : Type 0 where
  pub request_counter : ℕ
  pub pending : List (String × ℕ)
  pub pending_copy : List (String × ℕ)
  pub waiters : List (Waiter Raw)

-- Where Serve stands once its read loop has ended: about to cancel the context, at the test of the
-- read error, inside closePending with the redacted text, about to call clearActiveTurn, past it.
pub data Ending : Type 0 where
  cancelling failing : Ending
  sending : String → Ending
  clearing past_end : Ending

-- A turn or operation pointer is an index into `ops`. `read_err` is the error that the read loop left,
-- unless it is EOF or a cancelled context.
pub record Server (Raw : Type 0) : Type 0 where
  pub handshake_done : Bool
  pub negotiated : String
  pub client_caps : ClientCapabilities
  pub server_caps : ServerCapabilities
  pub hooks : List (String × HookSubscription)
  pub active_turn : Option ℕ
  pub active_op : Option ℕ
  pub ops : List Operation
  pub calls : Calls Raw
  pub loop : Loop Raw
  pub queue : List (RawWireMessage Raw)
  pub reading : Bool
  pub read_err : Option GoError
  pub ending : Ending
  pub serve_done : Bool
  pub written : List (Outgoing Raw)

-- The fields that the options set.
pub record Config (Raw : Type 0) : Type 0 where
  pub info : ServerInfo
  pub slash_cmds : List SlashCommandInfo
  pub tool_validator : ExternalTool Raw → Option String
  pub supported_hooks : List String
  pub default_timeout : ℤ

-- What the server calls and src/ does not implement: encoding/json, regexp, the transport, and the
-- agent's synchronous capabilities. `write_line` may depend on whether the context is done and on all
-- that was written before.
pub record Env (Raw : Type 0) : Type 0 where
  pub config : Config Raw
  pub marshal : Outgoing Raw → Option GoError
  pub write_line : Bool → List (Outgoing Raw) → Outgoing Raw → Option GoError
  pub redact : String → String
  pub unmarshal_initialize : Option Raw → Result String (InitializeParams Raw)
  pub unmarshal_prompt : Option Raw → Result String PromptParams
  pub unmarshal_steer : Option Raw → Result String SteerParams
  pub unmarshal_set_plan_mode : Option Raw → Result String SetPlanModeParams
  pub compile : String → Option (String → Bool)
  pub steerer : Option (Steerer Raw)
  pub replayer : Bool
  pub switcher : Option (Bool → List (Event Raw) × Result GoError SetPlanModeResult)

-- The state that New builds; Serve starts the loops on it.
unfoldable pub new : {Raw : Type 0} → Server Raw
new = record {
  handshake_done = false;
  negotiated = "legacy/no-handshake";
  client_caps = record { supports_question = none; supports_plan_mode = none };
  server_caps = record { supports_question = none };
  hooks = [];
  active_turn = none;
  active_op = none;
  ops = [];
  calls = record { request_counter = 0; pending = []; pending_copy = []; waiters = [] };
  loop = ready;
  queue = [];
  reading = true;
  read_err = none;
  ending = cancelling;
  serve_done = false;
  written = [];
}
