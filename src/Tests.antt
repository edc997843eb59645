-- ===== src/Tests.antt =====
-- Runs of the code on concrete inputs, and the theorems at such inputs: an agent, a transport and
-- codecs that are simple functions.
pub mod Server
pub mod Calls
pub mod Client
pub mod Calling
pub mod Channel
pub mod Process
pub mod Redact
pub mod Transport
pub mod Hooks
pub mod Protocol
pub mod Version
use kimi_wire_go.Prelude.{String, true, Option, none, some, [], Result, ok, err}
use kimi_wire_go.Protocol.Event.{StepBeginEvent}
use kimi_wire_go.Protocol.Content.{UserInput}
use kimi_wire_go.Protocol.Request.{ToolCallRequest}
use kimi_wire_go.Protocol.Codec.{Codec}
use kimi_wire_go.Server.{Config, Env}
use kimi_wire_go.Prelude.Int.{pos}
use kimi_wire_go.Protocol.Method.{InitializeParams}
use kimi_wire_go.Protocol.Jsonrpc.{RawWireMessage}

-- A small stand-in for JSON texts.
pub data Json : Type 0 where
  blank : Json
  tagged : String → Json → Json
  step_begin_json : StepBeginEvent → Json
  tool_call_json : ToolCallRequest → Json

abbrev pub hello : UserInput
hello = record { text = "hello"; parts = [] }

abbrev pub bare_initialize : InitializeParams Json
bare_initialize = record {
  protocol_version = "1.5";
  client = none;
  external_tools = [];
  capabilities = none;
  hooks = [];
}

-- The params of initialize must be present; those of the other methods are ignored.
abbrev pub decode_initialize : Option Json → Result String (InitializeParams Json)
decode_initialize none = err "no params"
decode_initialize (some raw) = ok bare_initialize

abbrev pub test_config : Config Json
test_config = record {
  info = record { name = "agent"; version = "1.0" };
  slash_cmds = [];
  tool_validator = λ tool. none;
  supported_hooks = [];
  default_timeout = pos 0;
}

abbrev pub test_env : Env Json
test_env = record {
  config = test_config;
  marshal = λ o. none;
  write_line = λ over written o. none;
  redact = λ text. text;
  unmarshal_initialize = decode_initialize;
  unmarshal_prompt = λ params. ok (record { user_input = hello });
  unmarshal_steer = λ params. ok (record { user_input = hello });
  unmarshal_set_plan_mode = λ params. err "no params";
  compile = λ pattern_. none;
  steerer = some (λ written input. none);
  replayer = true;
  switcher = none;
}

abbrev pub request_with : String → String → RawWireMessage Json
request_with method id = record {
  jsonrpc = "2.0";
  id = id;
  method = method;
  params = some blank;
  result = none;
  error = none;
}

abbrev pub response_with : String → RawWireMessage Json
response_with id = record {
  jsonrpc = "2.0";
  id = id;
  method = "";
  params = none;
  result = some blank;
  error = none;
}

abbrev pub list_files : ToolCallRequest
list_files = record { id = "t1"; name = "ls"; arguments = none }

-- A codec that fails.
abbrev pub no_codec : {A : Type 0} → Codec Json A
no_codec = record { marshal = λ a. err "not printed"; unmarshal = λ raw. err "not read" }
