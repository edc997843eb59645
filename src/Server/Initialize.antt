-- ===== src/Server/Initialize.antt =====
-- handleInitialize of server/server.go.
use kimi_wire_go.Prelude.{
  String, Bool, true, false, ◌&&◌, Option, none, some, List, [], ◌∷◌, if◌then◌else◌, ok, err,
}
use kimi_wire_go.Protocol.Method.{
  ClientCapabilities, ServerCapabilities, ExternalTool, ExternalToolsResult, InitializeParams,
  InitializeResult,
}
use kimi_wire_go.Version.{negotiate_version}
use kimi_wire_go.Server.{Server, Env, Answer, code_invalid_request, code_invalid_params}
use kimi_wire_go.Server.Hooks.{Registered, register_hooks}
use kimi_wire_go.Server.Write.{send_response, send_error}

-- `p != nil && *p`
abbrev pub is_set : Option Bool → Bool
is_set none = false
is_set (some b) = b

abbrev is_empty {ℓ} : {A : Type ℓ} → List A → Bool
is_empty [] = true
is_empty (x ∷ xs) = false

module _ {Raw : Type 0} (env : Env Raw) where
  -- The loop over p.ExternalTools.
  unfoldable pub check_tools : List (ExternalTool Raw) → ExternalToolsResult
  check_tools [] = record { accepted = []; rejected = [] }
  check_tools (tool ∷ tools) =
      let rest = check_tools tools in
      elim (env.config.tool_validator tool) [
        | none ↦ record rest { accepted = tool.name ∷ rest.accepted }
        | some e ↦ record rest {
          rejected = record { name = tool.name; reason = env.redact e } ∷ rest.rejected;
        }
      ]

  unfoldable pub client_caps_of : Option ClientCapabilities → ClientCapabilities
  client_caps_of none = record { supports_question = none; supports_plan_mode = none }
  client_caps_of (some c) = c

  unfoldable pub server_caps_of : Option ClientCapabilities → ServerCapabilities
  server_caps_of none = record { supports_question = none }
  server_caps_of (some c) = record {
    supports_question = if is_set c.supports_question then some true else none;
  }

  unfoldable pub initialize_result : InitializeParams Raw → Registered → InitializeResult
  unfolding check_tools server_caps_of
  initialize_result p registered = record {
    protocol_version = negotiate_version p.protocol_version;
    server = env.config.info;
    slash_commands = env.config.slash_cmds;
    external_tools =
        if is_empty p.external_tools then none else some (check_tools p.external_tools);
    capabilities = some (server_caps_of p.capabilities);
    hooks =
        if is_empty env.config.supported_hooks && is_empty registered.configured
        then none
        else some (record {
          supported_events = env.config.supported_hooks;
          configured = registered.configured;
        });
  }

  unfoldable pub accept_initialize : String → InitializeParams Raw → Server Raw → Server Raw
  unfolding initialize_result client_caps_of server_caps_of register_hooks send_response
  accept_initialize id p s =
      let registered = register_hooks env p.hooks (record { hooks = []; configured = [] }) in
      let t = record s {
        handshake_done = true;
        negotiated = negotiate_version p.protocol_version;
        client_caps = client_caps_of p.capabilities;
        server_caps = server_caps_of p.capabilities;
        hooks = registered.hooks;
      } in
      send_response env id (Answer.initialized (initialize_result p registered)) t

  unfoldable pub handle_initialize : String → Option Raw → Server Raw → Server Raw
  unfolding send_error
  handle_initialize id params s =
      if s.handshake_done
      then send_error env id code_invalid_request "initialize already called" s
      else elim (env.unmarshal_initialize params) [
        | err e ↦ send_error env id code_invalid_params e s
        | ok p ↦ accept_initialize id p s
      ]
