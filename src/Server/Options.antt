-- ===== src/Server/Options.antt =====
-- server/options.go, and the options in New of server/server.go.
use kimi_wire_go.Prelude.{
  String, ◌≡◌, refl, ap, ◌∙◌, Option, none, some, List, [], ◌∷◌, option_cases,
}
use kimi_wire_go.Protocol.Method.{ExternalTool, SlashCommandInfo, ServerInfo}
use kimi_wire_go.Prelude.Int.{ℤ, pos}
use kimi_wire_go.Server.{Config}

-- An Option, as the With function that makes it.
pub data ServerOption (Raw : Type 0) : Type 0 where
  with_server_info : String → String → ServerOption Raw
  with_slash_commands : List SlashCommandInfo → ServerOption Raw
  with_tool_validator : (ExternalTool Raw → Option String) → ServerOption Raw
  with_supported_hooks : List String → ServerOption Raw
  with_default_timeout : ℤ → ServerOption Raw
  with_logger : ServerOption Raw

-- The fields before the options of New.
abbrev pub default_config : {Raw : Type 0} → Config Raw
default_config = record {
  info = record { name = "kimi-wire-server"; version = "0.3.0" };
  slash_cmds = [];
  tool_validator = λ tool. none;
  supported_hooks = [];
  default_timeout = pos 0;
}

abbrev pub or_default {ℓ} : {A : Type ℓ} → A → Option A → A
or_default d none = d
or_default d (some a) = a

module _ {Raw : Type 0} where
  -- The function that an Option is. The logger is no part of the state.
  unfoldable pub apply_option : ServerOption Raw → Config Raw → Config Raw
  apply_option (with_server_info n v) c = record c { info = record { name = n; version = v } }
  apply_option (with_slash_commands cmds) c = record c { slash_cmds = cmds }
  apply_option (with_tool_validator f) c = record c { tool_validator = f }
  apply_option (with_supported_hooks events) c = record c { supported_hooks = events }
  apply_option (with_default_timeout d) c = record c { default_timeout = d }
  apply_option with_logger c = c

  unfoldable pub apply_options : List (ServerOption Raw) → Config Raw → Config Raw
  unfolding apply_option
  apply_options [] c = c
  apply_options (o ∷ os) c = apply_options os (apply_option o c)

  -- New
  unfoldable pub configure : List (ServerOption Raw) → Config Raw
  unfolding apply_options
  configure opts = apply_options opts default_config

  -- What an option says of each field.
  abbrev pub info_of : ServerOption Raw → Option ServerInfo
  info_of (with_server_info n v) = some (record { name = n; version = v })
  info_of _ = none

  abbrev pub slash_cmds_of : ServerOption Raw → Option (List SlashCommandInfo)
  slash_cmds_of (with_slash_commands cmds) = some cmds
  slash_cmds_of _ = none

  abbrev pub tool_validator_of : ServerOption Raw → Option (ExternalTool Raw → Option String)
  tool_validator_of (with_tool_validator f) = some f
  tool_validator_of _ = none

  abbrev pub supported_hooks_of : ServerOption Raw → Option (List String)
  supported_hooks_of (with_supported_hooks events) = some events
  supported_hooks_of _ = none

  abbrev pub default_timeout_of : ServerOption Raw → Option ℤ
  default_timeout_of (with_default_timeout d) = some d
  default_timeout_of _ = none

  -- The last option that says something.
  unfoldable pub last_said {ℓ} :
      {A : Type ℓ} → (ServerOption Raw → Option A) → List (ServerOption Raw) → Option A
  last_said f [] = none
  last_said f (o ∷ os) = elim (last_said f os) [ none ↦ f o | some a ↦ some a ]

  -- A field that each option sets to what it says, or keeps.
  last_wins {ℓ} :
      {A : Type ℓ} (field : Config Raw → A) (f : ServerOption Raw → Option A)
      → ((o : ServerOption Raw) (c : Config Raw)
          → field (apply_option o c) ≡ or_default (field c) (f o))
      → (os : List (ServerOption Raw)) (c : Config Raw)
      → field (apply_options os c) ≡ or_default (field c) (last_said f os)
  unfolding apply_options last_said
  last_wins field f h [] c = refl
  last_wins field f h (o ∷ os) c =
      last_wins field f h os (apply_option o c)
      ∙ option_cases
          (λ (x : Option _).
            or_default (field (apply_option o c)) (last_said f os) ≡ or_default (field c) x)
          (last_said f os) (λ e. ap (or_default (field (apply_option o c))) e ∙ h o c)
          (λ a e. ap (or_default (field (apply_option o c))) e)

  info_set :
      (o : ServerOption Raw) (c : Config Raw)
      → (apply_option o c).info ≡ or_default c.info (info_of o)
  unfolding apply_option
  info_set (with_server_info n v) c = refl
  info_set _ c = refl

  slash_cmds_set :
      (o : ServerOption Raw) (c : Config Raw)
      → (apply_option o c).slash_cmds ≡ or_default c.slash_cmds (slash_cmds_of o)
  unfolding apply_option
  slash_cmds_set (with_slash_commands cmds) c = refl
  slash_cmds_set _ c = refl

  tool_validator_set :
      (o : ServerOption Raw) (c : Config Raw)
      → (apply_option o c).tool_validator ≡ or_default c.tool_validator (tool_validator_of o)
  unfolding apply_option
  tool_validator_set (with_tool_validator f) c = refl
  tool_validator_set _ c = refl

  supported_hooks_set :
      (o : ServerOption Raw) (c : Config Raw)
      → (apply_option o c).supported_hooks ≡ or_default c.supported_hooks (supported_hooks_of o)
  unfolding apply_option
  supported_hooks_set (with_supported_hooks events) c = refl
  supported_hooks_set _ c = refl

  default_timeout_set :
      (o : ServerOption Raw) (c : Config Raw)
      → (apply_option o c).default_timeout ≡ or_default c.default_timeout (default_timeout_of o)
  unfolding apply_option
  default_timeout_set (with_default_timeout d) c = refl
  default_timeout_set _ c = refl

  -- Each field of a new server is what the last of the options that are for it says, and has its default
  -- if there is none: options for different fields do not touch each other, in whatever order
  -- they are given.
  pub configure-last_said :
      (os : List (ServerOption Raw))
      → ((configure os).info
          ≡ or_default
              (record { name = "kimi-wire-server"; version = "0.3.0" })
              (last_said info_of os))
        × ((configure os).slash_cmds ≡ or_default [] (last_said slash_cmds_of os))
        × ((configure os).tool_validator
            ≡ or_default (λ tool. none) (last_said tool_validator_of os))
        × ((configure os).supported_hooks ≡ or_default [] (last_said supported_hooks_of os))
        × ((configure os).default_timeout ≡ or_default (pos 0) (last_said default_timeout_of os))
  unfolding configure
  configure-last_said os = (
    last_wins (λ c. c.info) info_of info_set os default_config,
    last_wins (λ c. c.slash_cmds) slash_cmds_of slash_cmds_set os default_config,
    last_wins (λ c. c.tool_validator) tool_validator_of tool_validator_set os default_config,
    last_wins (λ c. c.supported_hooks) supported_hooks_of supported_hooks_set os default_config,
    last_wins (λ c. c.default_timeout) default_timeout_of default_timeout_set os default_config,
  )
