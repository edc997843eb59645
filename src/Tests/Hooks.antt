-- ===== src/Tests/Hooks.antt =====
-- Hooks that a client asks for.
use kimi_wire_go.Prelude.{◌*◌, ◌≡◌, refl, none, some, List, [], ◌∷◌, arith, ◌==◌}
use kimi_wire_go.Server.Hooks.{Registered, find_hook, second, register_hooks, count_up}
use kimi_wire_go.Server.Hooks.Choice.{register_hooks-AllSound, Choice, find_hook-Choice, AllSound}
use kimi_wire_go.Prelude.Maps.{lookup, insert}
use kimi_wire_go.Tests.{Json, test_config, test_env}
use kimi_wire_go.Server.{HookSubscription, Env}
use kimi_wire_go.Protocol.Method.{WireHookSubscription}
use kimi_wire_go.Server.Options.{
  last_said, with_server_info, ServerOption, with_supported_hooks, configure-last_said, configure,
}
use kimi_wire_go.Prelude.Int.{pos}

-- A server that supports one event, and patterns that match one text.
abbrev hook_env : Env Json
hook_env = record test_env {
  config = record test_config { supported_hooks = "PreToolUse" ∷ [] };
  compile = λ pattern_. some (λ target. target == pattern_);
}

abbrev wanted : List WireHookSubscription
wanted =
    record { id = "h1"; event = "PreToolUse"; matcher = "ls"; timeout = 30 }
    ∷ record { id = "h2"; event = "Stop"; matcher = ""; timeout = 30 }
    ∷ record { id = "h3"; event = "PreToolUse"; matcher = ""; timeout = 5 }
    ∷ []

abbrev no_hooks : Registered
no_hooks = record { hooks = []; configured = [] }

two_are_counted : (register_hooks hook_env wanted no_hooks).configured ≡ ("PreToolUse", 2) ∷ []
unfolding register_hooks count_up lookup insert
two_are_counted = refl

register_hooks-AllSound_example : AllSound hook_env (register_hooks hook_env wanted no_hooks).hooks
unfolding lookup
register_hooks-AllSound_example =
    register_hooks-AllSound hook_env wanted no_hooks (omega arith, (omega arith, (omega arith, tt)))
      (λ id h e. absurd (cc e))

abbrev for_all_tools : HookSubscription
for_all_tools = record { id = "h3"; event = "PreToolUse"; matcher = none; timeout = 5 * second }

find_hook-Choice_example :
    Choice "PreToolUse" "rm"
      (("h3", for_all_tools) ∷ [])
      (find_hook "PreToolUse" "rm" (("h3", for_all_tools) ∷ []))
find_hook-Choice_example = find_hook-Choice "PreToolUse" "rm" (("h3", for_all_tools) ∷ [])

-- Two options for one field, and one for another.
abbrev test_options : List (ServerOption Json)
test_options =
    with_server_info "a" "1"
    ∷ with_supported_hooks ("PreToolUse" ∷ [])
    ∷ with_server_info "b" "2"
    ∷ []

configure-last_said_example :
    ((configure test_options).info ≡ record { name = "b"; version = "2" })
    × ((configure test_options).slash_cmds ≡ [])
    × ((configure test_options).tool_validator ≡ (λ tool. none))
    × ((configure test_options).supported_hooks ≡ "PreToolUse" ∷ [])
    × ((configure test_options).default_timeout ≡ pos 0)
unfolding last_said
configure-last_said_example = configure-last_said test_options
