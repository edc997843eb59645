-- ===== src/Server/Hooks.antt =====
-- isHookSupported and the hook part of handleInitialize in server/server.go, and the choice of a
-- subscription in TriggerHook of server/request.go.
pub mod Choice
use kimi_wire_go.Prelude.{
  ℕ, ◌+◌, ◌*◌, ◌%◌, ◌^◌, String, Bool, true, false, ◌||◌, Option, none, some, List, [], ◌∷◌, ◌==◌,
  if◌then◌else◌,
}
use kimi_wire_go.Protocol.Method.{WireHookSubscription}
use kimi_wire_go.Prelude.Maps.{lookup, insert}
use kimi_wire_go.Server.{HookSubscription, Env}

unfoldable pub contains : List String → String → Bool
contains [] event = false
contains (e ∷ es) event = e == event || contains es event

-- time.Duration(sub.Timeout) * time.Second
abbrev pub second : ℕ
second = 1_000_000_000

-- configured[event]++ on a uint32; a missing key counts as 0.
unfoldable pub count_up : String → List (String × ℕ) → List (String × ℕ)
count_up event configured = elim (lookup event configured) [
  | none ↦ insert event 1 configured
  | some n ↦ insert event ((n + 1) % 2 ^ 32) configured
]

-- The maps hooks and hooksConfigured.
pub record Registered : Type 0 where
  pub hooks : List (String × HookSubscription)
  pub configured : List (String × ℕ)

module _ {Raw : Type 0} (env : Env Raw) where
  unfoldable pub is_hook_supported : String → Bool
  unfolding contains
  is_hook_supported event = contains env.config.supported_hooks event

  -- The matcher of a subscription: `some none` is the nil pattern of an empty text, `none` a pattern
  -- that does not compile.
  unfoldable pub matcher_of : String → Option (Option (String → Bool))
  matcher_of pattern_ =
      if pattern_ == ""
      then some none
      else elim (env.compile pattern_) [ none ↦ none | some m ↦ some (some m) ]

  unfoldable add_hook : WireHookSubscription → Option (String → Bool) → Registered → Registered
  add_hook sub m r = record {
    hooks =
        insert sub.id
          (record { id = sub.id; event = sub.event; matcher = m; timeout = sub.timeout * second })
          r.hooks;
    configured = count_up sub.event r.configured;
  }

  -- One round of the loop over p.Hooks.
  unfoldable pub register_hook : WireHookSubscription → Registered → Registered
  unfolding add_hook is_hook_supported matcher_of
  register_hook sub r =
      if is_hook_supported sub.event
      then elim (matcher_of sub.matcher) [ none ↦ r | some m ↦ add_hook sub m r ]
      else r

  unfoldable pub register_hooks : List WireHookSubscription → Registered → Registered
  unfolding register_hook
  register_hooks [] r = r
  register_hooks (sub ∷ subs) r = register_hooks subs (register_hook sub r)

-- h.matcher == nil || h.matcher.MatchString(target)
abbrev pub matches : HookSubscription → String → Bool
matches h target = elim h.matcher [ none ↦ true | some m ↦ m target ]

-- The loop of TriggerHook over the map of hooks, in the order in which the map yields them.
unfoldable pub find_hook :
    String → String → List (String × HookSubscription) → Option HookSubscription
find_hook event target [] = none
find_hook event target ((k, h) ∷ hs) =
    let rest = find_hook event target hs in
    if h.event == event then (if matches h target then some h else rest) else rest
