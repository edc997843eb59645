-- ===== src/Server/Hooks/Choice.antt =====
-- Which hooks initialize registers, and which one TriggerHook chooses.
use kimi_wire_go.Prelude.{
  ℕ, ◌^◌, ◌<◌, String, ◌≡◌, Bool, true, Option, none, some, List, [], ◌∷◌, get_elem?, zero, suc,
  ◌*◌, refl, sym, subst, arith, ◌==◌, eq_iff, if_cases, option_cases,
}
use kimi_wire_go.Server.Hooks.{
  find_hook, is_hook_supported, add_hook, matches, Registered, register_hooks, matcher_of,
  register_hook, second,
}
use kimi_wire_go.Prelude.Maps.{lookup, lookup-insert}
use kimi_wire_go.Server.{HookSubscription, Env}
use kimi_wire_go.Protocol.Method.{WireHookSubscription}

-- The hook is for the event, and its matcher lets the target pass.
abbrev pub Suits : String → String → HookSubscription → Type 0
Suits event target h = (h.event ≡ event) × (matches h target ≡ true)

abbrev pub Hooks : Type 0
Hooks = List (String × HookSubscription)

-- `h` is in the map and suits.
abbrev pub IsChoice : String → String → Hooks → HookSubscription → Type 0
IsChoice event target hs h =
    Suits event target h × ((i : ℕ) × ((k : String) × (get_elem? hs i ≡ some (k, h))))

abbrev pub NoneSuits : String → String → Hooks → Type 0
NoneSuits event target hs =
    (i : ℕ) (k : String) (h : HookSubscription)
    → get_elem? hs i ≡ some (k, h)
    → ¬ Suits event target h

IsChoice-cons :
    (event target : String) (e : String × HookSubscription) (hs : Hooks) (h : HookSubscription)
    → IsChoice event target hs h
    → IsChoice event target (e ∷ hs) h
IsChoice-cons event target e hs h (u, (i, (k, g))) = (u, (suc i, (k, g)))

NoneSuits-cons :
    (event target j : String) (c : HookSubscription) (hs : Hooks)
    → ¬ Suits event target c
    → NoneSuits event target hs
    → NoneSuits event target ((j, c) ∷ hs)
NoneSuits-cons event target j c hs n rest zero k h g u =
    let one : c ≡ h = ground arith in n (subst (Suits event target) (sym one) u)
NoneSuits-cons event target j c hs n rest (suc i) k h g u = rest i k h g u

-- What TriggerHook may choose from the map.
pub data Choice (event target : String) (hs : Hooks) : Option HookSubscription → Type 0 where
  chosen_hook :
      (h : HookSubscription) → IsChoice event target hs h → Choice event target hs (some h)
  no_hook : NoneSuits event target hs → Choice event target hs none

Choice-cons :
    (event target j : String) (c : HookSubscription) (hs : Hooks) (o : Option HookSubscription)
    → ¬ Suits event target c
    → Choice event target hs o
    → Choice event target ((j, c) ∷ hs) o
Choice-cons event target j c hs o n (chosen_hook h x) =
    chosen_hook h (IsChoice-cons event target (j, c) hs h x)
Choice-cons event target j c hs o n (no_hook x) = no_hook (NoneSuits-cons event target j c hs n x)

-- The hook that TriggerHook chooses, in whatever order it goes through the map, is one of the map
-- that is for the event and lets the target pass; it chooses none only if there is no such hook.
pub find_hook-Choice :
    (event target : String) (hs : Hooks) → Choice event target hs (find_hook event target hs)
unfolding find_hook
find_hook-Choice event target [] = no_hook (λ i k h g u. absurd (cc g))
find_hook-Choice event target ((j, c) ∷ hs) =
    let later = find_hook-Choice event target hs in
    if_cases (Choice event target ((j, c) ∷ hs)) (c.event == event)
      (λ same.
        if_cases (Choice event target ((j, c) ∷ hs)) (matches c target)
          (λ hit_.
            chosen_hook c ((ground (arith, same, eq_iff c.event event), hit_), (0, (j, refl))))
          (λ miss. Choice-cons event target j c hs _ (λ u. cc (u.1, miss)) later))
      (λ other.
        Choice-cons event target j c hs _ (λ u. ground (arith, other, u.0, eq_iff c.event event))
          later)

module _ {Raw : Type 0} (env : Env Raw) where
  -- The event is supported, and the timeout fits a time.Duration.
  abbrev pub IsSound : HookSubscription → Type 0
  IsSound h = (is_hook_supported env h.event ≡ true) × (h.timeout < 2 ^ 63)

  abbrev pub AllSound : Hooks → Type 0
  AllSound hs = (id : String) (h : HookSubscription) → lookup id hs ≡ some h → IsSound h

  abbrev pub ShortTimeouts : List WireHookSubscription → Type 0
  ShortTimeouts [] = Unit {0}
  ShortTimeouts (sub ∷ subs) = (sub.timeout < 2 ^ 32) × ShortTimeouts subs

  AllSound-add_hook :
      (sub : WireHookSubscription) (m : Option (String → Bool)) (r : Registered)
      → sub.timeout < 2 ^ 32
      → is_hook_supported env sub.event ≡ true
      → AllSound r.hooks
      → AllSound (add_hook env sub m r).hooks
  unfolding add_hook
  AllSound-add_hook sub m r small supported h id x e =
      if_cases (λ (o : Option HookSubscription). o ≡ some x → IsSound x) (sub.id == id)
        {x = some added} {y = lookup id r.hooks}
        (λ _ e'.
          let one : added ≡ x = ground (arith, e') in subst IsSound one (supported, omega arith))
        (λ _ e'. h id x e') (rw (← lookup-insert sub.id id added r.hooks) e)
    where
      added : HookSubscription
      added = record { id = sub.id; event = sub.event; matcher = m; timeout = sub.timeout * second }

  AllSound-register_hook :
      (sub : WireHookSubscription) (r : Registered)
      → sub.timeout < 2 ^ 32
      → AllSound r.hooks
      → AllSound (register_hook env sub r).hooks
  unfolding register_hook
  AllSound-register_hook sub r small h =
      if_cases (λ (q : Registered). AllSound q.hooks) (is_hook_supported env sub.event)
        (λ supported.
          option_cases (λ (q : Registered). AllSound q.hooks) (matcher_of env sub.matcher) (λ _. h)
            (λ m _. AllSound-add_hook sub m r small supported h))
        (λ _. h)

  -- Whatever hooks the client asks for with timeouts of 32 bits: every hook that is registered is
  -- for an event that the server supports, and its timeout in nanoseconds fits a time.Duration.
  pub register_hooks-AllSound :
      (subs : List WireHookSubscription) (r : Registered)
      → ShortTimeouts subs
      → AllSound r.hooks
      → AllSound (register_hooks env subs r).hooks
  unfolding register_hooks
  register_hooks-AllSound [] r short h = h
  register_hooks-AllSound (sub ∷ subs) r short h =
      register_hooks-AllSound subs (register_hook env sub r) short.1
        (AllSound-register_hook sub r short.0 h)
