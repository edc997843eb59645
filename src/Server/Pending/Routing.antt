-- ===== src/Server/Pending/Routing.antt =====
-- Which call a response reaches: what is pending agrees with the calls that wait, as long as the
-- counter has not wrapped.
pub mod Moves
pub mod Reached
pub mod Delivery
pub mod Stepped
pub mod Runs
pub mod Waiting
pub mod Pended
use kimi_wire_go.Prelude.{
  Bool, ◌∷◌, ◌<◌, ℕ, ◌+◌, String, ◌≡◌, none, some, List, [], length, get_elem?,
}
use kimi_wire_go.Server.{Env, Waiter, Calls, GoError}
use kimi_wire_go.Server.Pending.{
  request_id, abandon_call, copy_pending, send_closing, receive_call, register, route_response,
}
use kimi_wire_go.Protocol.Jsonrpc.{RawWireMessage}
use kimi_wire_go.Prelude.Maps.{lookup}

-- The call waits in its select, and nothing is in its channel.
abbrev pub IsWaiting : {Raw : Type 0} → Waiter Raw → Type 0
IsWaiting w = (w.returned ≡ none) × (w.buffer ≡ none)

abbrev pub empty_calls : {Raw : Type 0} → Calls Raw
empty_calls = record { request_counter = 0; pending = []; pending_copy = []; waiters = [] }

abbrev pub IsNumbered : {Raw : Type 0} → List (Waiter Raw) → Type 0
IsNumbered {Raw = Raw} ws =
    (k : ℕ) (w : Waiter Raw) → get_elem? ws k ≡ some w → w.id ≡ request_id (k + 1)

pub record Agrees {Raw : Type 0} (c : Calls Raw) : Type 0 where
  pub counted : c.request_counter ≡ length c.waiters
  pub numbered : IsNumbered c.waiters
  pub registered :
      (id : String) (k : ℕ)
      → lookup id c.pending ≡ some k
      → (w : Waiter Raw) × (get_elem? c.waiters k ≡ some w) × (w.id ≡ id) × IsWaiting w
  pub copied :
      (id : String) (k : ℕ)
      → lookup id c.pending_copy ≡ some k
      → (k < length c.waiters) × (lookup (request_id (k + 1)) c.pending ≡ none)

-- What the server does to its calls, with the number of calls made so far.
pub data Reaches {Raw : Type 0} (env : Env Raw) : Calls Raw → ℕ → Type 0 where
  no_calls_yet : Reaches env empty_calls 0
  called : (c : Calls Raw) (n : ℕ) → Reaches env c n → Reaches env (register c) (n + 1)
  routed :
      (lost : Bool) (raw : RawWireMessage Raw) (c : Calls Raw) (n : ℕ)
      → Reaches env c n
      → Reaches env (route_response lost raw c) n
  copied_over : (c : Calls Raw) (n : ℕ) → Reaches env c n → Reaches env (copy_pending c) n
  call_failed :
      (msg id : String) (k : ℕ) (rest : List (String × ℕ)) (c : Calls Raw) (n : ℕ)
      → c.pending_copy ≡ (id, k) ∷ rest
      → Reaches env c n
      → Reaches env (send_closing msg id k c) n
  answered :
      (k : ℕ) (c : Calls Raw) (n : ℕ) → Reaches env c n → Reaches env (receive_call env k c) n
  given_up :
      (k : ℕ) (e : GoError) (c : Calls Raw) (n : ℕ)
      → Reaches env c n
      → Reaches env (abandon_call env k e c) n
