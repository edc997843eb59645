-- ===== src/Server/Exclusion.antt =====
-- At most one turn or replay holds the server at a time, and a server that reports to be busy has
-- one that does.
pub mod Moves
pub mod Handlers
pub mod Dispatch
pub mod Goroutines
pub mod Waits
pub mod Run
use kimi_wire_go.Prelude.{ℕ, ◌≡◌, Bool, true, false, Option, some, List, arith, get_elem?}
use kimi_wire_go.Server.{
  Phase, turn_running, turn_ending, turn_closing, turn_clearing, turn_replying, replay_running,
  replay_replying, replay_panicked, replay_clearing, replay_closing, finished, Operation, Server,
  turn_answering,
}

-- Whether the goroutine at this phase still holds activeOp.
abbrev pub holds : Phase → Bool
holds turn_running = true
holds (turn_ending r) = true
holds (turn_closing r) = true
holds (turn_clearing r) = true
holds (turn_replying r) = false
holds (turn_answering r x) = false
holds replay_running = true
holds (replay_replying r) = true
holds replay_panicked = true
holds replay_clearing = true
holds replay_closing = false
holds finished = false

-- Whether it holds activeTurn.
abbrev pub holds_turn : Phase → Bool
holds_turn turn_running = true
holds_turn (turn_ending r) = true
holds_turn (turn_closing r) = true
holds_turn (turn_clearing r) = true
holds_turn (turn_replying r) = false
holds_turn (turn_answering r x) = false
holds_turn replay_running = false
holds_turn (replay_replying r) = false
holds_turn replay_panicked = false
holds_turn replay_clearing = false
holds_turn replay_closing = false
holds_turn finished = false

-- The active pointers and the goroutines agree.
pub record Agree (ops : List Operation) (turn op : Option ℕ) : Type 0 where
  pub held_active :
      (i : ℕ) (o : Operation) → get_elem? ops i ≡ some o → holds o.phase ≡ true → op ≡ some i
  pub turn_active :
      (i : ℕ) (o : Operation) → get_elem? ops i ≡ some o → holds_turn o.phase ≡ true → turn ≡ some i
  pub turn_is_op : (i : ℕ) → turn ≡ some i → op ≡ some i
  pub active_turn_held :
      (i : ℕ)
      → turn ≡ some i
      → (o : Operation) × (get_elem? ops i ≡ some o) × (holds_turn o.phase ≡ true)
  pub active_held :
      (i : ℕ) → op ≡ some i → (o : Operation) × (get_elem? ops i ≡ some o) × (holds o.phase ≡ true)

abbrev pub IsExclusive : {Raw : Type 0} → Server Raw → Type 0
IsExclusive s = Agree s.ops s.active_turn s.active_op

pub holds_of_turn : (p : Phase) → holds_turn p ≡ true → holds p ≡ true
holds_of_turn p h = ground arith
