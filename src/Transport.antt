-- ===== src/Transport.antt =====
-- InMemoryTransport of transport/transport_memory.go.
pub mod Fifo
pub mod Channel
pub mod Process
use kimi_wire_go.Prelude.{
  ℕ, String, Bool, true, false, ◌&&◌, ◌||◌, Option, none, some, List, [], ◌∷◌, ◌++◌, ltb,
  if◌then◌else◌, length, not,
}

-- InMemoryTransport.
pub record Memory : Type 0 where
  pub incoming : List String
  pub outgoing : List String
  pub closed : Bool

-- The capacity of the channel incoming.
abbrev pub memory_capacity : ℕ
memory_capacity = 1024

-- What ReadLine returns, or that it waits.
pub data ReadResult : Type 0 where
  read_line_of : String → ReadResult
  read_eof read_cancelled read_waits : ReadResult

-- NewInMemoryTransport
abbrev pub new_memory : Memory
new_memory = record { incoming = []; outgoing = []; closed = false }

-- ReadLine, with whether its context is done; `line_first` says which case the select takes if both
-- are ready.
unfoldable pub read_line : Bool → Bool → Memory → ReadResult × Memory
read_line done line_first m = elim m.incoming [
  | [] ↦
      if m.closed && (line_first || not done)
      then (read_eof, m)
      else if done
      then (read_cancelled, m)
      else (read_waits, m)
  | line ∷ rest ↦
      if done && not line_first
      then (read_cancelled, m)
      else (read_line_of line, record m { incoming = rest })
]

-- WriteLine, with the error of its context. An error is its text.
unfoldable pub write_line_memory : Option String → String → Memory → Option String × Memory
write_line_memory ctx_error line m = elim ctx_error [
  | some e ↦ (some e, m)
  | none ↦
      if m.closed
      then (some "transport closed", m)
      else (none, record m { outgoing = m.outgoing ++ line ∷ [] })
]

-- Close
unfoldable pub close_memory : Memory → Memory
close_memory m = if not m.closed then record m { closed = true } else m

-- Inject
unfoldable pub inject : String → Memory → Option String × Memory
inject line m =
    if m.closed
    then (some "transport closed", m)
    else if ltb (length m.incoming) memory_capacity
    then (none, record m { incoming = m.incoming ++ line ∷ [] })
    else (some "incoming buffer full", m)

-- One use of the transport.
pub data Use : Type 0 where
  injects : String → Use
  reads : Bool → Bool → Use
  writes : Option String → String → Use
  closes : Use

-- The lines that a use takes in, the lines that it hands out, and the state after it.
pub record Passed : Type 0 where
  pub taken : List String
  pub handed : List String
  pub after : Memory

abbrev pub taken_line : String → Option String × Memory → Passed
taken_line line (none, m) = record { taken = line ∷ []; handed = []; after = m }
taken_line line (some e, m) = record { taken = []; handed = []; after = m }

abbrev pub handed_line : ReadResult × Memory → Passed
handed_line (read_line_of line, m) = record { taken = []; handed = line ∷ []; after = m }
handed_line (_, m) = record { taken = []; handed = []; after = m }

unfoldable pub use_memory : Use → Memory → Passed
unfolding inject read_line write_line_memory close_memory
use_memory (injects line) m = taken_line line (inject line m)
use_memory (reads done line_first) m = handed_line (read_line done line_first m)
use_memory (writes ctx_error line) m = record {
  taken = [];
  handed = [];
  after = (write_line_memory ctx_error line m).1;
}
use_memory closes m = record { taken = []; handed = []; after = close_memory m }

unfoldable pub use_all : List Use → Memory → Passed
unfolding use_memory
use_all [] m = record { taken = []; handed = []; after = m }
use_all (u ∷ us) m =
    let first = use_memory u m in
    let rest = use_all us first.after in
    record {
      taken = first.taken ++ rest.taken;
      handed = first.handed ++ rest.handed;
      after = rest.after;
    }
