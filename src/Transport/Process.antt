-- ===== src/Transport/Process.antt =====
-- transport/transport_process.go: what is logged of a child's stderr, and how a child is started.
pub mod Blocks
pub mod Spawn
pub mod Pipes
use kimi_wire_go.Prelude.{String, Bool, true, false, ◌&&◌, List, [], ◌∷◌, ◌++◌, ◌==◌, if◌then◌else◌}

-- Packages regexp and strings: the two patterns of key blocks, the redaction of a text, strings.Join and
-- strings.Split at newlines.
pub record Texts : Type 0 where
  pub is_begin : String → Bool
  pub is_end : String → Bool
  pub redact : String → String
  pub join_lines : List String → String
  pub split_lines : String → List String

-- The variables of logStderr, and what it has logged.
pub record StderrLog : Type 0 where
  pub accum : List String
  pub in_block : Bool
  pub logged : List String

abbrev pub new_stderr_log : StderrLog
new_stderr_log = record { accum = []; in_block = false; logged = [] }

-- len(accum) > 0
abbrev pub has_lines : List String → Bool
has_lines [] = false
has_lines (line ∷ lines) = true

module _ (texts : Texts) where
  -- flushRedacted
  unfoldable pub flush_redacted : List String → List String
  flush_redacted lines = texts.split_lines (texts.redact (texts.join_lines lines))

  -- The block is over at its last line.
  unfoldable pub flush_block : List String → List String → StderrLog
  unfolding flush_redacted
  flush_block accum logged = record {
    accum = [];
    in_block = false;
    logged = logged ++ flush_redacted accum;
  }

  -- A line within a block.
  unfoldable pub log_within : String → List String → List String → StderrLog
  unfolding flush_block
  log_within trimmed accum logged =
      if texts.is_end trimmed
      then flush_block (accum ++ trimmed ∷ []) logged
      else record { accum = accum ++ trimmed ∷ []; in_block = true; logged = logged }

  -- A line outside of blocks; `no_text` is whether ReadString has returned no text.
  unfoldable pub log_outside : Bool → String → List String → List String → StderrLog
  unfolding log_within
  log_outside no_text trimmed accum logged =
      if texts.is_begin trimmed
      then log_within trimmed [] logged
      else if no_text
      then record { accum = accum; in_block = false; logged = logged }
      else record { accum = accum; in_block = false; logged = logged ++ texts.redact trimmed ∷ [] }

  -- One round of the loop.
  unfoldable pub log_line : Bool → String → StderrLog → StderrLog
  unfolding log_outside
  log_line no_text trimmed s =
      if s.in_block
      then log_within trimmed s.accum s.logged
      else log_outside no_text trimmed s.accum s.logged

  -- At an error, what is left of a block is logged.
  unfoldable pub end_log : StderrLog → List String
  unfolding flush_redacted
  end_log s =
      if s.in_block && has_lines s.accum then s.logged ++ flush_redacted s.accum else s.logged

  -- The whole loop: the lines that end in a newline, and the text before the error.
  unfoldable pub log_from : List String → String → StderrLog → List String
  unfolding log_line end_log
  log_from [] last s = end_log (log_line (last == "") last s)
  log_from (line ∷ lines) last s = log_from lines last (log_line false line s)

  unfoldable pub log_stderr : List String → String → List String
  unfolding log_from
  log_stderr lines last = log_from lines last new_stderr_log
