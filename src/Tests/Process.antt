-- ===== src/Tests/Process.antt =====
-- A child that is started at the second attempt, and a stderr with a key.
use kimi_wire_go.Prelude.{
  ℕ, zero, suc, ◌≡◌, refl, true, none, some, [], ◌∷◌, ◌==◌, if◌then◌else◌, false, arith,
}
use kimi_wire_go.Transport.Process.Spawn.Held.{SpawnStory, spawn_child-SpawnStory}
use kimi_wire_go.Transport.Process.Blocks.{log_stderr-Cut, Cut}
use kimi_wire_go.Transport.Process.Spawn.{
  stderr_end, spawn_args, Attempt, spawned, spawn_child, stdout_reader, stdin_end,
}
use kimi_wire_go.Transport.Process.{log_stderr, Texts}
use kimi_wire_go.Transport.Process.Pipes.{
  use_child_all, close_child, closes_child, writes_child, read_lines-finished, read_lines, Child,
  use_child_all-close_child,
}

abbrev good_attempt : Attempt
good_attempt = record { stdin_pipe = none; stdout_pipe = none; stderr_pipe = none; start = none }

abbrev busy_attempt : Attempt
busy_attempt = record {
  stdin_pipe = none;
  stdout_pipe = none;
  stderr_pipe = none;
  start = some (record { text = "text file busy"; is_text_busy = true });
}

abbrev second_works : ℕ → Attempt
second_works zero = busy_attempt
second_works (suc n) = good_attempt

spawn_child-SpawnStory_example :
    SpawnStory second_works (spawned 1, stdin_end ∷ stdout_reader ∷ stderr_end ∷ [])
unfolding spawn_child
spawn_child-SpawnStory_example = spawn_child-SpawnStory second_works

test_spawn_args :
    spawn_args "kimi" (record { work_dir = some "/w"; session = none; model = some "k2" })
    ≡ "kimi" ∷ "--wire" ∷ "--work-dir" ∷ "/w" ∷ "--model" ∷ "k2" ∷ []
unfolding spawn_args
test_spawn_args = refl

-- A redaction that hides every text which is not a single word.
abbrev test_texts : Texts
test_texts = record {
  is_begin = λ line. line == "BEGIN";
  is_end = λ line. line == "END";
  redact = λ text. if text == "joined" then "***" else text;
  join_lines = λ lines. "joined";
  split_lines = λ text. text ∷ [];
}

log_stderr-Cut_example :
    Cut test_texts [] []
      ("hello" ∷ "BEGIN" ∷ "key" ∷ "END" ∷ "" ∷ [])
      (log_stderr test_texts ("hello" ∷ "BEGIN" ∷ "key" ∷ "END" ∷ []) "")
log_stderr-Cut_example = log_stderr-Cut test_texts ("hello" ∷ "BEGIN" ∷ "key" ∷ "END" ∷ []) ""

test_log : log_stderr test_texts ("hello" ∷ "BEGIN" ∷ "key" ∷ "END" ∷ []) "" ≡ "hello" ∷ "***" ∷ []
unfolding log_stderr
test_log = refl

abbrev fresh_child : Child
fresh_child = record {
  is_closed = false;
  has_stdin = true;
  stdout_closed = false;
  typed = [];
  interrupts = 0;
}

use_child_all-close_child_example :
    use_child_all (closes_child ∷ writes_child none none none "late" ∷ []) (close_child fresh_child)
    ≡ close_child fresh_child
use_child_all-close_child_example =
    use_child_all-close_child (closes_child ∷ writes_child none none none "late" ∷ []) fresh_child

read_lines-finished_example : read_lines 4 ("a" ∷ "" ∷ [], "b") ≡ "a" ∷ "" ∷ "b" ∷ []
read_lines-finished_example = read_lines-finished ("a" ∷ "" ∷ []) "b" 4 (omega arith)
