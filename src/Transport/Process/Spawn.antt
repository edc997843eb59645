-- ===== src/Transport/Process/Spawn.antt =====
-- SpawnChildProcessTransport of transport/transport_process.go.
pub mod Held
use kimi_wire_go.Prelude.{
  ℕ, zero, suc, ◌+◌, String, Bool, true, false, ◌&&◌, Option, none, some, List, [], ◌∷◌, ◌++◌, ltb,
  if◌then◌else◌,
}
use Prim.Native.String.{◌++◌ as str_append}

pub record SpawnOptions : Type 0 where
  pub work_dir : Option String
  pub session : Option String
  pub model : Option String

abbrev pub option_args : String → Option String → List String
option_args flag none = []
option_args flag (some value) = flag ∷ value ∷ []

-- cmd.Args
unfoldable pub spawn_args : String → SpawnOptions → List String
spawn_args binary opts =
    binary
    ∷ "--wire"
    ∷ (option_args "--work-dir" opts.work_dir
        ++ (option_args "--session" opts.session ++ option_args "--model" opts.model))

-- The ends of pipes that an attempt has in its variables.
pub data Handle : Type 0 where
  stdin_end stdout_reader stdout_writer stderr_end : Handle

abbrev pub handle_eq : Handle → Handle → Bool
handle_eq stdin_end stdin_end = true
handle_eq stdout_reader stdout_reader = true
handle_eq stdout_writer stdout_writer = true
handle_eq stderr_end stderr_end = true
handle_eq _ _ = false

unfoldable pub close_handle : Handle → List Handle → List Handle
close_handle h [] = []
close_handle h (g ∷ gs) = let rest = close_handle h gs in if handle_eq h g then gs else g ∷ rest

-- An error of cmd.Start, and whether it is ETXTBSY.
pub record StartError : Type 0 where
  pub text : String
  pub is_text_busy : Bool

-- The errors of packages os and os/exec in one attempt: of StdinPipe, os.Pipe, StderrPipe and Start.
pub record Attempt : Type 0 where
  pub stdin_pipe : Option String
  pub stdout_pipe : Option String
  pub stderr_pipe : Option String
  pub start : Option StartError

-- What an attempt comes to: a running child, an error, or another attempt.
pub data AttemptEnd : Type 0 where
  attempt_failed : String → AttemptEnd
  child_runs another_attempt : AttemptEnd

-- "spawn failed: %w"
abbrev pub as_spawn_error : String → String
as_spawn_error e = str_append "spawn failed: " e

-- cmd.Start and what follows, in the attempt with this number.
unfoldable pub start_child : ℕ → Option StartError → List Handle → AttemptEnd × List Handle
unfolding close_handle
start_child attempt none hs = (child_runs, close_handle stdout_writer hs)
start_child attempt (some e) hs =
    let left =
      close_handle stderr_end
        (close_handle stdout_writer (close_handle stdout_reader (close_handle stdin_end hs))) in
    if ltb attempt 2 && e.is_text_busy
    then (another_attempt, left)
    else (attempt_failed (as_spawn_error e.text), left)

unfoldable pub open_stderr : ℕ → Attempt → Option String → List Handle → AttemptEnd × List Handle
unfolding start_child close_handle
open_stderr attempt a none hs = start_child attempt a.start (hs ++ stderr_end ∷ [])
open_stderr attempt a (some e) hs = (
  attempt_failed (as_spawn_error e),
  close_handle stdout_writer (close_handle stdout_reader (close_handle stdin_end hs)),
)

unfoldable pub open_stdout : ℕ → Attempt → Option String → List Handle → AttemptEnd × List Handle
unfolding open_stderr close_handle
open_stdout attempt a none hs =
    open_stderr attempt a a.stderr_pipe (hs ++ stdout_reader ∷ stdout_writer ∷ [])
open_stdout attempt a (some e) hs = (attempt_failed (as_spawn_error e), close_handle stdin_end hs)

unfoldable pub open_stdin : ℕ → Attempt → Option String → List Handle → AttemptEnd × List Handle
unfolding open_stdout
open_stdin attempt a none hs = open_stdout attempt a a.stdout_pipe (hs ++ stdin_end ∷ [])
open_stdin attempt a (some e) hs = (attempt_failed (as_spawn_error e), hs)

unfoldable pub spawn_attempt : ℕ → Attempt → List Handle → AttemptEnd × List Handle
unfolding open_stdin
spawn_attempt attempt a hs = open_stdin attempt a a.stdin_pipe hs

-- What SpawnChildProcessTransport returns: the attempt that has started the child, or an error.
pub data SpawnEnd : Type 0 where
  spawned : ℕ → SpawnEnd
  not_spawned : String → SpawnEnd

-- The loop, with the number of attempts that are left.
unfoldable pub spawn_from : ℕ → ℕ → (ℕ → Attempt) → List Handle → SpawnEnd × List Handle
unfolding spawn_attempt
spawn_from zero attempt attempts hs = (not_spawned "all spawn attempts failed", hs)
spawn_from (suc left) attempt attempts hs =
    let r = spawn_attempt attempt (attempts attempt) hs in
    let rest = spawn_from left (attempt + 1) attempts r.1 in
    elim r.0 [
      | child_runs ↦ (spawned attempt, r.1)
      | attempt_failed e ↦ (not_spawned e, r.1)
      | another_attempt ↦ rest
    ]

-- SpawnChildProcessTransport
unfoldable pub spawn_child : (ℕ → Attempt) → SpawnEnd × List Handle
unfolding spawn_from
spawn_child attempts = spawn_from 3 0 attempts []
