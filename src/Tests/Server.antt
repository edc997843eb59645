-- ===== src/Tests/Server.antt =====
-- The server in a run of a prompt that is cancelled.
use kimi_wire_go.Prelude.{
  ℕ, ◌+◌, ◌≡◌, refl, ◌≢◌, ◌↔◌, true, false, none, some, List, [], ◌∷◌, get_elem?,
}
use kimi_wire_go.Server.Refusals.{error_reply_nonzero}
use kimi_wire_go.Server.Exclusion.Run.{busy_is_held, at_most_one_runs}
use kimi_wire_go.Tests.{request_with, Json, test_env, hello, blank}
use kimi_wire_go.Server.Serve.{run, advance, step, go_on, prompt_returns, receive, serve, Action}
use kimi_wire_go.Protocol.Event.{Event}
use kimi_wire_go.Server.{
  Returned, notification, response, new, turn_running, Operation, GoError, Answer, Origin, Server,
}
use kimi_wire_go.Server.Replies.{owed, replies}
use kimi_wire_go.Server.Turn.{is_busy, cancelled_prompt, error_reply}
use kimi_wire_go.Protocol.Method.{PromptResult}
use kimi_wire_go.Server.Replies.Write.{RepliesMarshal}
use kimi_wire_go.Prelude.Int.{pos}
use kimi_wire_go.Server.Exclusion.{holds}
use kimi_wire_go.Server.Replies.Loops.{accepted_run}
use kimi_wire_go.Server.Replies.Run.{replies-run}
use kimi_wire_go.Server.Settled.{initialize_once}
use kimi_wire_go.Server.Initialize.{accept_initialize, handle_initialize}
use kimi_wire_go.Server.Kept.{settings}

abbrev prompted : List (Action Json)
prompted = receive (request_with "prompt" "1") ∷ serve ∷ []

abbrev cancelled_result : Returned PromptResult
cancelled_result = record { result = record { status = "finished"; steps = none }; error = none }

-- The prompt is cancelled while it runs; the agent returns a result all the same.
abbrev prompted_and_cancelled : List (Action Json)
prompted_and_cancelled =
    receive (request_with "prompt" "1")
    ∷ serve
    ∷ receive (request_with "cancel" "2")
    ∷ serve
    ∷ go_on true
    ∷ prompt_returns 0 cancelled_result
    ∷ advance 0
    ∷ advance 0
    ∷ advance 0
    ∷ advance 0
    ∷ advance 0
    ∷ go_on true
    ∷ []

test_marshals : RepliesMarshal test_env
test_marshals = record { response_marshals = λ id a. refl; error_marshals = λ id c m. refl }

both_are_answered :
    ((run test_env prompted_and_cancelled new).written)
    ≡ notification Origin.server (Event.turn_begin (record { user_input = hello }))
      ∷ notification Origin.server Event.turn_end
      ∷ response "1" (Answer.prompted cancelled_prompt)
      ∷ response "2" Answer.cancelled
      ∷ []
unfolding run step new
both_are_answered = refl

replies-run_example :
    replies "1" (run test_env prompted_and_cancelled new)
      + owed "1" (run test_env prompted_and_cancelled new)
    ≡ accepted_run test_env "1" prompted_and_cancelled new
replies-run_example = replies-run test_env test_marshals "1" prompted_and_cancelled

abbrev first_turn : Operation
first_turn = record {
  id = "1";
  phase = turn_running;
  cancelled = false;
  ctx_done = false;
  done = false;
  steer = none;
}

first_runs : get_elem? (run test_env prompted new).ops 0 ≡ some first_turn
unfolding run step new
first_runs = refl

abbrev zeroth : ℕ
zeroth = 0

at_most_one_runs_example : zeroth ≡ zeroth
at_most_one_runs_example =
    at_most_one_runs test_env prompted refl zeroth zeroth first_turn first_turn first_runs
      first_runs refl refl

busy_is_held_example : (is_busy (run test_env prompted new) ≡ true) ↔ (
    (i : ℕ) × ((o : Operation) × (get_elem? (run test_env prompted new).ops i ≡ some o)
      × (holds o.phase ≡ true)))
busy_is_held_example = busy_is_held test_env prompted refl

abbrev agent_error : GoError
agent_error = record { message = "no model"; code = some (pos 0); is_canceled = false }

error_reply_nonzero_example : (error_reply agent_error).0 ≢ pos 0
error_reply_nonzero_example = error_reply_nonzero agent_error

-- The client initializes the server twice.
abbrev initialized_twice : List (Action Json)
initialized_twice =
    receive (request_with "initialize" "1")
    ∷ serve
    ∷ receive (request_with "initialize" "2")
    ∷ serve
    ∷ []

abbrev initialized_server : Server Json
initialized_server = handle_initialize test_env "0" (some blank) new

is_initialized : initialized_server.handshake_done ≡ true
unfolding handle_initialize accept_initialize new
is_initialized = refl

initialize_once_example :
    ((run test_env initialized_twice initialized_server).handshake_done ≡ true)
    × (settings (run test_env initialized_twice initialized_server) ≡ settings initialized_server)
initialize_once_example =
    initialize_once test_env initialized_twice initialized_server is_initialized
