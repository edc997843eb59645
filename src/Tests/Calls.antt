-- ===== src/Tests/Calls.antt =====
-- Calls to the client, and responses to them.
use kimi_wire_go.Prelude.{
  ℕ, zero, suc, ◌≡◌, refl, ◌≢◌, none, some, arith, get_elem?, ap, ◌∙◌, eq_iff, true, List, [], ◌∷◌,
  false,
}
use kimi_wire_go.Server.Pending.Routing.{no_calls_yet, IsWaiting, called, empty_calls, Reaches}
use kimi_wire_go.Tests.{response_with, Json, test_env, list_files}
use kimi_wire_go.Prelude.Decimal.{decimal}
use kimi_wire_go.Server.Pending.{register, route_response, request_id, outcome_of}
use kimi_wire_go.Prelude.Maps.{lookup}
use kimi_wire_go.Server.{Waiter, Calls, new, Server}
use kimi_wire_go.Server.Pending.Routing.Delivery.{
  ids_are_distinct, response_is_delivered, stray_response_is_dropped,
}
use kimi_wire_go.Server.Serve.{call_receives, step, calls_client, run, Action, receive}
use kimi_wire_go.Server.Pending.Routing.Runs.{response_reaches_caller}
use kimi_wire_go.Protocol.Request.{Request}
use kimi_wire_go.Server.Pending.Routing.Pended.{waiting_is_pending}

abbrev one_call : Calls Json
one_call = register empty_calls

one_call-Reaches : Reaches test_env one_call 1
one_call-Reaches = called empty_calls 0 no_calls_yet

abbrev first_waiter : Waiter Json
first_waiter = record { id = request_id 1; buffer = none; returned = none }

first_waits : get_elem? one_call.waiters 0 ≡ some first_waiter
unfolding register
first_waits = refl

first_id : (response_with "srv-1").id ≡ first_waiter.id
unfolding request_id decimal
first_id = refl

-- The response is sent, and the context that is done is taken.
abbrev sent_calls : Calls Json
sent_calls = route_response false (response_with "srv-1") one_call

abbrev lost_calls : Calls Json
lost_calls = route_response true (response_with "srv-1") one_call

is_pending : lookup (response_with "srv-1").id one_call.pending ≡ some 0
unfolding register request_id decimal lookup
is_pending = refl

response_is_delivered_example :
    (w : Waiter Json) × (get_elem? one_call.waiters 0 ≡ some w)
    × (w.id ≡ "srv-1")
    × IsWaiting w
    × (get_elem? sent_calls.waiters 0 ≡ some (record w { buffer = some (response_with "srv-1") }))
    × ((j : ℕ) → 0 ≢ j → get_elem? sent_calls.waiters j ≡ get_elem? one_call.waiters j)
    × (lost_calls.waiters ≡ one_call.waiters)
    × (lookup "srv-1" sent_calls.pending ≡ none)
    × (lookup "srv-1" lost_calls.pending ≡ none)
response_is_delivered_example =
    response_is_delivered test_env one_call 1 (omega arith) one_call-Reaches 0
      (response_with "srv-1") is_pending

nobody_waits :
    (k : ℕ) (w : Waiter Json) → get_elem? one_call.waiters k ≡ some w → IsWaiting w → w.id ≢ "srv-7"
unfolding register request_id decimal
nobody_waits zero w g u e =
    let one : first_waiter ≡ w = ground arith in
    let same : "srv-1" ≡ "srv-7" = first_id ∙ ap (λ v. v.id) one ∙ e in
    ground (arith, eq_iff "srv-1" "srv-7", same)
nobody_waits (suc k) w g u e = absurd (cc g)

stray_response_is_dropped_example : route_response true (response_with "srv-7") one_call ≡ one_call
stray_response_is_dropped_example =
    stray_response_is_dropped test_env one_call 1 (omega arith) one_call-Reaches true
      (response_with "srv-7") nobody_waits

abbrev zeroth : ℕ
zeroth = 0

ids_are_distinct_example : zeroth ≡ zeroth
ids_are_distinct_example =
    ids_are_distinct test_env one_call 1 (omega arith) one_call-Reaches zeroth zeroth first_waiter
      first_waiter first_waits first_waits refl

-- The agent calls the client.
abbrev tool_called : List (Action Json)
tool_called = calls_client (Request.tool_call_request list_files) ∷ []

caller_is_pending :
    lookup (response_with "srv-1").id (run test_env tool_called new).calls.pending ≡ some 0
unfolding run step new request_id decimal lookup
caller_is_pending = refl

caller_reads : (run test_env tool_called new).reading ≡ true
unfolding run step new
caller_reads = refl

-- The response comes, and the call takes it.
abbrev after_response : Server Json
after_response =
    step test_env (call_receives 0)
      (step test_env (receive (response_with "srv-1")) (run test_env tool_called new))

response_reaches_caller_example :
    (w : Waiter Json) × (get_elem? (run test_env tool_called new).calls.waiters 0 ≡ some w)
    × (w.id ≡ "srv-1")
    × IsWaiting w
    × (get_elem? after_response.calls.waiters 0
        ≡ some (record w {
          buffer = none;
          returned = some (outcome_of test_env (response_with "srv-1"));
        }))
response_reaches_caller_example =
    response_reaches_caller test_env tool_called 0 (response_with "srv-1") (omega arith)
      caller_reads refl caller_is_pending

caller_waits : get_elem? (run test_env tool_called new).calls.waiters 0 ≡ some first_waiter
unfolding run step new
caller_waits = refl

waiting_is_pending_example :
    lookup first_waiter.id (run test_env tool_called new).calls.pending ≡ some 0
waiting_is_pending_example =
    waiting_is_pending test_env tool_called 0 first_waiter refl (omega arith) caller_waits
      (refl, refl)
