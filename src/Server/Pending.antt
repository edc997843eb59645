-- ===== src/Server/Pending.antt =====
-- nextRequestID and sendRequestAndWait of server/request.go, routeResponse and closePending of
-- server/server.go. A call registers its channel, writes its request and then waits in a select; its
-- deferred function runs when it returns.
pub mod Routing
use kimi_wire_go.Prelude.{
  Bool, true, if◌then◌else◌, ℕ, ◌+◌, ◌%◌, ◌^◌, String, false, Option, none, some, List, [], ◌∷◌,
  ◌++◌, length, get_elem?, modify, Result, ok, err,
}
use Prim.Native.String.{◌++◌ as str_append}
use kimi_wire_go.Prelude.Decimal.{decimal}
use kimi_wire_go.Prelude.Int.{negsuc}
use kimi_wire_go.Prelude.Maps.{lookup, insert, delete}
use kimi_wire_go.Protocol.Jsonrpc.{RawWireMessage}
use kimi_wire_go.Protocol.Request.{Request}
use kimi_wire_go.Server.{GoError, Waiter, Calls, Outgoing, Server, Env}
use kimi_wire_go.Server.Write.{write_message}

unfoldable pub request_id : ℕ → String
request_id n = str_append "srv-" (decimal n)

-- atomic.AddUint64(&s.requestCounter, 1)
abbrev pub count_next : ℕ → ℕ
count_next n = (n + 1) % 2 ^ 64

module _ {Raw : Type 0} where
  -- The new channel under its id.
  unfoldable pub register : Calls Raw → Calls Raw
  unfolding request_id insert
  register c =
      let id = request_id (count_next c.request_counter) in
      record c {
        request_counter = count_next c.request_counter;
        pending = insert id (length c.waiters) c.pending;
        waiters = c.waiters ++ record { id = id; buffer = none; returned = none } ∷ [];
      }

  -- A send in a select with a default case, on a channel with room for one message.
  abbrev pub put : RawWireMessage Raw → Waiter Raw → Waiter Raw
  put raw w = elim w.buffer [ none ↦ record w { buffer = some raw } | some old ↦ w ]

  abbrev pub room_at : ℕ → List (Waiter Raw) → Bool
  room_at k ws = elim (get_elem? ws k) [
    | none ↦ false
    | some w ↦ elim w.buffer [ none ↦ true | some old ↦ false ]
  ]

  -- The select either sends or, with `lost`, takes the case of the server's context that is done: then
  -- the entry is gone and nothing is sent. A send into a full channel waits.
  unfoldable pub route_response : Bool → RawWireMessage Raw → Calls Raw → Calls Raw
  unfolding lookup delete
  route_response lost raw c = elim (lookup raw.id c.pending) [
    | none ↦ c
    | some k ↦
        if lost
        then record c { pending = delete raw.id c.pending }
        else if room_at k c.waiters
        then record c { pending = delete raw.id c.pending; waiters = modify c.waiters k (put raw) }
        else c
  ]

  -- The message that closePending puts into each channel.
  abbrev pub closing_message : String → RawWireMessage Raw
  closing_message msg = record {
    jsonrpc = "";
    id = "";
    method = "";
    params = none;
    result = none;
    error = some (record { code = negsuc 0; message = msg; raw_data = none });
  }

  -- The locked part of closePending.
  unfoldable pub copy_pending : Calls Raw → Calls Raw
  copy_pending c = record c { pending = []; pending_copy = c.pending }

  -- One pass of the loop of closePending, over the channels in the order of the copy.
  unfoldable pub send_closing : String → String → ℕ → Calls Raw → Calls Raw
  unfolding delete
  send_closing msg id k c = record c {
    pending_copy = delete id c.pending_copy;
    waiters = modify c.waiters k (put (closing_message msg));
  }

  -- The deferred function of a call, and the values that it returns.
  unfoldable pub finish_call : ℕ → String → Result GoError (Option Raw) → Calls Raw → Calls Raw
  unfolding delete
  finish_call k id r c = record c {
    pending = delete id c.pending;
    waiters = modify c.waiters k (λ w. record w { buffer = none; returned = some r });
  }

module _ {Raw : Type 0} (env : Env Raw) where
  -- What a call makes of the message that it receives.
  unfoldable pub outcome_of : RawWireMessage Raw → Result GoError (Option Raw)
  outcome_of msg = elim msg.error [
    | some e ↦
        err (record { message = env.redact e.message; code = some e.code; is_canceled = false })
    | none ↦ ok msg.result
  ]

  -- The case `msg := <-ch`.
  unfoldable pub receive_call : ℕ → Calls Raw → Calls Raw
  unfolding outcome_of finish_call
  receive_call k c = elim (get_elem? c.waiters k) [
    | none ↦ c
    | some w ↦ elim w.returned [
      | some r ↦ c
      | none ↦ elim w.buffer [ none ↦ c | some msg ↦ finish_call k w.id (outcome_of msg) c ]
    ]
  ]

  -- The cases of a context that is done, and of a request that could not be written.
  unfoldable pub abandon_call : ℕ → GoError → Calls Raw → Calls Raw
  unfolding finish_call
  abandon_call k e c = elim (get_elem? c.waiters k) [
    | none ↦ c
    | some w ↦ elim w.returned [ some r ↦ c | none ↦ finish_call k w.id (err e) c ]
  ]

  -- A call up to its select.
  unfoldable pub begin_call : Request Raw → Server Raw → Server Raw
  unfolding register write_message abandon_call
  begin_call req s =
      let t = record s { calls = register s.calls } in
      let id = request_id (count_next s.calls.request_counter) in
      let (u, failure) = write_message env (Outgoing.request id req) t in
      elim failure [
        | none ↦ u
        | some e ↦ record u { calls = abandon_call (length s.calls.waiters) e u.calls }
      ]
