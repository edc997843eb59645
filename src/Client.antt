-- ===== src/Client.antt =====
-- client.go: the state of a Client, its calls, its reader loop, and Shutdown. dispatch.go is in
-- Client/Dispatch. A call is what Initialize, Prompt, Replay, Steer, SetPlanMode and Cancel do; the
-- reader loop, the dispatch loop and the callers are interleaved, one function for each stretch
-- between two points where another may act.
pub mod Results
pub mod Dispatch
pub mod Run
pub mod Steps
pub mod Order
pub mod Handshake
pub mod Feed
pub mod Matching
pub mod Matched
pub mod Answers
pub mod Moves
pub mod Fifo
use kimi_wire_go.Prelude.{
  ℕ, ◌+◌, ◌%◌, ◌^◌, String, Bool, true, false, ◌||◌, Option, none, some, List, [], ◌∷◌, ◌++◌, ◌==◌,
  ltb, if◌then◌else◌, length, get_elem?, modify, Result, ok, err,
}
use kimi_wire_go.Protocol.Message.{json_serialize, ErrorKind, WireError}
use kimi_wire_go.Prelude.Int.{ℤ, pos, negsuc}
use kimi_wire_go.Protocol.Method.{
  InitializeParams, SetPlanModeResult, PromptResult, SteerResult, ReplayResult, InitializeResult,
}
use kimi_wire_go.Prelude.Maps.{insert, delete, lookup}
use kimi_wire_go.Protocol.Content.{UserInput}
use kimi_wire_go.Prelude.Decimal.{decimal}
use kimi_wire_go.Protocol.Jsonrpc.{RawWireMessage}
use Prim.Native.String.{◌++◌ as str_append}
use kimi_wire_go.Protocol.Event.{Event}
use kimi_wire_go.Protocol.Request.{Request}
use kimi_wire_go.Protocol.Codec.{Codecs}
use mathlib.Core.Option

-- The calls with their params.
pub data ClientRequest (Raw : Type 0) : Type 0 where
  initialize : InitializeParams Raw → ClientRequest Raw
  prompt : UserInput → ClientRequest Raw
  replay : ClientRequest Raw
  steer : UserInput → ClientRequest Raw
  set_plan_mode : Bool → ClientRequest Raw
  cancel : ClientRequest Raw

-- The field Method of the request that is written.
unfoldable pub method_name : {Raw : Type 0} → ClientRequest Raw → String
method_name (ClientRequest.initialize p) = "initialize"
method_name (ClientRequest.prompt input) = "prompt"
method_name ClientRequest.replay = "replay"
method_name (ClientRequest.steer input) = "steer"
method_name (ClientRequest.set_plan_mode enabled) = "set_plan_mode"
method_name ClientRequest.cancel = "cancel"

-- A message that is handed to the transport.
pub data ClientMessage (Raw : Type 0) : Type 0 where
  call_message : String → ClientRequest Raw → ClientMessage Raw
  response_message : String → Raw → ClientMessage Raw
  error_message : String → ℤ → String → ClientMessage Raw
  raw_message : RawWireMessage Raw → ClientMessage Raw

-- A *WireError, or another error with its text.
pub data ClientError : Type 0 where
  wire_error : WireError → ClientError
  other_error : String → ClientError

-- Where a call stands: its request is written, it waits in the select of readResponse, or
-- readResponse has its message.
pub data CallState (Raw : Type 0) : Type 0 where
  sent awaiting : CallState Raw
  has_returned : Result ClientError (RawWireMessage Raw) → CallState Raw

-- `buffer` is the content of the call's channel, which holds one value.
pub record Call (Raw : Type 0) : Type 0 where
  pub id : String
  pub request : ClientRequest Raw
  pub buffer : Option (RawWireMessage Raw)
  pub state : CallState Raw

-- Where the reader loop stands: before ReadLine, in the select that hands a message to the dispatch
-- loop or to a call, or at its end.
pub data Reader (Raw : Type 0) : Type 0 where
  at_read reader_done : Reader Raw
  handing : RawWireMessage Raw → Reader Raw
  answering : RawWireMessage Raw → ℕ → Reader Raw

-- A channel of a call is an index into `calls`. `stop_closed` is whether stopCh is closed, `queue` the
-- content of dispatchCh, which is closed when the reader loop is done, and `dispatch_end` what
-- Dispatch has returned on this client, if it has.
pub record Client (Raw : Type 0) : Type 0 where
  pub request_counter : ℕ
  pub pending : List (String × ℕ)
  pub calls : List (Call Raw)
  pub ooo_buffer : List (RawWireMessage Raw)
  pub handshake_done : Bool
  pub reader : Reader Raw
  pub queue : List (RawWireMessage Raw)
  pub stop_closed : Bool
  pub written : List (ClientMessage Raw)
  pub dispatch_end : Option (Option ClientError)

-- encoding/json for the result of each call.
pub record ResultCodecs (Raw : Type 0) : Type 0 where
  pub initialize_result : Raw → Result String InitializeResult
  pub prompt_result : Raw → Result String PromptResult
  pub replay_result : Raw → Result String ReplayResult
  pub steer_result : Raw → Result String SteerResult
  pub set_plan_mode_result : Raw → Result String SetPlanModeResult
  pub cancel_result : Raw → Result String (Unit {0})

-- encoding/json, the transport, the redaction of texts, and the Handler that Dispatch is given.
pub record ClientEnv (Raw : Type 0) : Type 0 where
  pub marshal : ClientMessage Raw → Option String
  pub write_line : List (ClientMessage Raw) → ClientMessage Raw → Option String
  pub redact : String → String
  pub results : ResultCodecs Raw
  pub json : Codecs Raw
  pub handle_event : Event Raw → Option String
  pub handle_request : Request Raw → Result String Raw

-- The error of a call whose context is done.
abbrev pub timeout_error : String → ClientError
timeout_error text =
    wire_error
      (record { kind = ErrorKind.timeout; message = text; cause = some text; code = pos 0 })

abbrev pub state_after_write : {Raw : Type 0} → Option ClientError → CallState Raw
state_after_write none = sent
state_after_write (some e) = has_returned (err e)

-- NewClient starts the reader loop on this state.
unfoldable pub new_client : {Raw : Type 0} → Client Raw
new_client = record {
  request_counter = 0;
  pending = [];
  calls = [];
  ooo_buffer = [];
  handshake_done = false;
  reader = at_read;
  queue = [];
  stop_closed = false;
  written = [];
  dispatch_end = none;
}

-- The capacity of dispatchCh.
abbrev pub client_queue_capacity : ℕ
client_queue_capacity = 1024

-- nextID
unfoldable pub client_id : ℕ → String
client_id n = str_append "req-" (decimal n)

module _ {Raw : Type 0} where
  -- A send on the channel of a call, where there is room.
  abbrev pub send : RawWireMessage Raw → Call Raw → Call Raw
  send raw w = elim w.buffer [ none ↦ record w { buffer = some raw } | some old ↦ w ]

  abbrev pub has_space : Call Raw → Bool
  has_space w = elim w.buffer [ none ↦ true | some old ↦ false ]

  unfoldable pub update_call : ℕ → (Call Raw → Call Raw) → Client Raw → Client Raw
  update_call k f c = record c { calls = modify c.calls k f }

  -- The message that closePending puts into each channel, with its text redacted.
  abbrev pub closing_response : String → RawWireMessage Raw
  closing_response msg = record {
    jsonrpc = "";
    id = "";
    method = "";
    params = none;
    result = none;
    error = some (record { code = negsuc 0; message = msg; raw_data = none });
  }

  unfoldable pub send_all :
      RawWireMessage Raw → List (String × ℕ) → List (Call Raw) → List (Call Raw)
  send_all raw [] ws = ws
  send_all raw ((id, k) ∷ m) ws = send_all raw m (modify ws k (send raw))

  unfoldable pub close_calls : String → Client Raw → Client Raw
  unfolding send_all
  close_calls msg c = record c {
    pending = [];
    calls = send_all (closing_response msg) c.pending c.calls;
  }

  -- A message with a method: events and requests are for the dispatch loop, others are dropped.
  unfoldable pub read_incoming : RawWireMessage Raw → Client Raw → Client Raw
  read_incoming raw c =
      if raw.method == "event" || raw.method == "request"
      then record c { reader = handing raw }
      else c

  -- A response: to the call that waits for it, or else into the buffer.
  unfoldable pub read_response : RawWireMessage Raw → Client Raw → Client Raw
  unfolding lookup
  read_response raw c = elim (lookup raw.id c.pending) [
    | some k ↦ record c { reader = answering raw k }
    | none ↦ record c { ooo_buffer = c.ooo_buffer ++ raw ∷ [] }
  ]

  -- A line that parses.
  unfoldable pub read_raw : RawWireMessage Raw → Reader Raw → Client Raw → Client Raw
  unfolding read_incoming read_response
  read_raw raw at_read c = if raw.method == "" then read_response raw c else read_incoming raw c
  read_raw raw _ c = c

  -- The reader loop goes on in the select in which it stands; `first` says which case it tries.
  unfoldable pub reader_goes_on : Bool → Reader Raw → Client Raw → Client Raw
  unfolding update_call
  reader_goes_on first at_read c = c
  reader_goes_on first reader_done c = c
  reader_goes_on true (handing raw) c =
      if ltb (length c.queue) client_queue_capacity
      then record c { reader = at_read; queue = c.queue ++ raw ∷ [] }
      else c
  reader_goes_on false (handing raw) c =
      if c.stop_closed then record c { reader = reader_done } else c
  reader_goes_on true (answering raw k) c = elim (get_elem? c.calls k) [
    | none ↦ c
    | some w ↦ if has_space w then update_call k (send raw) (record c { reader = at_read }) else c
  ]
  reader_goes_on false (answering raw k) c =
      if c.stop_closed then record c { reader = reader_done } else c

  -- The first buffered message with this id, and the buffer without it.
  unfoldable pub take_buffered :
      String → List (RawWireMessage Raw) → Option (RawWireMessage Raw × List (RawWireMessage Raw))
  take_buffered id [] = none
  take_buffered id (m ∷ ms) =
      let rest = take_buffered id ms in
      if m.id == id then some (m, ms) else Option.map (λ r. (r.0, m ∷ r.1)) rest

  -- The locked part of readResponse.
  unfoldable pub register_call : ℕ → Call Raw → Client Raw → Client Raw
  unfolding take_buffered insert update_call
  register_call k w c = elim (take_buffered w.id c.ooo_buffer) [
    | some (msg, rest) ↦
        update_call k (λ v. record v { state = has_returned (ok msg) })
          (record c { ooo_buffer = rest })
    | none ↦
        update_call k (λ v. record v { state = awaiting })
          (record c { pending = insert w.id k c.pending })
  ]

  -- The deferred function of readResponse, and what it returns.
  unfoldable pub finish_read :
      ℕ → Call Raw → Result ClientError (RawWireMessage Raw) → Client Raw → Client Raw
  unfolding delete update_call
  finish_read k w r c =
      update_call k (λ v. record v { buffer = none; state = has_returned r })
        (record c { pending = delete w.id c.pending })

  -- The two cases of the select in readResponse: a message, and a context that is done.
  unfoldable pub take_response : ℕ → Call Raw → Client Raw → Client Raw
  unfolding finish_read
  take_response k w c = elim w.buffer [ none ↦ c | some msg ↦ finish_read k w (ok msg) c ]

module _ {Raw : Type 0} (env : ClientEnv Raw) where
  -- writeMessage
  unfoldable pub write_client : ClientMessage Raw → Client Raw → Client Raw × Option ClientError
  write_client m c = elim (env.marshal m) [
    | some e ↦ (
      c,
      some (
          wire_error (record { kind = json_serialize; message = e; cause = some e; code = pos 0 })),
    )
    | none ↦ (
      record c { written = c.written ++ m ∷ [] },
      Option.map other_error (env.write_line c.written m),
    )
  ]

  -- nextID, and the call up to readResponse. Its record is there from the start, and has no channel
  -- before readResponse.
  unfoldable pub begin : ClientRequest Raw → Client Raw → Client Raw
  unfolding client_id write_client
  begin req c =
      let n = (c.request_counter + 1) % 2 ^ 64 in
      let (d, failure) =
        write_client (call_message (client_id n) req) (record c { request_counter = n }) in
      record d {
        calls =
            d.calls
            ++ record {
              id = client_id n;
              request = req;
              buffer = none;
              state = state_after_write failure;
            }
              ∷ [];
      }
