-- ===== src/Client/Run.antt =====
-- The actions of the reader loop, the callers and the dispatch loop, in any order.
use kimi_wire_go.Prelude.{
  ℕ, String, Bool, true, none, some, List, [], ◌∷◌, if◌then◌else◌, get_elem?, err,
}
use kimi_wire_go.Protocol.Jsonrpc.{RawWireMessage}
use kimi_wire_go.Client.{
  Call, take_response, Reader, reader_goes_on, sent, read_raw, finish_read, close_calls, Client,
  timeout_error, register_call, at_read, ClientRequest, reader_done, awaiting, ClientEnv, begin,
  CallState, has_returned,
}
use kimi_wire_go.Protocol.Message.{error_text, json_parse}
use kimi_wire_go.Client.Results.{call_outcome}
use kimi_wire_go.Prelude.Int.{pos}
use kimi_wire_go.Client.Dispatch.{cancel_dispatch, dispatch_next}

-- `dispatches` is an iteration of Dispatch that takes a message from dispatchCh.
pub data ClientAction (Raw : Type 0) : Type 0 where
  begins_call : ClientRequest Raw → ClientAction Raw
  registers : ℕ → ClientAction Raw
  takes : ℕ → ClientAction Raw
  expires : ℕ → String → ClientAction Raw
  concludes : ℕ → ClientAction Raw
  reads_raw : RawWireMessage Raw → ClientAction Raw
  reads_garbage : String → ClientAction Raw
  read_fails : String → ClientAction Raw
  goes_on : Bool → ClientAction Raw
  dispatches : ClientAction Raw
  dispatch_cancelled : String → ClientAction Raw
  stops : ClientAction Raw

module _ {Raw : Type 0} where
  -- What a step of a caller does depends on where its call stands.
  unfoldable pub register_at : ℕ → Call Raw → CallState Raw → Client Raw → Client Raw
  unfolding register_call
  register_at k w sent c = register_call k w c
  register_at k w _ c = c

  unfoldable pub take_at : ℕ → Call Raw → CallState Raw → Client Raw → Client Raw
  unfolding take_response
  take_at k w awaiting c = take_response k w c
  take_at k w _ c = c

  unfoldable pub expire_at : ℕ → String → Call Raw → CallState Raw → Client Raw → Client Raw
  unfolding finish_read
  expire_at k text w awaiting c = finish_read k w (err (timeout_error text)) c
  expire_at k text w _ c = c

  abbrev pub at_call : (Call Raw → Client Raw → Client Raw) → ℕ → Client Raw → Client Raw
  at_call f k c = elim (get_elem? c.calls k) [ none ↦ c | some w ↦ f w c ]

  -- The reader loop ends on an error of ReadLine, or on a line that does not parse.
  unfoldable pub end_reading : String → Reader Raw → Client Raw → Client Raw
  unfolding close_calls
  end_reading msg at_read c = record (close_calls msg c) { reader = reader_done }
  end_reading msg _ c = c

module _ {Raw : Type 0} (env : ClientEnv Raw) where
  -- The end of Initialize; other calls set nothing.
  unfoldable pub conclude_at : Call Raw → CallState Raw → Client Raw → Client Raw
  unfolding call_outcome
  conclude_at w (has_returned r) c =
      if (call_outcome env w.request r).1 then record c { handshake_done = true } else c
  conclude_at w _ c = c

  unfoldable pub client_step : ClientAction Raw → Client Raw → Client Raw
  unfolding begin register_at take_at expire_at conclude_at read_raw end_reading reader_goes_on
      dispatch_next cancel_dispatch error_text
  client_step (begins_call req) c = begin env req c
  client_step (registers k) c = at_call (λ w. register_at k w w.state) k c
  client_step (takes k) c = at_call (λ w. take_at k w w.state) k c
  client_step (expires k text) c = at_call (λ w. expire_at k text w w.state) k c
  client_step (concludes k) c = at_call (λ w. conclude_at w w.state) k c
  client_step (reads_raw raw) c = read_raw raw c.reader c
  client_step (reads_garbage text) c =
      end_reading
        (env.redact (
          error_text
            (record { kind = json_parse; message = text; cause = some text; code = pos 0 })))
        c.reader c
  client_step (read_fails text) c = end_reading (env.redact text) c.reader c
  client_step (goes_on first) c = reader_goes_on first c.reader c
  client_step dispatches c = dispatch_next env c.dispatch_end c.queue c
  client_step (dispatch_cancelled text) c = cancel_dispatch text c.dispatch_end c
  client_step stops c = record c { stop_closed = true }

  unfoldable pub client_run : List (ClientAction Raw) → Client Raw → Client Raw
  unfolding client_step
  client_run [] c = c
  client_run (a ∷ as_) c = client_run as_ (client_step a c)
