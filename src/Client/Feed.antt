-- ===== src/Client/Feed.antt =====
-- The way of events and requests from the reader loop to Dispatch: the message in the reader's hands,
-- and dispatchCh.
use kimi_wire_go.Prelude.{
  ℕ, ◌+◌, ◌%◌, ◌^◌, String, ◌≡◌, refl, Bool, ◌||◌, Option, none, some, List, [], ◌∷◌, ◌++◌, ◌==◌,
  if◌then◌else◌, get_elem?, if_cases, option_cases, result_cases, ap,
}
use kimi_wire_go.Client.{
  write_client, ClientMessage, has_returned, ClientEnv, call_message, take_response, at_read,
  finish_read, sent, ClientRequest, Client, take_buffered, CallState, client_id, begin, handing,
  Reader, update_call, awaiting, ClientError, Call, register_call,
}
use kimi_wire_go.Protocol.Jsonrpc.{RawWireMessage}
use kimi_wire_go.Client.Run.{
  take_at, conclude_at, client_step, at_call, reads_raw, expire_at, dispatches, ClientAction,
  register_at,
}
use kimi_wire_go.Protocol.Message.{parse_wire_message, WireMessage, request_message, event_message}
use kimi_wire_go.Client.Dispatch.{
  send_client_error, after_dispatch, dispatch_message, send_client_response, cancel_dispatch,
  handle_message,
}
use kimi_wire_go.Client.Results.{call_outcome}

module _ {Raw : Type 0} where
  -- The message that the reader loop is about to put into dispatchCh.
  unfoldable pub in_hand : Reader Raw → List (RawWireMessage Raw)
  in_hand (handing raw) = raw ∷ []
  in_hand _ = []

  -- What is on the way, the oldest first.
  abbrev pub backlog : Client Raw → List (RawWireMessage Raw)
  backlog c = c.queue ++ in_hand c.reader

  -- The event or request that a step accepts from the transport.
  unfoldable pub accepted_at : ClientAction Raw → Reader Raw → List (RawWireMessage Raw)
  accepted_at (reads_raw raw) at_read =
      if raw.method == "event" || raw.method == "request" then raw ∷ [] else []
  accepted_at _ _ = []

  -- The message that a step takes from dispatchCh.
  unfoldable pub dispatched_at :
      ClientAction Raw
      → Option (Option ClientError)
      → List (RawWireMessage Raw)
      → List (RawWireMessage Raw)
  dispatched_at dispatches none (raw ∷ rest) = raw ∷ []
  dispatched_at _ _ _ = []

  -- The client without what it has written and what Dispatch has returned.
  abbrev pub unspoken : Client Raw → Client Raw
  unspoken c = record c { written = []; dispatch_end = none }

  -- The parts of the state that the way consists of.
  abbrev pub feed : Client Raw → List (RawWireMessage Raw) × Reader Raw × Bool
  feed c = (c.queue, c.reader, c.stop_closed)

module _ {Raw : Type 0} (env : ClientEnv Raw) where
  unfoldable pub accepted_messages :
      List (ClientAction Raw) → Client Raw → List (RawWireMessage Raw)
  unfolding accepted_at client_step
  accepted_messages [] c = []
  accepted_messages (a ∷ as_) c =
      accepted_at a c.reader ++ accepted_messages as_ (client_step env a c)

  unfoldable pub dispatched_messages :
      List (ClientAction Raw) → Client Raw → List (RawWireMessage Raw)
  unfolding dispatched_at client_step
  dispatched_messages [] c = []
  dispatched_messages (a ∷ as_) c =
      dispatched_at a c.dispatch_end c.queue ++ dispatched_messages as_ (client_step env a c)

  pub unspoken-write_client :
      (m : ClientMessage Raw) (c : Client Raw) → unspoken (write_client env m c).0 ≡ unspoken c
  unfolding write_client
  unspoken-write_client m c =
      option_cases (λ (r : Client Raw × Option ClientError). unspoken r.0 ≡ unspoken c)
        (env.marshal m) (λ _. refl) (λ _ _. refl)

  pub feed-begin : (req : ClientRequest Raw) (c : Client Raw) → feed (begin env req c) ≡ feed c
  unfolding begin
  feed-begin req c =
      let n = (c.request_counter + 1) % 2 ^ 64 in
      ap feed
        (unspoken-write_client (call_message (client_id n) req) (record c { request_counter = n }))

  pub unspoken-handle_message :
      (m : WireMessage Raw) (c : Client Raw) → unspoken (handle_message env m c).0 ≡ unspoken c
  unfolding handle_message send_client_response send_client_error
  unspoken-handle_message (event_message j m e) c = refl
  unspoken-handle_message (request_message j m id req) c =
      result_cases (λ (r : Client Raw × Option ClientError). unspoken r.0 ≡ unspoken c)
        (env.handle_request req) (λ _ _. unspoken-write_client _ c)
        (λ _ _. unspoken-write_client _ c)
  unspoken-handle_message _ c = refl

  pub unspoken-dispatch_message :
      (raw : RawWireMessage Raw) (c : Client Raw)
      → unspoken (dispatch_message env raw c).0 ≡ unspoken c
  unfolding dispatch_message
  unspoken-dispatch_message raw c =
      result_cases (λ (r : Client Raw × Option ClientError). unspoken r.0 ≡ unspoken c)
        (parse_wire_message env.json raw) (λ _ _. refl) (λ m _. unspoken-handle_message m c)

module _ {Raw : Type 0} where
  pub unspoken-after_dispatch :
      (r : Client Raw × Option ClientError) → unspoken (after_dispatch r) ≡ unspoken r.0
  unfolding after_dispatch
  unspoken-after_dispatch (c, none) = refl
  unspoken-after_dispatch (c, some e) = refl

  pub unspoken-cancel_dispatch :
      (text : String) (e : Option (Option ClientError)) (c : Client Raw)
      → unspoken (cancel_dispatch text e c) ≡ unspoken c
  unfolding cancel_dispatch
  unspoken-cancel_dispatch text none c = refl
  unspoken-cancel_dispatch text (some r) c = refl

  pub feed-register_at :
      (k : ℕ) (w : Call Raw) (s : CallState Raw) (c : Client Raw)
      → feed (register_at k w s c) ≡ feed c
  unfolding register_at register_call update_call
  feed-register_at k w sent c =
      option_cases (λ (d : Client Raw). feed d ≡ feed c) (take_buffered w.id c.ooo_buffer)
        (λ _. refl) (λ _ _. refl)
  feed-register_at k w _ c = refl

  pub feed-take_at :
      (k : ℕ) (w : Call Raw) (s : CallState Raw) (c : Client Raw) → feed (take_at k w s c) ≡ feed c
  unfolding take_at take_response finish_read update_call
  feed-take_at k w awaiting c =
      option_cases (λ (d : Client Raw). feed d ≡ feed c) w.buffer (λ _. refl) (λ _ _. refl)
  feed-take_at k w _ c = refl

  pub feed-expire_at :
      (k : ℕ) (text : String) (w : Call Raw) (s : CallState Raw) (c : Client Raw)
      → feed (expire_at k text w s c) ≡ feed c
  unfolding expire_at finish_read update_call
  feed-expire_at k text w awaiting c = refl
  feed-expire_at k text w _ c = refl

  pub feed-at_call :
      (f : Call Raw → Client Raw → Client Raw) (k : ℕ) (c : Client Raw)
      → ((w : Call Raw) → feed (f w c) ≡ feed c)
      → feed (at_call f k c) ≡ feed c
  feed-at_call f k c h =
      option_cases (λ (d : Client Raw). feed d ≡ feed c) (get_elem? c.calls k) (λ _. refl)
        (λ w _. h w)

module _ {Raw : Type 0} (env : ClientEnv Raw) where
  pub feed-conclude_at :
      (w : Call Raw) (s : CallState Raw) (c : Client Raw) → feed (conclude_at env w s c) ≡ feed c
  unfolding conclude_at
  feed-conclude_at w (has_returned r) c =
      if_cases (λ (d : Client Raw). feed d ≡ feed c) (call_outcome env w.request r).1 (λ _. refl)
        (λ _. refl)
  feed-conclude_at w _ c = refl
