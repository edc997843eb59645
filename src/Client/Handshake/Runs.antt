-- ===== src/Client/Handshake/Runs.antt =====
-- handshakeDone in a run of the client.
use kimi_wire_go.Prelude.{
  ◌+◌, ◌%◌, ◌^◌, ◌≡◌, refl, sym, subst, ◌∙◌, true, Option, none, some, List, [], ◌∷◌, if_cases,
}
use kimi_wire_go.Client.{
  client_id, ClientError, state_after_write, Client, new_client, begin, ClientEnv, write_client,
  ClientRequest, call_message,
}
use kimi_wire_go.Client.Run.{
  client_run, reads_raw, take_at, goes_on, takes, expires, expire_at, registers, conclude_at, stops,
  ClientAction, begins_call, dispatches, read_fails, client_step, register_at, dispatch_cancelled,
  reads_garbage, concludes,
}
use kimi_wire_go.Client.Feed.{
  unspoken-dispatch_message, unspoken-after_dispatch, unspoken-cancel_dispatch, unspoken,
  unspoken-write_client,
}
use kimi_wire_go.Client.Handshake.Kept.{IsInitialized-append, IsExplained, IsInitialized}
use kimi_wire_go.Protocol.Jsonrpc.{RawWireMessage}
use kimi_wire_go.Client.Answers.{IsMatched-client_step, IsMatched-new_client}
use kimi_wire_go.Client.Matched.{IsMatched}
use kimi_wire_go.Client.Dispatch.{
  dispatch_next, dispatch_message, cancel_dispatch, is_reader_done, after_dispatch,
}
use kimi_wire_go.Client.Handshake.Moves.{
  IsExplained-reader_goes_on, IsExplained-read_raw, IsExplained-at_call, IsExplained-expire_at,
  IsExplained-end_reading, IsExplained-register_at, IsExplained-conclude_at, IsExplained-take_at,
}

module _ {Raw : Type 0} (env : ClientEnv Raw) where
  IsExplained-unspoken :
      (c d : Client Raw) → unspoken d ≡ unspoken c → IsExplained env c → IsExplained env d
  IsExplained-unspoken c d e i = subst (IsExplained env) (sym e) i

  IsExplained-begin :
      (req : ClientRequest Raw) (c : Client Raw)
      → IsExplained env c
      → IsExplained env (begin env req c)
  unfolding begin
  IsExplained-begin req c i h =
      let n = (c.request_counter + 1) % 2 ^ 64 in
      let r =
        write_client env (call_message (client_id n) req) (record c { request_counter = n }) in
      let before =
        IsExplained-unspoken (record c { request_counter = n }) r.0
          (unspoken-write_client env (call_message (client_id n) req)
            (record c { request_counter = n }))
          i in
      IsInitialized-append env r.0.calls
        (record { id = client_id n; request = req; buffer = none; state = state_after_write r.1 })
        (before h)

  IsExplained-dispatch_next :
      (e : Option (Option ClientError)) (q : List (RawWireMessage Raw)) (c : Client Raw)
      → IsExplained env c
      → IsExplained env (dispatch_next env e q c)
  unfolding dispatch_next
  IsExplained-dispatch_next none [] c i =
      if_cases (IsExplained env) (is_reader_done c.reader) (λ _. i) (λ _. i)
  IsExplained-dispatch_next none (raw ∷ rest) c i =
      let d : Client Raw = record c { queue = rest } in
      IsExplained-unspoken d (after_dispatch (dispatch_message env raw d))
        (unspoken-after_dispatch (dispatch_message env raw d) ∙ unspoken-dispatch_message env raw d)
        i
  IsExplained-dispatch_next (some r) q c i = i

  IsExplained-client_step :
      (a : ClientAction Raw) (c : Client Raw)
      → IsMatched c
      → IsExplained env c
      → IsExplained env (client_step env a c)
  unfolding client_step
  IsExplained-client_step (begins_call req) c m i = IsExplained-begin req c i
  IsExplained-client_step (registers k) c m i =
      IsExplained-at_call env (λ w. register_at k w w.state) k c
        (λ w at. IsExplained-register_at env k w w.state c at refl i) i
  IsExplained-client_step (takes k) c m i =
      IsExplained-at_call env (λ w. take_at k w w.state) k c
        (λ w at. IsExplained-take_at env k w w.state c at refl i) i
  IsExplained-client_step (expires k text) c m i =
      IsExplained-at_call env (λ w. expire_at k text w w.state) k c
        (λ w at. IsExplained-expire_at env k text w w.state c at refl i) i
  IsExplained-client_step (concludes k) c m i =
      IsExplained-at_call env (λ w. conclude_at env w w.state) k c
        (λ w at. IsExplained-conclude_at env k w w.state c at refl (m.faithful k w at) i) i
  IsExplained-client_step (reads_raw raw) c m i = IsExplained-read_raw env raw c.reader c i
  IsExplained-client_step (reads_garbage text) c m i = IsExplained-end_reading env _ c.reader c i
  IsExplained-client_step (read_fails text) c m i = IsExplained-end_reading env _ c.reader c i
  IsExplained-client_step (goes_on first) c m i = IsExplained-reader_goes_on env first c.reader c i
  IsExplained-client_step dispatches c m i = IsExplained-dispatch_next c.dispatch_end c.queue c i
  IsExplained-client_step (dispatch_cancelled text) c m i =
      IsExplained-unspoken c (cancel_dispatch text c.dispatch_end c)
        (unspoken-cancel_dispatch text c.dispatch_end c) i
  IsExplained-client_step stops c m i = i

  IsExplained-client_run :
      (as_ : List (ClientAction Raw)) (c : Client Raw)
      → IsMatched c
      → IsExplained env c
      → IsExplained env (client_run env as_ c)
  unfolding client_run
  IsExplained-client_run [] c m i = i
  IsExplained-client_run (a ∷ as_) c m i =
      IsExplained-client_run as_ (client_step env a c) (IsMatched-client_step env a c m)
        (IsExplained-client_step a c m i)

  -- However the reader loop, the callers and Dispatch are interleaved, if the handshake of a new client
  -- is done, a call of Initialize has returned with a response which has a result that decodes, or the
  -- error of a peer that does not know the method.
  pub handshake_done-client_run :
      (as_ : List (ClientAction Raw))
      → (client_run env as_ new_client).handshake_done ≡ true
      → IsInitialized env (client_run env as_ new_client).calls
  unfolding new_client
  handshake_done-client_run as_ h =
      IsExplained-client_run as_ new_client (IsMatched-new_client env) (λ n. absurd (cc n)) h
