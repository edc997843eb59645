-- ===== src/Client/Answers.antt =====
-- A call returns with the response to its own request.
use mathlib.Core.Option
use kimi_wire_go.Client.Matching.{HandsRight, IsFor, Matches-append}
use kimi_wire_go.Prelude.{
  ℕ, ◌≡◌, refl, some, List, [], ◌∷◌, get_elem?, ok, ◌∙◌, Option, none, if_cases, ◌+◌, ◌%◌, ◌^◌,
  String, sym, ap, false, arith, option_cases, err,
}
use kimi_wire_go.Client.{
  Call, Client, CallState, has_returned, begin, ClientError, ClientRequest, write_client, ClientEnv,
  state_after_write, client_id, new_client, call_message, other_error, ClientMessage, wire_error,
}
use kimi_wire_go.Client.Run.{
  take_at, expire_at, register_at, dispatch_cancelled, goes_on, reads_raw, read_fails, concludes,
  registers, dispatches, client_step, begins_call, ClientAction, reads_garbage, conclude_at,
  expires, stops, takes, client_run,
}
use kimi_wire_go.Protocol.Jsonrpc.{RawWireMessage}
use kimi_wire_go.Client.Feed.{
  unspoken-dispatch_message, unspoken-cancel_dispatch, unspoken-after_dispatch,
  unspoken-write_client,
}
use kimi_wire_go.Client.Dispatch.{
  dispatch_message, after_dispatch, cancel_dispatch, dispatch_next, is_reader_done,
}
use kimi_wire_go.Client.Results.{call_outcome, says_method_not_found}
use kimi_wire_go.Client.Matched.{
  IsMatched-register_at, IsMatched-take_at, IsMatched-end_reading, IsMatched, IsMatched-unspoken,
  IsMatched-expire_at, IsMatched-read_raw, IsMatched-at_call, IsMatched-reader_goes_on,
}
use kimi_wire_go.Prelude.Maps.{lookup}
use kimi_wire_go.Prelude.Int.{pos}
use kimi_wire_go.Protocol.Message.{json_serialize}

module _ {Raw : Type 0} (env : ClientEnv Raw) where
  -- An error of writeMessage is one of encoding/json or of the transport.
  write_client-error :
      (m : ClientMessage Raw) (c : Client Raw) (x : ClientError)
      → (write_client env m c).1 ≡ some x
      → says_method_not_found x ≡ false
  unfolding write_client
  write_client-error m c x =
      option_cases
        (λ (r : Client Raw × Option ClientError). r.1 ≡ some x → says_method_not_found x ≡ false)
        (env.marshal m) (λ _. written_error (env.write_line c.written m))
        (λ e _ h.
          same_error
            (wire_error
              (record { kind = json_serialize; message = e; cause = some e; code = pos 0 }))
            x h refl)
    where
      same_error :
          (a b : ClientError)
          → some a ≡ some b
          → says_method_not_found a ≡ false
          → says_method_not_found b ≡ false
      same_error a b h n =
          let same : a ≡ b = ground arith in ap says_method_not_found (sym same) ∙ n

      written_error :
          (o : Option String) → Option.map other_error o ≡ some x → says_method_not_found x ≡ false
      written_error none h = absurd (cc h)
      written_error (some t) h =
          let same : other_error t ≡ x = ground arith in ap says_method_not_found (sym same)

  IsMatched-begin :
      (req : ClientRequest Raw) (c : Client Raw) → IsMatched c → IsMatched (begin env req c)
  unfolding begin write_client
  IsMatched-begin req c m =
      let n = (c.request_counter + 1) % 2 ^ 64 in
      let r =
        write_client env (call_message (client_id n) req) (record c { request_counter = n }) in
      Matches-append
        (record { id = client_id n; request = req; buffer = none; state = state_after_write r.1 })
        (
          (λ msg e. absurd (cc e)),
          (λ msg e. absurd (no_answer r.1 msg e)),
          own_error r.1 (
              write_client-error (call_message (client_id n) req)
                (record c { request_counter = n })),
        )
        (IsMatched-unspoken (record c { request_counter = n }) r.0
          (unspoken-write_client env (call_message (client_id n) req)
            (record c { request_counter = n }))
          m)
    where
      no_answer :
          (o : Option ClientError) (msg : RawWireMessage Raw)
          → state_after_write o ≡ has_returned (ok msg)
          → ⊥
      no_answer none msg e = cc e
      no_answer (some x) msg e = cc e

      own_error :
          (o : Option ClientError)
          → ((x : ClientError) → o ≡ some x → says_method_not_found x ≡ false)
          → (x : ClientError) → state_after_write {Raw = Raw} o ≡ has_returned (err x)
          → says_method_not_found x ≡ false
      own_error none h x e = absurd (cc e)
      own_error (some y) h x e = h x (ground arith)

  IsMatched-dispatch_next :
      (e : Option (Option ClientError)) (q : List (RawWireMessage Raw)) (c : Client Raw)
      → IsMatched c
      → IsMatched (dispatch_next env e q c)
  unfolding dispatch_next
  IsMatched-dispatch_next none [] c m =
      if_cases IsMatched (is_reader_done c.reader) (λ _. m) (λ _. m)
  IsMatched-dispatch_next none (raw ∷ rest) c m =
      let d : Client Raw = record c { queue = rest } in
      IsMatched-unspoken d (after_dispatch (dispatch_message env raw d))
        (unspoken-after_dispatch (dispatch_message env raw d) ∙ unspoken-dispatch_message env raw d)
        m
  IsMatched-dispatch_next (some r) q c m = m

  IsMatched-conclude_at :
      (w : Call Raw) (s : CallState Raw) (c : Client Raw)
      → IsMatched c
      → IsMatched (conclude_at env w s c)
  unfolding conclude_at
  IsMatched-conclude_at w (has_returned r) c m =
      if_cases IsMatched (call_outcome env w.request r).1 (λ _. m) (λ _. m)
  IsMatched-conclude_at w _ c m = m

  pub IsMatched-client_step :
      (a : ClientAction Raw) (c : Client Raw) → IsMatched c → IsMatched (client_step env a c)
  unfolding client_step conclude_at
  IsMatched-client_step (begins_call req) c m = IsMatched-begin req c m
  IsMatched-client_step (registers k) c m =
      IsMatched-at_call (λ w. register_at k w w.state) k c
        (λ w at. IsMatched-register_at k w w.state c at m) m
  IsMatched-client_step (takes k) c m =
      IsMatched-at_call (λ w. take_at k w w.state) k c
        (λ w at. IsMatched-take_at k w w.state c at m) m
  IsMatched-client_step (expires k text) c m =
      IsMatched-at_call (λ w. expire_at k text w w.state) k c
        (λ w at. IsMatched-expire_at k text w w.state c m) m
  IsMatched-client_step (concludes k) c m =
      IsMatched-at_call (λ w. conclude_at env w w.state) k c
        (λ w at. IsMatched-conclude_at w w.state c m) m
  IsMatched-client_step (reads_raw raw) c m = IsMatched-read_raw raw c.reader c m
  IsMatched-client_step (reads_garbage text) c m = IsMatched-end_reading _ c.reader c m
  IsMatched-client_step (read_fails text) c m = IsMatched-end_reading _ c.reader c m
  IsMatched-client_step (goes_on first) c m = IsMatched-reader_goes_on first c.reader c refl m
  IsMatched-client_step dispatches c m = IsMatched-dispatch_next c.dispatch_end c.queue c m
  IsMatched-client_step (dispatch_cancelled text) c m =
      IsMatched-unspoken c (cancel_dispatch text c.dispatch_end c)
        (unspoken-cancel_dispatch text c.dispatch_end c) m
  IsMatched-client_step stops c m = m

  IsMatched-client_run :
      (as_ : List (ClientAction Raw)) (c : Client Raw)
      → IsMatched c
      → IsMatched (client_run env as_ c)
  unfolding client_run
  IsMatched-client_run [] c m = m
  IsMatched-client_run (a ∷ as_) c m =
      IsMatched-client_run as_ (client_step env a c) (IsMatched-client_step a c m)

  pub IsMatched-new_client : IsMatched (new_client {Raw = Raw})
  unfolding new_client HandsRight lookup
  IsMatched-new_client = record {
    registered = λ id k e. absurd (cc e);
    handed = tt;
    faithful = λ k w e. absurd (cc e);
  }

  -- However the reader loop, the callers and Dispatch are interleaved, if a call of a new client
  -- has returned a message, it is a response with the call's own id, or the message that closePending
  -- sends when the reader loop ends.
  pub IsFor-client_run :
      (as_ : List (ClientAction Raw)) (k : ℕ) (w : Call Raw) (m : RawWireMessage Raw)
      → get_elem? (client_run env as_ new_client).calls k ≡ some w
      → w.state ≡ has_returned (ok m)
      → IsFor w.id m
  IsFor-client_run as_ k w m at done =
      ((IsMatched-client_run as_ new_client IsMatched-new_client).faithful k w at).1 m done
