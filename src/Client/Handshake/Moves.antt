-- ===== src/Client/Handshake/Moves.antt =====
-- handshakeDone and the steps of the callers and of the reader loop.
use kimi_wire_go.Prelude.{
  ℕ, String, ◌≡◌, ap, ◌∙◌, Bool, true, false, ◌||◌, some, ◌==◌, ltb, length, get_elem?, if_cases,
  option_cases, Result, ok, err,
}
use kimi_wire_go.Client.{
  answering, take_buffered, register_call, timeout_error, reader_goes_on, awaiting, send,
  ClientError, handing, Client, read_raw, sent, Reader, read_incoming, reader_done, take_response,
  Call, update_call, client_queue_capacity, at_read, ClientEnv, has_returned, closing_response,
  has_space, close_calls, read_response, CallState, finish_read,
}
use kimi_wire_go.Client.Run.{take_at, expire_at, conclude_at, at_call, register_at, end_reading}
use kimi_wire_go.Client.Handshake.Kept.{
  KeepsReturned-other, IsInitialized-send_all, IsExplained, KeepsReturned-send,
  IsInitialized-modify,
}
use kimi_wire_go.Prelude.Maps.{lookup}
use kimi_wire_go.Client.Results.{call_outcome}
use kimi_wire_go.Protocol.Jsonrpc.{RawWireMessage}
use kimi_wire_go.Client.Steps.{returns_drained, returns, awaits}
use kimi_wire_go.Client.Handshake.{call_outcome-Accepts}
use kimi_wire_go.Client.Matching.{IsFaithful}

module _ {Raw : Type 0} (env : ClientEnv Raw) where
  pub IsExplained-register_at :
      (k : ℕ) (w : Call Raw) (s : CallState Raw) (c : Client Raw)
      → get_elem? c.calls k ≡ some w
      → w.state ≡ s
      → IsExplained env c
      → IsExplained env (register_at k w s c)
  unfolding register_at register_call update_call
  IsExplained-register_at k w sent c at e i =
      option_cases (IsExplained env) (take_buffered w.id c.ooo_buffer)
        (λ _ h.
          IsInitialized-modify env c.calls k awaits
            (KeepsReturned-other env c.calls k awaits w at (λ r x. absurd (cc (e, x)))) (i h))
        (λ m _ h.
          IsInitialized-modify env c.calls k (returns (ok m.0))
            (KeepsReturned-other env c.calls k (returns (ok m.0)) w at (λ r x. absurd (cc (e, x))))
            (i h))
  IsExplained-register_at k w _ c at e i = i

  pub IsExplained-finish_read :
      (k : ℕ) (w : Call Raw) (r : Result ClientError (RawWireMessage Raw)) (c : Client Raw)
      → get_elem? c.calls k ≡ some w
      → w.state ≡ awaiting
      → IsExplained env c
      → IsExplained env (finish_read k w r c)
  unfolding finish_read update_call
  IsExplained-finish_read k w r c at e i h =
      IsInitialized-modify env c.calls k (returns_drained r)
        (KeepsReturned-other env c.calls k (returns_drained r) w at (λ q x. absurd (cc (e, x))))
        (i h)

  pub IsExplained-take_at :
      (k : ℕ) (w : Call Raw) (s : CallState Raw) (c : Client Raw)
      → get_elem? c.calls k ≡ some w
      → w.state ≡ s
      → IsExplained env c
      → IsExplained env (take_at k w s c)
  unfolding take_at take_response
  IsExplained-take_at k w awaiting c at e i =
      option_cases (IsExplained env) w.buffer (λ _. i)
        (λ m _. IsExplained-finish_read k w (ok m) c at e i)
  IsExplained-take_at k w _ c at e i = i

  pub IsExplained-expire_at :
      (k : ℕ) (text : String) (w : Call Raw) (s : CallState Raw) (c : Client Raw)
      → get_elem? c.calls k ≡ some w
      → w.state ≡ s
      → IsExplained env c
      → IsExplained env (expire_at k text w s c)
  unfolding expire_at
  IsExplained-expire_at k text w awaiting c at e i =
      IsExplained-finish_read k w (err (timeout_error text)) c at e i
  IsExplained-expire_at k text w _ c at e i = i

  pub IsExplained-conclude_at :
      (k : ℕ) (w : Call Raw) (s : CallState Raw) (c : Client Raw)
      → get_elem? c.calls k ≡ some w
      → w.state ≡ s
      → IsFaithful w
      → IsExplained env c
      → IsExplained env (conclude_at env w s c)
  unfolding conclude_at
  IsExplained-conclude_at k w (has_returned r) c at e own i =
      if_cases (IsExplained env) (call_outcome env w.request r).1
        (λ done h.
          let (p, m, req, got, acc) =
            call_outcome-Accepts env w.request r (λ x y. own.2 x (e ∙ ap has_returned y)) done in
          (k, w, p, m, at, req, e ∙ ap has_returned got, acc))
        (λ _. i)
  IsExplained-conclude_at k w _ c at e own i = i

  pub IsExplained-at_call :
      (f : Call Raw → Client Raw → Client Raw) (k : ℕ) (c : Client Raw)
      → ((w : Call Raw) → get_elem? c.calls k ≡ some w → IsExplained env (f w c))
      → IsExplained env c
      → IsExplained env (at_call f k c)
  IsExplained-at_call f k c h i =
      option_cases (IsExplained env) (get_elem? c.calls k) (λ _. i) (λ w at. h w at)

  pub IsExplained-read_raw :
      (raw : RawWireMessage Raw) (r : Reader Raw) (c : Client Raw)
      → IsExplained env c
      → IsExplained env (read_raw raw r c)
  unfolding read_raw read_response read_incoming
  IsExplained-read_raw raw at_read c i =
      if_cases (IsExplained env) (raw.method == "")
        (λ _. option_cases (IsExplained env) (lookup raw.id c.pending) (λ _. i) (λ k e. i))
        (λ _.
          if_cases (IsExplained env) (raw.method == "event" || raw.method == "request") (λ _. i)
            (λ _. i))
  IsExplained-read_raw raw _ c i = i

  pub IsExplained-reader_goes_on :
      (first : Bool) (r : Reader Raw) (c : Client Raw)
      → IsExplained env c
      → IsExplained env (reader_goes_on first r c)
  unfolding reader_goes_on update_call
  IsExplained-reader_goes_on first at_read c i = i
  IsExplained-reader_goes_on first reader_done c i = i
  IsExplained-reader_goes_on true (handing raw) c i =
      if_cases (IsExplained env) (ltb (length c.queue) client_queue_capacity) (λ _. i) (λ _. i)
  IsExplained-reader_goes_on false (handing raw) c i =
      if_cases (IsExplained env) c.stop_closed (λ _. i) (λ _. i)
  IsExplained-reader_goes_on true (answering raw k) c i =
      option_cases (IsExplained env) (get_elem? c.calls k) (λ _. i)
        (λ w at.
          if_cases (IsExplained env) (has_space w)
            (λ _ h.
              IsInitialized-modify env c.calls k (send raw) (KeepsReturned-send env c.calls k raw)
                (i h))
            (λ _. i))
  IsExplained-reader_goes_on false (answering raw k) c i =
      if_cases (IsExplained env) c.stop_closed (λ _. i) (λ _. i)

  pub IsExplained-end_reading :
      (msg : String) (r : Reader Raw) (c : Client Raw)
      → IsExplained env c
      → IsExplained env (end_reading msg r c)
  unfolding end_reading close_calls
  IsExplained-end_reading msg at_read c i =
      λ h. IsInitialized-send_all env (closing_response msg) c.pending c.calls (i h)
  IsExplained-end_reading msg _ c i = i
