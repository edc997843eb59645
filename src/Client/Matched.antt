-- ===== src/Client/Matched.antt =====
-- The steps of the reader loop and of the callers keep the calls and their messages matched.
use kimi_wire_go.Client.Matching.{
  Matches-modify, Matches-insert, Matches-delete, HandsRight, Matches, IsFor, Holds,
  AreFaithful-send_all, id-send, IsFaithful-send,
}
use kimi_wire_go.Prelude.{
  ℕ, String, ◌≡◌, refl, sym, subst, some, List, get_elem?, option_cases, ok, err, ap, ◌∙◌, inl,
  arith, ◌==◌, if_cases, Bool, true, false, ◌||◌, ltb, length,
}
use kimi_wire_go.Client.{
  take_buffered, Call, Client, sent, update_call, Reader, take_response, CallState, register_call,
  timeout_error, awaiting, finish_read, has_returned, read_raw, reader_done, answering, at_read,
  handing, has_space, send, client_queue_capacity, read_incoming, reader_goes_on, read_response,
  close_calls,
}
use kimi_wire_go.Client.Run.{take_at, at_call, expire_at, register_at, end_reading}
use kimi_wire_go.Client.Steps.{returns, awaits, returns_drained}
use kimi_wire_go.Protocol.Jsonrpc.{RawWireMessage}
use kimi_wire_go.Client.Feed.{unspoken}
use kimi_wire_go.Prelude.Maps.{lookup}
use kimi_wire_go.Client.Results.{says_method_not_found}
use kimi_wire_go.Client.Order.{take_buffered_id}

module _ {Raw : Type 0} where
  abbrev pub IsMatched : Client Raw → Type 0
  IsMatched c = Matches c.calls c.pending c.reader

  pub IsMatched-unspoken : (c d : Client Raw) → unspoken d ≡ unspoken c → IsMatched c → IsMatched d
  IsMatched-unspoken c d e m = subst IsMatched (sym e) m

  -- A reader loop that holds no response.
  pub Matches-at_reader :
      {ws : List (Call Raw)} {m : List (String × ℕ)} {r : Reader Raw} (r' : Reader Raw)
      → HandsRight ws r'
      → Matches ws m r
      → Matches ws m r'
  Matches-at_reader r' right all = record {
    registered = all.registered;
    handed = right;
    faithful = all.faithful;
  }

  -- The message of a call that has returned.
  returned_own :
      (id : String) (m msg : RawWireMessage Raw)
      → IsFor id m
      → has_returned (ok m) ≡ has_returned (ok msg)
      → IsFor id msg
  returned_own id m msg own e = subst (IsFor id) (ground arith) own

  pub one_call :
      (ws : List (Call Raw)) (k : ℕ) (w v : Call Raw)
      → get_elem? ws k ≡ some w
      → get_elem? ws k ≡ some v
      → w ≡ v
  one_call ws k w v h h' = ground arith

  pub IsMatched-register_at :
      (k : ℕ) (w : Call Raw) (s : CallState Raw) (c : Client Raw)
      → get_elem? c.calls k ≡ some w
      → IsMatched c
      → IsMatched (register_at k w s c)
  unfolding register_at register_call update_call
  IsMatched-register_at k w sent c at m =
      option_cases IsMatched (take_buffered w.id c.ooo_buffer)
        (λ _.
          Matches-modify k awaits (λ _. refl)
            (λ v _ f. (f.0, (λ msg e. absurd (cc e)), λ x e. absurd (cc e)))
            (Matches-insert w.id k (w, at, refl) m))
        (λ r taken.
          Matches-modify k (returns (ok r.0)) (λ _. refl)
            (λ v at' f. (
              f.0,
              (λ msg e.
                  returned_own v.id r.0 msg
                    (inl (
                      take_buffered_id w.id c.ooo_buffer r taken
                      ∙ ap (λ (u : Call Raw). u.id) (one_call c.calls k w v at at')))
                    e),
              λ x e. absurd (cc e),
            ))
            m)
  IsMatched-register_at k w _ c at m = m

  pub IsMatched-take_at :
      (k : ℕ) (w : Call Raw) (s : CallState Raw) (c : Client Raw)
      → get_elem? c.calls k ≡ some w
      → IsMatched c
      → IsMatched (take_at k w s c)
  unfolding take_at take_response finish_read update_call
  IsMatched-take_at k w awaiting c at m =
      option_cases IsMatched w.buffer (λ _. m)
        (λ msg held.
          Matches-modify k (returns_drained (ok msg)) (λ _. refl)
            (λ v at' f. (
              (λ msg e. absurd (cc e)),
              (λ msg' e.
                  returned_own v.id msg msg'
                    (f.0 msg
                      (ap (λ (u : Call Raw). u.buffer) (one_call c.calls k v w at' at) ∙ held))
                    e),
              λ x e. absurd (cc e),
            ))
            (Matches-delete w.id m))
  IsMatched-take_at k w _ c at m = m

  pub IsMatched-expire_at :
      (k : ℕ) (text : String) (w : Call Raw) (s : CallState Raw) (c : Client Raw)
      → IsMatched c
      → IsMatched (expire_at k text w s c)
  unfolding expire_at finish_read update_call
  IsMatched-expire_at k text w awaiting c m =
      Matches-modify k (returns_drained (err (timeout_error text))) (λ _. refl)
        (λ v at' f. (
          (λ msg e. absurd (cc e)),
          (λ msg e. absurd (cc e)),
          λ x e.
              let same : timeout_error text ≡ x = ground arith in
              ap says_method_not_found (sym same),
        ))
        (Matches-delete w.id m)
  IsMatched-expire_at k text w _ c m = m

  pub IsMatched-at_call :
      (f : Call Raw → Client Raw → Client Raw) (k : ℕ) (c : Client Raw)
      → ((w : Call Raw) → get_elem? c.calls k ≡ some w → IsMatched (f w c))
      → IsMatched c
      → IsMatched (at_call f k c)
  IsMatched-at_call f k c h m =
      option_cases IsMatched (get_elem? c.calls k) (λ _. m) (λ w at. h w at)

  pub IsMatched-read_raw :
      (raw : RawWireMessage Raw) (r : Reader Raw) (c : Client Raw)
      → IsMatched c
      → IsMatched (read_raw raw r c)
  unfolding read_raw read_response read_incoming HandsRight
  IsMatched-read_raw raw at_read c m =
      if_cases IsMatched (raw.method == "")
        (λ _.
          option_cases IsMatched (lookup raw.id c.pending) (λ _. m)
            (λ k e. Matches-at_reader (answering raw k) (m.registered raw.id k e) m))
        (λ _.
          if_cases IsMatched (raw.method == "event" || raw.method == "request")
            (λ _. Matches-at_reader (handing raw) tt m) (λ _. m))
  IsMatched-read_raw raw _ c m = m

  pub IsMatched-reader_goes_on :
      (first : Bool) (r : Reader Raw) (c : Client Raw)
      → c.reader ≡ r
      → IsMatched c
      → IsMatched (reader_goes_on first r c)
  unfolding reader_goes_on update_call HandsRight
  IsMatched-reader_goes_on first at_read c e m = m
  IsMatched-reader_goes_on first reader_done c e m = m
  IsMatched-reader_goes_on true (handing raw) c e m =
      if_cases IsMatched (ltb (length c.queue) client_queue_capacity)
        (λ _. Matches-at_reader at_read tt m) (λ _. m)
  IsMatched-reader_goes_on false (handing raw) c e m =
      if_cases IsMatched c.stop_closed (λ _. Matches-at_reader reader_done tt m) (λ _. m)
  IsMatched-reader_goes_on true (answering raw k) c e m =
      option_cases IsMatched (get_elem? c.calls k) (λ _. m)
        (λ w at.
          if_cases IsMatched (has_space w)
            (λ _.
              Matches-modify k (send raw) (id-send raw)
                (λ v at' f.
                  let (u, at'', own) : Holds c.calls raw.id k =
                    subst (HandsRight c.calls) e m.handed in
                  IsFaithful-send raw v
                    (inl (sym own ∙ ap (λ (x : Call Raw). x.id) (one_call c.calls k u v at'' at')))
                    f)
                (Matches-at_reader at_read tt m))
            (λ _. m))
  IsMatched-reader_goes_on false (answering raw k) c e m =
      if_cases IsMatched c.stop_closed (λ _. Matches-at_reader reader_done tt m) (λ _. m)

  pub IsMatched-end_reading :
      (msg : String) (r : Reader Raw) (c : Client Raw)
      → IsMatched c
      → IsMatched (end_reading msg r c)
  unfolding end_reading close_calls HandsRight lookup
  IsMatched-end_reading msg at_read c m = record {
    registered = λ id k e. absurd (cc e);
    handed = tt;
    faithful = AreFaithful-send_all msg c.pending c.calls m.faithful;
  }
  IsMatched-end_reading msg _ c m = m
