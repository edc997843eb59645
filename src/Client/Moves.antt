-- ===== src/Client/Moves.antt =====
-- What the steps of the reader loop do to the messages on the way to Dispatch.
use kimi_wire_go.Prelude.{
  String, ◌≡◌, refl, sym, ap, subst, Bool, true, false, ◌||◌, List, [], ◌∷◌, ◌++◌, ◌==◌, ltb,
  if◌then◌else◌, length, get_elem?, if_cases, option_cases, arith, eq_iff,
}
use mathlib.Core.List.{append-nil}
use kimi_wire_go.Client.{
  reader_goes_on, answering, close_calls, Client, has_space, Reader, read_raw, reader_done, at_read,
  update_call, read_response, read_incoming, handing, client_queue_capacity,
}
use kimi_wire_go.Client.Feed.{accepted_at, feed, in_hand}
use kimi_wire_go.Prelude.Maps.{lookup}
use kimi_wire_go.Client.Run.{end_reading, reads_raw}
use kimi_wire_go.Protocol.Jsonrpc.{RawWireMessage}

module _ {Raw : Type 0} where
  -- How the way changes in a step which accepts and dispatches these messages, as long as the client
  -- is not stopped.
  abbrev pub Moved :
      List (RawWireMessage Raw)
      → List (RawWireMessage Raw)
      → List (RawWireMessage Raw) × Reader Raw × Bool
      → List (RawWireMessage Raw) × Reader Raw × Bool
      → Type 0
  Moved accepted dispatched (q, r, s) (q', r', s') =
      s' ≡ false → (s ≡ false) × ((q ++ in_hand r) ++ accepted ≡ dispatched ++ (q' ++ in_hand r'))

  pub Moved-feed : (f g : List (RawWireMessage Raw) × Reader Raw × Bool) → g ≡ f → Moved [] [] f g
  Moved-feed f g e =
      subst (λ x. Moved [] [] f x) (sym e) (λ s. (s, append-nil (f.0 ++ in_hand f.1)))

  -- The client with its reader loop at this place.
  abbrev reader_at : Reader Raw → Client Raw → Client Raw
  reader_at r c = record c { reader = r }

  pub Moved-read_response :
      (raw : RawWireMessage Raw) (c : Client Raw)
      → Moved [] [] (feed (reader_at at_read c)) (feed (read_response raw (reader_at at_read c)))
  unfolding read_response in_hand
  Moved-read_response raw c =
      option_cases (λ (d : Client Raw). Moved [] [] (feed (reader_at at_read c)) (feed d))
        (lookup raw.id c.pending) (λ _ s. (s, append-nil (c.queue ++ [])))
        (λ _ _ s. (s, append-nil (c.queue ++ [])))

  pub Moved-read_incoming :
      (raw : RawWireMessage Raw) (c : Client Raw)
      → Moved
          (if raw.method == "event" || raw.method == "request" then raw ∷ [] else [])
          []
          (feed (reader_at at_read c))
          (feed (read_incoming raw (reader_at at_read c)))
  unfolding read_incoming in_hand
  Moved-read_incoming raw c = accept (raw.method == "event" || raw.method == "request")
    where
      accept :
          (b : Bool)
          → Moved
              (if b then raw ∷ [] else [])
              []
              (feed (reader_at at_read c))
              (feed (if b then reader_at (handing raw) c else reader_at at_read c))
      accept true s = (s, ap (λ q. q ++ raw ∷ []) (append-nil c.queue))
      accept false s = (s, append-nil (c.queue ++ []))

  pub Moved-read_raw :
      (raw : RawWireMessage Raw) (r : Reader Raw) (c : Client Raw)
      → Moved
          (accepted_at (reads_raw raw) r)
          []
          (feed (reader_at r c))
          (feed (read_raw raw r (reader_at r c)))
  unfolding read_raw accepted_at in_hand
  Moved-read_raw raw at_read c =
      if_cases
        (λ (d : Client Raw).
          Moved (accepted_at (reads_raw raw) at_read) [] (feed (reader_at at_read c)) (feed d))
        (raw.method == "")
        (λ bare.
          let bare' : raw.method ≡ "" = ground (arith, bare, eq_iff raw.method "") in
          let none_accepted : [] ≡ accepted_at (reads_raw raw) at_read =
            ap (λ m. if m == "event" || m == "request" then raw ∷ [] else []) (sym bare') in
          subst
            (λ l.
              Moved l [] (feed (reader_at at_read c))
                (feed (read_response raw (reader_at at_read c))))
            none_accepted (Moved-read_response raw c))
        (λ _. Moved-read_incoming raw c)
  Moved-read_raw raw r c = λ s. (s, append-nil (c.queue ++ in_hand r))

  pub Moved-reader_goes_on :
      (first : Bool) (r : Reader Raw) (c : Client Raw)
      → Moved [] [] (feed (reader_at r c)) (feed (reader_goes_on first r (reader_at r c)))
  unfolding reader_goes_on update_call in_hand
  Moved-reader_goes_on first at_read c = λ s. (s, append-nil (c.queue ++ []))
  Moved-reader_goes_on first reader_done c = λ s. (s, append-nil (c.queue ++ []))
  Moved-reader_goes_on true (handing raw) c =
      if_cases (λ (d : Client Raw). Moved [] [] (feed (reader_at (handing raw) c)) (feed d))
        (ltb (length c.queue) client_queue_capacity) (λ _ s. (s, refl))
        (λ _ s. (s, append-nil (c.queue ++ raw ∷ [])))
  Moved-reader_goes_on false (handing raw) c =
      if_cases (λ (d : Client Raw). Moved [] [] (feed (reader_at (handing raw) c)) (feed d))
        c.stop_closed (λ over s. absurd (cc (over, s)))
        (λ _ s. (s, append-nil (c.queue ++ raw ∷ [])))
  Moved-reader_goes_on true (answering raw k) c =
      option_cases (λ (d : Client Raw). Moved [] [] (feed (reader_at (answering raw k) c)) (feed d))
        (get_elem? c.calls k) (λ _ s. (s, append-nil (c.queue ++ [])))
        (λ w _.
          if_cases (λ (d : Client Raw). Moved [] [] (feed (reader_at (answering raw k) c)) (feed d))
            (has_space w) (λ _ s. (s, append-nil (c.queue ++ [])))
            (λ _ s. (s, append-nil (c.queue ++ []))))
  Moved-reader_goes_on false (answering raw k) c =
      if_cases (λ (d : Client Raw). Moved [] [] (feed (reader_at (answering raw k) c)) (feed d))
        c.stop_closed (λ over s. absurd (cc (over, s))) (λ _ s. (s, append-nil (c.queue ++ [])))

  pub Moved-end_reading :
      (msg : String) (r : Reader Raw) (c : Client Raw)
      → Moved [] [] (feed (reader_at r c)) (feed (end_reading msg r (reader_at r c)))
  unfolding end_reading close_calls in_hand
  Moved-end_reading msg at_read c = λ s. (s, append-nil (c.queue ++ []))
  Moved-end_reading msg r c = λ s. (s, append-nil (c.queue ++ in_hand r))
