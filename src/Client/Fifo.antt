-- ===== src/Client/Fifo.antt =====
-- The reader loop and Dispatch are the two ends of a bounded queue.
use kimi_wire_go.Prelude.{
  ◌≡◌, refl, sym, ap, subst, false, List, [], ◌∷◌, ◌++◌, if_cases, ◌∙◌, Option, none, some,
}
use mathlib.Core.List.{append-nil, append_assoc}
use kimi_wire_go.Client.{Client, ClientEnv, ClientError}
use kimi_wire_go.Client.Feed.{
  accepted_at, feed, in_hand, unspoken-after_dispatch, unspoken-dispatch_message, feed-begin,
  feed-take_at, feed-expire_at, dispatched_at, dispatched_messages, feed-at_call, feed-conclude_at,
  unspoken-cancel_dispatch, feed-register_at, backlog, accepted_messages,
}
use kimi_wire_go.Client.Run.{
  reads_raw, expires, goes_on, dispatch_cancelled, begins_call, register_at, read_fails, take_at,
  ClientAction, concludes, registers, dispatches, reads_garbage, client_step, conclude_at, stops,
  expire_at, client_run, takes,
}
use kimi_wire_go.Protocol.Jsonrpc.{RawWireMessage}
use kimi_wire_go.Client.Dispatch.{is_reader_done, dispatch_next, dispatch_message}
use kimi_wire_go.Client.Moves.{
  Moved, Moved-read_raw, Moved-end_reading, Moved-reader_goes_on, Moved-feed,
}

module _ {Raw : Type 0} (env : ClientEnv Raw) where
  Moved-dispatch_next :
      (e : Option (Option ClientError)) (q : List (RawWireMessage Raw)) (c : Client Raw)
      → Moved []
          (dispatched_at dispatches e q)
          (feed (record c { queue = q }))
          (feed (dispatch_next env e q (record c { queue = q })))
  unfolding dispatch_next dispatched_at
  Moved-dispatch_next none [] c = Moved-feed _ _ (
      if_cases (λ (d : Client Raw). feed d ≡ feed (record c { queue = [] }))
        (is_reader_done c.reader) (λ _. refl) (λ _. refl))
  Moved-dispatch_next none (raw ∷ rest) c =
      subst (λ f. Moved [] (raw ∷ []) (feed (record c { queue = raw ∷ rest })) f)
        (sym (
          ap feed (
            unspoken-after_dispatch (dispatch_message env raw (record c { queue = rest }))
            ∙ unspoken-dispatch_message env raw (record c { queue = rest }))))
        (λ s. (s, append-nil (raw ∷ rest ++ in_hand c.reader)))
  Moved-dispatch_next (some r) q c = λ s. (s, append-nil (q ++ in_hand c.reader))

  Moved-client_step :
      (a : ClientAction Raw) (c : Client Raw)
      → Moved
          (accepted_at a c.reader)
          (dispatched_at a c.dispatch_end c.queue)
          (feed c)
          (feed (client_step env a c))
  unfolding client_step accepted_at dispatched_at
  Moved-client_step (begins_call req) c = Moved-feed _ _ (feed-begin env req c)
  Moved-client_step (registers k) c =
      Moved-feed _ _
        (feed-at_call (λ w. register_at k w w.state) k c (λ w. feed-register_at k w w.state c))
  Moved-client_step (takes k) c =
      Moved-feed _ _ (feed-at_call (λ w. take_at k w w.state) k c (λ w. feed-take_at k w w.state c))
  Moved-client_step (expires k text) c =
      Moved-feed _ _ (
        feed-at_call (λ w. expire_at k text w w.state) k c (λ w. feed-expire_at k text w w.state c))
  Moved-client_step (concludes k) c =
      Moved-feed _ _
        (feed-at_call (λ w. conclude_at env w w.state) k c (λ w. feed-conclude_at env w w.state c))
  Moved-client_step (reads_raw raw) c = Moved-read_raw raw c.reader c
  Moved-client_step (reads_garbage text) c = Moved-end_reading _ c.reader c
  Moved-client_step (read_fails text) c = Moved-end_reading _ c.reader c
  Moved-client_step (goes_on first) c = Moved-reader_goes_on first c.reader c
  Moved-client_step dispatches c = Moved-dispatch_next c.dispatch_end c.queue c
  Moved-client_step (dispatch_cancelled text) c =
      Moved-feed _ _ (ap feed (unspoken-cancel_dispatch text c.dispatch_end c))
  Moved-client_step stops c = λ s. absurd (cc s)

  Moved-client_run :
      (as_ : List (ClientAction Raw)) (c : Client Raw)
      → Moved
          (accepted_messages env as_ c)
          (dispatched_messages env as_ c)
          (feed c)
          (feed (client_run env as_ c))
  unfolding client_run accepted_messages dispatched_messages
  Moved-client_run [] c = Moved-feed _ _ refl
  Moved-client_run (a ∷ as_) c = λ s.
      let d = client_step env a c in
      let l = accepted_at a c.reader in
      let l' = accepted_messages env as_ d in
      let h = dispatched_at a c.dispatch_end c.queue in
      let h' = dispatched_messages env as_ d in
      let e = client_run env as_ d in
      let later : (d.stop_closed ≡ false) × (backlog d ++ l' ≡ h' ++ backlog e) =
        Moved-client_run as_ d s in
      let first : (c.stop_closed ≡ false) × (backlog c ++ l ≡ h ++ backlog d) =
        Moved-client_step a c later.0 in
      (
        first.0,
        sym (append_assoc (backlog c) l l')
            ∙ ap (λ x. x ++ l') first.1
            ∙ append_assoc h (backlog d) l'
            ∙ ap (λ x. h ++ x) later.1
            ∙ sym (append_assoc h h' (backlog e)),
      )

  -- As long as the client is not shut down, the events and requests that are on the way and then those
  -- that the reader loop accepts are, in this order, those that Dispatch takes and then those that are
  -- still on the way, however the reader loop, the callers and Dispatch are interleaved: none is
  -- lost, repeated or overtaken.
  pub backlog-client_run :
      (as_ : List (ClientAction Raw)) (c : Client Raw)
      → (client_run env as_ c).stop_closed ≡ false
      → backlog c ++ accepted_messages env as_ c
        ≡ dispatched_messages env as_ c ++ backlog (client_run env as_ c)
  backlog-client_run as_ c s = (Moved-client_run as_ c s).1
