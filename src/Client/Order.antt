-- ===== src/Client/Order.antt =====
-- A response may come before or after its call waits for it.
use mathlib.Core.Option
use kimi_wire_go.Prelude.{
  String, ◌≡◌, none, some, List, [], ◌∷◌, ◌++◌, arith, eq_iff, ℕ, refl, ap, ◌∙◌, true, get_elem?,
  modify, get_elem?-modify_self, ok, modify-modify, modify_congr, sym, Option, ◌==◌, if_cases,
}
use kimi_wire_go.Client.{
  take_buffered, Call, at_read, sent, update_call, Client, ClientEnv, send, awaiting, answering,
  has_returned,
}
use kimi_wire_go.Protocol.Jsonrpc.{RawWireMessage}
use kimi_wire_go.Client.Run.{reads_raw, takes, client_run, goes_on, registers, client_step}
use kimi_wire_go.Prelude.Maps.{lookup-insert, insert, lookup, delete-insert}
use kimi_wire_go.Client.Steps.{
  returns_drained, returns, reads_late, reads_early, takes_message, registers_late, awaits,
  registers_early, goes_on_answering,
}

module _ {Raw : Type 0} where
  -- The last message of the buffer is found if no earlier one has its id.
  take_buffered_last :
      (id : String) (ms : List (RawWireMessage Raw)) (m : RawWireMessage Raw)
      → take_buffered id ms ≡ none
      → m.id ≡ id
      → take_buffered id (ms ++ m ∷ []) ≡ some (m, ms)
  unfolding take_buffered
  take_buffered_last id [] m h e = ground (arith, eq_iff m.id id)
  take_buffered_last id (x ∷ ms) m h e = ground (arith, take_buffered_last id ms m, eq_iff x.id id)

  -- The message that is found has the id.
  pub take_buffered_id :
      (id : String) (ms : List (RawWireMessage Raw))
      (r : RawWireMessage Raw × List (RawWireMessage Raw))
      → take_buffered id ms ≡ some r
      → r.0.id ≡ id
  unfolding take_buffered
  take_buffered_id id [] r = λ h. absurd (cc h)
  take_buffered_id id (x ∷ ms) r =
      if_cases
        (λ (o : Option (RawWireMessage Raw × List (RawWireMessage Raw))). o ≡ some r → r.0.id ≡ id)
        (x.id == id)
        (λ b h.
          let same : (x, ms) ≡ r = ground arith in
          ap (λ (p : RawWireMessage Raw × List (RawWireMessage Raw)). p.0.id) (sym same)
          ∙ ground (arith, b, eq_iff x.id id))
        (λ _. later (take_buffered id ms) refl (take_buffered_id id ms))
    where
      later :
          (o : Option (RawWireMessage Raw × List (RawWireMessage Raw)))
          → take_buffered id ms ≡ o
          → ((p : RawWireMessage Raw × List (RawWireMessage Raw))
              → take_buffered id ms ≡ some p
              → p.0.id ≡ id)
          → Option.map (λ p. (p.0, x ∷ p.1)) o ≡ some r
          → r.0.id ≡ id
      later none e ih h = absurd (cc h)
      later (some p) e ih h =
          let same : (p.0, x ∷ p.1) ≡ r = ground arith in
          ap (λ (p : RawWireMessage Raw × List (RawWireMessage Raw)). p.0.id) (sym same) ∙ ih p e

module _ {Raw : Type 0} (env : ClientEnv Raw) (c : Client Raw) (k : ℕ) (w : Call Raw)
    (raw : RawWireMessage Raw) where
  early_run :
      get_elem? c.calls k ≡ some w
      → w.state ≡ sent
      → raw.id ≡ w.id
      → raw.method ≡ ""
      → c.reader ≡ at_read
      → lookup w.id c.pending ≡ none
      → take_buffered w.id c.ooo_buffer ≡ none
      → client_run env (reads_raw raw ∷ registers k ∷ []) c
        ≡ record c { calls = modify c.calls k (returns (ok raw)) }
  unfolding client_run update_call
  early_run at s e bare idle unknown empty =
      let unknown' : lookup raw.id c.pending ≡ none = ap (λ i. lookup i c.pending) e ∙ unknown in
      ap (client_step env (registers k)) (reads_early env c raw idle bare unknown')
      ∙ registers_early env (record c { ooo_buffer = c.ooo_buffer ++ raw ∷ [] }) k w at raw
          c.ooo_buffer s (take_buffered_last w.id c.ooo_buffer raw empty e)

  late_run :
      get_elem? c.calls k ≡ some w
      → w.state ≡ sent
      → w.buffer ≡ none
      → raw.id ≡ w.id
      → raw.method ≡ ""
      → c.reader ≡ at_read
      → lookup w.id c.pending ≡ none
      → take_buffered w.id c.ooo_buffer ≡ none
      → client_run env (registers k ∷ reads_raw raw ∷ goes_on true ∷ takes k ∷ []) c
        ≡ record c { calls = modify c.calls k (returns (ok raw)) }
  unfolding client_run update_call
  late_run at s b e bare idle unknown empty =
      let c1 : Client Raw = record c {
        pending = insert w.id k c.pending;
        calls = modify c.calls k awaits;
      } in
      let c2 : Client Raw = record c1 { reader = answering raw k } in
      let c3 : Client Raw = record c1 { calls = modify c1.calls k (send raw); reader = at_read } in
      let found : lookup raw.id c1.pending ≡ some k =
        ap (λ i. lookup i c1.pending) e
        ∙ ground (arith, lookup-insert w.id w.id k c.pending, eq_iff w.id w.id) in
      let at1 : get_elem? c1.calls k ≡ some (awaits w) =
        get_elem?-modify_self c.calls k awaits at in
      let at3 : get_elem? c3.calls k ≡ some (send raw (awaits w)) =
        get_elem?-modify_self c1.calls k (send raw) at1 in
      let sent_in : send raw (awaits w) ≡ record w { state = awaiting; buffer = some raw } =
        rw (b, send) refl in
      let final : modify (modify c1.calls k (send raw)) k (returns_drained (ok raw))
          ≡ modify c.calls k (returns (ok raw)) =
        ap (λ ws. modify ws k (returns_drained (ok raw)))
          (modify-modify c.calls k awaits (send raw))
        ∙ modify-modify c.calls k (λ v. send raw (awaits v)) (returns_drained (ok raw))
        ∙ modify_congr c.calls k (λ v. returns_drained (ok raw) (send raw (awaits v)))
            (returns (ok raw)) w at
            (ap (returns_drained (ok raw)) sent_in
              ∙ ap (λ x. record w { buffer = x; state = has_returned (ok raw) }) (sym b)) in
      ap
        (λ d.
          client_step env (takes k)
            (client_step env (goes_on true) (client_step env (reads_raw raw) d)))
        (registers_late env c k w at s empty)
      ∙ ap (λ d. client_step env (takes k) (client_step env (goes_on true) d))
          (reads_late env c1 raw idle bare k found)
      ∙ ap (λ d. client_step env (takes k) d) (goes_on_answering env c2 k (awaits w) at1 raw refl b)
      ∙ takes_message env c3 k (record w { state = awaiting; buffer = some raw })
          (at3 ∙ ap some sent_in) raw refl refl
      ∙ ap
          (λ m. record c {
            pending = m;
            calls = modify (modify c1.calls k (send raw)) k (returns_drained (ok raw));
            reader = at_read;
          })
          (delete-insert w.id k c.pending unknown)
      ∙ ap (λ ws. record c { calls = ws; reader = at_read }) final
      ∙ ap (λ r. record c { calls = modify c.calls k (returns (ok raw)); reader = r }) (sym idle)

  -- A response that comes before its call waits for it, and is buffered, has the same effect as one
  -- that comes after and goes through the call's channel: the client ends in the same state, in which
  -- the call has returned with the response. The call has written its request and its channel is
  -- empty, no call is registered and no message is buffered under its id, and the reader loop is at
  -- its receive.
  pub client_run_early_late :
      get_elem? c.calls k ≡ some w
      → w.state ≡ sent
      → w.buffer ≡ none
      → raw.id ≡ w.id
      → raw.method ≡ ""
      → c.reader ≡ at_read
      → lookup w.id c.pending ≡ none
      → take_buffered w.id c.ooo_buffer ≡ none
      → (client_run env (reads_raw raw ∷ registers k ∷ []) c
          ≡ client_run env (registers k ∷ reads_raw raw ∷ goes_on true ∷ takes k ∷ []) c)
        × (client_run env (reads_raw raw ∷ registers k ∷ []) c
            ≡ record c { calls = modify c.calls k (returns (ok raw)) })
  client_run_early_late at s b e bare idle unknown empty =
      let early : client_run env (reads_raw raw ∷ registers k ∷ []) c
          ≡ record c { calls = modify c.calls k (returns (ok raw)) } =
        early_run at s e bare idle unknown empty in
      (early ∙ sym (late_run at s b e bare idle unknown empty), early)
