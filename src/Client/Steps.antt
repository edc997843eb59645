-- ===== src/Client/Steps.antt =====
-- What a single step does where it is enabled.
use kimi_wire_go.Prelude.{
  ℕ, ◌≡◌, refl, sym, ap, ◌∙◌, true, none, some, List, [], ◌∷◌, ◌++◌, arith, ◌==◌, eq_iff, get_elem?,
  if_cases, option_cases, Result, ok,
}
use kimi_wire_go.Client.{
  finish_read, Client, has_returned, register_call, ClientError, update_call, read_raw, ClientEnv,
  at_read, Call, has_space, sent, send, awaiting, answering, read_response, reader_goes_on,
  take_buffered, take_response,
}
use kimi_wire_go.Client.Run.{
  client_step, register_at, takes, goes_on, at_call, reads_raw, take_at, registers,
}
use kimi_wire_go.Protocol.Jsonrpc.{RawWireMessage}
use kimi_wire_go.Prelude.Maps.{insert, delete, lookup}

module _ {Raw : Type 0} where
  pub at_call-some :
      (f : Call Raw → Client Raw → Client Raw) (k : ℕ) (c : Client Raw) (w : Call Raw)
      → get_elem? c.calls k ≡ some w
      → at_call f k c ≡ f w c
  at_call-some f k c w g =
      option_cases (λ (d : Client Raw). d ≡ f w c) (get_elem? c.calls k) (λ n. absurd (cc (n, g)))
        (λ v h. let one : w ≡ v = ground arith in ap (λ z. f z c) (sym one))

  -- The state of a call that waits.
  abbrev pub awaits : Call Raw → Call Raw
  awaits v = record v { state = awaiting }

  -- The state of a call whose readResponse has a message or an error.
  abbrev pub returns : Result ClientError (RawWireMessage Raw) → Call Raw → Call Raw
  returns r v = record v { state = has_returned r }

  abbrev pub returns_drained : Result ClientError (RawWireMessage Raw) → Call Raw → Call Raw
  returns_drained r v = record v { buffer = none; state = has_returned r }

module _ {Raw : Type 0} (env : ClientEnv Raw) (c : Client Raw) (k : ℕ) (w : Call Raw)
    (at : get_elem? c.calls k ≡ some w) where
  pub registers_early :
      (raw : RawWireMessage Raw) (rest : List (RawWireMessage Raw))
      → w.state ≡ sent
      → take_buffered w.id c.ooo_buffer ≡ some (raw, rest)
      → client_step env (registers k) c
        ≡ update_call k (returns (ok raw)) (record c { ooo_buffer = rest })
  unfolding client_step register_at register_call
  registers_early raw rest s h =
      at_call-some (λ w. register_at k w w.state) k c w at
      ∙ ap (λ x. register_at k w x c) s
      ∙ rw (h, register_call)

  pub registers_late :
      w.state ≡ sent
      → take_buffered w.id c.ooo_buffer ≡ none
      → client_step env (registers k) c
        ≡ update_call k awaits (record c { pending = insert w.id k c.pending })
  unfolding client_step register_at register_call
  registers_late s h =
      at_call-some (λ w. register_at k w w.state) k c w at
      ∙ ap (λ x. register_at k w x c) s
      ∙ rw (h, register_call)

  pub takes_message :
      (raw : RawWireMessage Raw)
      → w.state ≡ awaiting
      → w.buffer ≡ some raw
      → client_step env (takes k) c
        ≡ update_call k (returns_drained (ok raw)) (record c { pending = delete w.id c.pending })
  unfolding client_step take_at take_response finish_read
  takes_message raw s b =
      at_call-some (λ w. take_at k w w.state) k c w at
      ∙ ap (λ x. take_at k w x c) s
      ∙ rw (b, take_response)

  pub goes_on_answering :
      (raw : RawWireMessage Raw)
      → c.reader ≡ answering raw k
      → w.buffer ≡ none
      → client_step env (goes_on true) c ≡ update_call k (send raw) (record c { reader = at_read })
  unfolding client_step reader_goes_on
  goes_on_answering raw r b =
      ap (λ x. reader_goes_on true x c) r ∙ rw (at, reader_goes_on) (rw (b, has_space) refl)

module _ {Raw : Type 0} (env : ClientEnv Raw) (c : Client Raw) (raw : RawWireMessage Raw)
    (idle : c.reader ≡ at_read) (bare : raw.method ≡ "") where
  pub reads_response : client_step env (reads_raw raw) c ≡ read_response raw c
  unfolding client_step read_raw
  reads_response =
      ap (λ x. read_raw raw x c) idle
      ∙ if_cases (λ (d : Client Raw). d ≡ read_response raw c) (raw.method == "") (λ _. refl)
          (λ n. absurd (ground (arith, n, bare, eq_iff raw.method "")))

  pub reads_early :
      lookup raw.id c.pending ≡ none
      → client_step env (reads_raw raw) c ≡ record c { ooo_buffer = c.ooo_buffer ++ raw ∷ [] }
  unfolding read_response
  reads_early h = reads_response ∙ rw (h, read_response)

  pub reads_late :
      (k : ℕ)
      → lookup raw.id c.pending ≡ some k
      → client_step env (reads_raw raw) c ≡ record c { reader = answering raw k }
  unfolding read_response
  reads_late k h = reads_response ∙ rw (h, read_response)
