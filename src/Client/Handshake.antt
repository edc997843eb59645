-- ===== src/Client/Handshake.antt =====
-- What it takes for handshakeDone to be set.
pub mod Kept
pub mod Moves
pub mod Runs
use kimi_wire_go.Protocol.Jsonrpc.{method_not_found, JsonRpcError, RawWireMessage}
use kimi_wire_go.Prelude.{
  ◌≡◌, refl, true, none, some, ok, String, option_cases, result_cases, Result, err, false, Bool,
  if_cases,
}
use kimi_wire_go.Client.Results.{
  unmarshal_answer, initialize_outcome, decode_response, call_outcome, map_result,
  says_method_not_found,
}
use kimi_wire_go.Protocol.Method.{InitializeResult, InitializeParams}
use kimi_wire_go.Client.{ClientRequest, ClientEnv, ClientError, wire_error}
use kimi_wire_go.Server.{Answer}
use kimi_wire_go.Prelude.Int.{int_eq_iff}
use kimi_wire_go.Protocol.Message.{request_failed}

module _ {Raw : Type 0} (env : ClientEnv Raw) where
  -- The response to an initialize with which the handshake is done: a result that decodes, or the error
  -- of a server that does not know the method.
  pub data Accepts (m : RawWireMessage Raw) : Type 0 where
    accepts_result :
        (raw : Raw) (result : InitializeResult)
        → m.error ≡ none
        → m.result ≡ some raw
        → env.results.initialize_result raw ≡ ok result
        → Accepts m
    accepts_no_method :
        (e : JsonRpcError Raw) → m.error ≡ some e → e.code ≡ method_not_found → Accepts m

  map_result_ok :
      {A B : Type 0} (f : A → B) (r : Result String A) (b : B)
      → map_result f r ≡ ok b
      → (a : A) × (r ≡ ok a)
  map_result_ok f (ok a) b h = (a, refl)
  map_result_ok f (err e) b h = absurd (cc h)

  -- The outcome of Initialize sets handshakeDone.
  abbrev Completes : RawWireMessage Raw → Result ClientError Answer → Type 0
  Completes m r = (initialize_outcome r).1 ≡ true → Accepts m

  done_without_result :
      (e : ClientError) → (initialize_outcome (err e)).1 ≡ true → says_method_not_found e ≡ true
  unfolding initialize_outcome
  done_without_result e =
      if_cases
        (λ (r : Result ClientError Answer × Bool). r.1 ≡ true → says_method_not_found e ≡ true)
        (says_method_not_found e) (λ b _. b) (λ _ h. absurd (cc h))

  decoded_initialize :
      (p : InitializeParams Raw) (m : RawWireMessage Raw)
      → Completes m (decode_response env (ClientRequest.initialize p) m)
  unfolding initialize_outcome decode_response unmarshal_answer
  decoded_initialize p m =
      option_cases (Completes m) m.error
        (λ no_error.
          option_cases (Completes m) m.result (λ _ h. absurd (cc h))
            (λ raw found.
              result_cases (Completes m)
                (map_result Answer.initialized (env.results.initialize_result raw))
                (λ t _ h. absurd (cc h))
                (λ a read h.
                  let (result, e) =
                    map_result_ok Answer.initialized (env.results.initialize_result raw) a read in
                  accepts_result raw result no_error found e)))
        (λ e found h. accepts_no_method e found (
          (int_eq_iff e.code method_not_found).0 (
            done_without_result
              (wire_error (record {
                kind = request_failed;
                message = env.redact e.message;
                cause = none;
                code = e.code;
              }))
              h)))

  -- What a call that sets handshakeDone has asked for and got.
  pub call_outcome-Accepts :
      (req : ClientRequest Raw) (r : Result ClientError (RawWireMessage Raw))
      → ((e : ClientError) → r ≡ err e → says_method_not_found e ≡ false)
      → (call_outcome env req r).1 ≡ true
      → (p : InitializeParams Raw) × (m : RawWireMessage Raw) × (req ≡ ClientRequest.initialize p)
        × (r ≡ ok m)
        × Accepts m
  unfolding call_outcome initialize_outcome
  call_outcome-Accepts (ClientRequest.initialize p) (ok m) n h =
      (p, m, refl, refl, decoded_initialize p m h)
  call_outcome-Accepts (ClientRequest.initialize p) (err e) n h =
      absurd (cc (n e refl, done_without_result e h))
  call_outcome-Accepts (ClientRequest.prompt input) r n h = absurd (cc h)
  call_outcome-Accepts ClientRequest.replay r n h = absurd (cc h)
  call_outcome-Accepts (ClientRequest.steer input) r n h = absurd (cc h)
  call_outcome-Accepts (ClientRequest.set_plan_mode enabled) r n h = absurd (cc h)
  call_outcome-Accepts ClientRequest.cancel r n h = absurd (cc h)
