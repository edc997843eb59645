-- ===== src/Server/Pending/Routing/Runs.antt =====
-- What a response does in every run of the server.
use kimi_wire_go.Prelude.{
  ℕ, ◌^◌, ◌<◌, ◌≡◌, refl, sym, subst, true, none, some, List, get_elem?, if_cases, option_cases, ap,
  ◌∙◌, arith, get_elem?-modify_self, false,
}
use kimi_wire_go.Server.Serve.{
  receive_message, is_response, Action, step, run, call_receives, receive,
}
use kimi_wire_go.Server.{Waiter, Calls, Env, Server, new}
use kimi_wire_go.Server.Pending.{outcome_of, receive_call, finish_call, route_response}
use kimi_wire_go.Server.Pending.Routing.{IsWaiting, Reaches, no_calls_yet}
use kimi_wire_go.Protocol.Jsonrpc.{RawWireMessage}
use kimi_wire_go.Server.Pending.Routing.Delivery.{response_is_delivered}
use kimi_wire_go.Server.Pending.Routing.Moves.{same_waiter}
use kimi_wire_go.Prelude.Maps.{lookup}
use kimi_wire_go.Server.Pending.Routing.Stepped.{calls_made, run-Reaches}

module _ {Raw : Type 0} (env : Env Raw) where
  -- The calls of every run are reached, by as many calls as the run makes.
  pub calls_of_run :
      (as_ : List (Action Raw)) → Reaches env (run env as_ new).calls (calls_made as_ 0)
  unfolding new
  calls_of_run as_ = run-Reaches env as_ new 0 no_calls_yet

  -- The call takes what is in its channel, and returns what it makes of it.
  receive_call-returns :
      (c : Calls Raw) (k : ℕ) (w : Waiter Raw) (raw : RawWireMessage Raw)
      → get_elem? c.waiters k ≡ some (record w { buffer = some raw })
      → w.returned ≡ none
      → get_elem? (receive_call env k c).waiters k
        ≡ some (record w { buffer = none; returned = some (outcome_of env raw) })
  unfolding receive_call finish_call
  receive_call-returns c k w raw g u =
      option_cases Good (get_elem? c.waiters k) (λ n. absurd (cc (n, g)))
        λ v gv.
          option_cases Good v.returned
            (λ _.
              option_cases Good v.buffer
                (λ n. absurd (cc (n, ap (λ (z : Waiter Raw). z.buffer) (at v gv))))
                (λ msg b. leaf v gv msg b))
            (λ r h. absurd (cc (h, u, ap (λ (z : Waiter Raw). z.returned) (at v gv))))
    where
      Good : Calls Raw → Type 0
      Good d =
          get_elem? d.waiters k
          ≡ some (record w { buffer = none; returned = some (outcome_of env raw) })

      at : (v : Waiter Raw) → get_elem? c.waiters k ≡ some v → record w { buffer = some raw } ≡ v
      at v gv = same_waiter c.waiters k _ v g gv

      leaf :
          (v : Waiter Raw)
          → get_elem? c.waiters k ≡ some v
          → (msg : RawWireMessage Raw) → v.buffer ≡ some msg
          → Good (finish_call k v.id (outcome_of env msg) c)
      leaf v gv msg b =
          let taken : some raw ≡ some msg = ap (λ (z : Waiter Raw). z.buffer) (at v gv) ∙ b in
          let same : raw ≡ msg = ground arith in
          get_elem?-modify_self c.waiters k
            (λ (z : Waiter Raw). record z { buffer = none; returned = some (outcome_of env msg) })
            gv
          ∙ ap
              (λ (z : Waiter Raw).
                some (record z { buffer = none; returned = some (outcome_of env msg) }))
              (sym (at v gv))
          ∙ ap (λ m. some (record w { buffer = none; returned = some (outcome_of env m) }))
              (sym same)

  -- A response that the read loop takes is routed.
  receive-calls :
      (raw : RawWireMessage Raw) (s : Server Raw)
      → s.reading ≡ true
      → is_response raw ≡ true
      → route_response false raw s.calls ≡ (step env (receive raw) s).calls
  unfolding step receive_message
  receive-calls raw s on response_ =
      if_cases Routed s.reading
        (λ _. if_cases Routed (is_response raw) (λ _. refl) (λ n. absurd (cc (n, response_))))
        (λ n. absurd (cc (n, on)))
    where
      Routed : Server Raw → Type 0
      Routed t = route_response false raw s.calls ≡ t.calls

  -- In every run with fewer than 2^64 calls, while the read loop has not ended: if it reads a response
  -- whose id is pending, and its select sends, then the id is that of a call that waits, and when
  -- this call takes what is in its channel it returns the result or the error of that response.
  pub response_reaches_caller :
      (as_ : List (Action Raw)) (k : ℕ) (raw : RawWireMessage Raw)
      → calls_made as_ 0 < 2 ^ 64
      → (run env as_ new).reading ≡ true
      → is_response raw ≡ true
      → lookup raw.id (run env as_ new).calls.pending ≡ some k
      → (w : Waiter Raw) × (get_elem? (run env as_ new).calls.waiters k ≡ some w)
        × (w.id ≡ raw.id)
        × IsWaiting w
        × (get_elem?
              (step env (call_receives k) (step env (receive raw) (run env as_ new))).calls.waiters
              k
            ≡ some (record w { buffer = none; returned = some (outcome_of env raw) }))
  unfolding step
  response_reaches_caller as_ k raw small on response_ at =
      let (w, g, i, u, delivered, _, _, _, _) =
        response_is_delivered env (run env as_ new).calls (calls_made as_ 0) small
          (calls_of_run as_) k raw at in
      (
        w,
        g,
        i,
        u,
        receive_call-returns (step env (receive raw) (run env as_ new)).calls k w raw
            (subst (λ c. get_elem? c.waiters k ≡ some (record w { buffer = some raw }))
              (receive-calls raw (run env as_ new) on response_) delivered)
            u.0,
      )
