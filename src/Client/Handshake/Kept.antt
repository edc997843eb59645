-- ===== src/Client/Handshake/Kept.antt =====
-- handshakeDone is set only by the answer to an initialize.
use kimi_wire_go.Prelude.{
  ℕ, String, ◌≡◌, refl, ap, ◌∙◌, true, false, some, List, [], ◌∷◌, ◌++◌, arith, eqb, get_elem?,
  option_cases, modify, get_elem?-modify_self, get_elem?-modify_ne, get_elem?-append_left,
  get_elem?-lt, Result, ok,
}
use kimi_wire_go.Client.{
  ClientEnv, send_all, Call, send, Client, has_returned, ClientError, ClientRequest,
}
use kimi_wire_go.Client.Handshake.{Accepts}
use kimi_wire_go.Protocol.Method.{InitializeParams}
use kimi_wire_go.Client.Matched.{one_call}
use kimi_wire_go.Protocol.Jsonrpc.{RawWireMessage}

module _ {Raw : Type 0} (env : ClientEnv Raw) where
  -- A call of Initialize has returned with a response that it accepts.
  abbrev pub IsInitialized : List (Call Raw) → Type 0
  IsInitialized ws =
      (k : ℕ) × (w : Call Raw) × (p : InitializeParams Raw) × (m : RawWireMessage Raw) × (get_elem?
          ws k
        ≡ some w)
      × (w.request ≡ ClientRequest.initialize p)
      × (w.state ≡ has_returned (ok m))
      × Accepts env m

  -- A write to a call leaves it as it is if it has returned.
  abbrev pub KeepsReturned : List (Call Raw) → ℕ → (Call Raw → Call Raw) → Type 0
  KeepsReturned ws i f =
      (x : Call Raw) (r : Result ClientError (RawWireMessage Raw))
      → get_elem? ws i ≡ some x
      → x.state ≡ has_returned r
      → ((f x).state ≡ x.state) × ((f x).request ≡ x.request)

  pub IsInitialized-modify :
      (ws : List (Call Raw)) (i : ℕ) (f : Call Raw → Call Raw)
      → KeepsReturned ws i f
      → IsInitialized ws
      → IsInitialized (modify ws i f)
  IsInitialized-modify ws i f keeps (k, w, p, m, at, req, st, acc) =
      elim (eqb i k) as (λ b. eqb i k ≡ b → IsInitialized (modify ws i f)) [
        | true ↦ λ e.
            let same : i ≡ k = ground (arith, e) in
            let at' : get_elem? ws i ≡ some w = ap (get_elem? ws) same ∙ at in
            let kept : ((f w).state ≡ w.state) × ((f w).request ≡ w.request) =
              keeps w (ok m) at' st in
            (i, f w, p, m, get_elem?-modify_self ws i f at', kept.1 ∙ req, kept.0 ∙ st, acc)
        | false ↦
            λ e. (k, w, p, m, get_elem?-modify_ne ws i k f (ground (arith, e)) ∙ at, req, st, acc)
      ]
        refl

  pub IsInitialized-append :
      (ws : List (Call Raw)) (x : Call Raw) → IsInitialized ws → IsInitialized (ws ++ x ∷ [])
  IsInitialized-append ws x (k, w, p, m, at, req, st, acc) =
      (k, w, p, m, get_elem?-append_left ws x k (get_elem?-lt ws k at) ∙ at, req, st, acc)

  pub KeepsReturned-send :
      (ws : List (Call Raw)) (i : ℕ) (raw : RawWireMessage Raw) → KeepsReturned ws i (send raw)
  KeepsReturned-send ws i raw x r at st =
      option_cases (λ (v : Call Raw). (v.state ≡ x.state) × (v.request ≡ x.request)) x.buffer
        (λ _. (refl, refl)) (λ _ _. (refl, refl))

  pub IsInitialized-send_all :
      (raw : RawWireMessage Raw) (ms : List (String × ℕ)) (ws : List (Call Raw))
      → IsInitialized ws
      → IsInitialized (send_all raw ms ws)
  unfolding send_all
  IsInitialized-send_all raw [] ws i = i
  IsInitialized-send_all raw ((id, k) ∷ ms) ws i =
      IsInitialized-send_all raw ms (modify ws k (send raw))
        (IsInitialized-modify ws k (send raw) (KeepsReturned-send ws k raw) i)

  -- A caller that has not returned is written to.
  pub KeepsReturned-other :
      (ws : List (Call Raw)) (k : ℕ) (f : Call Raw → Call Raw) (w : Call Raw)
      → get_elem? ws k ≡ some w
      → ((r : Result ClientError (RawWireMessage Raw)) → ¬ (w.state ≡ has_returned r))
      → KeepsReturned ws k f
  KeepsReturned-other ws k f w at n x r at' st =
      absurd (n r (ap (λ (u : Call Raw). u.state) (one_call ws k w x at at') ∙ st))

  -- The invariant: if handshakeDone is set, there is such a call.
  abbrev pub IsExplained : Client Raw → Type 0
  IsExplained c = c.handshake_done ≡ true → IsInitialized c.calls
