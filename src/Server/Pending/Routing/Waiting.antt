-- ===== src/Server/Pending/Routing/Waiting.antt =====
-- That all calls that wait are pending is kept by the operations on the calls.
use kimi_wire_go.Prelude.{
  ℕ, ◌+◌, ◌^◌, ◌<◌, String, ◌≡◌, sym, ap, subst, ◌∙◌, inl, inr, true, false, Option, none, some,
  arith, ◌==◌, eq_iff, if◌then◌else◌, length, get_elem?, get_elem?-append_cases,
  get_elem?-modify_cases, if_cases, option_cases, modify, get_elem?-lt, Result,
}
use kimi_wire_go.Server.Pending.Routing.{Agrees, IsWaiting}
use kimi_wire_go.Server.Pending.Routing.Moves.{same_id, put-full, request_id-injective}
use kimi_wire_go.Server.{Calls, Env, Waiter, GoError}
use kimi_wire_go.Server.Pending.{
  register, count_next, route_response, finish_call, abandon_call, room_at, put, request_id,
  receive_call,
}
use kimi_wire_go.Prelude.Maps.{delete, lookup-delete, lookup, lookup-insert}
use kimi_wire_go.Protocol.Jsonrpc.{RawWireMessage}

module _ {Raw : Type 0} where
  abbrev pub AllPending : Calls Raw → Type 0
  AllPending c =
      (k : ℕ) (w : Waiter Raw)
      → get_elem? c.waiters k ≡ some w
      → IsWaiting w
      → lookup w.id c.pending ≡ some k

  AllPending-settle :
      (c : Calls Raw) (k : ℕ) (w : Waiter Raw) (f : Waiter Raw → Waiter Raw)
      → ((v : Waiter Raw) → IsWaiting (f v) → ⊥)
      → get_elem? c.waiters k ≡ some w
      → Agrees c
      → AllPending c
      → AllPending (record c { pending = delete w.id c.pending; waiters = modify c.waiters k f })
  AllPending-settle c k w f settled g a p j v h u =
      elim (get_elem?-modify_cases c.waiters k j f v h) [
        | inl (n, old) ↦ rw (lookup-delete w.id v.id c.pending) (
            if_cases (λ z. z ≡ some j) (w.id == v.id)
              (λ e. absurd (
                n (
                  sym (
                    same_id c.waiters k j w v a.numbered g old
                      (ground (arith, e, eq_iff w.id v.id))))))
              (λ _. p j v old u))
        | inr (e, (x, old, y)) ↦ absurd (settled x (subst IsWaiting y u))
      ]

  pub AllPending-route_response :
      (raw : RawWireMessage Raw) (c : Calls Raw)
      → Agrees c
      → AllPending c
      → AllPending (route_response false raw c)
  unfolding route_response
  AllPending-route_response raw c a p =
      option_cases AllPending (lookup raw.id c.pending) (λ _. p)
        λ k h.
          let (w, g, i, u) = a.registered raw.id k h in
          if_cases AllPending (room_at k c.waiters)
            (λ _.
              subst
                (λ z. AllPending (record c {
                  pending = delete z c.pending;
                  waiters = modify c.waiters k (put raw);
                }))
                i (AllPending-settle c k w (put raw) (λ v y. put-full raw v y.1) g a p))
            (λ _. p)

  AllPending-finish_call :
      (k : ℕ) (w : Waiter Raw) (r : Result GoError (Option Raw)) (c : Calls Raw)
      → get_elem? c.waiters k ≡ some w
      → Agrees c
      → AllPending c
      → AllPending (finish_call k w.id r c)
  unfolding finish_call
  AllPending-finish_call k w r c g a p =
      AllPending-settle c k w (λ v. record v { buffer = none; returned = some r }) (λ v u. cc (u.0))
        g a p

  pub AllPending-register :
      (c : Calls Raw)
      → length c.waiters + 1 < 2 ^ 64
      → Agrees c
      → AllPending c
      → AllPending (register c)
  unfolding register
  AllPending-register c small a p k w g u =
      rw (lookup-insert new_id w.id (length c.waiters) c.pending)
        (elim (get_elem?-append_cases c.waiters waiter k w g) [
          | inl old ↦
              if_cases (λ z. z ≡ some k) (new_id == w.id) (λ e. absurd (fresh k w old e))
                (λ _. p k w old u)
          | inr (e, y) ↦ own k w e y
        ])
    where
      new_id : String
      new_id = request_id (count_next c.request_counter)

      waiter : Waiter Raw
      waiter = record { id = new_id; buffer = none; returned = none }

      next : count_next c.request_counter ≡ length c.waiters + 1
      next = omega (arith, a.counted)

      fresh :
          (k : ℕ) (w : Waiter Raw) → get_elem? c.waiters k ≡ some w → (new_id == w.id) ≡ true → ⊥
      fresh k w g e =
          let same : new_id ≡ w.id = ground (arith, e, eq_iff new_id w.id) in
          let n =
            request_id-injective (count_next c.request_counter) (k + 1) (same ∙ a.numbered k w g) in
          omega (arith, n, next, get_elem?-lt c.waiters k g)

      own :
          (k : ℕ) (w : Waiter Raw)
          → k ≡ length c.waiters
          → w ≡ waiter
          → (if new_id == w.id then some (length c.waiters) else lookup w.id c.pending) ≡ some k
      own k w e y =
          if_cases (λ z. z ≡ some k) (new_id == w.id) (λ _. ap some (sym e))
            (λ n. absurd (ground (arith, n, eq_iff new_id w.id, ap (λ z. z.id) y)))

module _ {Raw : Type 0} (env : Env Raw) where
  pub AllPending-receive_call :
      (k : ℕ) (c : Calls Raw) → Agrees c → AllPending c → AllPending (receive_call env k c)
  unfolding receive_call
  AllPending-receive_call k c a p =
      option_cases AllPending (get_elem? c.waiters k) (λ _. p)
        λ w g.
          option_cases AllPending w.returned
            (λ _.
              option_cases AllPending w.buffer (λ _. p)
                (λ msg _. AllPending-finish_call k w _ c g a p))
            (λ _ _. p)

  pub AllPending-abandon_call :
      (k : ℕ) (e : GoError) (c : Calls Raw)
      → Agrees c
      → AllPending c
      → AllPending (abandon_call env k e c)
  unfolding abandon_call
  AllPending-abandon_call k e c a p =
      option_cases AllPending (get_elem? c.waiters k) (λ _. p)
        λ w g.
          option_cases AllPending w.returned (λ _. AllPending-finish_call k w _ c g a p) (λ _ _. p)
