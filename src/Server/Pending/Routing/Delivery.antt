-- ===== src/Server/Pending/Routing/Delivery.antt =====
-- What a response does, in all states of the calls that the server reaches.
use kimi_wire_go.Prelude.{
  ℕ, ◌^◌, ◌<◌, ◌≡◌, refl, ap, ◌∙◌, ◌≢◌, Option, none, some, arith, ◌==◌, eq_iff, get_elem?,
  if_cases, option_cases, get_elem?-modify_self, get_elem?-modify_ne, Bool, true, false, List,
  modify,
}
use kimi_wire_go.Prelude.Maps.{lookup, lookup-delete, delete}
use kimi_wire_go.Server.Pending.{route_response, put, room_at}
use kimi_wire_go.Server.{Waiter, Calls, Env}
use kimi_wire_go.Server.Pending.Routing.{Reaches, IsWaiting}
use kimi_wire_go.Protocol.Jsonrpc.{RawWireMessage}
use kimi_wire_go.Server.Pending.Routing.Moves.{same_id}
use kimi_wire_go.Server.Pending.Routing.Reached.{reached}

module _ {Raw : Type 0} (env : Env Raw) where
  put_empty :
      (raw : RawWireMessage Raw) (w : Waiter Raw)
      → w.buffer ≡ none
      → put raw w ≡ record w { buffer = some raw }
  put_empty raw w e =
      option_cases (λ (v : Waiter Raw). v ≡ record w { buffer = some raw }) w.buffer (λ _. refl)
        (λ old h. absurd (cc (h, e)))

  room_at_waiting :
      (k : ℕ) (ws : List (Waiter Raw)) (w : Waiter Raw)
      → get_elem? ws k ≡ some w
      → w.buffer ≡ none
      → room_at k ws ≡ true
  room_at_waiting k ws w g e =
      option_cases (λ z. z ≡ true) (get_elem? ws k) (λ n. absurd (cc (n, g)))
        λ v gv.
          option_cases (λ z. z ≡ true) v.buffer (λ _. refl)
            λ old b.
              let same : w ≡ v = ground arith in
              absurd (cc (b, e, ap (λ (z : Waiter Raw). z.buffer) same))

  route_response-sends :
      (raw : RawWireMessage Raw) (c : Calls Raw) (k : ℕ)
      → lookup raw.id c.pending ≡ some k
      → room_at k c.waiters ≡ true
      → route_response false raw c
        ≡ record c { pending = delete raw.id c.pending; waiters = modify c.waiters k (put raw) }
  unfolding route_response delete
  route_response-sends raw c k at room = rw (at, room, route_response) refl

  route_response-loses :
      (raw : RawWireMessage Raw) (c : Calls Raw) (k : ℕ)
      → lookup raw.id c.pending ≡ some k
      → route_response true raw c ≡ record c { pending = delete raw.id c.pending }
  unfolding route_response delete
  route_response-loses raw c k at = rw (at, route_response) refl

  -- Among fewer than 2^64 calls, a response to a pending id has exactly one call to go to: that call
  -- has the id, waits in its select and has room in its channel. If the server's select sends, the
  -- response is put into this channel and the other channels are as they were; if it takes the case
  -- of the context that is done, all channels are as they were. Either way the id is pending no more.
  pub response_is_delivered :
      (c : Calls Raw) (n : ℕ)
      → n < 2 ^ 64
      → Reaches env c n
      → (k : ℕ) (raw : RawWireMessage Raw) → lookup raw.id c.pending ≡ some k
      → (w : Waiter Raw) × (get_elem? c.waiters k ≡ some w)
        × (w.id ≡ raw.id)
        × IsWaiting w
        × (get_elem? (route_response false raw c).waiters k ≡ some (record w { buffer = some raw }))
        × ((j : ℕ)
            → k ≢ j
            → get_elem? (route_response false raw c).waiters j ≡ get_elem? c.waiters j)
        × ((route_response true raw c).waiters ≡ c.waiters)
        × (lookup raw.id (route_response false raw c).pending ≡ none)
        × (lookup raw.id (route_response true raw c).pending ≡ none)
  response_is_delivered c n small r k raw at =
      let (w, g, i, u) = (reached env c n small r).0.registered raw.id k at in
      let sends = route_response-sends raw c k at (room_at_waiting k c.waiters w g u.1) in
      let loses = route_response-loses raw c k at in
      let itself =
        if_cases (λ (z : Option ℕ). z ≡ none) (raw.id == raw.id) {y = lookup raw.id c.pending}
          (λ _. refl) (λ m. absurd (ground (arith, m, eq_iff raw.id raw.id))) in
      let gone : lookup raw.id (delete raw.id c.pending) ≡ none =
        lookup-delete raw.id raw.id c.pending ∙ itself in
      (
        w,
        g,
        i,
        u,
        ap (λ d. get_elem? d.waiters k) sends
            ∙ get_elem?-modify_self c.waiters k (put raw) g
            ∙ ap some ((put_empty raw w u.1)),
        λ j m.
            ap (λ d. get_elem? d.waiters j) sends ∙ get_elem?-modify_ne c.waiters k j (put raw) m,
        ap (λ d. d.waiters) loses,
        ap (λ d. lookup raw.id d.pending) sends ∙ gone,
        ap (λ d. lookup raw.id d.pending) loses ∙ gone,
      )

  -- Among fewer than 2^64 calls, a response whose id is that of no call that waits changes nothing:
  -- one that comes a second time, one to a call that has returned, and one to an unknown id.
  pub stray_response_is_dropped :
      (c : Calls Raw) (n : ℕ)
      → n < 2 ^ 64
      → Reaches env c n
      → (lost : Bool) (raw : RawWireMessage Raw)
      → ((k : ℕ) (w : Waiter Raw) → get_elem? c.waiters k ≡ some w → IsWaiting w → w.id ≢ raw.id)
      → route_response lost raw c ≡ c
  unfolding route_response
  stray_response_is_dropped c n small r lost raw nobody =
      option_cases (λ d. d ≡ c) (lookup raw.id c.pending) (λ _. refl)
        λ k h.
          let (w, g, i, u) = (reached env c n small r).0.registered raw.id k h in
          absurd (nobody k w g u i)

  -- Among fewer than 2^64 calls, no two have the same id.
  pub ids_are_distinct :
      (c : Calls Raw) (n : ℕ)
      → n < 2 ^ 64
      → Reaches env c n
      → (i j : ℕ) (v w : Waiter Raw) → get_elem? c.waiters i ≡ some v
      → get_elem? c.waiters j ≡ some w
      → v.id ≡ w.id
      → i ≡ j
  ids_are_distinct c n small r i j v w g h e =
      same_id c.waiters i j v w (reached env c n small r).0.numbered g h e
