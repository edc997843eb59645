-- ===== src/Server/Pending/Routing/Reached.antt =====
-- The agreement holds of all calls that the server reaches.
use kimi_wire_go.Prelude.{
  length-modify, ℕ, String, ◌≡◌, refl, sym, ap, ◌∙◌, none, some, List, ◌∷◌, arith, ◌==◌, get_elem?,
  if_cases, option_cases, ◌^◌, ◌<◌, ◌+◌, subst, Bool, eq_iff, get_elem?-modify_ne, get_elem?-lt,
}
use kimi_wire_go.Protocol.Jsonrpc.{RawWireMessage}
use kimi_wire_go.Server.{Waiter, GoError, Env, Calls}
use kimi_wire_go.Server.Pending.Routing.{
  Agrees, empty_calls, Reaches, given_up, routed, answered, called, no_calls_yet, copied_over,
  call_failed,
}
use kimi_wire_go.Prelude.Maps.{lookup}
use kimi_wire_go.Server.Pending.{
  receive_call, abandon_call, put, closing_message, register, route_response, finish_call,
  send_closing, copy_pending, request_id, room_at,
}
use kimi_wire_go.Server.Pending.Routing.Moves.{
  Agrees-register, put-id, IsNumbered-modify, Agrees-route_response, Agrees-finish_call,
  still_there,
}

module _ {Raw : Type 0} where
  Agrees-copy_pending : (c : Calls Raw) → Agrees c → Agrees (copy_pending c)
  unfolding copy_pending lookup
  Agrees-copy_pending c a = record {
    counted = a.counted;
    numbered = a.numbered;
    registered = λ id k h. absurd (cc h);
    copied = λ id k h. let (w, g, i, u) = a.registered id k h in (get_elem?-lt c.waiters k g, refl);
  }

  -- A channel of the copy is that of no pending call.
  Agrees-send_closing :
      (msg id : String) (k : ℕ) (rest : List (String × ℕ)) (c : Calls Raw)
      → c.pending_copy ≡ (id, k) ∷ rest
      → Agrees c
      → Agrees (send_closing msg id k c)
  unfolding send_closing lookup
  Agrees-send_closing msg id k rest c e a = record {
    counted = a.counted ∙ sym (length-modify c.waiters k (put raw));
    numbered = IsNumbered-modify c.waiters k (put raw) (put-id raw) a.numbered;
    registered = λ x j h.
        let (w, g, i, u) = a.registered x j h in
        let n = λ (z : k ≡ j). apart x j w h g i z in
        (w, get_elem?-modify_ne c.waiters k j (put raw) n ∙ g, i, u);
    copied = λ x j h.
        let (below, none_of) = a.copied x j (still_there id x c.pending_copy j h) in
        (rw (length-modify c.waiters k (put raw)) below, none_of);
  }
    where
      raw : RawWireMessage Raw
      raw = closing_message msg

      first : lookup id c.pending_copy ≡ some k
      first = rw e (
          if_cases (λ z. z ≡ some k) (id == id) {y = lookup id rest} (λ _. refl)
            (λ n. absurd (ground (arith, n, eq_iff id id))))

      apart :
          (x : String) (j : ℕ) (w : Waiter Raw)
          → lookup x c.pending ≡ some j
          → get_elem? c.waiters j ≡ some w
          → w.id ≡ x
          → k ≡ j
          → ⊥
      apart x j w h g i z =
          let (below, none_of) = a.copied id k first in
          let named : request_id (k + 1) ≡ x =
            ap (λ n. request_id (n + 1)) z ∙ sym (a.numbered j w g) ∙ i in
          let none_at : lookup x c.pending ≡ none =
            subst (λ y. lookup y c.pending ≡ none) named none_of in
          cc (none_at, h)

  empty-Agrees : Agrees (empty_calls {Raw = Raw})
  unfolding lookup
  empty-Agrees = record {
    counted = refl;
    numbered = λ k w g. absurd (cc g);
    registered = λ id k h. absurd (cc h);
    copied = λ id k h. absurd (cc h);
  }

module _ {Raw : Type 0} (env : Env Raw) where
  Agrees-receive_call : (k : ℕ) (c : Calls Raw) → Agrees c → Agrees (receive_call env k c)
  unfolding receive_call
  Agrees-receive_call k c a =
      option_cases Agrees (get_elem? c.waiters k) (λ _. a)
        λ w g.
          option_cases Agrees w.returned
            (λ _. option_cases Agrees w.buffer (λ _. a) (λ msg _. Agrees-finish_call k w _ c g a))
            (λ _ _. a)

  Agrees-abandon_call :
      (k : ℕ) (e : GoError) (c : Calls Raw) → Agrees c → Agrees (abandon_call env k e c)
  unfolding abandon_call
  Agrees-abandon_call k e c a =
      option_cases Agrees (get_elem? c.waiters k) (λ _. a)
        λ w g. option_cases Agrees w.returned (λ _. Agrees-finish_call k w _ c g a) (λ _ _. a)

  -- Only a call counts.
  route-counter :
      (lost : Bool) (raw : RawWireMessage Raw) (c : Calls Raw)
      → (route_response lost raw c).request_counter ≡ c.request_counter
  unfolding route_response
  route-counter lost raw c =
      option_cases Same (lookup raw.id c.pending) (λ _. refl)
        λ k _.
          if_cases Same lost (λ _. refl)
            (λ _. if_cases Same (room_at k c.waiters) (λ _. refl) (λ _. refl))
    where
      Same : Calls Raw → Type 0
      Same d = d.request_counter ≡ c.request_counter

  receive-counter :
      (k : ℕ) (c : Calls Raw) → (receive_call env k c).request_counter ≡ c.request_counter
  unfolding receive_call finish_call
  receive-counter k c =
      option_cases Same (get_elem? c.waiters k) (λ _. refl)
        λ w _.
          option_cases Same w.returned (λ _. option_cases Same w.buffer (λ _. refl) (λ _ _. refl))
            (λ _ _. refl)
    where
      Same : Calls Raw → Type 0
      Same d = d.request_counter ≡ c.request_counter

  abandon-counter :
      (k : ℕ) (e : GoError) (c : Calls Raw)
      → (abandon_call env k e c).request_counter ≡ c.request_counter
  unfolding abandon_call finish_call
  abandon-counter k e c =
      option_cases Same (get_elem? c.waiters k) (λ _. refl)
        λ w _. option_cases Same w.returned (λ _. refl) (λ _ _. refl)
    where
      Same : Calls Raw → Type 0
      Same d = d.request_counter ≡ c.request_counter

  pub reached :
      (c : Calls Raw) (n : ℕ) → n < 2 ^ 64 → Reaches env c n → Agrees c × (c.request_counter ≡ n)
  unfolding register copy_pending send_closing
  reached c n small no_calls_yet = (empty-Agrees, refl)
  reached c n small (called b m r) =
      let (a, e) = reached b m (omega arith) r in
      (Agrees-register b (omega (arith, e, a.counted)) a, omega (arith, e))
  reached c n small (routed lost raw b m r) =
      let (a, e) = reached b n small r in
      (Agrees-route_response lost raw b a, route-counter lost raw b ∙ e)
  reached c n small (copied_over b m r) =
      let (a, e) = reached b n small r in (Agrees-copy_pending b a, e)
  reached c n small (call_failed msg id k rest b m p r) =
      let (a, e) = reached b n small r in (Agrees-send_closing msg id k rest b p a, e)
  reached c n small (answered k b m r) =
      let (a, e) = reached b n small r in (Agrees-receive_call k b a, receive-counter k b ∙ e)
  reached c n small (given_up k x b m r) =
      let (a, e) = reached b n small r in (Agrees-abandon_call k x b a, abandon-counter k x b ∙ e)
