-- ===== src/Server/Pending/Routing/Moves.antt =====
-- Each operation on the calls keeps the agreement.
use kimi_wire_go.Prelude.{
  length-modify, ℕ, ◌+◌, String, ◌≡◌, refl, sym, ap, subst, ◌∙◌, ◌≢◌, ◌⊎◌, inl, inr, true, false,
  Option, none, some, List, arith, ◌==◌, eq_iff, if◌then◌else◌, Bool-cases, get_elem?,
  get_elem?-modify_cases, if_cases, option_cases, modify, get_elem?-modify_ne, ◌^◌, ◌<◌, [], ◌∷◌,
  ◌++◌, length, length-append, get_elem?-append_cases, get_elem?-append_last, get_elem?-append_left,
  get_elem?-lt, Result, Bool,
}
use kimi_wire_go.Server.Pending.{
  request_id, put, register, finish_call, count_next, route_response, room_at,
}
use kimi_wire_go.Protocol.Jsonrpc.{RawWireMessage}
use kimi_wire_go.Server.{Waiter, Calls, GoError}
use kimi_wire_go.Prelude.Maps.{lookup-delete, delete, lookup, lookup-insert}
use kimi_wire_go.Server.Pending.Routing.{IsWaiting, IsNumbered, Agrees}
use kimi_wire_go.Prelude.Decimal.{prefixed-injective}

pub request_id-injective : (m n : ℕ) → request_id m ≡ request_id n → m ≡ n
unfolding request_id
request_id-injective m n e = prefixed-injective "srv-" m n e

pub still_gone :
    (x y : String) (m : List (String × ℕ)) → lookup y m ≡ none → lookup y (delete x m) ≡ none
still_gone x y m e =
    rw (lookup-delete x y m) (if_cases (λ z. z ≡ none) (x == y) (λ _. refl) (λ _. e))

pub still_there :
    (x y : String) (m : List (String × ℕ)) (k : ℕ)
    → lookup y (delete x m) ≡ some k
    → lookup y m ≡ some k
still_there x y m k h = ground (arith, lookup-delete x y m, h)

module _ {Raw : Type 0} where
  pub same_waiter :
      (ws : List (Waiter Raw)) (k : ℕ) (v w : Waiter Raw)
      → get_elem? ws k ≡ some v
      → get_elem? ws k ≡ some w
      → v ≡ w
  same_waiter ws k v w g h = ground arith

  pub IsNumbered-modify :
      (ws : List (Waiter Raw)) (k : ℕ) (f : Waiter Raw → Waiter Raw)
      → ((w : Waiter Raw) → (f w).id ≡ w.id)
      → IsNumbered ws
      → IsNumbered (modify ws k f)
  IsNumbered-modify ws k f same h j w g = elim (get_elem?-modify_cases ws k j f w g) [
    | inl (n, old) ↦ h j w old
    | inr (e, (x, old, y)) ↦
        ap (λ z. z.id) y ∙ same x ∙ h k x old ∙ ap (λ z. request_id (z + 1)) (sym e)
  ]

  -- Two calls with the same id are one.
  pub same_id :
      (ws : List (Waiter Raw)) (i j : ℕ) (v w : Waiter Raw)
      → IsNumbered ws
      → get_elem? ws i ≡ some v
      → get_elem? ws j ≡ some w
      → v.id ≡ w.id
      → i ≡ j
  same_id ws i j v w h g g' e =
      let n : i + 1 ≡ j + 1 = request_id-injective (i + 1) (j + 1) (sym (h i v g) ∙ e ∙ h j w g') in
      omega (arith, n)

  pub put-id : (raw : RawWireMessage Raw) (w : Waiter Raw) → (put raw w).id ≡ w.id
  put-id raw w = option_cases (λ (v : Waiter Raw). v.id ≡ w.id) w.buffer (λ _. refl) (λ _ _. refl)

  -- After a send the channel is not empty.
  pub put-full : (raw : RawWireMessage Raw) (w : Waiter Raw) → (put raw w).buffer ≢ none
  put-full raw w =
      option_cases (λ (v : Waiter Raw). v.buffer ≢ none) w.buffer (λ _ e. cc e)
        (λ old h e. cc (h, e))

  -- A call that is taken out of pending and no longer waits.
  Agrees-settle :
      (c : Calls Raw) (k : ℕ) (w : Waiter Raw) (f : Waiter Raw → Waiter Raw)
      → ((v : Waiter Raw) → (f v).id ≡ v.id)
      → ((v : Waiter Raw) → IsWaiting (f v) → ⊥)
      → get_elem? c.waiters k ≡ some w
      → Agrees c
      → Agrees (record c { pending = delete w.id c.pending; waiters = modify c.waiters k f })
  Agrees-settle c k w f same settled g a = record {
    counted = a.counted ∙ sym (length-modify c.waiters k f);
    numbered = IsNumbered-modify c.waiters k f same a.numbered;
    registered =
        λ id j h. left id j (rw (← lookup-delete w.id id c.pending) h) (Bool-cases (w.id == id));
    copied = λ id j h.
        let (below, gone) = a.copied id j h in
        (
          rw (length-modify c.waiters k f) below,
          still_gone w.id (request_id (j + 1)) c.pending gone,
        );
  }
    where
      left :
          (id : String) (j : ℕ)
          → (if w.id == id then none else lookup id c.pending) ≡ some j
          → ((w.id == id) ≡ true) ⊎ ((w.id == id) ≡ false)
          → (v : Waiter Raw) × (get_elem? (modify c.waiters k f) j ≡ some v)
            × (v.id ≡ id)
            × IsWaiting v
      left id j h (inl e) = absurd (ground (arith, e, h))
      left id j h (inr e) =
          let old : lookup id c.pending ≡ some j = ground (arith, e, h) in
          let (v, g', i, u) = a.registered id j old in
          let apart : k ≢ j = λ n.
            let g'' : get_elem? c.waiters k ≡ some v = rw n g' in
            let one : w ≡ v = same_waiter c.waiters k w v g g'' in
            ground (arith, e, eq_iff w.id id, ap (λ z. z.id) one, i) in
          (v, get_elem?-modify_ne c.waiters k j f apart ∙ g', i, u)

  pub Agrees-route_response :
      (lost : Bool) (raw : RawWireMessage Raw) (c : Calls Raw)
      → Agrees c
      → Agrees (route_response lost raw c)
  unfolding route_response
  Agrees-route_response lost raw c a =
      option_cases Agrees (lookup raw.id c.pending) (λ _. a)
        λ k h.
          if_cases Agrees lost (λ _. forgotten)
            (λ _. if_cases Agrees (room_at k c.waiters) (λ _. sent k h) (λ _. a))
    where
      forgotten : Agrees (record c { pending = delete raw.id c.pending })
      forgotten = record {
        counted = a.counted;
        numbered = a.numbered;
        registered = λ id j h. a.registered id j (still_there raw.id id c.pending j h);
        copied = λ id j h.
            let (below, gone) = a.copied id j h in
            (below, still_gone raw.id (request_id (j + 1)) c.pending gone);
      }

      sent :
          (k : ℕ)
          → lookup raw.id c.pending ≡ some k
          → Agrees (record c {
            pending = delete raw.id c.pending;
            waiters = modify c.waiters k (put raw);
          })
      sent k h =
          let (w, g, i, u) = a.registered raw.id k h in
          subst
            (λ z.
              Agrees
                (record c { pending = delete z c.pending; waiters = modify c.waiters k (put raw) }))
            i (Agrees-settle c k w (put raw) (put-id raw) (λ v u. put-full raw v u.1) g a)

  pub Agrees-finish_call :
      (k : ℕ) (w : Waiter Raw) (r : Result GoError (Option Raw)) (c : Calls Raw)
      → get_elem? c.waiters k ≡ some w
      → Agrees c
      → Agrees (finish_call k w.id r c)
  unfolding finish_call
  Agrees-finish_call k w r c g a =
      Agrees-settle c k w (λ v. record v { buffer = none; returned = some r }) (λ v. refl)
        (λ v u. cc (u.0)) g a

  pub Agrees-register :
      (c : Calls Raw) → length c.waiters + 1 < 2 ^ 64 → Agrees c → Agrees (register c)
  unfolding register
  Agrees-register c small a = record {
    counted = next ∙ sym (length-append c.waiters (waiter ∷ []));
    numbered = λ k w g. elim (get_elem?-append_cases c.waiters waiter k w g) [
      | inl old ↦ a.numbered k w old
      | inr (e, y) ↦ rw (y, e) (ap request_id next)
    ];
    registered = λ id k h.
        found id k (rw (← lookup-insert new_id id (length c.waiters) c.pending) h)
          (Bool-cases (new_id == id));
    copied = λ id k h.
        let (below, gone) = a.copied id k h in
        (
          omega (arith, below, length-append c.waiters (waiter ∷ []), one_more),
          rw (lookup-insert new_id (request_id (k + 1)) (length c.waiters) c.pending) (
              if_cases (λ z. z ≡ none) (new_id == request_id (k + 1))
                (λ e. absurd (fresh k below e)) (λ _. gone)),
        );
  }
    where
      new_id : String
      new_id = request_id (count_next c.request_counter)

      waiter : Waiter Raw
      waiter = record { id = new_id; buffer = none; returned = none }

      next : count_next c.request_counter ≡ length c.waiters + 1
      next = omega (arith, a.counted)

      found :
          (id : String) (k : ℕ)
          → (if new_id == id then some (length c.waiters) else lookup id c.pending) ≡ some k
          → ((new_id == id) ≡ true) ⊎ ((new_id == id) ≡ false)
          → (v : Waiter Raw) × (get_elem? (c.waiters ++ waiter ∷ []) k ≡ some v)
            × (v.id ≡ id)
            × IsWaiting v
      found id k h (inl e) =
          let n : length c.waiters ≡ k = ground (arith, e, h) in
          (
            waiter,
            rw (← n) (get_elem?-append_last c.waiters waiter),
            ground (arith, e, eq_iff new_id id),
            (refl, refl),
          )
      found id k h (inr e) =
          let old : lookup id c.pending ≡ some k = ground (arith, e, h) in
          let (v, g, i, u) = a.registered id k old in
          (v, get_elem?-append_left c.waiters waiter k (get_elem?-lt c.waiters k g) ∙ g, i, u)

      one_more : length (waiter ∷ []) ≡ 1
      one_more = refl

      fresh : (k : ℕ) → k < length c.waiters → (new_id == request_id (k + 1)) ≡ true → ⊥
      fresh k below e =
          let same : new_id ≡ request_id (k + 1) =
            ground (arith, e, eq_iff new_id (request_id (k + 1))) in
          let n = request_id-injective (count_next c.request_counter) (k + 1) same in
          omega (arith, n, next, below)
