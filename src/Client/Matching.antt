-- ===== src/Client/Matching.antt =====
-- Which message a call returns.
use kimi_wire_go.Prelude.{
  ℕ, zero, suc, String, ◌≡◌, refl, sym, ap, subst, ◌∙◌, ◌⊎◌, inl, inr, some, List, [], ◌∷◌, arith,
  get_elem?, get_elem?-modify_cases, modify, ok, Bool, true, false, ◌==◌, eq_iff, option_cases,
  ◌++◌, get_elem?-append_cases, get_elem?-append_left, get_elem?-lt, err,
}
use kimi_wire_go.Prelude.Maps.{lookup, delete, lookup-delete, insert, lookup-insert}
use kimi_wire_go.Client.{
  Reader, Call, has_returned, answering, closing_response, send, send_all, ClientError,
}
use kimi_wire_go.Protocol.Jsonrpc.{RawWireMessage}
use kimi_wire_go.Server.Replies.{hit}
use kimi_wire_go.Server.{new}
use kimi_wire_go.Client.Results.{says_method_not_found}

module _ {Raw : Type 0} where
  -- The call at an index has this id.
  abbrev pub Holds : List (Call Raw) → String → ℕ → Type 0
  Holds ws id k = (w : Call Raw) × (get_elem? ws k ≡ some w) × (w.id ≡ id)

  -- The message that stands for the end of the reader loop.
  abbrev pub IsClosing : RawWireMessage Raw → Type 0
  IsClosing m = (msg : String) × (m ≡ closing_response msg)

  abbrev pub IsFor : String → RawWireMessage Raw → Type 0
  IsFor id m = (m.id ≡ id) ⊎ IsClosing m

  -- A message that the call has been given, or has returned, is for it, and an error of readResponse
  -- itself is not that of a peer that does not know the method.
  abbrev pub IsFaithful : Call Raw → Type 0
  IsFaithful w =
      ((m : RawWireMessage Raw) → w.buffer ≡ some m → IsFor w.id m)
      × ((m : RawWireMessage Raw) → w.state ≡ has_returned (ok m) → IsFor w.id m)
      × ((e : ClientError) → w.state ≡ has_returned (err e) → says_method_not_found e ≡ false)

  abbrev pub AreFaithful : List (Call Raw) → Type 0
  AreFaithful ws = (k : ℕ) (w : Call Raw) → get_elem? ws k ≡ some w → IsFaithful w

  -- A response in the reader's hands is for the call to which it goes.
  unfoldable pub HandsRight : List (Call Raw) → Reader Raw → Type 0
  HandsRight ws (answering raw k) = Holds ws raw.id k
  HandsRight ws _ = Unit {0}

  pub record Matches (ws : List (Call Raw)) (m : List (String × ℕ)) (r : Reader Raw) : Type 0 where
    pub registered : (id : String) (k : ℕ) → lookup id m ≡ some k → Holds ws id k
    pub handed : HandsRight ws r
    pub faithful : AreFaithful ws

  pub Holds-modify :
      (ws : List (Call Raw)) (i : ℕ) (f : Call Raw → Call Raw)
      → ((w : Call Raw) → (f w).id ≡ w.id)
      → (id : String) (k : ℕ) → Holds ws id k
      → Holds (modify ws i f) id k
  Holds-modify [] i f h id k (w, at, e) = (w, at, e)
  Holds-modify (x ∷ ws) zero f h id zero (w, at, e) =
      let same : x ≡ w = ground arith in (f x, refl, h x ∙ ap (λ (v : Call Raw). v.id) same ∙ e)
  Holds-modify (x ∷ ws) zero f h id (suc k) (w, at, e) = (w, at, e)
  Holds-modify (x ∷ ws) (suc i) f h id zero (w, at, e) = (w, at, e)
  Holds-modify (x ∷ ws) (suc i) f h id (suc k) (w, at, e) = Holds-modify ws i f h id k (w, at, e)

  pub AreFaithful-modify :
      (ws : List (Call Raw)) (i : ℕ) (f : Call Raw → Call Raw)
      → AreFaithful ws
      → ((w : Call Raw) → get_elem? ws i ≡ some w → IsFaithful w → IsFaithful (f w))
      → AreFaithful (modify ws i f)
  AreFaithful-modify ws i f all one k w at = elim (get_elem?-modify_cases ws i k f w at) [
    | inl (n, old) ↦ all k w old
    | inr (e, (x, old, hit)) ↦ subst IsFaithful (sym hit) (one x old (all i x old))
  ]

  HandsRight-modify :
      (ws : List (Call Raw)) (i : ℕ) (f : Call Raw → Call Raw) (r : Reader Raw)
      → ((w : Call Raw) → (f w).id ≡ w.id)
      → HandsRight ws r
      → HandsRight (modify ws i f) r
  unfolding HandsRight
  HandsRight-modify ws i f (answering raw k) h right = Holds-modify ws i f h raw.id k right
  HandsRight-modify ws i f _ h right = tt

  -- A write to a call that keeps its id.
  pub Matches-modify :
      {ws : List (Call Raw)} {m : List (String × ℕ)} {r : Reader Raw} (i : ℕ)
      (f : Call Raw → Call Raw)
      → ((w : Call Raw) → (f w).id ≡ w.id)
      → ((w : Call Raw) → get_elem? ws i ≡ some w → IsFaithful w → IsFaithful (f w))
      → Matches ws m r
      → Matches (modify ws i f) m r
  Matches-modify {ws = ws} {r = r} i f h one all = record {
    registered = λ id k e. Holds-modify ws i f h id k (all.registered id k e);
    handed = HandsRight-modify ws i f r h all.handed;
    faithful = AreFaithful-modify ws i f all.faithful one;
  }

  -- A registration of a call under its id, and the end of one.
  pub Matches-insert :
      {ws : List (Call Raw)} {m : List (String × ℕ)} {r : Reader Raw} (id : String) (k : ℕ)
      → Holds ws id k
      → Matches ws m r
      → Matches ws (insert id k m) r
  Matches-insert {ws = ws} {m = m} id k here all = record {
    registered = λ id' k' e. hit id' k' e (id == id') refl;
    handed = all.handed;
    faithful = all.faithful;
  }
    where
      hit :
          (id' : String) (k' : ℕ)
          → lookup id' (insert id k m) ≡ some k'
          → (b : Bool) → (id == id') ≡ b
          → Holds ws id' k'
      hit id' k' e true same =
          let old : k ≡ k' = ground (arith, e, lookup-insert id id' k m, same) in
          let this : id ≡ id' = ground (arith, same, eq_iff id id') in
          subst (λ i. Holds ws i k') this (subst (λ j. Holds ws id j) old here)
      hit id' k' e false other =
          all.registered id' k' (ground (arith, e, lookup-insert id id' k m, other))

  pub Matches-delete :
      {ws : List (Call Raw)} {m : List (String × ℕ)} {r : Reader Raw} (id : String)
      → Matches ws m r
      → Matches ws (delete id m) r
  Matches-delete {m = m} id all = record {
    registered = λ id' k' e. all.registered id' k' (ground (arith, lookup-delete id id' m));
    handed = all.handed;
    faithful = all.faithful;
  }

  -- A send into the channel of a call.
  pub id-send : (raw : RawWireMessage Raw) (w : Call Raw) → (send raw w).id ≡ w.id
  id-send raw w = option_cases (λ (v : Call Raw). v.id ≡ w.id) w.buffer (λ _. refl) (λ _ _. refl)

  pub IsFaithful-send :
      (raw : RawWireMessage Raw) (w : Call Raw)
      → IsFor w.id raw
      → IsFaithful w
      → IsFaithful (send raw w)
  IsFaithful-send raw w own f =
      option_cases IsFaithful w.buffer
        (λ _. ((λ m e. subst (IsFor w.id) (some_same raw m e) own), f.1, f.2)) (λ _ _. f)
    where
      some_same : (a b : RawWireMessage Raw) → some a ≡ some b → a ≡ b
      some_same a b e = ground arith

  pub AreFaithful-send_all :
      (msg : String) (m : List (String × ℕ)) (ws : List (Call Raw))
      → AreFaithful ws
      → AreFaithful (send_all (closing_response msg) m ws)
  unfolding send_all
  AreFaithful-send_all msg [] ws all = all
  AreFaithful-send_all msg ((id, k) ∷ m) ws all =
      AreFaithful-send_all msg m (modify ws k (send (closing_response msg))) (
        AreFaithful-modify ws k (send (closing_response msg)) all
          (λ w _ f. IsFaithful-send (closing_response msg) w (inr (msg, refl)) f))

  -- A call that begins_call.
  pub Matches-append :
      {ws : List (Call Raw)} {m : List (String × ℕ)} {r : Reader Raw} (w : Call Raw)
      → IsFaithful w
      → Matches ws m r
      → Matches (ws ++ w ∷ []) m r
  unfolding HandsRight
  Matches-append {ws = ws} {m = m} {r = r} w f all = record {
    registered = λ id k e. longer id k (all.registered id k e);
    handed = right r all.handed;
    faithful = λ k v at. elim (get_elem?-append_cases ws w k v at) [
      | inl old ↦ all.faithful k v old
      | inr (e, new) ↦ subst IsFaithful (sym new) f
    ];
  }
    where
      longer : (id : String) (k : ℕ) → Holds ws id k → Holds (ws ++ w ∷ []) id k
      longer id k (v, at, own) = (v, get_elem?-append_left ws w k (get_elem?-lt ws k at) ∙ at, own)

      right : (r : Reader Raw) → HandsRight ws r → HandsRight (ws ++ w ∷ []) r
      right (answering raw k) h = longer raw.id k h
      right _ h = tt
