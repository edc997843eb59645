-- ===== src/Server/Exclusion/Moves.antt =====
-- The changes that the handlers and goroutines make to the operations and the active pointers.
use kimi_wire_go.Prelude.{
  ℕ, ◌≡◌, refl, sym, ap, ◌∙◌, inl, inr, true, false, Option, none, some, List, [], ◌∷◌, ◌++◌, arith,
  length, get_elem?, get_elem?-append_cases, get_elem?-modify_cases, modify, get_elem?-modify_self,
  get_elem?-modify_ne, get_elem?-append_last, get_elem?-map, get_elem?-map-some, map,
}
use native.Mathlib.Decide.{ℕ_discrete}
use kimi_wire_go.Server.{Operation}
use kimi_wire_go.Server.Exclusion.{Agree, holds, holds_turn, holds_of_turn}
use kimi_wire_go.Server.Control.{no_turn}

-- A write that keeps what each operation holds.
pub Agree-modify :
    (ops : List Operation) (turn op : Option ℕ) (i : ℕ) (f : Operation → Operation)
    → ((o : Operation) → get_elem? ops i ≡ some o → holds (f o).phase ≡ holds o.phase)
    → ((o : Operation) → get_elem? ops i ≡ some o → holds_turn (f o).phase ≡ holds_turn o.phase)
    → Agree ops turn op
    → Agree (modify ops i f) turn op
Agree-modify ops turn op i f same same_turn a = record {
  held_active = λ j o h k. elim (get_elem?-modify_cases ops i j f o h) [
    | inl (n, old) ↦ a.held_active j o old k
    | inr (e, (x, old, y)) ↦
        rw e (a.held_active i x old (sym (same x old) ∙ ap (λ z. holds z.phase) (sym y) ∙ k))
  ];
  turn_active = λ j o h k. elim (get_elem?-modify_cases ops i j f o h) [
    | inl (n, old) ↦ a.turn_active j o old k
    | inr (e, (x, old, y)) ↦
        rw e
          (a.turn_active i x old (sym (same_turn x old) ∙ ap (λ z. holds_turn z.phase) (sym y) ∙ k))
  ];
  turn_is_op = a.turn_is_op;
  active_turn_held = λ j e. let (o, h, k) = a.active_turn_held j e in kept_turn j o h k;
  active_held = λ j e. let (o, h, k) = a.active_held j e in kept j o h k;
}
  where
    kept :
        (j : ℕ) (o : Operation)
        → get_elem? ops j ≡ some o
        → holds o.phase ≡ true
        → (o' : Operation) × (get_elem? (modify ops i f) j ≡ some o') × (holds o'.phase ≡ true)
    kept j o h k = elim (ℕ_discrete i j) [
      | yes e ↦
          let h' : get_elem? ops i ≡ some o = rw e h in
          (f o, rw (← e) (get_elem?-modify_self ops i f h'), same o h' ∙ k)
      | no n ↦ (o, get_elem?-modify_ne ops i j f n ∙ h, k)
    ]

    kept_turn :
        (j : ℕ) (o : Operation)
        → get_elem? ops j ≡ some o
        → holds_turn o.phase ≡ true
        → (o' : Operation) × (get_elem? (modify ops i f) j ≡ some o') × (holds_turn o'.phase ≡ true)
    kept_turn j o h k = elim (ℕ_discrete i j) [
      | yes e ↦
          let h' : get_elem? ops i ≡ some o = rw e h in
          (f o, rw (← e) (get_elem?-modify_self ops i f h'), same_turn o h' ∙ k)
      | no n ↦ (o, get_elem?-modify_ne ops i j f n ∙ h, k)
    ]

-- With no active operation nothing is held.
none_held :
    (ops : List Operation) (turn : Option ℕ) (i : ℕ) (o : Operation)
    → Agree ops turn none
    → get_elem? ops i ≡ some o
    → holds o.phase ≡ true
    → ⊥
none_held ops turn i o a h k = cc (a.held_active i o h k)

-- A new turn on an idle server.
pub Agree-start_turn :
    (ops : List Operation) (o : Operation)
    → holds_turn o.phase ≡ true
    → Agree ops none none
    → Agree (ops ++ o ∷ []) (some (length ops)) (some (length ops))
Agree-start_turn ops o begins a = record {
  held_active = λ i p h k. elim (get_elem?-append_cases ops o i p h) [
    | inl old ↦ absurd (none_held ops none i p a old k)
    | inr (e, _) ↦ rw e
  ];
  turn_active = λ i p h k. elim (get_elem?-append_cases ops o i p h) [
    | inl old ↦ absurd (none_held ops none i p a old (holds_of_turn p.phase k))
    | inr (e, _) ↦ rw e
  ];
  turn_is_op = λ i e. e;
  active_turn_held = λ i e.
      let n : length ops ≡ i = ground arith in (o, rw (← n) (get_elem?-append_last ops o), begins);
  active_held = λ i e.
      let n : length ops ≡ i = ground arith in
      (o, rw (← n) (get_elem?-append_last ops o), holds_of_turn o.phase begins);
}

-- A new replay on an idle server.
pub Agree-start_replay :
    (ops : List Operation) (o : Operation)
    → holds o.phase ≡ true
    → holds_turn o.phase ≡ false
    → Agree ops none none
    → Agree (ops ++ o ∷ []) none (some (length ops))
Agree-start_replay ops o begins no_turn a = record {
  held_active = λ i p h k. elim (get_elem?-append_cases ops o i p h) [
    | inl old ↦ absurd (none_held ops none i p a old k)
    | inr (e, _) ↦ rw e
  ];
  turn_active = λ i p h k. elim (get_elem?-append_cases ops o i p h) [
    | inl old ↦ absurd (none_held ops none i p a old (holds_of_turn p.phase k))
    | inr (_, e) ↦ absurd (ground arith)
  ];
  turn_is_op = λ i e. cc;
  active_turn_held = λ i e. absurd (cc);
  active_held = λ i e.
      let n : length ops ≡ i = ground arith in (o, rw (← n) (get_elem?-append_last ops o), begins);
}

-- The holder lets go.
pub Agree-release :
    (ops : List Operation) (turn : Option ℕ) (i : ℕ) (f : Operation → Operation)
    → ((o : Operation) → holds (f o).phase ≡ false)
    → Agree ops turn (some i)
    → Agree (modify ops i f) none none
Agree-release ops turn i f lets_go a = record {
  held_active = λ j o h k. absurd (nothing j o h k);
  turn_active = λ j o h k. absurd (nothing j o h (holds_of_turn o.phase k));
  turn_is_op = λ j e. e;
  active_turn_held = λ j e. absurd (cc);
  active_held = λ j e. absurd (cc);
}
  where
    nothing :
        (j : ℕ) (o : Operation) → get_elem? (modify ops i f) j ≡ some o → holds o.phase ≡ true → ⊥
    nothing j o h k = elim (get_elem?-modify_cases ops i j f o h) [
      | inl (n, old) ↦ let e : some i ≡ some j = a.held_active j o old k in n (ground arith)
      | inr (e, (x, old, y)) ↦ cc (lets_go x, ap (λ z. holds z.phase) y, k)
    ]

-- The active turn is not the replay that holds the server.
pub replay_has_no_turn :
    (ops : List Operation) (turn : Option ℕ) (i : ℕ) (o : Operation)
    → Agree ops turn (some i)
    → get_elem? ops i ≡ some o
    → holds_turn o.phase ≡ false
    → turn ≡ none
replay_has_no_turn ops none i o a h k = refl
replay_has_no_turn ops (some j) i o a h k =
    let (p, h', k') = a.active_turn_held j refl in
    let e : some i ≡ some j = a.turn_is_op j refl in
    let n : i ≡ j = ground arith in
    let h'' : get_elem? ops i ≡ some p = rw n h' in absurd (cc (h, h'', k, k'))

-- A change of all operations that keeps their phases.
pub Agree-map :
    (ops : List Operation) (turn op : Option ℕ) (f : Operation → Operation)
    → ((o : Operation) → (f o).phase ≡ o.phase)
    → Agree ops turn op
    → Agree (map f ops) turn op
Agree-map ops turn op f same a = record {
  held_active = λ i o h k.
      let (x, old, y) = get_elem?-map ops i f o h in
      a.held_active i x old (ap holds (sym (same x)) ∙ ap (λ z. holds z.phase) (sym y) ∙ k);
  turn_active = λ i o h k.
      let (x, old, y) = get_elem?-map ops i f o h in
      a.turn_active i x old
        (ap holds_turn (sym (same x)) ∙ ap (λ z. holds_turn z.phase) (sym y) ∙ k);
  turn_is_op = a.turn_is_op;
  active_turn_held = λ i e.
      let (o, h, k) = a.active_turn_held i e in
      (f o, get_elem?-map-some ops i f o h, ap holds_turn (same o) ∙ k);
  active_held = λ i e.
      let (o, h, k) = a.active_held i e in
      (f o, get_elem?-map-some ops i f o h, ap holds (same o) ∙ k);
}
