-- ===== src/Redact/Finds.antt =====
-- What is found in a map or a slice that is redacted.
use mathlib.Core.Option
-- A step into a map or a slice.
use kimi_wire_go.Prelude.{
  ℕ, zero, suc, String, ◌≡◌, refl, true, false, Option, none, some, List, [], ◌∷◌, ◌==◌,
  if◌then◌else◌, arith, eq_iff, if_cases,
}
use kimi_wire_go.Redact.{
  redact_elements, any_slice, no_elements, no_entries, Elements, Entries, redact_entries, AnyValue,
  any_map, redact_value, any_string, Secrets, slice_element, hidden_text, map_entry,
}

pub data Step : Type 0 where
  at_key : String → Step
  at_index : ℕ → Step

module _ {R : Type 0} where
  unfoldable pub find_entry : String → Entries R → Option (AnyValue R)
  find_entry k no_entries = none
  find_entry k (map_entry j v es) = let rest = find_entry k es in if j == k then some v else rest

  unfoldable pub find_element : ℕ → Elements R → Option (AnyValue R)
  find_element i no_elements = none
  find_element zero (slice_element v es) = some v
  find_element (suc i) (slice_element v es) = find_element i es

  unfoldable pub find_step : Step → AnyValue R → Option (AnyValue R)
  unfolding find_entry find_element
  find_step (at_key k) (any_map es) = find_entry k es
  find_step (at_index i) (any_slice es) = find_element i es
  find_step _ _ = none

  -- The value at the end of a path.
  unfoldable pub find_path : List Step → AnyValue R → Option (AnyValue R)
  unfolding find_step
  find_path [] v = some v
  find_path (s ∷ p) v = elim (find_step s v) [ none ↦ none | some w ↦ find_path p w ]

module _ {Raw : Type 0} (secrets : Secrets Raw) where
  -- The path goes into no secret.
  unfoldable pub IsOpenStep : Step → Type 0
  IsOpenStep (at_key k) = secrets.is_secret_key k ≡ false
  IsOpenStep (at_index i) = Unit {0}

  unfoldable pub IsOpenPath : List Step → Type 0
  unfolding IsOpenStep
  IsOpenPath [] = Unit {0}
  IsOpenPath (s ∷ p) = IsOpenStep s × IsOpenPath p

  module _ {R : Type 0} (redact_raw : R → R) where
    pub find_entry-open :
        (k : String) (es : Entries R)
        → secrets.is_secret_key k ≡ false
        → find_entry k (redact_entries secrets redact_raw es)
          ≡ Option.map (redact_value secrets redact_raw) (find_entry k es)
    unfolding find_entry redact_entries
    find_entry-open k no_entries o = refl
    find_entry-open k (map_entry j v es) o =
        let later = find_entry-open k es o in
        if_cases
          (λ (t : Entries R).
            find_entry k t
            ≡ Option.map (redact_value secrets redact_raw) (find_entry k (map_entry j v es)))
          (secrets.is_secret_key j)
          (λ b.
            if_cases
              (λ (o : Option (AnyValue R)).
                find_entry k
                  (map_entry j (any_string hidden_text) (redact_entries secrets redact_raw es))
                ≡ Option.map (redact_value secrets redact_raw) o)
              (j == k)
              (λ e. let same : j ≡ k = ground (arith, e, eq_iff j k) in absurd (cc (b, o, same)))
              (λ e. rw (e, find_entry) later))
          (λ b.
            if_cases
              (λ (o : Option (AnyValue R)).
                find_entry k (
                  map_entry j (redact_value secrets redact_raw v)
                    (redact_entries secrets redact_raw es))
                ≡ Option.map (redact_value secrets redact_raw) o)
              (j == k) (λ e. rw (e, find_entry) refl) (λ e. rw (e, find_entry) later))

    pub find_entry-secret :
        (k : String) (es : Entries R) (v : AnyValue R)
        → secrets.is_secret_key k ≡ true
        → find_entry k es ≡ some v
        → find_entry k (redact_entries secrets redact_raw es) ≡ some (any_string hidden_text)
    unfolding find_entry redact_entries
    find_entry-secret k no_entries v o h = absurd (cc h)
    find_entry-secret k (map_entry j u es) v o h =
        elim (j == k)
            as (λ b.
              (j == k) ≡ b
              → find_entry k (redact_entries secrets redact_raw (map_entry j u es))
                ≡ some (any_string hidden_text)) [
                  | true ↦ λ e.
                      let same : j ≡ k = ground (arith, e, eq_iff j k) in
                      if_cases (λ (t : Entries R). find_entry k t ≡ some (any_string hidden_text))
                        (secrets.is_secret_key j) (λ _. rw (e, find_entry) refl)
                        (λ n. absurd (cc (n, o, same)))
                  | false ↦ λ e.
                      let h' : find_entry k es ≡ some v = ground (arith, h, e) in
                      let later = find_entry-secret k es v o h' in
                      if_cases (λ (t : Entries R). find_entry k t ≡ some (any_string hidden_text))
                        (secrets.is_secret_key j) (λ _. rw (e, find_entry) later)
                        (λ _. rw (e, find_entry) later)
                ]
          refl

    pub find_element-redacted :
        (i : ℕ) (es : Elements R)
        → find_element i (redact_elements secrets redact_raw es)
          ≡ Option.map (redact_value secrets redact_raw) (find_element i es)
    unfolding find_element redact_elements
    find_element-redacted i no_elements = refl
    find_element-redacted zero (slice_element v es) = refl
    find_element-redacted (suc i) (slice_element v es) = find_element-redacted i es
