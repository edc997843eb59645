-- ===== src/Redact/Paths.antt =====
-- What is found in a redacted value.
use mathlib.Core.Option
use kimi_wire_go.Prelude.{
  String, ◌≡◌, refl, ap, ◌∙◌, true, Option, none, some, List, [], ◌∷◌, ◌++◌, arith,
}
use kimi_wire_go.Redact.{
  AnyValue, any_raw, redact_value, Secrets, any_slice, any_map, hidden_text, any_other, any_string,
}
use kimi_wire_go.Redact.Finds.{
  IsOpenPath, find_step, IsOpenStep, Step, find_path, at_index, find_entry-open, find_entry-secret,
  at_key, find_element-redacted,
}

module _ {Raw : Type 0} (secrets : Secrets Raw) where
  module _ {R : Type 0} (redact_raw : R → R) where
    find_step-open :
        (s : Step) (v : AnyValue R)
        → IsOpenStep secrets s
        → find_step s (redact_value secrets redact_raw v)
          ≡ Option.map (redact_value secrets redact_raw) (find_step s v)
    unfolding find_step redact_value IsOpenStep
    find_step-open (at_key k) (any_map es) o = find_entry-open secrets redact_raw k es o
    find_step-open (at_index i) (any_slice es) o = find_element-redacted secrets redact_raw i es
    find_step-open (at_key k) (any_string t) o = refl
    find_step-open (at_key k) (any_slice es) o = refl
    find_step-open (at_key k) (any_raw t) o = refl
    find_step-open (at_key k) (any_other t) o = refl
    find_step-open (at_index i) (any_string t) o = refl
    find_step-open (at_index i) (any_map es) o = refl
    find_step-open (at_index i) (any_raw t) o = refl
    find_step-open (at_index i) (any_other t) o = refl

    -- What is found along a path that goes into no secret key is what was there, redacted: the maps and
    -- slices keep their shape, and nothing is found where nothing was.
    pub find_path-redact_value :
        (p : List Step) (v : AnyValue R)
        → IsOpenPath secrets p
        → find_path p (redact_value secrets redact_raw v)
          ≡ Option.map (redact_value secrets redact_raw) (find_path p v)
    unfolding find_path IsOpenPath
    find_path-redact_value [] v o = refl
    find_path-redact_value (s ∷ p) v o =
        ap (λ (x : Option (AnyValue R)). elim x [ none ↦ none | some w ↦ find_path p w ])
          (find_step-open s v o.0)
        ∙ follow (find_step s v) (λ w. find_path-redact_value p w o.1)
      where
        follow :
            (x : Option (AnyValue R))
            → ((w : AnyValue R)
                → find_path p (redact_value secrets redact_raw w)
                  ≡ Option.map (redact_value secrets redact_raw) (find_path p w))
            → (elim (Option.map (redact_value secrets redact_raw) x) [
              | none ↦ none
              | some w ↦ find_path p w
            ])
              ≡ Option.map
                  (redact_value secrets redact_raw)
                  (elim x [ none ↦ none | some w ↦ find_path p w ])
        follow none ih = refl
        follow (some w) ih = ih w

    find_step-secret :
        (k : String) (v w : AnyValue R)
        → secrets.is_secret_key k ≡ true
        → find_step (at_key k) v ≡ some w
        → find_step (at_key k) (redact_value secrets redact_raw v) ≡ some (any_string hidden_text)
    unfolding find_step redact_value
    find_step-secret k (any_map es) w o h = find_entry-secret secrets redact_raw k es w o h
    find_step-secret k (any_string t) w o h = absurd (cc h)
    find_step-secret k (any_slice es) w o h = absurd (cc h)
    find_step-secret k (any_raw t) w o h = absurd (cc h)
    find_step-secret k (any_other t) w o h = absurd (cc h)

    -- At whatever depth an entry with a secret key is found, along a path that goes into no other one, its
    -- value is replaced by three stars, whatever it was.
    pub find_path-secret :
        (p : List Step) (k : String) (v es w : AnyValue R)
        → IsOpenPath secrets p
        → secrets.is_secret_key k ≡ true
        → find_path p v ≡ some es
        → find_step (at_key k) es ≡ some w
        → find_path (p ++ at_key k ∷ []) (redact_value secrets redact_raw v)
          ≡ some (any_string hidden_text)
    unfolding find_path IsOpenPath
    find_path-secret [] k v es w o secret h g =
        let same : v ≡ es = ground arith in
        let hidden = find_step-secret k v w secret (ap (find_step (at_key k)) same ∙ g) in
        ap (λ (x : Option (AnyValue R)). elim x [ none ↦ none | some u ↦ some u ]) hidden
    find_path-secret (s ∷ p) k v es w o secret h g =
        ap
          (λ (x : Option (AnyValue R)). elim x [
            | none ↦ none
            | some u ↦ find_path (p ++ at_key k ∷ []) u
          ])
          (find_step-open s v o.0)
        ∙ follow (find_step s v) h (λ u e. find_path-secret p k u es w o.1 secret e g)
      where
        follow :
            (x : Option (AnyValue R))
            → (elim x [ none ↦ none | some u ↦ find_path p u ]) ≡ some es
            → ((u : AnyValue R)
                → find_path p u ≡ some es
                → find_path (p ++ at_key k ∷ []) (redact_value secrets redact_raw u)
                  ≡ some (any_string hidden_text))
            → (elim (Option.map (redact_value secrets redact_raw) x) [
              | none ↦ none
              | some u ↦ find_path (p ++ at_key k ∷ []) u
            ])
              ≡ some (any_string hidden_text)
        follow none e ih = absurd (cc e)
        follow (some u) e ih = ih u e
