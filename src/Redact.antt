-- ===== src/Redact.antt =====
-- internal/redact/redact.go, of which transport/transport_process.go has a copy: secrets are taken out
-- of texts and of values like those of encoding/json.
pub mod Finds
pub mod Paths
use mathlib.Core.Option
use kimi_wire_go.Prelude.{String, Bool, Option, none, some, List, [], ◌∷◌, if◌then◌else◌}

-- The dynamic types that RedactSecrets tells apart. A map[string]any is its list of entries; a value of
-- any other type is its text.
mutual
  pub data AnyValue (Raw : Type 0) : Type 0 where
    any_string : String → AnyValue Raw
    any_map : Entries Raw → AnyValue Raw
    any_slice : Elements Raw → AnyValue Raw
    any_raw : Raw → AnyValue Raw
    any_other : String → AnyValue Raw

  pub data Entries (Raw : Type 0) : Type 0 where
    no_entries : Entries Raw
    map_entry : String → AnyValue Raw → Entries Raw → Entries Raw

  pub data Elements (Raw : Type 0) : Type 0 where
    no_elements : Elements Raw
    slice_element : AnyValue Raw → Elements Raw → Elements Raw

-- Packages regexp and encoding/json: secretKeyPattern.MatchString, the replacements of secretPatterns in
-- their order, and the decoding and printing of a json.RawMessage. A decoded value holds no
-- json.RawMessage.
pub record Secrets (Raw : Type 0) : Type 0 where
  pub is_secret_key : String → Bool
  pub replacements : List (String → String)
  pub decode : Raw → Option (AnyValue ⊥)
  pub encode : AnyValue ⊥ → Option Raw
  pub text_of_raw : Raw → String
  pub raw_of_text : String → Raw

unfoldable pub replace_all : List (String → String) → String → String
replace_all [] s = s
replace_all (f ∷ fs) s = replace_all fs (f s)

-- The text in place of a secret.
abbrev pub hidden_text : String
hidden_text = "***"

module _ {Raw : Type 0} (secrets : Secrets Raw) where
  -- RedactString
  unfoldable pub redact_string : String → String
  unfolding replace_all
  redact_string s = replace_all secrets.replacements s

  -- RedactSecrets, with what it does to a json.RawMessage.
  module _ {R : Type 0} (redact_raw : R → R) where
    unfoldable mutual
      unfolding redact_string

      pub redact_value : AnyValue R → AnyValue R
      redact_value (any_string s) = any_string (redact_string s)
      redact_value (any_map es) = any_map (redact_entries es)
      redact_value (any_slice es) = any_slice (redact_elements es)
      redact_value (any_raw raw) = any_raw (redact_raw raw)
      redact_value (any_other v) = any_other v

      pub redact_entries : Entries R → Entries R
      redact_entries no_entries = no_entries
      redact_entries (map_entry k v es) =
          let rest = redact_entries es in
          let inner = redact_value v in
          if secrets.is_secret_key k
          then map_entry k (any_string hidden_text) rest
          else map_entry k inner rest

      pub redact_elements : Elements R → Elements R
      redact_elements no_elements = no_elements
      redact_elements (slice_element v es) = slice_element (redact_value v) (redact_elements es)

  -- The case of a json.RawMessage: a text that does not decode or print is redacted as a text.
  unfoldable pub redact_raw_message : Raw → Raw
  unfolding redact_value redact_string
  redact_raw_message raw = elim (secrets.decode raw) [
    | none ↦ secrets.raw_of_text (redact_string (secrets.text_of_raw raw))
    | some inner ↦ elim (secrets.encode (redact_value (λ x. x) inner)) [
      | none ↦ secrets.raw_of_text (redact_string (secrets.text_of_raw raw))
      | some out ↦ out
    ]
  ]

  -- RedactSecrets
  unfoldable pub redact_secrets : AnyValue Raw → AnyValue Raw
  unfolding redact_value redact_raw_message
  redact_secrets v = redact_value redact_raw_message v
