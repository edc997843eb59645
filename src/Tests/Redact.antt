-- ===== src/Tests/Redact.antt =====
-- A value with a token two levels down.
use mathlib.Core.Option
use kimi_wire_go.Prelude.{◌≡◌, refl, none, some, List, [], ◌∷◌, ◌++◌, ◌==◌, if◌then◌else◌}
use kimi_wire_go.Redact.Finds.{IsOpenPath, Step, at_key, find_path, at_index}
use kimi_wire_go.Redact.{
  redact_raw_message, AnyValue, any_map, any_string, redact_value, hidden_text, map_entry,
  no_entries, redact_secrets, no_elements, any_other, slice_element, Secrets, any_slice,
}
use kimi_wire_go.Redact.Paths.{find_path-redact_value, find_path-secret}
use kimi_wire_go.Tests.{blank, Json}

abbrev test_secrets : Secrets Json
test_secrets = record {
  is_secret_key = λ k. k == "token";
  replacements = (λ s. if s == "hunter2" then "***" else s) ∷ [];
  decode = λ raw. none;
  encode = λ v. none;
  text_of_raw = λ raw. "";
  raw_of_text = λ s. blank;
}

abbrev inner_map : AnyValue Json
inner_map =
    any_map
      (map_entry "token" (any_other "42") (map_entry "user" (any_string "hunter2") no_entries))

abbrev test_value : AnyValue Json
test_value = any_map (map_entry "list" (any_slice (slice_element inner_map no_elements)) no_entries)

abbrev to_inner : List Step
to_inner = at_key "list" ∷ at_index 0 ∷ []

token_is_hidden :
    redact_secrets test_secrets test_value
    ≡ any_map (
        map_entry "list"
          (any_slice (
            slice_element
              (any_map (
                map_entry "token"
                  (any_string "***")
                  (map_entry "user" (any_string "***") no_entries)))
              no_elements))
          no_entries)
unfolding redact_secrets
token_is_hidden = refl

find_path-secret_example :
    find_path
      (to_inner ++ at_key "token" ∷ [])
      (redact_value test_secrets (redact_raw_message test_secrets) test_value)
    ≡ some (any_string hidden_text)
unfolding find_path IsOpenPath
find_path-secret_example =
    find_path-secret test_secrets (redact_raw_message test_secrets) to_inner "token" test_value
      inner_map (any_other "42") (refl, (tt, tt)) refl refl refl

find_path-redact_value_example :
    find_path to_inner (redact_value test_secrets (redact_raw_message test_secrets) test_value)
    ≡ Option.map
        (redact_value test_secrets (redact_raw_message test_secrets))
        (find_path to_inner test_value)
unfolding IsOpenPath
find_path-redact_value_example =
    find_path-redact_value test_secrets (redact_raw_message test_secrets) to_inner test_value
      (refl, (tt, tt))
