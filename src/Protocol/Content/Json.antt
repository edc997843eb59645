-- ===== src/Protocol/Content/Json.antt =====
-- The methods MarshalJSON and UnmarshalJSON of UserInput, ContentPart and ToolOutput in
-- protocol/protocol_content.go.
pub mod RoundTrip
use kimi_wire_go.Prelude.{
  String, Option, none, some, List, [], ◌==◌, eqb, ◌&&◌, not, true, false, if◌then◌else◌, Result,
  ok, err, ◌>>=◌, Bool, ◌∷◌,
}
use Prim.Native.String.{◌++◌ as str_append}
use kimi_wire_go.Protocol.Content.{TextPart, ThinkPart, ContentPart, UserInput, ToolOutput}
use kimi_wire_go.Protocol.Codec.{Codec, Codecs, FlatText, FlatThink}

abbrev or_read {ℓ} : {A : Type ℓ} → Option A → Option A → Option A
or_read first next = elim first [ none ↦ next | some a ↦ some a ]

-- `len(parts) > 0`
abbrev has_parts : List ContentPart → Bool
has_parts [] = false
has_parts (p ∷ ps) = true

module _ {Raw : Type 0} (json : Codecs Raw) where
  -- The fields Text and Think of the flat formats.
  abbrev flat_text_of : ContentPart → FlatText
  flat_text_of cp = record { type = cp.type; text = elim cp.text [ none ↦ "" | some t ↦ t.text ] }

  abbrev flat_think_of : ContentPart → FlatThink
  flat_think_of cp = record {
    type = cp.type;
    think = elim cp.think [ none ↦ "" | some t ↦ t.think ];
    encrypted = elim cp.think [ none ↦ "" | some t ↦ t.encrypted ];
  }

  unfoldable pub marshal_content_part : ContentPart → Result String Raw
  marshal_content_part cp =
      if cp.type == "text"
      then json.flat_text.marshal (flat_text_of cp)
      else if cp.type == "think"
      then json.flat_think.marshal (flat_think_of cp)
      else json.part_alias.marshal cp

  -- The text of a part: a string, or else an object; what is neither is left out.
  unfoldable pub read_text : Option Raw → Option TextPart
  read_text none = none
  read_text (some raw) = elim (json.text.unmarshal raw) [
    | ok s ↦ some (record { text = s })
    | err _ ↦ elim (json.text_part.unmarshal raw) [ ok p ↦ some p | err _ ↦ none ]
  ]

  -- A flat think part is read without its field `encrypted`.
  unfoldable pub read_think : Option Raw → Option ThinkPart
  read_think none = none
  read_think (some raw) = elim (json.text.unmarshal raw) [
    | ok s ↦ some (record { think = s; encrypted = "" })
    | err _ ↦ elim (json.think_part.unmarshal raw) [ ok p ↦ some p | err _ ↦ none ]
  ]

  unfoldable pub unmarshal_content_part : Raw → Result String ContentPart
  unfolding read_text read_think
  unmarshal_content_part raw = do
    aux ← json.part_aux.unmarshal raw
    ok (record aux.alias {
      text = or_read aux.alias.text (read_text aux.text);
      think = or_read aux.alias.think (read_think aux.think);
    })

  unfoldable pub content_part_codec : Codec Raw ContentPart
  unfolding marshal_content_part unmarshal_content_part
  content_part_codec = record { marshal = marshal_content_part; unmarshal = unmarshal_content_part }

  -- What UserInput and ToolOutput have in common: a text or parts, not both.
  unfoldable pub marshal_text_or_parts : String → String → List ContentPart → Result String Raw
  unfolding content_part_codec
  marshal_text_or_parts name text parts =
      if not (text == "") && has_parts parts
      then err (str_append name " cannot have both text and parts")
      else if not (text == "")
      then json.text.marshal text
      else if has_parts parts
      then (json.parts content_part_codec).marshal parts
      else json.text.marshal ""

  abbrev neither : String → String → String
  neither name got =
      str_append name (str_append " must be a string or an array of content parts, got " got)

  -- The text and the parts that are read, by the first byte that is not blank.
  unfoldable pub unmarshal_text_or_parts : String → Raw → Result String (String × List ContentPart)
  unfolding content_part_codec
  unmarshal_text_or_parts name raw =
      if json.shown raw == "" then err (neither name "null") else elim (json.leading raw) [
        | none ↦ err (neither name (json.shown raw))
        | some c ↦
            if eqb c b'"'
            then (do text ← json.text.unmarshal raw; ok (text, []))
            else if eqb c b'['
            then (do parts ← (json.parts content_part_codec).unmarshal raw; ok ("", parts))
            else if eqb c b'n'
            then err (neither name "null")
            else err (neither name (json.shown raw))
      ]

  unfoldable pub user_input_codec : Codec Raw UserInput
  unfolding marshal_text_or_parts unmarshal_text_or_parts
  user_input_codec = record {
    marshal = λ u. marshal_text_or_parts "user_input" u.text u.parts;
    unmarshal = λ raw. do
      (text, parts) ← unmarshal_text_or_parts "user_input" raw
      ok (record { text = text; parts = parts });
  }

  unfoldable pub tool_output_codec : Codec Raw ToolOutput
  unfolding marshal_text_or_parts unmarshal_text_or_parts
  tool_output_codec = record {
    marshal = λ o. marshal_text_or_parts "tool_output" o.text o.parts;
    unmarshal = λ raw. do
      (text, parts) ← unmarshal_text_or_parts "tool_output" raw
      ok (record { text = text; parts = parts });
  }
