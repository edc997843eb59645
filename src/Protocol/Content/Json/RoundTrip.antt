-- ===== src/Protocol/Content/Json/RoundTrip.antt =====
-- A UserInput that is a text, printed and read back; the think parts that are read.
use kimi_wire_go.Prelude.{String, ◌≡◌, refl, some, [], ◌==◌, ok, arith, eq_iff, false}
use kimi_wire_go.Protocol.Codec.{Codecs, ReadsBack}
use kimi_wire_go.Protocol.Content.Json.{
  user_input_codec, marshal_text_or_parts, unmarshal_text_or_parts,
}

module _ {Raw : Type 0} (json : Codecs Raw) where
  -- encoding/json prints a string as a text that begins with a quotation mark.
  abbrev pub PrintsQuoted : Type 0
  PrintsQuoted =
      (s : String) (raw : Raw)
      → json.text.marshal s ≡ ok raw
      → ((json.shown raw == "") ≡ false) × (json.leading raw ≡ some b'"')

  printed_text :
      (text : String) (raw : Raw)
      → marshal_text_or_parts json "user_input" text [] ≡ ok raw
      → json.text.marshal text ≡ ok raw
  unfolding marshal_text_or_parts
  printed_text text raw h = ground (arith, h, eq_iff text "")

  read_quoted :
      (text : String) (raw : Raw)
      → (json.shown raw == "") ≡ false
      → json.leading raw ≡ some b'"'
      → json.text.unmarshal raw ≡ ok text
      → unmarshal_text_or_parts json "user_input" raw ≡ ok (text, [])
  unfolding unmarshal_text_or_parts
  read_quoted text raw shown first e = rw (shown, first, e, unmarshal_text_or_parts) refl

  -- If encoding/json prints strings in quotation marks and reads the text back: a UserInput without
  -- parts that prints, an empty one too, is read back as it is.
  pub unmarshal-marshal_user_input :
      (text : String) (raw : Raw)
      → PrintsQuoted
      → ReadsBack json.text text
      → (user_input_codec json).marshal (record { text = text; parts = [] }) ≡ ok raw
      → (user_input_codec json).unmarshal raw ≡ ok (record { text = text; parts = [] })
  unfolding user_input_codec
  unmarshal-marshal_user_input text raw quoted back h =
      let printed = printed_text text raw h in
      let (shown, first) = quoted text raw printed in
      rw (read_quoted text raw shown first (back raw printed)) refl
