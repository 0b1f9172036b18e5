-- ===== src/Examples/Sources.antt =====
-- A concrete message of the server, with its history, its push and its commit.
use privchat_sdk_typescript.Prelude.{
  ℕ, ◌≡◌, refl, Text, Option, none, some, false, List, ◌∷◌, codes, text_beq,
}
use privchat_sdk_typescript.Contents.{
  Json, no_fields, field, object, number, string, normalize_message_display_content, normalize_from,
  decode_legacy_text, trim_start, trim_end,
}
use privchat_sdk_typescript.Cache.Canonical.{
  envelope_fields, history_parts, canonical_from_history, metadata_from_envelope, payload_as_text,
  object_only,
}
use privchat_sdk_typescript.Cache.Canonical.Agreement.{
  ServerMessage, history_of, from_history, metadata-canonical_from_history,
}
use privchat_sdk_typescript.Examples.{room}

abbrev size : Json
size = object (field (codes "width") (number (codes "640")) no_fields)

abbrev picture : ServerMessage
picture = record {
  message_id = 41;
  sender_id = 100;
  channel_id = room;
  channel_type = 1;
  message_seq = 3;
  message_type = codes "image";
  content = codes "hi";
  metadata = some size;
  created_at_ms = 1700000000317;
  revoked = false;
}

abbrev envelope : Json
envelope =
    object (field (codes "content") (string (codes "hi")) (field (codes "metadata") size no_fields))

abbrev printed_rest : Text
printed_rest = codes "\"content\":\"hi\",\"metadata\":{\"width\":640}}"

-- The parser and the printer on the one envelope; the coders on texts of ASCII.
abbrev parse_nothing : Text → Option Json
parse_nothing text = none

abbrev parse_picture : Text → Option Json
parse_picture text = some envelope

abbrev print_picture : Json → Text
print_picture value = 123 ∷ printed_rest

abbrev ascii : Text → List ℕ
ascii text = text

reparsed :
    parse_picture (123 ∷ printed_rest)
    ≡ some (
        object (
          envelope_fields
            (from_history parse_nothing print_picture ascii picture none none).content
            (history_parts (history_of picture none) none)))
unfolding canonical_from_history normalize_message_display_content normalize_from decode_legacy_text
    trim_start trim_end text_beq envelope_fields history_parts
reparsed = refl

metadata-canonical_from_history_example :
    metadata_from_envelope parse_picture (
      payload_as_text ascii
        (from_history parse_nothing print_picture ascii picture none none).payload)
    ≡ object_only (from_history parse_nothing print_picture ascii picture none none).metadata
metadata-canonical_from_history_example =
    metadata-canonical_from_history parse_nothing print_picture ascii picture none none
      parse_picture ascii printed_rest printed_rest refl refl refl reparsed
