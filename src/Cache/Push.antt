-- ===== src/Cache/Push.antt =====
-- pushToMessageRecord of src/cache/types.ts: the row of a push. `parse` is JSON.parse, `parse_rpc` the
-- parser of the legacy envelope, `decode` and `decode_fatal` the platform's UTF-8 decoders, of which
-- the second gives nothing where it throws; `decode_envelope` reads the content of a FlatBuffers
-- envelope by the FlatBuffers package, and gives nothing where it throws.
use privchat_sdk_typescript.Prelude.{
  ℕ, Text, Option, none, some, Bool, true, not, List, [], ◌∷◌, ◌&&◌, ◌||◌, ltb, ◌==◌, nat_eq, codes,
  if◌then◌else◌,
}
use privchat_sdk_typescript.Codes.{spelling, content_type_from_wire_tag}
use privchat_sdk_typescript.Contents.{
  Json, string, object, field_of, normalize_message_display_content,
}
use privchat_sdk_typescript.Cache.{MessageRecord, received}
use privchat_sdk_typescript.Cache.Canonical.{PushMessageRequest, canonical_from_push}

-- Texts of C0 controls other than tab, line feed and carriage return are binary.
unfoldable pub is_plain : Text → Bool
is_plain [] = true
is_plain (c ∷ rest) = not (ltb c 32 && not (c == 9 || (c == 10 || c == 13))) && is_plain rest

plain_only : Option Text → Option Text
plain_only none = none
plain_only (some text) = if is_plain text then some text else none

content_field : Option Json → Option Text
content_field (some (object raw)) = elim (field_of (codes "content") raw) [
  | some (string s) ↦ some s
  | _ ↦ none
]
content_field value = none

module _ (parse parse_rpc : Text → Option Json) (decode : List ℕ → Text)
    (decode_fatal : List ℕ → Option Text) (decode_envelope : List ℕ → Option Text) where
  decode_plain_text_payload : List ℕ → Option Text
  unfolding plain_only is_plain
  decode_plain_text_payload payload = plain_only (decode_fatal payload)

  json_content : List ℕ → Option Text
  unfolding content_field
  json_content [] = none
  json_content (byte ∷ rest) =
      if byte == 123 then content_field (parse (decode (byte ∷ rest))) else none

  -- JSON first, then plain text, then the envelope; nothing where none of them reads the payload.
  unfoldable pub extract_push_content : List ℕ → Text
  unfolding json_content decode_plain_text_payload
  extract_push_content [] = []
  extract_push_content (byte ∷ rest) = elim (json_content (byte ∷ rest)) [
    | some content ↦ normalize_message_display_content parse_rpc (string content)
    | none ↦ elim (decode_plain_text_payload (byte ∷ rest)) [
      | some raw ↦ normalize_message_display_content parse_rpc (string raw)
      | none ↦ elim (decode_envelope (byte ∷ rest)) [
        | some content ↦ normalize_message_display_content parse_rpc (string content)
        | none ↦ []
      ]
    ]
  ]

  -- `id` is the new local identifier, `message_type` the push's wire tag.
  unfoldable pub push_to_message_record : Text → ℕ → PushMessageRequest → MessageRecord
  unfolding extract_push_content
  push_to_message_record id message_type push =
      let canonical =
        canonical_from_push parse decode push (extract_push_content push.payload)
          (codes (spelling (content_type_from_wire_tag message_type))) in
      record {
        id = id;
        channel_id = canonical.channel_id;
        channel_type = canonical.channel_type;
        server_message_id = some canonical.server_message_id;
        local_message_id = canonical.local_message_id;
        pts = some canonical.pts;
        local_order_seq = none;
        from_uid = canonical.from_uid;
        message_type = canonical.message_type;
        content = canonical.content;
        payload = canonical.payload;
        timestamp = canonical.sent_at_ms;
        timestamp_precision = some canonical.sent_at_precision;
        status = received;
        revoked = some canonical.revoked;
        mime_type = none;
      }
