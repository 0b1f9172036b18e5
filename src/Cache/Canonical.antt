-- ===== src/Cache/Canonical.antt =====
-- src/cache/canonical-inbound.ts: the canonical form of a message, whichever source it comes from.
-- `parse` and `print` are JSON.parse, nothing where it throws, and JSON.stringify; `encode` and
-- `decode` the platform's UTF-8 coders; `parse_rpc` is the JSON parser of the legacy envelope.
pub mod Agreement
use privchat_sdk_typescript.Prelude.{
  ℕ, suc, ◌/◌, Text, Option, none, some, Bool, true, false, not, List, [], ◌∷◌, ◌==◌, ◌&&◌, ◌||◌,
  nat_eq, bool_eq, text_eq, option_eq, codes, or_else, to_decimal, if◌then◌else◌, text_compare,
  Ordering, text_beq,
}
use privchat_sdk_typescript.Sorting.{sort}
use privchat_sdk_typescript.Contents.{
  Json, Items, Fields, null, string, array, object, not_null, no_items, item, no_fields, field,
  field_of, normalize_message_display_content,
}
use privchat_sdk_typescript.Cache.{TimePrecision, seconds, milliseconds}
use privchat_sdk_typescript.Cache.Inbound.{WireNumber, normalize_sent_at_ms}

pub record CanonicalInboundMessage : Type 0 where
  pub server_message_id : Text
  pub local_message_id : Option Text
  pub channel_id : Text
  pub channel_type : ℕ
  pub from_uid : Text
  pub message_type : Text
  pub content : Text
  pub metadata : Option Json
  pub pts : Text
  pub sent_at_ms : ℕ
  pub sent_at_precision : TimePrecision
  pub revoked : Bool
  pub reply_to_message_id : Option Text
  pub mentioned_user_ids : Option (List Text)
  pub message_source : Option Json
  pub payload : List ℕ

-- `metadata` is none where the source has null.
pub record SemanticProjection : Type 0 where
  pub server_message_id : Text
  pub channel_id : Text
  pub channel_type : ℕ
  pub from_uid : Text
  pub message_type : Text
  pub content : Text
  pub metadata : Option Json
  pub pts : Text
  pub sent_at_ms : ℕ
  pub revoked : Bool

-- `value ?? other`.
abbrev pub json_or : Option Json → Option Json → Option Json
json_or none other = other
json_or (some null) other = other
json_or (some value) other = some value

unfoldable pub semantic_projection : CanonicalInboundMessage → SemanticProjection
semantic_projection m = record {
  server_message_id = m.server_message_id;
  channel_id = m.channel_id;
  channel_type = m.channel_type;
  from_uid = m.from_uid;
  message_type = m.message_type;
  content = m.content;
  metadata = not_null m.metadata;
  pts = m.pts;
  sent_at_ms = m.sent_at_ms;
  revoked = m.revoked;
}

entries : Fields → List (Text × Json)
entries no_fields = []
entries (field key value rest) = (key, value) ∷ entries rest

from_entries : List (Text × Json) → Fields
from_entries [] = no_fields
from_entries ((key, value) ∷ rest) = field key value (from_entries rest)

-- An array's entries are its elements, by index.
indexed : ℕ → Items → Fields
indexed n no_items = no_fields
indexed n (item value rest) = field (to_decimal n) value (indexed (suc n) rest)

by_key : Text × Json → Text × Json → Ordering
by_key a b = text_compare a.0 b.0

-- JSON.stringify writes keys that are numerals first: that moves the fields of two objects alike.
unfoldable pub sorted_keys : Json → Json
unfolding entries from_entries indexed by_key
sorted_keys (object fields) = object (from_entries (sort by_key (entries fields)))
sorted_keys (array items) = object (indexed 0 items)
sorted_keys value = value

module _ (print : Json → Text) where
  unfoldable pub printed : Option Json → Text
  printed none = codes "null"
  printed (some value) = print (sorted_keys value)

  unfoldable pub agrees_with : SemanticProjection → SemanticProjection → Bool
  agrees_with a b =
      a.server_message_id == b.server_message_id
      && (a.channel_id == b.channel_id
          && (a.channel_type == b.channel_type
              && (a.from_uid == b.from_uid
                  && (a.message_type == b.message_type
                      && (a.content == b.content
                          && (printed a.metadata == printed b.metadata
                              && (a.pts == b.pts
                                  && (a.revoked == b.revoked
                                      && a.sent_at_ms / 1000 == b.sent_at_ms / 1000))))))))

pub record LegacyEnvelope : Type 0 where
  pub metadata : Option Json
  pub reply_to_message_id : Option Text
  pub mentioned_user_ids : Option (List Text)
  pub message_source : Option Json

pub record HistoricalMessage : Type 0 where
  pub message_id : ℕ
  pub sender_id : ℕ
  pub content : Text
  pub message_type : Text
  pub timestamp : WireNumber
  pub message_seq : Option ℕ
  pub reply_to_message_id : Option ℕ
  pub metadata : Option Json
  pub revoked : Option Bool

-- The fields of a push that are read.
pub record PushMessageRequest : Type 0 where
  pub server_message_id : Text
  pub local_message_id : Text
  pub message_seq : ℕ
  pub timestamp : WireNumber
  pub channel_id : Text
  pub channel_type : ℕ
  pub from_uid : Text
  pub payload : List ℕ
  pub deleted : Bool

pub record SyncCommitMessage : Type 0 where
  pub server_message_id : Text
  pub local_message_id : Option Text
  pub channel_id : Text
  pub channel_type : ℕ
  pub from_uid : Text
  pub message_type : Text
  pub content : Text
  pub payload : List ℕ
  pub pts : Text
  pub sent_at_ms : WireNumber
  pub revoked : Option Bool
  pub reply_to_message_id : Option Text
  pub mentioned_user_ids : Option (List Text)

-- A value that `typeof` calls an object, null apart.
abbrev pub object_only : Option Json → Option Json
object_only (some (object fields)) = some (object fields)
object_only (some (array items)) = some (array items)
object_only value = none

abbrev pub metadata_of : Json → Option Json
metadata_of (object fields) = object_only (field_of (codes "metadata") fields)
metadata_of value = none

metadata_parsed : Option Json → Option Json
metadata_parsed none = none
metadata_parsed (some value) = metadata_of value

module _ (parse : Text → Option Json) where
  unfoldable pub metadata_from_envelope : Option Text → Option Json
  unfolding metadata_parsed
  metadata_from_envelope none = none
  metadata_from_envelope (some []) = none
  metadata_from_envelope (some (c ∷ rest)) = metadata_parsed (parse (c ∷ rest))

unfoldable pub payload_as_text : (List ℕ → Text) → List ℕ → Option Text
payload_as_text decode [] = none
payload_as_text decode (byte ∷ rest) = if byte == 123 then some (decode (byte ∷ rest)) else none

abbrev pub is_some {ℓ} : {A : Type ℓ} → Option A → Bool
is_some none = false
is_some (some a) = true

texts : List Text → Items
texts [] = no_items
texts (t ∷ ts) = item (string t) (texts ts)

-- A field that is left out where there is no value.
abbrev pub field_if : Text → Option Json → Fields → Fields
field_if key none rest = rest
field_if key (some value) rest = field key value rest

abbrev pub as_string : Option Text → Option Json
as_string none = none
as_string (some t) = some (string t)

as_array : Option (List Text) → Option Json
unfolding texts
as_array none = none
as_array (some ts) = some (array (texts ts))

-- The object that goes into the payload.
unfoldable pub envelope_fields : Text → LegacyEnvelope → Fields
unfolding as_array
envelope_fields content parts = field (codes "content") (string content) (
    field_if (codes "metadata") parts.metadata (
      field_if (codes "reply_to_message_id") (as_string parts.reply_to_message_id) (
        field_if (codes "mentioned_user_ids") (as_array parts.mentioned_user_ids)
          (field_if (codes "message_source") parts.message_source no_fields))))

unfoldable pub has_data : LegacyEnvelope → Bool
has_data parts =
    is_some (not_null parts.metadata)
    || (is_some parts.reply_to_message_id
        || (is_some parts.mentioned_user_ids || is_some parts.message_source))

unfoldable pub build_envelope_payload :
    (Json → Text) → (Text → List ℕ) → Text → LegacyEnvelope → List ℕ
unfolding has_data envelope_fields
build_envelope_payload print encode content parts =
    if has_data parts then encode (print (object (envelope_fields content parts))) else []

abbrev pub legacy_of : {A : Type 0} → (LegacyEnvelope → Option A) → Option LegacyEnvelope → Option A
legacy_of read none = none
legacy_of read (some legacy) = read legacy

abbrev pub shown : Option ℕ → Option Text
shown none = none
shown (some n) = some (to_decimal n)

-- What goes into the payload of a message from the history.
unfoldable pub history_parts : HistoricalMessage → Option LegacyEnvelope → LegacyEnvelope
history_parts msg legacy = record {
  metadata = json_or msg.metadata (legacy_of (λ l. l.metadata) legacy);
  reply_to_message_id =
      if is_some msg.reply_to_message_id
      then shown msg.reply_to_message_id
      else legacy_of (λ l. l.reply_to_message_id) legacy;
  mentioned_user_ids = legacy_of (λ l. l.mentioned_user_ids) legacy;
  message_source = legacy_of (λ l. l.message_source) legacy;
}

module _ (parse_rpc : Text → Option Json) (print : Json → Text) (encode : Text → List ℕ) where
  unfoldable pub canonical_from_history :
      HistoricalMessage → Text → ℕ → Option LegacyEnvelope → CanonicalInboundMessage
  unfolding history_parts build_envelope_payload
  canonical_from_history msg channel_id channel_type legacy =
      let content = normalize_message_display_content parse_rpc (string msg.content) in
      let parts = history_parts msg legacy in
      record {
        server_message_id = to_decimal msg.message_id;
        local_message_id = none;
        channel_id = channel_id;
        channel_type = channel_type;
        from_uid = to_decimal msg.sender_id;
        message_type = msg.message_type;
        content = content;
        metadata = parts.metadata;
        pts = or_else (shown msg.message_seq) [];
        sent_at_ms = normalize_sent_at_ms msg.timestamp;
        sent_at_precision = milliseconds;
        revoked = or_else msg.revoked false;
        reply_to_message_id = parts.reply_to_message_id;
        mentioned_user_ids = parts.mentioned_user_ids;
        message_source = parts.message_source;
        payload = build_envelope_payload print encode content parts;
      }

module _ (parse : Text → Option Json) (decode : List ℕ → Text) where
  unfoldable pub canonical_from_push : PushMessageRequest → Text → Text → CanonicalInboundMessage
  unfolding metadata_from_envelope payload_as_text
  canonical_from_push push content message_type = record {
    server_message_id = push.server_message_id;
    local_message_id =
        if push.local_message_id == codes "0" then none else some push.local_message_id;
    channel_id = push.channel_id;
    channel_type = push.channel_type;
    from_uid = push.from_uid;
    message_type = message_type;
    content = content;
    metadata = metadata_from_envelope parse (payload_as_text decode push.payload);
    pts = to_decimal push.message_seq;
    sent_at_ms = normalize_sent_at_ms push.timestamp;
    sent_at_precision = seconds;
    revoked = push.deleted;
    reply_to_message_id = none;
    mentioned_user_ids = none;
    message_source = none;
    payload = push.payload;
  }

  unfoldable pub canonical_from_sync_commit : SyncCommitMessage → CanonicalInboundMessage
  unfolding metadata_from_envelope payload_as_text
  canonical_from_sync_commit args = record {
    server_message_id = args.server_message_id;
    local_message_id = args.local_message_id;
    channel_id = args.channel_id;
    channel_type = args.channel_type;
    from_uid = args.from_uid;
    message_type = args.message_type;
    content = args.content;
    metadata = metadata_from_envelope parse (payload_as_text decode args.payload);
    pts = args.pts;
    sent_at_ms = normalize_sent_at_ms args.sent_at_ms;
    sent_at_precision = milliseconds;
    revoked = or_else args.revoked false;
    reply_to_message_id = args.reply_to_message_id;
    mentioned_user_ids = args.mentioned_user_ids;
    message_source = none;
    payload = args.payload;
  }
