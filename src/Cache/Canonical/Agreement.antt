-- ===== src/Cache/Canonical/Agreement.antt =====
-- The sources of one message agree (src/cache/canonical-inbound.ts).
use privchat_sdk_typescript.Prelude.{
  ℕ, Bool, to_decimal, ◌/◌, ◌≡◌, refl, sym, Text, Option, none, some, false, List, [], ◌∷◌,
  Bool-cases, inl, inr, arith, codes, text_beq, text_eq, nat_eq, bool_eq,
}
use privchat_sdk_typescript.Contents.{Json, null, boolean, number, string, array, object}
use privchat_sdk_typescript.Cache.Inbound.{natural}
use privchat_sdk_typescript.Cache.Canonical.{
  LegacyEnvelope, HistoricalMessage, PushMessageRequest, SyncCommitMessage, CanonicalInboundMessage,
  SemanticProjection, object_only, envelope_fields, has_data, build_envelope_payload,
  payload_as_text, metadata_from_envelope, history_parts, canonical_from_history, metadata_of,
}

field_of-envelope_fields :
    (content : Text) (parts : LegacyEnvelope)
    → metadata_of (object (envelope_fields content parts)) ≡ object_only parts.metadata
unfolding envelope_fields text_beq
field_of-envelope_fields content parts =
    shape parts.metadata parts.reply_to_message_id parts.mentioned_user_ids parts.message_source
  where
    shape :
        (metadata : Option Json) (reply : Option Text) (mentioned : Option (List Text))
        (source : Option Json)
        → metadata_of (
            object (
              envelope_fields content (record {
                metadata = metadata;
                reply_to_message_id = reply;
                mentioned_user_ids = mentioned;
                message_source = source;
              })))
          ≡ object_only metadata
    shape (some m) reply mentioned source = refl
    shape none none none none = refl
    shape none none none (some s) = refl
    shape none none (some ids) none = refl
    shape none none (some ids) (some s) = refl
    shape none (some r) none none = refl
    shape none (some r) none (some s) = refl
    shape none (some r) (some ids) none = refl
    shape none (some r) (some ids) (some s) = refl

no_data : (parts : LegacyEnvelope) → has_data parts ≡ false → object_only parts.metadata ≡ none
unfolding has_data
no_data parts h = of parts.metadata refl
  where
    of : (m : Option Json) → parts.metadata ≡ m → object_only m ≡ none
    of none e = refl
    of (some null) e = refl
    of (some (boolean b)) e = refl
    of (some (number n)) e = refl
    of (some (string s)) e = refl
    of (some (array _)) e = ground arith
    of (some (object _)) e = ground arith

-- A message as the server has it. Its text is not an envelope; `metadata` is an object or missing.
pub record ServerMessage : Type 0 where
  pub message_id : ℕ
  pub sender_id : ℕ
  pub channel_id : Text
  pub channel_type : ℕ
  pub message_seq : ℕ
  pub message_type : Text
  pub content : Text
  pub metadata : Option Json
  pub created_at_ms : ℕ
  pub revoked : Bool

-- What the server sends of it: in its history, in a push, whose time is in seconds, and in a commit.
abbrev pub history_of : ServerMessage → Option ℕ → HistoricalMessage
history_of m reply_to_message_id = record {
  message_id = m.message_id;
  sender_id = m.sender_id;
  content = m.content;
  message_type = m.message_type;
  timestamp = natural m.created_at_ms;
  message_seq = some m.message_seq;
  reply_to_message_id = reply_to_message_id;
  metadata = m.metadata;
  revoked = some m.revoked;
}

abbrev pub push_of : ServerMessage → List ℕ → PushMessageRequest
push_of m payload = record {
  server_message_id = to_decimal m.message_id;
  local_message_id = codes "0";
  message_seq = m.message_seq;
  timestamp = natural (m.created_at_ms / 1000);
  channel_id = m.channel_id;
  channel_type = m.channel_type;
  from_uid = to_decimal m.sender_id;
  payload = payload;
  deleted = m.revoked;
}

abbrev pub commit_of : ServerMessage → List ℕ → SyncCommitMessage
commit_of m payload = record {
  server_message_id = to_decimal m.message_id;
  local_message_id = none;
  channel_id = m.channel_id;
  channel_type = m.channel_type;
  from_uid = to_decimal m.sender_id;
  message_type = m.message_type;
  content = m.content;
  payload = payload;
  pts = to_decimal m.message_seq;
  sent_at_ms = natural m.created_at_ms;
  revoked = some m.revoked;
  reply_to_message_id = none;
  mentioned_user_ids = none;
}

-- What the sources must agree on.
abbrev described : ServerMessage → ℕ → SemanticProjection
described m sent_at_ms = record {
  server_message_id = to_decimal m.message_id;
  channel_id = m.channel_id;
  channel_type = m.channel_type;
  from_uid = to_decimal m.sender_id;
  message_type = m.message_type;
  content = m.content;
  metadata = m.metadata;
  pts = to_decimal m.message_seq;
  sent_at_ms = sent_at_ms;
  revoked = m.revoked;
}

module _ (parse : Text → Option Json) (decode : List ℕ → Text) where
  -- The payload carries the message's metadata: it is empty and there is none, or its text, which
  -- starts with a brace, parses as an envelope with that metadata.
  abbrev pub Carries : ServerMessage → List ℕ → Type 0
  Carries m [] = m.metadata ≡ none
  Carries m (byte ∷ rest) =
      (byte ≡ 123)
      × (text : Text) × (c : ℕ) × (envelope : Json) × (decode (byte ∷ rest) ≡ c ∷ text)
      × (parse (c ∷ text) ≡ some envelope)
      × (metadata_of envelope ≡ m.metadata)

module _ (parse_rpc : Text → Option Json) (print : Json → Text) (encode : Text → List ℕ)
    (m : ServerMessage) (reply_to_message_id : Option ℕ) (legacy : Option LegacyEnvelope) where
  abbrev pub from_history : CanonicalInboundMessage
  from_history =
      canonical_from_history parse_rpc print encode (history_of m reply_to_message_id) m.channel_id
        m.channel_type legacy

  -- The payload that is rebuilt from the history gives the metadata back, where the envelope in it is
  -- printed as an object, comes back from the coders and parses again.
  pub metadata-canonical_from_history :
      (parse : Text → Option Json) (decode : List ℕ → Text) (rest : Text) (bytes : List ℕ)
      → print (
          object (
            envelope_fields from_history.content
              (history_parts (history_of m reply_to_message_id) legacy)))
        ≡ 123 ∷ rest
      → encode (123 ∷ rest) ≡ 123 ∷ bytes
      → decode (123 ∷ bytes) ≡ 123 ∷ rest
      → parse (123 ∷ rest)
        ≡ some (
            object (
              envelope_fields from_history.content
                (history_parts (history_of m reply_to_message_id) legacy)))
      → metadata_from_envelope parse (payload_as_text decode from_history.payload)
        ≡ object_only from_history.metadata
  unfolding canonical_from_history history_parts metadata_from_envelope payload_as_text
      build_envelope_payload
  metadata-canonical_from_history parse decode rest bytes opens starts back again =
      let parts = history_parts (history_of m reply_to_message_id) legacy in
      elim (Bool-cases (has_data parts)) [
        | inr empty ↦ rw empty (sym (no_data parts empty))
        | inl held ↦
            rw (held, opens, starts, back, again)
              (field_of-envelope_fields from_history.content parts)
      ]
