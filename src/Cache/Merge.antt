-- ===== src/Cache/Merge.antt =====
-- src/cache/merge.ts: an inbound push lands on the row that it describes.
pub mod Laws
use privchat_sdk_typescript.Prelude.{
  Text, Option, none, some, Bool, true, false, not, ◌||◌, ◌==◌, text_eq, option_eq, bool_eq, [],
  if◌then◌else◌, coalesce,
}
use privchat_sdk_typescript.Cache.{MessageRecord, MessageStatus, received, pending, sent, failed}

-- `m.revoked === true`
abbrev pub is_revoked : MessageRecord → Bool
is_revoked m = m.revoked == some true

unfoldable pub is_own : Option Text → MessageRecord → Bool
is_own none incoming = false
is_own (some uid) incoming = incoming.from_uid == uid

-- `existing.status === 'pending' || existing.status === 'sent'`
abbrev pub is_outgoing : MessageStatus → Bool
is_outgoing pending = true
is_outgoing sent = true
is_outgoing received = false
is_outgoing failed = false

unfoldable pub carries_message_body : MessageRecord → Bool
carries_message_body incoming = not (incoming.content == [])

unfoldable pub absorb_into : MessageRecord → MessageRecord → MessageRecord
unfolding carries_message_body
absorb_into existing incoming =
    let incoming_has_payload = not (incoming.payload == []) in
    let body = carries_message_body incoming in
    record existing {
      server_message_id = coalesce existing.server_message_id incoming.server_message_id;
      local_message_id = coalesce existing.local_message_id incoming.local_message_id;
      pts = coalesce existing.pts incoming.pts;
      content = if body then incoming.content else existing.content;
      payload = if incoming_has_payload then incoming.payload else existing.payload;
      message_type = if body then incoming.message_type else existing.message_type;
      from_uid = if body then incoming.from_uid else existing.from_uid;
      status =
          if is_outgoing existing.status
          then sent
          else if body
          then incoming.status
          else existing.status;
      revoked = if is_revoked existing || is_revoked incoming then some true else existing.revoked;
    }

-- The context's `current_user_id` is the last argument.
unfoldable pub merge_on_push_absorb :
    Option MessageRecord → MessageRecord → Option Text → MessageRecord
unfolding is_own absorb_into
merge_on_push_absorb none incoming current_user_id =
    if is_own current_user_id incoming then record incoming { status = sent } else incoming
merge_on_push_absorb (some existing) incoming current_user_id = absorb_into existing incoming
