-- ===== src/Outbox/Resolve.antt =====
-- src/outbox-engine.ts and src/cache/rebuild.ts: the message row that a command delivers, and the
-- commit of an acknowledgement to the database and the memory.
use privchat_sdk_typescript.Prelude.{
  Text, Option, none, some, Bool, true, false, not, ◌&&◌, ◌||◌, [], ◌==◌, text_eq, nat_eq,
  option_eq, or_else, find_by, to_decimal, codes, if◌then◌else◌, Result, ok, err, ◌>>=◌,
}
use privchat_sdk_typescript.Cache.{
  MessageRecord, OutboxEntry, raw_utf8, message_envelope, legacy_unknown, pending, sent,
}
use privchat_sdk_typescript.Cache.Database.{
  StoredMessage, get_message, by_channel_lmid, by_channel_smid,
}
use privchat_sdk_typescript.Cache.Database.Ack.{apply_ack}
use privchat_sdk_typescript.Cache.OutboxTable.{
  Outbox, delete_outbox_entry, delete_outbox_entry_if_owner, delete_outbox_entry_if_repair_owner,
}
use privchat_sdk_typescript.Outbox.{OutboxEngineDeps, World, SendMessageResponse}

-- `ProjectionRehydrateRequiredError`, with the message, the channel and the content type that it names, or any other error's text.
pub data CommitError : Type 0 where
  rehydrate_required : Text → Text → Text → CommitError
  other : Text → CommitError

unfoldable pub is_rebuildable_from_payload : Text → Bool
is_rebuildable_from_payload content_type =
    content_type == codes "text" || content_type == codes "system"

-- Which lease authorises the commit of an acknowledgement.
pub data Lease : Type 0 where
  send_lease repair_lease : Text → Lease
  no_lease : Lease

-- The delete that retires a command, and whether the lease allowed it.
unfoldable pub retire : Outbox → Text → Lease → Bool × Outbox
retire outbox outbox_id (send_lease token) = delete_outbox_entry_if_owner outbox outbox_id token
retire outbox outbox_id (repair_lease token) =
    delete_outbox_entry_if_repair_owner outbox outbox_id token
retire outbox outbox_id no_lease = (true, delete_outbox_entry outbox outbox_id)

unfoldable pub owns : OutboxEntry → MessageRecord → Bool
owns entry m =
    m.channel_id == entry.channel_id
    && m.channel_type == entry.channel_type
    && m.local_message_id == some entry.local_message_id

abbrev pub content_or_none : Option Text → Text
content_or_none content = or_else content []

module _ {S : Type 0} (deps : OutboxEngineDeps S) where
  -- A row of an earlier version has no encoding, or an unknown one: an envelope that decodes to a text
  -- is taken, anything else is read as raw text.
  abbrev pub decode_legacy : OutboxEntry → Text
  decode_legacy entry = elim (deps.decode_message_payload_envelope entry.payload) [
    | err e ↦ deps.decode_utf8 entry.payload
    | ok content ↦
        if content_or_none content == []
        then deps.decode_utf8 entry.payload
        else content_or_none content
  ]

  unfoldable pub decode_rebuildable_content : OutboxEntry → Result Text Text
  decode_rebuildable_content entry = elim entry.payload_encoding [
    | none ↦ ok (decode_legacy entry)
    | some encoding ↦ elim encoding [
      | raw_utf8 ↦ ok (deps.decode_utf8 entry.payload)
      | message_envelope ↦
          deps.decode_message_payload_envelope entry.payload >>= λ c. ok (content_or_none c)
      | legacy_unknown ↦ ok (decode_legacy entry)
    ]
  ]

  -- The row as the command alone tells it.
  unfoldable pub rebuilt_record : OutboxEntry → Text → Result CommitError MessageRecord
  rebuilt_record entry id = elim (decode_rebuildable_content entry) [
    | err e ↦ err (other e)
    | ok content ↦ ok (record {
      id = id;
      channel_id = entry.channel_id;
      channel_type = entry.channel_type;
      server_message_id = none;
      local_message_id = some entry.local_message_id;
      pts = none;
      local_order_seq = none;
      from_uid = entry.from_uid;
      message_type = entry.content_type;
      content = content;
      payload = entry.payload;
      timestamp = entry.created_at;
      timestamp_precision = none;
      status = pending;
      revoked = none;
      mime_type = none;
    })
  ]

  -- Whether the linked row belongs to something else.
  abbrev pub link_is_wrong : World S → OutboxEntry → Bool
  link_is_wrong w entry = elim (get_message w.cache entry.message_id) [
    | none ↦ false
    | some m ↦ not (owns entry m.row)
  ]

  abbrev pub cached_row : World S → OutboxEntry → Option StoredMessage
  cached_row w entry =
      let by_local = by_channel_lmid w.cache entry.channel_id entry.local_message_id in
      elim (get_message w.cache entry.message_id) [
        | none ↦ by_local
        | some m ↦ if owns entry m.row then some m else by_local
      ]

  -- The row that a rehydration fetched back, which has no local identifier.
  abbrev pub rehydrated_row : World S → OutboxEntry → Option StoredMessage
  rehydrated_row w entry = elim entry.acked_server_message_id [
    | none ↦ none
    | some s ↦ by_channel_smid w.cache entry.channel_id s
  ]

  -- `fresh_id` is what `nextLocalMessageRecordId` gives.
  unfoldable pub resolve_pending : World S → OutboxEntry → Text → Result CommitError MessageRecord
  resolve_pending w entry fresh_id =
      let held =
        find_by (λ m. m.id == entry.message_id && owns entry m)
          (deps.get_messages w.memory entry.channel_id) in
      elim held [
        | some m ↦ ok m
        | none ↦ elim (cached_row w entry) [
          | some m ↦ ok m.row
          | none ↦ elim (rehydrated_row w entry) [
            | some m ↦ ok (record m.row {
              id = entry.message_id;
              local_message_id = some entry.local_message_id;
            })
            | none ↦
                if is_rebuildable_from_payload entry.content_type
                then rebuilt_record entry
                    (if link_is_wrong w entry then fresh_id else entry.message_id)
                else err (rehydrate_required entry.message_id entry.channel_id entry.content_type)
          ]
        ]
      ]

  abbrev pub acked_record : OutboxEntry → SendMessageResponse → MessageRecord → MessageRecord
  acked_record entry resp pending_rec = record pending_rec {
    server_message_id = some resp.server_message_id;
    local_message_id = some entry.local_message_id;
    pts = some (to_decimal resp.message_seq);
    status = sent;
  }

  -- One transaction: the command is retired under its lease and the row written, or neither, and then
  -- the memory. `fault` is the error that the storage throws, if any. The result says whether the
  -- lease was still held.
  unfoldable pub commit_acked :
      World S
      → OutboxEntry
      → MessageRecord
      → Lease
      → Option Text
      → Result CommitError (Bool × World S)
  commit_acked w entry acked lease (some e) = err (other e)
  commit_acked w entry acked lease none =
      let (owned, outbox) = retire w.outbox entry.outbox_id lease in
      if owned
      then elim (apply_ack w.cache acked) [
        | err e ↦ err (other (deps.describe e))
        | ok (cache, durable) ↦ ok (
          true,
          record w {
            cache = cache;
            outbox = outbox;
            memory = deps.replace_message w.memory entry.channel_id durable.id durable;
          },
        )
      ]
      else ok (false, w)

  unfoldable pub apply_ack_of :
      World S
      → OutboxEntry
      → SendMessageResponse
      → Lease
      → Option Text
      → Text
      → Result CommitError (Bool × World S)
  apply_ack_of w entry resp lease fault fresh_id =
      resolve_pending w entry fresh_id >>= λ pending_rec.
      commit_acked w entry (acked_record entry resp pending_rec) lease fault
