-- ===== src/Cache/Database/Upsert.antt =====
-- src/cache/indexeddb-store.ts: `upsertMessages`.
pub mod Keys
use privchat_sdk_typescript.Prelude.{
  ℕ, ◌+◌, Text, Option, none, some, Bool, true, false, not, ◌&&◌, ◌||◌, List, [], ◌∷◌, map, ◌==◌,
  text_eq, nat_eq, option_eq, bool_eq, coalesce, or_else, ltb, length, keep, find_by, some_by,
  if◌then◌else◌, Result, ok, err, ◌>>=◌,
}
use privchat_sdk_typescript.Cache.{
  MessageRecord, MessageStatus, received, pending, sent, failed, ChannelOrderMode, by_pts,
  by_server_id, milliseconds,
}
use privchat_sdk_typescript.Cache.Inbound.{SentAt, merge_sent_at}
use privchat_sdk_typescript.Cache.Database.{
  CacheDb, CacheError, moved_between_channels, server_message_id_conflict, StoredMessage, stamp,
  by_smid, by_channel_lmid, get_message, put_message, delete_message_by_id, allocate_order_seq,
  get_channel_order_mode, reconcile_order_mode, same_mode,
}

abbrev pub present : Option Text → Option Text
present none = none
present (some s) = if s == [] then none else some s

unfoldable pub find_by_lmid : CacheDb → MessageRecord → Option StoredMessage
find_by_lmid db m = elim (present m.local_message_id) [
  | none ↦ none
  | some s ↦ by_channel_lmid db m.channel_id s
]

unfoldable pub find_by_network : CacheDb → MessageRecord → Result CacheError (Option StoredMessage)
unfolding find_by_lmid
find_by_network db m = elim (present m.server_message_id) [
  | none ↦ ok (find_by_lmid db m)
  | some s ↦ elim (by_smid db s) [
    | none ↦ ok (find_by_lmid db m)
    | some found ↦
        if found.row.channel_id == m.channel_id
        then ok (some found)
        else err server_message_id_conflict
  ]
]

unfoldable pub find_existing : CacheDb → MessageRecord → Result CacheError (Option StoredMessage)
unfolding find_by_network
find_existing db m = elim (get_message db m.id) [
  | some found ↦ ok (some found)
  | none ↦ find_by_network db m
]

abbrev pub held_time : Option MessageRecord → Option SentAt
held_time none = none
held_time (some e) =
    some (record { ms = e.timestamp; precision = or_else e.timestamp_precision milliseconds })

abbrev pub is_revoked : MessageRecord → Bool
is_revoked m = m.revoked == some true

-- `existing` and `incoming` have a row: what a write without a body leaves of it.
unfoldable pub merged_status : MessageStatus → Bool → MessageStatus → MessageStatus
merged_status pending false incoming = incoming
merged_status sent false incoming = sent
merged_status _ _ incoming = incoming

-- The row to store, and the local sequence number given out last.
unfoldable pub merge_row : Option MessageRecord → MessageRecord → ℕ → MessageRecord × ℕ
unfolding merged_status
merge_row none m next =
    let (time, conflict) =
      merge_sent_at none
        (record { ms = m.timestamp; precision = or_else m.timestamp_precision milliseconds }) in
    (
      record m {
        timestamp = time.ms;
        timestamp_precision = some time.precision;
        revoked = if is_revoked m then some true else m.revoked;
        local_order_seq = some (or_else m.local_order_seq (next + 1));
      },
      if m.local_order_seq == none then next + 1 else next,
    )
merge_row (some e) m next =
    let (time, conflict) =
      merge_sent_at (held_time (some e))
        (record { ms = m.timestamp; precision = or_else m.timestamp_precision milliseconds }) in
    let has_body = not (m.content == []) in
    let seq = coalesce e.local_order_seq m.local_order_seq in
    (
      record m {
        id = e.id;
        content = if has_body then m.content else e.content;
        payload = if not has_body || m.payload == [] then e.payload else m.payload;
        message_type = if has_body then m.message_type else e.message_type;
        from_uid = if has_body then m.from_uid else e.from_uid;
        status = merged_status e.status has_body m.status;
        revoked = if is_revoked e || is_revoked m then some true else m.revoked;
        timestamp = time.ms;
        timestamp_precision = some time.precision;
        local_order_seq = some (or_else seq (next + 1));
      },
      if seq == none then next + 1 else next,
    )

abbrev pub row_of : Option StoredMessage → Option MessageRecord
row_of none = none
row_of (some m) = some m.row

-- The row's old primary key is deleted first where the write changes it.
abbrev pub drop_moved : CacheDb → Option StoredMessage → StoredMessage → CacheDb
drop_moved db none stamped = db
drop_moved db (some e) stamped =
    if e.row.id == stamped.row.id then db else delete_message_by_id db e.row.id

abbrev pub stays_in_channel : Option StoredMessage → MessageRecord → Bool
stays_in_channel none m = true
stays_in_channel (some e) m = e.row.channel_id == m.channel_id

pub record Written : Type 0 where
  pub db : CacheDb
  pub next : ℕ
  pub stored : StoredMessage

abbrev pub write_row :
    CacheDb → Option StoredMessage → MessageRecord × ℕ → Result CacheError Written
write_row db existing (merged, next) =
    let stamped = stamp merged (get_channel_order_mode db merged.channel_id) in
    put_message (drop_moved db existing stamped) stamped >>= λ db'.
    ok (record { db = db'; next = next; stored = stamped })

-- One round of the loop over the records.
unfoldable pub upsert_one : CacheDb → ℕ → MessageRecord → Result CacheError Written
upsert_one db next m = find_existing db m >>= λ existing.
    if stays_in_channel existing m
    then write_row db existing (merge_row (row_of existing) m next)
    else err moved_between_channels

unfoldable pub upsert_loop :
    CacheDb → ℕ → List MessageRecord → Result CacheError (CacheDb × List StoredMessage)
upsert_loop db next [] = ok (db, [])
upsert_loop db next (m ∷ ms) =
    upsert_one db next m >>= λ w. upsert_loop w.db w.next ms >>= λ r. ok (r.0, w.stored ∷ r.1)

-- The channels of the batch, each once.
unfoldable pub channels_of : List Text → List MessageRecord → List Text
channels_of seen [] = []
channels_of seen (m ∷ ms) =
    let rest = channels_of (m.channel_id ∷ seen) ms in
    if some_by (λ c. c == m.channel_id) seen then channels_of seen ms else m.channel_id ∷ rest

unfoldable pub reconcile_all : CacheDb → List Text → CacheDb
reconcile_all db [] = db
reconcile_all db (c ∷ cs) = reconcile_all (reconcile_order_mode db c).1 cs

-- What the caller gets: the row as written, or as on disk where its channel changed its mode.
unfoldable pub reread : CacheDb → CacheDb → StoredMessage → MessageRecord
reread before after m =
    if same_mode (after.order_mode m.row.channel_id) (before.order_mode m.row.channel_id)
    then m.row
    else (or_else (get_message after m.row.id) m).row

unfoldable pub upsert_messages :
    CacheDb → List MessageRecord → Result CacheError (CacheDb × List MessageRecord)
upsert_messages db [] = ok (db, [])
upsert_messages db (m ∷ ms) =
    let (start, db') = allocate_order_seq db (length (m ∷ ms)) in
    upsert_loop db' start (m ∷ ms) >>= λ r.
    let after = reconcile_all r.0 (channels_of [] (m ∷ ms)) in ok (after, map (reread db after) r.1)
