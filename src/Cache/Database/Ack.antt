-- ===== src/Cache/Database/Ack.antt =====
-- src/cache/indexeddb-store.ts: `applyAck`, `createLocalMessageQueued` and `commitAck`.
pub mod Keys
use privchat_sdk_typescript.Prelude.{
  ℕ, ◌+◌, Text, Option, none, some, Bool, true, false, not, List, [], ◌∷◌, ◌==◌, text_eq, option_eq,
  coalesce, or_else, find_by, if◌then◌else◌, Result, ok, err, ◌>>=◌,
}
use privchat_sdk_typescript.Cache.{MessageRecord, OutboxEntry}
use privchat_sdk_typescript.Cache.OutboxTable.{
  Outbox, get_outbox_entry, put_outbox_entry, delete_outbox_entry,
}
use privchat_sdk_typescript.Cache.Database.{
  CacheDb, CacheError, unique_index, StoredMessage, stamp, by_channel_smid, by_channel_lmid,
  get_message, put_message, delete_message_by_id, allocate_order_seq, get_channel_order_mode,
  reconcile_order_mode,
}

abbrev pub optimistic_row : CacheDb → MessageRecord → Option StoredMessage
optimistic_row db acked = elim acked.local_message_id [
  | none ↦ none
  | some s ↦ by_channel_lmid db acked.channel_id s
]

abbrev pub remote_row : CacheDb → MessageRecord → Option StoredMessage
remote_row db acked = elim acked.server_message_id [
  | none ↦ none
  | some s ↦ by_channel_smid db acked.channel_id s
]

abbrev pub seq_of : Option StoredMessage → Option ℕ
seq_of none = none
seq_of (some m) = m.row.local_order_seq

abbrev pub id_of : Option StoredMessage → Text → Text
id_of none id = id
id_of (some m) id = m.row.id

-- A number is allocated only where no row has one.
abbrev pub seq_or_allocate : CacheDb → Option ℕ → ℕ × CacheDb
seq_or_allocate db (some n) = (n, db)
seq_or_allocate db none = let (start, db') = allocate_order_seq db 1 in (start + 1, db')

abbrev pub inherited_seq : Option StoredMessage → Option StoredMessage → MessageRecord → Option ℕ
inherited_seq local remote acked =
    coalesce (seq_of local) (coalesce (seq_of remote) acked.local_order_seq)

-- The optimistic row's identity survives, or the caller's, and the position that any row already had.
abbrev pub merge_acked : Option StoredMessage → MessageRecord → ℕ → MessageRecord
merge_acked local acked seq = record acked { id = id_of local acked.id; local_order_seq = some seq }

abbrev pub absorb : CacheDb → Text → Option StoredMessage → CacheDb
absorb db id none = db
absorb db id (some m) = if m.row.id == id then db else delete_message_by_id db m.row.id

unfoldable pub apply_ack : CacheDb → MessageRecord → Result CacheError (CacheDb × MessageRecord)
apply_ack db acked =
    let local = optimistic_row db acked in
    let remote = remote_row db acked in
    let (seq, db') = seq_or_allocate db (inherited_seq local remote acked) in
    let merged = merge_acked local acked seq in
    let stamped = stamp merged (get_channel_order_mode db' acked.channel_id) in
    let cleared = absorb (absorb db' stamped.row.id local) stamped.row.id remote in
    put_message cleared stamped >>= λ written.
    let (mode, final) = reconcile_order_mode written acked.channel_id in
    ok (final, (or_else (get_message final stamped.row.id) (stamp merged mode)).row)

-- The tables of one database that a send writes.
pub record SendDb : Type 0 where
  pub cache : CacheDb
  pub outbox : Outbox

-- `add` refuses a key that is taken, and so does the unique index of the outbox.
unfoldable pub add_message : CacheDb → StoredMessage → Result CacheError CacheDb
add_message db m = elim (get_message db m.row.id) [
  | none ↦ put_message db m
  | some taken ↦ err unique_index
]

unfoldable pub add_outbox_entry : Outbox → OutboxEntry → Result CacheError Outbox
add_outbox_entry outbox entry = elim (get_outbox_entry outbox entry.outbox_id) [
  | none ↦ elim (find_by (λ e. e.local_message_id == entry.local_message_id) outbox) [
    | none ↦ ok (put_outbox_entry outbox entry)
    | some taken ↦ err unique_index
  ]
  | some taken ↦ err unique_index
]

unfoldable pub create_local_message_queued :
    SendDb → MessageRecord → OutboxEntry → Result CacheError (SendDb × MessageRecord)
create_local_message_queued db message command =
    let (start, cache) = allocate_order_seq db.cache 1 in
    let stored =
      stamp (record message { local_order_seq = some (start + 1) })
        (get_channel_order_mode cache message.channel_id) in
    add_message cache stored >>= λ cache'.
    add_outbox_entry db.outbox (record command { message_id = stored.row.id }) >>= λ outbox'.
    ok (record { cache = cache'; outbox = outbox' }, stored.row)

unfoldable pub commit_ack :
    SendDb → MessageRecord → Text → Result CacheError (SendDb × MessageRecord)
commit_ack db acked outbox_id = apply_ack db.cache acked >>= λ r.
    ok (record { cache = r.0; outbox = delete_outbox_entry db.outbox outbox_id }, r.1)
