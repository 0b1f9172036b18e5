-- ===== src/Cache/Database.antt =====
-- src/cache/indexeddb-store.ts: the messages table and its lookups. A function is one transaction: it gives the new
-- database, or the error that rolled it back. The metadata table holds the order mode of each channel
-- and the high-water mark of the local sequence; they are fields here.
pub mod Users
pub mod Upsert
pub mod Ack
pub mod Keys
use privchat_sdk_typescript.Prelude.{
  ℕ, ◌+◌, Text, Option, none, some, Bool, true, false, not, ◌&&◌, ◌||◌, List, [], ◌∷◌, map, ◌==◌,
  text_eq, nat_eq, option_eq, bool_eq, coalesce, or_else, ltb, length, keep, find_by, if◌then◌else◌,
  Result, ok, err, ◌>>=◌,
}
use privchat_sdk_typescript.Table
use privchat_sdk_typescript.Cache.{
  MessageRecord, MessageStatus, received, pending, sent, failed, ChannelOrderMode, by_pts,
  by_server_id, milliseconds,
}
use privchat_sdk_typescript.Cache.Order.{display_sort_key, has_pts_gap}
use privchat_sdk_typescript.Cache.Inbound.{SentAt, merge_sent_at}

pub record StoredMessage : Type 0 where
  pub row : MessageRecord
  pub open row use *
  pub sort_key : Text
  pub pts_gap : ℕ

abbrev pub message_key : StoredMessage → Text
message_key m = m.row.id

pub record CacheDb : Type 0 where
  pub messages : List StoredMessage
  pub order_mode : Text → ChannelOrderMode
  pub local_order_seq : ℕ

pub data CacheError : Type 0 where
  moved_between_channels server_message_id_conflict unique_index : CacheError

abbrev pub set_mode : (Text → ChannelOrderMode) → Text → ChannelOrderMode → Text → ChannelOrderMode
set_mode modes channel_id mode c = if channel_id == c then mode else modes c

abbrev pub get_channel_order_mode : CacheDb → Text → ChannelOrderMode
get_channel_order_mode db channel_id = db.order_mode channel_id

-- The number handed out is the high-water mark before the call.
abbrev pub allocate_order_seq : CacheDb → ℕ → ℕ × CacheDb
allocate_order_seq db count =
    (db.local_order_seq, record db { local_order_seq = db.local_order_seq + count })

unfoldable pub stamp : MessageRecord → ChannelOrderMode → StoredMessage
stamp m mode = record {
  row = m;
  sort_key = display_sort_key m mode;
  pts_gap = if has_pts_gap m then 1 else 0;
}

-- The lookups by an index. A row without the field is not in the index.
abbrev pub by_smid : CacheDb → Text → Option StoredMessage
by_smid db s = find_by (λ m. m.row.server_message_id == some s) db.messages

abbrev pub by_channel_smid : CacheDb → Text → Text → Option StoredMessage
by_channel_smid db c s =
    find_by (λ m. m.row.channel_id == c && m.row.server_message_id == some s) db.messages

abbrev pub by_channel_lmid : CacheDb → Text → Text → Option StoredMessage
by_channel_lmid db c s =
    find_by (λ m. m.row.channel_id == c && m.row.local_message_id == some s) db.messages

abbrev pub get_message : CacheDb → Text → Option StoredMessage
get_message db id = Table.get message_key id db.messages

-- Another row with the same server identifier: the index on it is unique.
abbrev pub smid_holder : CacheDb → StoredMessage → Option StoredMessage
smid_holder db m = elim m.row.server_message_id [
  | none ↦ none
  | some s ↦
      find_by (λ r. r.row.server_message_id == some s && not (r.row.id == m.row.id)) db.messages
]

unfoldable pub put_message : CacheDb → StoredMessage → Result CacheError CacheDb
put_message db m = elim (smid_holder db m) [
  | none ↦ ok (record db { messages = Table.put message_key m db.messages })
  | some other ↦ err unique_index
]

abbrev pub delete_message_by_id : CacheDb → Text → CacheDb
delete_message_by_id db id = record db { messages = Table.delete message_key id db.messages }

-- How many confirmed rows of the channel have no pts.
abbrev pub gaps : CacheDb → Text → ℕ
gaps db channel_id =
    length (keep (λ m. m.row.channel_id == channel_id && m.pts_gap == 1) db.messages)

abbrev pub wanted_mode : ℕ → ChannelOrderMode
wanted_mode count = if ltb 0 count then by_server_id else by_pts

abbrev pub same_mode : ChannelOrderMode → ChannelOrderMode → Bool
same_mode by_pts by_pts = true
same_mode by_pts by_server_id = false
same_mode by_server_id by_pts = false
same_mode by_server_id by_server_id = true

abbrev pub rekey : Text → ChannelOrderMode → StoredMessage → StoredMessage
rekey channel_id want m =
    if m.row.channel_id == channel_id
    then record m { sort_key = display_sort_key m.row want }
    else m

unfoldable pub reconcile_order_mode : CacheDb → Text → ChannelOrderMode × CacheDb
reconcile_order_mode db channel_id =
    let current = get_channel_order_mode db channel_id in
    let want = wanted_mode (gaps db channel_id) in
    if same_mode want current then (current, db) else (
      want,
      record db {
        messages = map (rekey channel_id want) db.messages;
        order_mode = set_mode db.order_mode channel_id want;
      },
    )

unfoldable pub clear_channel_messages : CacheDb → Text → CacheDb
clear_channel_messages db channel_id = record db {
  messages = keep (λ m. not (m.row.channel_id == channel_id)) db.messages;
}

unfoldable pub delete_message_by_server_id : CacheDb → Text → Text → CacheDb
delete_message_by_server_id db channel_id server_message_id = record db {
  messages =
      keep
        (λ m.
          not (m.row.channel_id == channel_id && m.row.server_message_id == some server_message_id))
        db.messages;
}
