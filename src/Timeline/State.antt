-- ===== src/Timeline/State.antt =====
-- src/cache/message-store.ts: the state of the message store, the order modes and the channels.
use privchat_sdk_typescript.Prelude.{
  Text, Option, none, some, true, false, List, [], text_eq, nat_eq, bool_eq, option_eq, or_else,
  some_by, if◌then◌else◌, Ordering, compare,
}
use privchat_sdk_typescript.Table
use privchat_sdk_typescript.Maps
use privchat_sdk_typescript.Sorting.{sort}
use privchat_sdk_typescript.Cache.{
  MessageRecord, ChannelOrderMode, by_pts, by_server_id, ChannelRecord,
}
use privchat_sdk_typescript.Cache.Order.{compare_display_order, has_pts_gap}
use privchat_sdk_typescript.Cache.Database.{same_mode}

-- An entry of a map: the key with what it is set to.
pub record OrderMode : Type 0 where
  pub channel_id : Text
  pub mode : ChannelOrderMode

pub record Buffer : Type 0 where
  pub channel_id : Text
  pub messages : List MessageRecord

pub record MessageStore : Type 0 where
  pub order_modes : List OrderMode
  pub channels : List ChannelRecord
  pub buffers : List Buffer

abbrev pub mode_key : OrderMode → Text
mode_key m = m.channel_id

abbrev pub channel_key : ChannelRecord → Text
channel_key c = c.channel_id

abbrev pub buffer_key : Buffer → Text
buffer_key b = b.channel_id

abbrev pub message_id_of : MessageRecord → Text
message_id_of m = m.id

abbrev pub mode_in : Option OrderMode → Option ChannelOrderMode
mode_in none = none
mode_in (some entry) = some entry.mode

abbrev pub messages_in : Option Buffer → List MessageRecord
messages_in none = []
messages_in (some b) = b.messages

unfoldable pub declared_mode : MessageStore → Text → Option ChannelOrderMode
declared_mode store c = mode_in (Table.get mode_key c store.order_modes)

unfoldable pub get_messages : MessageStore → Text → List MessageRecord
get_messages store c = messages_in (Table.get buffer_key c store.buffers)

unfoldable pub get_channel_order_mode : MessageStore → Text → ChannelOrderMode
unfolding declared_mode
get_channel_order_mode store c = or_else (declared_mode store c) by_pts

abbrev pub cmp_in : ChannelOrderMode → MessageRecord → MessageRecord → Ordering
cmp_in mode a b = compare_display_order a b mode

abbrev pub cmp_for : MessageStore → Text → MessageRecord → MessageRecord → Ordering
cmp_for store c = cmp_in (get_channel_order_mode store c)

unfoldable pub set_buffer : MessageStore → Text → List MessageRecord → MessageStore
set_buffer store c messages = record store {
  buffers = Maps.set buffer_key (record { channel_id = c; messages = messages }) store.buffers;
}

unfoldable pub set_mode : MessageStore → Text → ChannelOrderMode → MessageStore
set_mode store c mode = record store {
  order_modes = Maps.set mode_key (record { channel_id = c; mode = mode }) store.order_modes;
}

-- The buffer is sorted again where a mode was declared before and the new one differs.
unfoldable pub set_channel_order_mode : MessageStore → Text → ChannelOrderMode → MessageStore
unfolding declared_mode
set_channel_order_mode store c mode =
    let moded = set_mode store c mode in
    elim (declared_mode store c) [
      | none ↦ moded
      | some prev ↦ elim (same_mode prev mode) [
        | true ↦ moded
        | false ↦ elim (Table.get buffer_key c store.buffers) [
          | none ↦ moded
          | some buf ↦ set_buffer moded c (sort (cmp_for moded c) buf.messages)
        ]
      ]
    ]

unfoldable pub note_rows : MessageStore → Text → List MessageRecord → MessageStore
note_rows store c records =
    if same_mode (get_channel_order_mode store c) by_server_id
    then store
    else if some_by has_pts_gap records
    then set_channel_order_mode store c by_server_id
    else store

unfoldable pub upsert_channel : MessageStore → ChannelRecord → MessageStore
upsert_channel store channel = record store {
  channels = Maps.set channel_key channel store.channels;
}

unfoldable pub upsert_channels : MessageStore → List ChannelRecord → MessageStore
upsert_channels store channels = record store {
  channels = Maps.set_all channel_key channels store.channels;
}

unfoldable pub get_channel : MessageStore → Text → Option ChannelRecord
get_channel store c = Table.get channel_key c store.channels

-- Descending by the last activity.
abbrev pub by_activity : ChannelRecord → ChannelRecord → Ordering
by_activity a b = compare b.updated_at a.updated_at

unfoldable pub list_channels : MessageStore → List ChannelRecord
list_channels store = sort by_activity store.channels
