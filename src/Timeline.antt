-- ===== src/Timeline.antt =====
-- src/cache/message-store.ts: the channels and message buffers in memory. The maps are lists in the
-- order of insertion. An operation gives the store and the patch that the channel's observers are
-- called with, if it calls them. `parse` stands for the JSON parser behind the display text.
mod State
mod Rows
unfoldable pub use State.*
unfoldable pub use Rows.*
pub mod Patches
pub mod Sorted
pub mod Merging
pub mod Noted
pub mod Displayed
pub mod Reach
pub mod Views
use privchat_sdk_typescript.Prelude.{
  ℕ, Text, Option, none, some, Bool, true, false, not, ◌&&◌, ◌||◌, List, [], ◌∷◌, ◌++◌, map, ◌==◌,
  text_eq, nat_eq, bool_eq, option_eq, or_else, keep, some_by, leb, length, if◌then◌else◌, Ordering,
  compare,
}
use privchat_sdk_typescript.Table
use privchat_sdk_typescript.Maps
use privchat_sdk_typescript.Sorting.{sort, not_after}
use privchat_sdk_typescript.Cache.{
  MessageRecord, MessageStatus, received, pending, sent, failed, ChannelOrderMode, by_pts,
  by_server_id, ChannelRecord, ConversationPatch,
}
use privchat_sdk_typescript.Cache.Order.{compare_display_order, has_pts_gap}
use privchat_sdk_typescript.Cache.Database.{same_mode}
use privchat_sdk_typescript.Contents.{Json, string, normalize_message_display_content}

-- The merged rows are stored and published where a record is new or changes one.
unfoldable pub store_merged :
    MessageStore → Text → ℕ → Bool → Merged → MessageStore × Option ConversationPatch
store_merged noted c channel_type is_remote merged = elim merged.upserted [
  | [] ↦ (noted, none)
  | u ∷ us ↦ (
    set_buffer noted c (sort (cmp_for noted c) merged.rows),
    patch_of c channel_type (u ∷ us) [] is_remote,
  )
]

-- The row stays: it is not the replaced one, has another id and is another message.
unfoldable pub is_other : Text → MessageRecord → MessageRecord → Bool
unfolding same_message
is_other replaced next m =
    not (m.id == replaced) && not (m.id == next.id) && not (same_message next m)

-- The window is not empty: `lo` and `hi` are its ends.
abbrev pub outside_window :
    (MessageRecord → MessageRecord → Ordering)
    → MessageRecord
    → MessageRecord
    → MessageRecord
    → Bool
outside_window cmp lo hi m = is_before (cmp m lo) || not (not_after (cmp m hi))

-- The window's rows in display order; an empty window replaces nothing.
unfoldable pub store_window :
    MessageStore → Text → ℕ → Bool → List MessageRecord → MessageStore × Option ConversationPatch
store_window noted c channel_type is_remote [] = (noted, none)
store_window noted c channel_type is_remote (lo ∷ rest) =
    let cmp = cmp_for noted c in
    let existing = get_messages noted c in
    let outside = keep (outside_window cmp lo (last_of lo rest)) existing in
    let merged = merge_by_key (absorb_duplicates outside (lo ∷ rest)) (lo ∷ rest) cmp in
    let upserted = keep (λ m. not (holds (ids existing) m.id)) merged in
    let removed = keep (λ k. not (holds (ids merged) k)) (set_of (ids existing)) in
    (set_buffer noted c merged, patch_of c channel_type upserted removed is_remote)

module _ (parse : Text → Option Json) where
  unfoldable pub normalize_record : MessageRecord → MessageRecord
  normalize_record m = record m {
    content = normalize_message_display_content parse (string m.content);
  }

  unfoldable pub replace_window :
      MessageStore → Text → ℕ → List MessageRecord → Bool → MessageStore × Option ConversationPatch
  replace_window store c channel_type records is_remote =
      let normalized = map normalize_record records in
      let noted = note_rows store c normalized in
      store_window noted c channel_type is_remote (sort (cmp_for noted c) normalized)

  unfoldable pub upsert_messages :
      MessageStore → Text → ℕ → List MessageRecord → Bool → MessageStore × Option ConversationPatch
  upsert_messages store c channel_type [] is_remote = (store, none)
  upsert_messages store c channel_type (m ∷ ms) is_remote =
      let noted = note_rows store c (m ∷ ms) in
      let normalized = map normalize_record (m ∷ ms) in
      let existing = absorb_duplicates (get_messages noted c) normalized in
      store_merged noted c channel_type is_remote (merge_rows existing normalized)

  abbrev pub upsert_message :
      MessageStore → MessageRecord → Bool → MessageStore × Option ConversationPatch
  upsert_message store m is_remote =
      upsert_messages store m.channel_id m.channel_type (m ∷ []) is_remote

  unfoldable pub replace_message :
      MessageStore
      → Text
      → ℕ
      → Text
      → MessageRecord
      → Bool
      → MessageStore × Option ConversationPatch
  replace_message store c channel_type replaced record' is_remote =
      let next = normalize_record record' in
      let filtered = keep (is_other replaced next) (get_messages store c) in
      let noted = note_rows store c (next ∷ []) in
      (
        set_buffer noted c (sort (cmp_for noted c) (filtered ++ next ∷ [])),
        patch_of c channel_type (next ∷ []) (if replaced == next.id then [] else replaced ∷ [])
            is_remote,
      )

unfoldable pub remove_message :
    MessageStore → Text → ℕ → Text → MessageStore × Option ConversationPatch
remove_message store c channel_type message_id =
    let existing = get_messages store c in
    let next = keep (λ m. not (m.id == message_id)) existing in
    if length next == length existing
    then (store, none)
    else (set_buffer store c next, patch_of c channel_type [] (message_id ∷ []) true)

unfoldable pub clear_buffer : MessageStore → Text → ℕ → MessageStore × Option ConversationPatch
clear_buffer store c channel_type = elim (get_messages store c) [
  | [] ↦ (store, none)
  | m ∷ ms ↦ (
    record store { buffers = Table.delete buffer_key c store.buffers },
    patch_of c channel_type [] (ids (m ∷ ms)) true,
  )
]

unfoldable pub clear : MessageStore → MessageStore
clear store = record store { channels = []; buffers = [] }
