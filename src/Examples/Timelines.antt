-- ===== src/Examples/Timelines.antt =====
-- Concrete runs of the message store.
use privchat_sdk_typescript.Prelude.{
  ◌≡◌, ◌⊎◌, All, refl, Text, Option, none, some, true, false, [], ◌∷◌, codes, inl, map,
  if◌then◌else◌, ◌==◌, text_eq, ◌&&◌, text_beq, text_compare, decimal_from, to_decimal,
}
use privchat_sdk_typescript.Table.{get}
use privchat_sdk_typescript.Maps.{set}
use privchat_sdk_typescript.Sorting.{sort, insert}
use privchat_sdk_typescript.Cache.Order.{
  has_pts_gap, pending_group, is_absent, compare_display_order, display_sort_key, encode_sort_key,
}
use privchat_sdk_typescript.Cache.{MessageRecord, by_server_id, by_pts}
use privchat_sdk_typescript.Contents.{
  decode_legacy_text, normalize_from, trim_end, trim_start, Json, string, object, field, no_fields,
  normalize_message_display_content,
}
use privchat_sdk_typescript.Timeline.{
  MessageStore, declared_mode, get_messages, upsert_messages, replace_message, replace_window,
  set_channel_order_mode, ids, holds, store_merged, merge_rows, is_changed, absorb_duplicates,
  note_rows, get_channel_order_mode, set_buffer, survives, message_equals, normalize_record,
  same_message, set_mode, is_other,
}
use privchat_sdk_typescript.Timeline.Sorted.{
  IsShown, IsDisplayed, set_channel_order_mode-IsDisplayed,
}
use privchat_sdk_typescript.Timeline.Reach.{
  new_store, Reach, start, later, upsert, replace, Reach-IsDisplayed,
}
use privchat_sdk_typescript.Timeline.Views.{view, is_published, upserted_view, replaced_view}
use privchat_sdk_typescript.Timeline.Views.Replaced.{replace_message-view}
use privchat_sdk_typescript.Timeline.Views.Unchanged.{Shows}
use privchat_sdk_typescript.Timeline.Views.Upserted.{upsert_messages-view}
use privchat_sdk_typescript.Timeline.Patches.{followed, replace_window-followed}
use privchat_sdk_typescript.Outbox.{World}
use privchat_sdk_typescript.Client.{CallFaults}
use privchat_sdk_typescript.Client.Discard.{
  Settles, discard_outbox_entry, discard_outbox_entry-Settles,
}
use privchat_sdk_typescript.Examples.{queued, empty_db, room, written, acknowledged, incoming}

-- A parser that refuses every text.
abbrev no_json : Text → Option Json
no_json s = none

-- The user's message, then another user's.
abbrev two_messages : MessageStore
two_messages =
    (upsert_messages no_json (upsert_messages no_json new_store room 1 (written ∷ []) false).0 room
      1 (incoming ∷ []) true).0

two_messages-Reach : Reach no_json two_messages
two_messages-Reach =
    later (later start (upsert room 1 (written ∷ []) false)) (upsert room 1 (incoming ∷ []) true)

-- Pending rows come after confirmed ones.
two_messages_shown :
    map (λ m. m.id) (get_messages two_messages room) ≡ codes "m-2" ∷ codes "m-1" ∷ []
unfolding get_messages get upsert_messages store_merged merge_rows is_changed absorb_duplicates
    note_rows get_channel_order_mode has_pts_gap pending_group is_absent set_buffer text_beq set
    sort survives compare_display_order display_sort_key encode_sort_key decode_legacy_text
    normalize_from normalize_message_display_content trim_end trim_start decimal_from text_compare
    to_decimal insert declared_mode message_equals normalize_record same_message
    set_channel_order_mode set_mode replace_message is_other
two_messages_shown = refl

two_messages-IsDisplayed : IsDisplayed two_messages
two_messages-IsDisplayed = Reach-IsDisplayed no_json two_messages-Reach

abbrev after_ack : MessageStore
after_ack = (replace_message no_json two_messages room 1 (codes "m-1") acknowledged true).0

Reach-IsDisplayed_example : IsShown (declared_mode after_ack room) (get_messages after_ack room)
Reach-IsDisplayed_example =
    Reach-IsDisplayed no_json
      (later two_messages-Reach (replace room 1 (codes "m-1") acknowledged true)) room

abbrev by_pts_declared : MessageStore
by_pts_declared = set_channel_order_mode two_messages room by_pts

set_channel_order_mode-IsDisplayed_example :
    IsShown (declared_mode by_pts_declared room) (get_messages by_pts_declared room)
set_channel_order_mode-IsDisplayed_example =
    set_channel_order_mode-IsDisplayed two_messages room by_pts two_messages-IsDisplayed
      (λ e. inl refl) room

replace_message-view_example : view after_ack room ≡ (
    if room == room
    then replaced_view
        (codes "m-1")
        (normalize_record no_json acknowledged)
        (view two_messages room)
    else view two_messages room)
replace_message-view_example =
    replace_message-view no_json two_messages room 1 (codes "m-1") acknowledged true
      two_messages-IsDisplayed room

abbrev echoed : MessageRecord
echoed = record acknowledged { id = codes "m-9" }

abbrev with_echo : MessageStore
with_echo = (upsert_messages no_json after_ack room 1 (echoed ∷ []) true).0

upsert_messages-view_example :
    (view with_echo room ≡ (
      if (room == room)
        && is_published (upsert_messages no_json after_ack room 1 (echoed ∷ []) true).1
      then upserted_view (map (normalize_record no_json) (echoed ∷ [])) (view after_ack room)
      else view after_ack room))
    × ((is_published (upsert_messages no_json after_ack room 1 (echoed ∷ []) true).1 ≡ true)
        ⊎ All
            (λ r. Shows (view after_ack room r.id) r)
            (map (normalize_record no_json) (echoed ∷ [])))
upsert_messages-view_example =
    upsert_messages-view no_json after_ack room 1 (echoed ∷ []) true
      (Reach-IsDisplayed no_json
        (later two_messages-Reach (replace room 1 (codes "m-1") acknowledged true)))
      room

-- The echo takes the place of the user's row, whose id the patch does not list as removed.
with_echo_unfollowed :
    (holds (ids (get_messages with_echo room)) (codes "m-1") ≡ false)
    × (followed
          (upsert_messages no_json after_ack room 1 (echoed ∷ []) true).1
          (ids (get_messages after_ack room))
          (codes "m-1")
        ≡ true)
unfolding get_messages get upsert_messages store_merged merge_rows is_changed absorb_duplicates
    note_rows get_channel_order_mode has_pts_gap pending_group is_absent set_buffer text_beq set
    sort survives compare_display_order display_sort_key encode_sort_key decode_legacy_text
    normalize_from normalize_message_display_content trim_end trim_start decimal_from text_compare
    to_decimal insert declared_mode message_equals normalize_record same_message
    set_channel_order_mode set_mode replace_message is_other
with_echo_unfollowed = (refl, refl)

replace_window-followed_example :
    followed
      (replace_window no_json two_messages room 1 (acknowledged ∷ []) true).1
      (ids (get_messages two_messages room))
      (codes "m-1")
    ≡ holds
        (ids (
          get_messages
            (replace_window no_json two_messages room 1 (acknowledged ∷ []) true).0
            room))
        (codes "m-1")
replace_window-followed_example =
    replace_window-followed no_json two_messages room 1 (acknowledged ∷ []) true (codes "m-1")
      two_messages-IsDisplayed

-- An earlier message with a later identifier.
abbrev earlier : MessageRecord
earlier = record incoming {
  id = codes "m-3";
  server_message_id = some (codes "90");
  pts = some (codes "1");
}

abbrev undeclared : MessageStore
undeclared = (upsert_messages no_json new_store room 1 (incoming ∷ earlier ∷ []) true).0

-- Without a declared mode before, declaring one leaves the buffer in the old order.
undeclared_not_resorted :
    get_messages (set_channel_order_mode undeclared room by_server_id) room
    ≡ earlier ∷ incoming ∷ []
unfolding get_messages get upsert_messages store_merged merge_rows is_changed absorb_duplicates
    note_rows get_channel_order_mode has_pts_gap pending_group is_absent set_buffer text_beq set
    sort survives compare_display_order display_sort_key encode_sort_key decode_legacy_text
    normalize_from normalize_message_display_content trim_end trim_start decimal_from text_compare
    to_decimal insert declared_mode message_equals normalize_record same_message
    set_channel_order_mode set_mode replace_message is_other
undeclared_not_resorted = refl

-- An object that is an envelope.
abbrev envelope_parser : Text → Option Json
envelope_parser s = some (
    object (
      field (codes "content") (string (codes "hi"))
        (field (codes "metadata") (object no_fields) no_fields)))

-- The user's message waits in the outbox.
abbrev waiting : World MessageStore
waiting = record {
  cache = empty_db;
  outbox = queued ∷ [];
  memory = two_messages;
  events = [];
  wire = [];
  counters = record { attempted = 0; sent = 0; failed = 0; skipped = 0 };
}

abbrev no_faults : CallFaults
no_faults = record { read = none; write = none }

discard_outbox_entry-Settles_example :
    Settles true true no_faults waiting
      (codes "o-1")
      (discard_outbox_entry true true no_faults waiting (codes "o-1"))
discard_outbox_entry-Settles_example =
    discard_outbox_entry-Settles true true no_faults waiting (codes "o-1")
