-- ===== src/Examples/Messages.antt =====
-- Examples for the order, the merges and the message table.
use privchat_sdk_typescript.Prelude.{
  to_decimal-IsDecimal, length-to_decimal, text_beq, ◌≡◌, refl, ◌≢◌, none, some, Bool, [], ◌∷◌,
  List, codes, true, false, arith, ltb, if◌then◌else◌, ok, err, ap,
}
use privchat_sdk_typescript.Table
use privchat_sdk_typescript.Codes.{
  ContentTypeName, image, unknown, spelling, content_type_from_wire_tag, content_type_to_wire_tag,
}
use privchat_sdk_typescript.Codes.Laws.{content_type_wire_tag_round_trip}
use privchat_sdk_typescript.Cache.{MessageRecord, by_pts, seconds, milliseconds}
use privchat_sdk_typescript.Cache.Order.{
  compare_display_order, has_pts_gap, pending_group, is_absent,
}
use privchat_sdk_typescript.Cache.Order.Laws.{HasKeys, compare_tuple, compare_display_order-tuple}
use privchat_sdk_typescript.Cache.Merge.{merge_on_push_absorb}
use privchat_sdk_typescript.Cache.Merge.Laws.{
  Protects, KeepsDisplay, KeepsRevoked, merge_on_push_absorb-Protects,
  merge_on_push_absorb_status_push,
}
use privchat_sdk_typescript.Cache.Inbound.Laws.{
  absorb_times, absorb_times_lem, observe, observe_all, best, any_precise,
}
use privchat_sdk_typescript.Cache.Database.{
  CacheDb, gaps, wanted_mode, put_message, stamp, reconcile_order_mode,
}
use privchat_sdk_typescript.Cache.Database.Keys.{IsWellKeyed}
use privchat_sdk_typescript.Cache.Database.Upsert.{
  upsert_messages, reconcile_all, channels_of, upsert_loop, upsert_one, find_existing, merge_row,
}
use privchat_sdk_typescript.Cache.Database.Upsert.Keys.{upsert_messages-IsWellKeyed, IsExact}
use privchat_sdk_typescript.Cache.Database.Ack.{apply_ack}
use privchat_sdk_typescript.Cache.Database.Ack.Keys.{apply_ack-IsWellKeyed}
use privchat_sdk_typescript.Examples.{written, acknowledged, incoming, empty_db, room, alice}

abbrev is_unknown : ContentTypeName → Bool
is_unknown unknown = true
is_unknown _ = false

image-known : image ≢ unknown
image-known e = absurd (cc (ap is_unknown e))

content_type_wire_tag_round_trip_example :
    (content_type_from_wire_tag (content_type_to_wire_tag (codes (spelling image))) ≡ image)
    × (content_type_to_wire_tag (codes (spelling (content_type_from_wire_tag 5)))
        ≡ (if ltb 5 13 then 5 else 0))
content_type_wire_tag_round_trip_example = content_type_wire_tag_round_trip image 5 image-known

acknowledged-HasKeys : HasKeys acknowledged
acknowledged-HasKeys = record {
  server_message_id = ground arith;
  pts = ground arith;
  local_order_seq = (to_decimal-IsDecimal 1, omega (arith, length-to_decimal 1 1 (omega arith)));
}

incoming-HasKeys : HasKeys incoming
incoming-HasKeys = record {
  server_message_id = ground arith;
  pts = ground arith;
  local_order_seq = ground arith;
}

compare_display_order-tuple_example :
    compare_display_order acknowledged incoming by_pts ≡ compare_tuple by_pts acknowledged incoming
compare_display_order-tuple_example =
    compare_display_order-tuple acknowledged incoming by_pts acknowledged-HasKeys incoming-HasKeys

merge_on_push_absorb-Protects_example :
    Protects acknowledged incoming (merge_on_push_absorb (some acknowledged) incoming (some alice))
merge_on_push_absorb-Protects_example =
    merge_on_push_absorb-Protects acknowledged incoming (some alice)

-- A status push: no text, and the confirming device as its author.
abbrev status_push : MessageRecord
status_push = record incoming { content = []; revoked = some true }

merge_on_push_absorb_status_push_example :
    KeepsDisplay acknowledged (merge_on_push_absorb (some acknowledged) status_push (some alice))
    × KeepsRevoked
        (some true)
        (merge_on_push_absorb (some acknowledged) status_push (some alice)).revoked
merge_on_push_absorb_status_push_example =
    merge_on_push_absorb_status_push acknowledged status_push (some alice) refl

absorb_times_lem_example :
    absorb_times none (observe_all 1700000000317 (seconds ∷ milliseconds ∷ []))
    ≡ (some (observe 1700000000317 (best (any_precise (seconds ∷ milliseconds ∷ [])))), false)
absorb_times_lem_example = absorb_times_lem 1700000000317 seconds (milliseconds ∷ []) (omega arith)

empty_db-IsWellKeyed : IsWellKeyed empty_db
empty_db-IsWellKeyed = record { keyed = tt; degraded = λ c h. ground arith }

-- The database after the user has written a message, and after the server has acknowledged it.
abbrev after_write : CacheDb × List MessageRecord
after_write = elim (upsert_messages empty_db (written ∷ [])) [ ok r ↦ r | err e ↦ (empty_db, []) ]

after_write-ok : upsert_messages empty_db (written ∷ []) ≡ ok (after_write.0, after_write.1)
unfolding upsert_messages upsert_loop upsert_one find_existing Table.get text_beq put_message stamp
    merge_row
after_write-ok = refl

upsert_messages-IsWellKeyed_example : IsWellKeyed after_write.0 × IsExact after_write.0 room
upsert_messages-IsWellKeyed_example =
    upsert_messages-IsWellKeyed empty_db after_write.0 (written ∷ []) after_write.1 room
      empty_db-IsWellKeyed (λ avoids. avoids.0 refl) after_write-ok

abbrev after_ack : CacheDb × MessageRecord
after_ack = elim (apply_ack after_write.0 acknowledged) [ ok r ↦ r | err e ↦ (empty_db, written) ]

after_ack-ok : apply_ack after_write.0 acknowledged ≡ ok (after_ack.0, after_ack.1)
unfolding apply_ack upsert_messages upsert_loop upsert_one find_existing Table.get text_beq
    put_message stamp merge_row reconcile_all channels_of reconcile_order_mode Table.put has_pts_gap
    pending_group is_absent
after_ack-ok = refl

apply_ack-IsWellKeyed_example :
    IsWellKeyed after_ack.0 × (after_ack.0.order_mode room ≡ wanted_mode (gaps after_ack.0 room))
apply_ack-IsWellKeyed_example =
    apply_ack-IsWellKeyed after_write.0 after_ack.0 acknowledged after_ack.1
      upsert_messages-IsWellKeyed_example.0 after_ack-ok
