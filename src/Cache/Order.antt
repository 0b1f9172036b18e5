-- ===== src/Cache/Order.antt =====
-- src/cache/types.ts: the display order. A row's sort key is a text of four parts joined by '|', and
-- the one comparator compares the texts.
pub mod Laws
use mathlib.Core.Option
use privchat_sdk_typescript.Prelude.{
  ℕ, ◌-◌, Text, Option, none, some, Bool, true, false, ◌&&◌, ◌||◌, ◌==◌, text_eq, nat_eq, codes,
  length, replicate, ◌++◌, [], ◌∷◌, leb, if◌then◌else◌, to_decimal, text_compare, Ordering,
}
use privchat_sdk_typescript.Cache.{MessageRecord, ChannelOrderMode, by_pts, by_server_id}

abbrev pub sort_key_width : ℕ
sort_key_width = 20

-- The argument is the number's numeral where the source passes a number.
unfoldable pub encode_sort_key : Option Text → Text
encode_sort_key none = replicate sort_key_width b'0'
encode_sort_key (some digits) =
    if leb sort_key_width (length digits)
    then digits
    else replicate (sort_key_width - length digits) b'0' ++ digits

-- `undefined`, the empty text and "0" all mean that there is no identifier.
unfoldable pub is_absent : Option Text → Bool
is_absent none = true
is_absent (some s) = s == [] || s == codes "0"

unfoldable pub pending_group : MessageRecord → ℕ
pending_group record' = if is_absent record'.server_message_id then 1 else 0

unfoldable pub has_pts_gap : MessageRecord → Bool
has_pts_gap record' = pending_group record' == 0 && is_absent record'.pts

abbrev pub order_field : ChannelOrderMode → MessageRecord → Option Text
order_field by_pts record' = record'.pts
order_field by_server_id record' = record'.server_message_id

unfoldable pub display_sort_key : MessageRecord → ChannelOrderMode → Text
display_sort_key record' mode =
    to_decimal (pending_group record')
    ++ b'|'
      ∷ (encode_sort_key (order_field mode record')
          ++ b'|'
            ∷ (encode_sort_key record'.server_message_id
                ++ b'|' ∷ encode_sort_key (Option.map to_decimal record'.local_order_seq)))

-- -1, 0 and 1 are `lt`, `eq` and `gt`.
unfoldable pub compare_display_order : MessageRecord → MessageRecord → ChannelOrderMode → Ordering
compare_display_order a b mode =
    let key = display_sort_key a mode in
    let other = display_sort_key b mode in
    elim (text_compare key other) [
      | Ordering.lt ↦ Ordering.lt
      | Ordering.eq ↦ Ordering.eq
      | Ordering.gt ↦ Ordering.gt
    ]
