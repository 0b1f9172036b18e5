-- ===== src/Timeline/Rows.antt =====
-- src/cache/message-store.ts: the helpers that filter, compare and merge rows.
use privchat_sdk_typescript.Prelude.{
  ℕ, Text, Option, none, some, Bool, true, false, not, ◌&&◌, ◌||◌, List, [], ◌∷◌, map, ◌==◌,
  text_eq, nat_eq, bool_eq, option_eq, keep, some_by, if◌then◌else◌, Ordering,
}
use privchat_sdk_typescript.Table
use privchat_sdk_typescript.Maps
use privchat_sdk_typescript.Sorting.{sort}
use privchat_sdk_typescript.Cache.{
  MessageRecord, MessageStatus, received, pending, sent, failed, ConversationPatch,
}
use privchat_sdk_typescript.Timeline.State.{message_id_of}

-- Rows that are the same message under different local ids, by one of the network identities.
abbrev pub same_identity : Option Text → Option Text → Bool
same_identity none b = false
same_identity (some a) b = b == some a

unfoldable pub same_message : MessageRecord → MessageRecord → Bool
same_message next m =
    same_identity next.server_message_id m.server_message_id
    || same_identity next.local_message_id m.local_message_id

unfoldable pub survives : List MessageRecord → MessageRecord → Bool
unfolding same_message
survives incoming m =
    some_by (λ r. r.id == m.id) incoming || not (some_by (λ r. same_message r m) incoming)

unfoldable pub absorb_duplicates : List MessageRecord → List MessageRecord → List MessageRecord
absorb_duplicates rows incoming = keep (survives incoming) rows

unfoldable pub merge_by_key :
    List MessageRecord
    → List MessageRecord
    → (MessageRecord → MessageRecord → Ordering)
    → List MessageRecord
merge_by_key a b cmp = sort cmp (Maps.set_all message_id_of b (Maps.set_all message_id_of a []))

abbrev pub same_status : MessageStatus → MessageStatus → Bool
same_status received received = true
same_status pending pending = true
same_status sent sent = true
same_status failed failed = true
same_status _ _ = false

unfoldable pub message_equals : MessageRecord → MessageRecord → Bool
message_equals a b =
    a.server_message_id == b.server_message_id
    && a.local_message_id == b.local_message_id
    && a.pts == b.pts
    && a.from_uid == b.from_uid
    && a.message_type == b.message_type
    && a.content == b.content
    && a.timestamp == b.timestamp
    && same_status a.status b.status
    && a.revoked == b.revoked
    && a.payload == b.payload

abbrev pub patch_of : Text → ℕ → List MessageRecord → List Text → Bool → Option ConversationPatch
patch_of c channel_type upserted removed is_remote = some (record {
  channel_id = c;
  channel_type = channel_type;
  upserted = upserted;
  removed = removed;
  is_remote = is_remote;
})

abbrev pub ids : List MessageRecord → List Text
ids = map message_id_of

abbrev pub holds : List Text → Text → Bool
holds keys k = some_by (λ j. j == k) keys

-- The keys as a set, in the order of insertion.
abbrev pub set_of : List Text → List Text
set_of [] = []
set_of (k ∷ ks) = k ∷ keep (λ j. not (j == k)) (set_of ks)

abbrev pub is_before : Ordering → Bool
is_before Ordering.lt = true
is_before Ordering.eq = false
is_before Ordering.gt = false

abbrev pub last_of : MessageRecord → List MessageRecord → MessageRecord
last_of m [] = m
last_of m (n ∷ rest) = last_of n rest

-- The rows and, in their order, the records that are new or change one.
pub record Merged : Type 0 where
  pub rows : List MessageRecord
  pub upserted : List MessageRecord

unfoldable pub is_changed : Option MessageRecord → MessageRecord → Bool
is_changed none r = true
is_changed (some prev) r = not (message_equals prev r)

unfoldable pub merge_rows : List MessageRecord → List MessageRecord → Merged
merge_rows rows [] = record { rows = rows; upserted = [] }
merge_rows rows (r ∷ rs) =
    let rest = merge_rows (Maps.set message_id_of r rows) rs in
    if is_changed (Table.get message_id_of r.id rows) r
    then record rest { upserted = r ∷ rest.upserted }
    else rest
