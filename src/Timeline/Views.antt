-- ===== src/Timeline/Views.antt =====
-- src/cache/message-store.ts: a buffer seen as a map from ids to messages, and what the operations do
-- to it.
pub mod Replaced
pub mod Unchanged
pub mod Upserted
use mathlib.Core.Path.{fun_ext}
use privchat_sdk_typescript.Prelude.{
  ℕ, ◌≡◌, ◌≢◌, refl, ◌∙◌, ap, Text, Option, none, some, Bool, true, false, List, [], ◌∷◌, ◌++◌,
  arith, inl, inr, Bool-cases, List-cases, ◌==◌, text_eq, text_beq_iff, if◌then◌else◌, All, keep,
  ◌&&◌, ◌||◌, not, some_by, map,
}
use privchat_sdk_typescript.Table.{get}
use privchat_sdk_typescript.Maps.{IsDistinct, get-set, get-keep, kept, set, keep-IsDistinct}
use privchat_sdk_typescript.Sorting.{sort, get-sort}
use privchat_sdk_typescript.Cache.{MessageRecord, ChannelOrderMode, by_server_id, ConversationPatch}
use privchat_sdk_typescript.Contents.{Json}
use privchat_sdk_typescript.Timeline.{
  MessageStore, Merged, declared_mode, get_messages, cmp_in, cmp_for, note_rows, message_id_of,
  absorb_duplicates, survives, same_message, same_identity, merge_rows, normalize_record,
  upsert_messages, store_merged, replace_message, is_other,
}
use privchat_sdk_typescript.Timeline.Merging.{
  IsDistinct-last, others, merge_rows-IsDistinct, absorb_duplicates-IsDistinct,
}
use privchat_sdk_typescript.Timeline.Sorted.{
  IsDisplayed, get_messages-set_buffer, get_messages-set_channel_order_mode, resorted,
}
use privchat_sdk_typescript.Timeline.Noted.{note_rows-cases, note_rows-IsDistinct}

-- The messages of a channel by their ids.
abbrev pub View : Type 0
View = Text → Option MessageRecord

abbrev pub view : MessageStore → Text → View
view s c k = get message_id_of k (get_messages s c)

-- Two messages are one: both have a server identifier, the same, or a local one.
abbrev pub identifies : Option Text → Option Text → Bool
identifies (some a) (some b) = a == b
identifies _ _ = false

abbrev pub are_one : MessageRecord → MessageRecord → Bool
are_one a b =
    identifies a.server_message_id b.server_message_id
    || identifies a.local_message_id b.local_message_id

abbrev pub makes_way : Text → MessageRecord → MessageRecord → Bool
makes_way replaced next m = m.id == replaced || m.id == next.id || are_one next m

-- One message takes the place of another: the replaced id goes, and so does every row that is the same
-- message under another id.
abbrev pub replaced_view : Text → MessageRecord → View → View
replaced_view replaced next v k =
    if next.id == k then some next else kept (λ m. not (makes_way replaced next m)) (v k)

-- The last of the records with an id, or what there was.
unfoldable pub written_view : List MessageRecord → View → View
written_view [] v k = v k
written_view (r ∷ rs) v k = written_view rs (λ j. if r.id == j then some r else v j) k

-- No record of the batch has the row's id, and one of them is the same message.
abbrev pub is_double : List MessageRecord → MessageRecord → Bool
is_double records m =
    not (some_by (λ r. r.id == m.id) records) && some_by (λ r. are_one r m) records

-- A batch is written over the rows that are none of its messages under another id.
abbrev pub upserted_view : List MessageRecord → View → View
upserted_view records v = written_view records (λ k. kept (λ m. not (is_double records m)) (v k))

abbrev pub is_published : Option ConversationPatch → Bool
is_published none = false
is_published (some patch) = true

pub same_message-are_one : (a b : MessageRecord) → same_message a b ≡ are_one a b
unfolding same_message
same_message-are_one a b = cc (
  identity a.server_message_id b.server_message_id,
  identity a.local_message_id b.local_message_id,
)
  where
    identity : (x y : Option Text) → same_identity x y ≡ identifies x y
    identity none none = refl
    identity none (some y) = refl
    identity (some x) none = refl
    identity (some x) (some y) = ground (arith, text_beq_iff x y, text_beq_iff y x)

pub view-note_rows :
    (s : MessageStore) (c d : Text) (rs : List MessageRecord) (k : Text)
    → IsDistinct message_id_of (get_messages s d)
    → view (note_rows s c rs) d k ≡ view s d k
view-note_rows s c d rs k apart = elim (note_rows-cases s c rs) [
  | inl (same, _) ↦ rw same refl
  | inr (changed, _) ↦
      rw (changed, get_messages-set_channel_order_mode) (either (c == d) (declared_mode s c))
]
  where
    either :
        (b : Bool) (prev : Option ChannelOrderMode)
        → get message_id_of k
            (if b then resorted prev by_server_id (get_messages s d) else get_messages s d)
          ≡ view s d k
    either false prev = refl
    either true none = refl
    either true (some prev) =
        ground (arith, get-sort (cmp_in by_server_id) message_id_of k (get_messages s d) apart)
