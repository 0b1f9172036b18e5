-- ===== src/Timeline/Patches.antt =====
-- src/cache/message-store.ts: the patches that the observers are called with.
use privchat_sdk_typescript.Prelude.{
  ℕ, ◌≡◌, refl, sym, ◌∙◌, ap, Text, Option, none, some, Bool, true, false, not, ◌&&◌, ◌||◌, List,
  [], ◌∷◌, arith, ◌==◌, text_eq, nat_eq, text_beq_iff, keep, map,
}
use privchat_sdk_typescript.Table.{get}
use privchat_sdk_typescript.Cache.{MessageRecord, ConversationPatch}
use privchat_sdk_typescript.Contents.{Json}
use privchat_sdk_typescript.Timeline.{
  MessageStore, get_messages, set_buffer, note_rows, ids, holds, set_of, store_window,
  replace_window, message_id_of, normalize_record, cmp_for,
}
use privchat_sdk_typescript.Sorting.{sort}
use privchat_sdk_typescript.Timeline.Sorted.{get_messages-set_buffer, IsDisplayed}
use privchat_sdk_typescript.Timeline.Views.{view-note_rows}

-- What an observer that keeps the set of the ids has after a patch.
abbrev pub followed : Option ConversationPatch → List Text → Text → Bool
followed none before k = holds before k
followed (some p) before k = (holds before k && not (holds p.removed k)) || holds (ids p.upserted) k

holds-keep :
    (p : Text → Bool) (k : Text) (ks : List Text) → holds (keep p ks) k ≡ (holds ks k && p k)
holds-keep p k [] = refl
holds-keep p k (j ∷ ks) = ground (arith, holds-keep p k ks, text_beq_iff j k)

holds-set_of : (k : Text) (ks : List Text) → holds (set_of ks) k ≡ holds ks k
holds-set_of k [] = refl
holds-set_of k (j ∷ ks) = ground (
  arith,
  holds-keep (λ i. not (i == j)) k (set_of ks),
  holds-set_of k ks,
  text_beq_iff j k,
  text_beq_iff k j,
)

holds-ids-keep :
    (p : Text → Bool) (k : Text) (ms : List MessageRecord)
    → holds (ids (keep (λ m. p m.id) ms)) k ≡ (holds (ids ms) k && p k)
holds-ids-keep p k [] = refl
holds-ids-keep p k (m ∷ ms) = ground (arith, holds-ids-keep p k ms, text_beq_iff m.id k)

-- The ids that are gone and the ones that are new, put together.
follow_exact :
    (before after : List MessageRecord) (k : Text)
    → ((holds (ids before) k
          && not (holds (keep (λ j. not (holds (ids after) j)) (set_of (ids before))) k))
        || holds (ids (keep (λ m. not (holds (ids before) m.id)) after)) k)
      ≡ holds (ids after) k
follow_exact before after k =
    rw
      (
        holds-keep (λ j. not (holds (ids after) j)) k (set_of (ids before)),
        holds-set_of k (ids before),
        holds-ids-keep (λ j. not (holds (ids before) j)) k after,
      )
      (table (holds (ids before) k) (holds (ids after) k))
  where
    table : (b a : Bool) → ((b && not (b && not a)) || (a && not b)) ≡ a
    table true true = refl
    table true false = refl
    table false true = refl
    table false false = refl

ids-set_buffer :
    (s : MessageStore) (c : Text) (ms : List MessageRecord)
    → get_messages (set_buffer s c ms) c ≡ ms
ids-set_buffer s c ms = get_messages-set_buffer s c c ms ∙ rw ((text_beq_iff c c).1 refl) refl

store_window-followed :
    (s : MessageStore) (c : Text) (channel_type : ℕ) (is_remote : Bool)
    (window : List MessageRecord) (k : Text)
    → let result = store_window s c channel_type is_remote window in
      followed result.1 (ids (get_messages s c)) k ≡ holds (ids (get_messages result.0 c)) k
unfolding store_window
store_window-followed s c channel_type is_remote [] k = refl
store_window-followed s c channel_type is_remote (lo ∷ rest) k =
    follow_exact (get_messages s c) _ k ∙ sym (rw ids-set_buffer refl)

held : Option MessageRecord → Bool
held none = false
held (some m) = true

holds-get : (k : Text) (ms : List MessageRecord) → holds (ids ms) k ≡ held (get message_id_of k ms)
unfolding held get
holds-get k [] = refl
holds-get k (m ∷ ms) = ground (arith, holds-get k ms)

-- Noting rows can change the order only.
holds-note_rows :
    (s : MessageStore) (c : Text) (rs : List MessageRecord) (k : Text)
    → IsDisplayed s
    → holds (ids (get_messages (note_rows s c rs) c)) k ≡ holds (ids (get_messages s c)) k
holds-note_rows s c rs k shown =
    holds-get k (get_messages (note_rows s c rs) c)
    ∙ ap held (view-note_rows s c c rs k (shown c).distinct)
    ∙ sym (holds-get k (get_messages s c))

followed-before :
    (p : Option ConversationPatch) (ks js : List Text) (k : Text)
    → holds ks k ≡ holds js k
    → followed p js k ≡ followed p ks k
followed-before none ks js k e = sym e
followed-before (some p) ks js k e = rw e refl

module _ (parse : Text → Option Json) where
  -- In a store whose buffers are in display order with no id twice, an observer that keeps the ids of a
  -- channel's messages and follows the patch of a replaced window, taking out the ids that it lists as
  -- removed and putting in those that it lists as upserted, has the ids of the buffer after the call.
  -- Without a patch the ids are those before it.
  pub replace_window-followed :
      (s : MessageStore) (c : Text) (channel_type : ℕ) (records : List MessageRecord)
      (is_remote : Bool) (k : Text)
      → IsDisplayed s
      → let result = replace_window parse s c channel_type records is_remote in
        followed result.1 (ids (get_messages s c)) k ≡ holds (ids (get_messages result.0 c)) k
  unfolding replace_window
  replace_window-followed s c channel_type records is_remote k shown =
      let rows = map (normalize_record parse) records in
      let noted = note_rows s c rows in
      let window = sort (cmp_for noted c) rows in
      followed-before (store_window noted c channel_type is_remote window).1
        (ids (get_messages noted c)) (ids (get_messages s c)) k (holds-note_rows s c rows k shown)
      ∙ store_window-followed noted c channel_type is_remote window k
