-- ===== src/Timeline/Views/Upserted.antt =====
-- src/cache/message-store.ts: `upsertMessages` on the map from ids to messages.
use mathlib.Core.Path.{fun_ext}
use privchat_sdk_typescript.Prelude.{
  ℕ, ◌≡◌, ◌⊎◌, subst, All, refl, ◌∙◌, ap, Text, Option, Bool, true, false, List, [], ◌∷◌, arith,
  inl, inr, Bool-cases, List-cases, ◌==◌, text_eq, if◌then◌else◌, ◌&&◌, not, some_by, map,
}
use privchat_sdk_typescript.Table.{get}
use privchat_sdk_typescript.Maps.{IsDistinct, get-set, get-keep, kept, set}
use privchat_sdk_typescript.Sorting.{get-sort}
use privchat_sdk_typescript.Cache.{MessageRecord}
use privchat_sdk_typescript.Contents.{Json}
use privchat_sdk_typescript.Timeline.{
  MessageStore, Merged, get_messages, cmp_for, note_rows, message_id_of, absorb_duplicates,
  survives, same_message, merge_rows, normalize_record, upsert_messages, store_merged,
}
use privchat_sdk_typescript.Timeline.Merging.{merge_rows-IsDistinct, absorb_duplicates-IsDistinct}
use privchat_sdk_typescript.Timeline.Sorted.{IsDisplayed, get_messages-set_buffer}
use privchat_sdk_typescript.Timeline.Noted.{note_rows-IsDistinct}
use privchat_sdk_typescript.Timeline.Views.Unchanged.{Shows, All-imp, merge_rows-Shows, Shows-kept}
use privchat_sdk_typescript.Timeline.Views.{
  View, view, are_one, written_view, is_double, upserted_view, is_published, same_message-are_one,
  view-note_rows,
}

some_by-are_one :
    (rs : List MessageRecord) (m : MessageRecord)
    → some_by (λ r. same_message r m) rs ≡ some_by (λ r. are_one r m) rs
some_by-are_one [] m = refl
some_by-are_one (r ∷ rs) m = ground (arith, some_by-are_one rs m, same_message-are_one r m)

survives-double :
    (rs : List MessageRecord) (m : MessageRecord) → survives rs m ≡ not (is_double rs m)
unfolding survives
survives-double rs m = ground (arith, some_by-are_one rs m)

get-merge_rows :
    (rs rows : List MessageRecord) (k : Text)
    → get message_id_of k (merge_rows rows rs).rows
      ≡ written_view rs (λ j. get message_id_of j rows) k
unfolding merge_rows written_view
get-merge_rows [] rows k = refl
get-merge_rows (r ∷ rs) rows k =
    ground (arith, get-merge_rows rs (set message_id_of r rows) k)
    ∙ ap (λ v. written_view rs v k) (fun_ext λ j. get-set message_id_of j r rows)

absorbed_at :
    (rs : List MessageRecord) (k : Text) (rows : List MessageRecord)
    → IsDistinct message_id_of rows
    → get message_id_of k (absorb_duplicates rows rs)
      ≡ kept (λ m. not (is_double rs m)) (get message_id_of k rows)
unfolding absorb_duplicates
absorbed_at rs k rows d =
    get-keep message_id_of (survives rs) k rows d
    ∙ ap (λ p. kept p (get message_id_of k rows)) (fun_ext λ m. survives-double rs m)

unpublished : (b : Bool) (v w : View) (k : Text) → w k ≡ (if b && false then v else w) k
unpublished true v w k = refl
unpublished false v w k = refl

-- Merged rows in the place of the noted ones.
store_merged-view :
    (s : MessageStore) (c d : Text) (rs : List MessageRecord) (channel_type : ℕ) (is_remote : Bool)
    (merged : Merged) (after : View)
    → IsDisplayed s
    → IsDistinct message_id_of merged.rows
    → ((k : Text) → get message_id_of k merged.rows ≡ after k)
    → let result = store_merged (note_rows s c rs) c channel_type is_remote merged in
      (k : Text)
      → view result.0 d k ≡ (if (c == d) && is_published result.1 then after else view s d) k
unfolding store_merged
store_merged-view s c d rs channel_type is_remote merged after shown apart written k =
    elim (List-cases merged.upserted) [
      | inl e ↦
          rw (store_merged, e)
            (view-note_rows s c d rs k (shown d).distinct ∙ unpublished (c == d) after (view s d) k)
      | inr (u, us, e) ↦
          rw (store_merged, e)
            (elim (Bool-cases (c == d)) [
              | inl here ↦
                  rw (get_messages-set_buffer, here)
                    (get-sort (cmp_for (note_rows s c rs) c) message_id_of k merged.rows apart
                      ∙ written k)
              | inr there ↦
                  rw (get_messages-set_buffer, there) (view-note_rows s c d rs k (shown d).distinct)
            ])
    ]

-- Where merged rows are not stored, the rows show every record already.
store_merged-Shows :
    (s : MessageStore) (c : Text) (rs rows : List MessageRecord) (channel_type : ℕ)
    (is_remote : Bool)
    → (is_published (store_merged s c channel_type is_remote (merge_rows rows rs)).1 ≡ true)
      ⊎ All (λ r. Shows (get message_id_of r.id rows) r) rs
unfolding store_merged
store_merged-Shows s c rs rows channel_type is_remote =
    elim (List-cases (merge_rows rows rs).upserted) [
      | inl e ↦ inr (merge_rows-Shows rs rows e)
      | inr (u, us, e) ↦ inl (rw (store_merged, e) refl)
    ]

module _ (parse : Text → Option Json) where
  batch-view :
      (s : MessageStore) (c : Text) (channel_type : ℕ) (records : List MessageRecord)
      (is_remote : Bool)
      → IsDisplayed s
      → (d : Text)
      → view (upsert_messages parse s c channel_type records is_remote).0 d ≡ (
          if (c == d) && is_published (upsert_messages parse s c channel_type records is_remote).1
          then upserted_view (map (normalize_record parse) records) (view s c)
          else view s d)
  unfolding upsert_messages
  batch-view s c channel_type [] is_remote shown d =
      fun_ext λ k. unpublished (c == d) (upserted_view [] (view s c)) (view s d) k
  batch-view s c channel_type (m ∷ ms) is_remote shown d = fun_ext λ k.
      store_merged-view s c d (m ∷ ms) channel_type is_remote (merge_rows existing incoming)
        (upserted_view incoming (view s c)) shown
        (merge_rows-IsDistinct incoming existing (
          absorb_duplicates-IsDistinct (get_messages noted c) incoming
            (note_rows-IsDistinct s c (m ∷ ms) (shown c).distinct)))
        (λ j. get-merge_rows incoming existing j ∙ ap (λ v. written_view incoming v j) absorbed) k
    where
      noted : MessageStore
      noted = note_rows s c (m ∷ ms)

      incoming : List MessageRecord
      incoming = map (normalize_record parse) (m ∷ ms)

      existing : List MessageRecord
      existing = absorb_duplicates (get_messages noted c) incoming

      absorbed :
          ◌≡◌ {A = View}
            (λ k. get message_id_of k existing)
            (λ k. kept (λ m. not (is_double incoming m)) (view s c k))
      absorbed = fun_ext λ k.
          absorbed_at incoming k (get_messages noted c)
            (note_rows-IsDistinct s c (m ∷ ms) (shown c).distinct)
          ∙ ap (kept (λ m. not (is_double incoming m)))
              (view-note_rows s c c (m ∷ ms) k (shown c).distinct)

  batch-Shows :
      (s : MessageStore) (c : Text) (channel_type : ℕ) (records : List MessageRecord)
      (is_remote : Bool)
      → IsDisplayed s
      → (is_published (upsert_messages parse s c channel_type records is_remote).1 ≡ true)
        ⊎ All (λ r. Shows (view s c r.id) r) (map (normalize_record parse) records)
  unfolding upsert_messages absorb_duplicates
  batch-Shows s c channel_type [] is_remote shown = inr tt
  batch-Shows s c channel_type (m ∷ ms) is_remote shown =
      elim (store_merged-Shows noted c incoming (absorb_duplicates (get_messages noted c) incoming)
        channel_type is_remote) [
          | inl published ↦ inl published
          | inr all ↦ inr (All-imp _ _ incoming (λ r held. before r held) all)
        ]
    where
      noted : MessageStore
      noted = note_rows s c (m ∷ ms)

      incoming : List MessageRecord
      incoming = map (normalize_record parse) (m ∷ ms)

      before :
          (r : MessageRecord)
          → Shows (get message_id_of r.id (absorb_duplicates (get_messages noted c) incoming)) r
          → Shows (view s c r.id) r
      before r held =
          subst (λ o. Shows o r) (view-note_rows s c c (m ∷ ms) r.id (shown c).distinct)
            (Shows-kept (λ m. not (is_double incoming m)) _ r
              (subst (λ o. Shows o r)
                (absorbed_at incoming r.id (get_messages noted c)
                  (note_rows-IsDistinct s c (m ∷ ms) (shown c).distinct))
                held))

  -- Storing a batch in a store whose buffers are in display order with no id twice either publishes a
  -- patch, and then is, for the map from ids to messages, the change that `upserted_view` describes, or
  -- publishes none and leaves every map as it was, and then every record of the batch, normalised, has
  -- its id in the channel's map before the call, with the same network identifiers, pts, author, type,
  -- content, time, status, revocation and payload. The other channels' maps stay.
  pub upsert_messages-view :
      (s : MessageStore) (c : Text) (channel_type : ℕ) (records : List MessageRecord)
      (is_remote : Bool)
      → IsDisplayed s
      → (d : Text)
      → (view (upsert_messages parse s c channel_type records is_remote).0 d ≡ (
          if (c == d) && is_published (upsert_messages parse s c channel_type records is_remote).1
          then upserted_view (map (normalize_record parse) records) (view s c)
          else view s d))
        × ((is_published (upsert_messages parse s c channel_type records is_remote).1 ≡ true)
            ⊎ All (λ r. Shows (view s c r.id) r) (map (normalize_record parse) records))
  upsert_messages-view s c channel_type records is_remote shown d = (
    batch-view s c channel_type records is_remote shown d,
    batch-Shows s c channel_type records is_remote shown,
  )
