-- ===== src/Timeline/Displayed.antt =====
-- src/cache/message-store.ts: the operations keep every buffer in display order, with no id twice.
use privchat_sdk_typescript.Prelude.{
  ℕ, ◌≡◌, refl, sym, ◌∙◌, ap, subst, Text, Option, none, Bool, List, [], ◌∷◌, ◌++◌, inl, inr,
  text_eq, All, keep, map, List-cases, nat_eq, All-append,
}
use privchat_sdk_typescript.Table.{All-keep}
use privchat_sdk_typescript.Maps.{IsDistinct, keep-IsDistinct, set_all-IsDistinct, set_all}
use privchat_sdk_typescript.Sorting.{sort, sort-All, sort-All_inv}
use privchat_sdk_typescript.Cache.{MessageRecord}
use privchat_sdk_typescript.Cache.Order.{has_pts_gap, pending_group}
use privchat_sdk_typescript.Contents.{Json}
use privchat_sdk_typescript.Timeline.{
  MessageStore, Merged, declared_mode, get_messages, cmp_for, note_rows, message_id_of,
  absorb_duplicates, merge_by_key, merge_rows, normalize_record, replace_window, upsert_messages,
  replace_message, is_other, outside_window, store_window, store_merged, last_of,
}
use privchat_sdk_typescript.Timeline.Merging.{
  All-set_all, IsDistinct-last, others, merge_rows-IsDistinct, merge_rows-All, merge_rows-whole,
  absorb_duplicates-IsDistinct, absorb_duplicates-All,
}
use privchat_sdk_typescript.Timeline.Sorted.{HasNoGap, IsDisplayed}
use privchat_sdk_typescript.Timeline.Noted.{
  note_rows-IsDistinct, note_rows-undeclared, set_buffer-IsDisplayed, sorted-IsShown,
  note_rows-IsDisplayed, note_rows-messages, whole_after,
}

store_merged-IsDisplayed :
    (s : MessageStore) (c : Text) (rs : List MessageRecord) (channel_type : ℕ) (is_remote : Bool)
    (merged : Merged)
    → IsDisplayed s
    → (merged.upserted ≡ [] → (declared_mode s c ≡ none) → All HasNoGap rs)
    → IsDistinct message_id_of merged.rows
    → (declared_mode (note_rows s c rs) c ≡ none → All HasNoGap merged.rows)
    → IsDisplayed (store_merged (note_rows s c rs) c channel_type is_remote merged).0
unfolding store_merged
store_merged-IsDisplayed s c rs channel_type is_remote merged shown same apart whole =
    elim (List-cases merged.upserted) [
      | inl e ↦ rw (store_merged, e) (note_rows-IsDisplayed s c rs shown (same e))
      | inr (u, us, e) ↦
          rw (store_merged, e)
            (set_buffer-IsDisplayed s c rs _ shown
              (sorted-IsShown (note_rows s c rs) c merged.rows apart whole))
    ]

store_window-IsDisplayed :
    (s : MessageStore) (c : Text) (rs : List MessageRecord) (channel_type : ℕ) (is_remote : Bool)
    (window : List MessageRecord)
    → IsDisplayed s
    → (All HasNoGap window → All HasNoGap rs)
    → (All HasNoGap rs → All HasNoGap window)
    → IsDisplayed (store_window (note_rows s c rs) c channel_type is_remote window).0
unfolding store_window
store_window-IsDisplayed s c rs channel_type is_remote [] shown back forth =
    note_rows-IsDisplayed s c rs shown (λ _. back tt)
store_window-IsDisplayed s c rs channel_type is_remote (lo ∷ rest) shown back forth =
    set_buffer-IsDisplayed s c rs _ shown
      (unfold merge_by_key in (sorted-IsShown noted c _ apart whole))
  where
    noted : MessageStore
    noted = note_rows s c rs

    outside : List MessageRecord
    outside = keep (outside_window (cmp_for noted c) lo (last_of lo rest)) (get_messages noted c)

    rows : List MessageRecord
    rows =
        set_all message_id_of (lo ∷ rest)
          (set_all message_id_of (absorb_duplicates outside (lo ∷ rest)) [])

    apart : IsDistinct message_id_of rows
    apart =
        set_all-IsDistinct message_id_of (lo ∷ rest) _
          (set_all-IsDistinct message_id_of (absorb_duplicates outside (lo ∷ rest)) [] tt)

    whole : declared_mode noted c ≡ none → All HasNoGap rows
    whole h = All-set_all HasNoGap (lo ∷ rest) _ (forth (note_rows-undeclared s c rs h).1) (
        All-set_all HasNoGap (absorb_duplicates outside (lo ∷ rest)) []
          (absorb_duplicates-All HasNoGap outside (lo ∷ rest) (
            All-keep HasNoGap (outside_window (cmp_for noted c) lo (last_of lo rest))
              (get_messages noted c) (whole_after s c rs shown h)))
          tt)

module _ (parse : Text → Option Json) where
  has_pts_gap-normalize_record :
      (m : MessageRecord) → has_pts_gap (normalize_record parse m) ≡ has_pts_gap m
  unfolding has_pts_gap pending_group normalize_record
  has_pts_gap-normalize_record m = refl

  whole_normalized :
      (rs : List MessageRecord) → All HasNoGap rs → All HasNoGap (map (normalize_record parse) rs)
  whole_normalized [] a = tt
  whole_normalized (r ∷ rs) a = (has_pts_gap-normalize_record r ∙ a.0, whole_normalized rs a.1)

  whole_source :
      (rs : List MessageRecord) → All HasNoGap (map (normalize_record parse) rs) → All HasNoGap rs
  whole_source [] a = tt
  whole_source (r ∷ rs) a = (sym (has_pts_gap-normalize_record r) ∙ a.0, whole_source rs a.1)

  -- Replacing a message keeps every channel's buffer in display order, with no id twice.
  pub replace_message-IsDisplayed :
      (s : MessageStore) (c : Text) (channel_type : ℕ) (replaced : Text) (m : MessageRecord)
      (is_remote : Bool)
      → IsDisplayed s
      → IsDisplayed (replace_message parse s c channel_type replaced m is_remote).0
  unfolding replace_message
  replace_message-IsDisplayed s c channel_type replaced m is_remote shown =
      set_buffer-IsDisplayed s c (next ∷ []) _ shown (sorted-IsShown noted c _ apart whole)
    where
      next : MessageRecord
      next = normalize_record parse m

      noted : MessageStore
      noted = note_rows s c (next ∷ [])

      filtered : List MessageRecord
      filtered = keep (is_other replaced next) (get_messages s c)

      apart : IsDistinct message_id_of (filtered ++ next ∷ [])
      apart =
          IsDistinct-last next filtered
            (keep-IsDistinct message_id_of (is_other replaced next) (get_messages s c)
              (shown c).distinct)
            (others replaced next (get_messages s c))

      whole : declared_mode noted c ≡ none → All HasNoGap (filtered ++ next ∷ [])
      whole h =
          let (kept, fresh) = note_rows-undeclared s c (next ∷ []) h in
          All-append HasNoGap filtered (next ∷ [])
            (All-keep HasNoGap (is_other replaced next) (get_messages s c)
              ((shown c).complete (sym (ap (λ t. declared_mode t c) kept) ∙ h)))
            fresh

  -- Storing a batch keeps every channel's buffer in display order, with no id twice.
  pub upsert_messages-IsDisplayed :
      (s : MessageStore) (c : Text) (channel_type : ℕ) (records : List MessageRecord)
      (is_remote : Bool)
      → IsDisplayed s
      → IsDisplayed (upsert_messages parse s c channel_type records is_remote).0
  unfolding upsert_messages
  upsert_messages-IsDisplayed s c channel_type [] is_remote shown = shown
  upsert_messages-IsDisplayed s c channel_type (m ∷ ms) is_remote shown =
      store_merged-IsDisplayed s c (m ∷ ms) channel_type is_remote (merge_rows existing incoming)
        shown same (merge_rows-IsDistinct incoming existing apart) whole
    where
      noted : MessageStore
      noted = note_rows s c (m ∷ ms)

      incoming : List MessageRecord
      incoming = map (normalize_record parse) (m ∷ ms)

      existing : List MessageRecord
      existing = absorb_duplicates (get_messages noted c) incoming

      apart : IsDistinct message_id_of existing
      apart =
          absorb_duplicates-IsDistinct (get_messages noted c) incoming
            (note_rows-IsDistinct s c (m ∷ ms) (shown c).distinct)

      whole : declared_mode noted c ≡ none → All HasNoGap (merge_rows existing incoming).rows
      whole h =
          merge_rows-All HasNoGap incoming existing
            (whole_normalized (m ∷ ms) (note_rows-undeclared s c (m ∷ ms) h).1)
            (absorb_duplicates-All HasNoGap (get_messages noted c) incoming
              (whole_after s c (m ∷ ms) shown h))

      same :
          (merge_rows existing incoming).upserted ≡ []
          → declared_mode s c ≡ none
          → All HasNoGap (m ∷ ms)
      same e h = whole_source (m ∷ ms) (
          merge_rows-whole incoming existing
            (absorb_duplicates-All HasNoGap (get_messages noted c) incoming (
              subst (All HasNoGap) (sym (note_rows-messages s c (m ∷ ms) h))
                ((shown c).complete h)))
            e)

  -- Replacing a window keeps every channel's buffer in display order, with no id twice.
  pub replace_window-IsDisplayed :
      (s : MessageStore) (c : Text) (channel_type : ℕ) (records : List MessageRecord)
      (is_remote : Bool)
      → IsDisplayed s
      → IsDisplayed (replace_window parse s c channel_type records is_remote).0
  unfolding replace_window
  replace_window-IsDisplayed s c channel_type records is_remote shown =
      store_window-IsDisplayed s c incoming channel_type is_remote
        (sort (cmp_for (note_rows s c incoming) c) incoming) shown
        (sort-All_inv (cmp_for (note_rows s c incoming) c) HasNoGap incoming)
        (sort-All (cmp_for (note_rows s c incoming) c) HasNoGap incoming)
    where
      incoming : List MessageRecord
      incoming = map (normalize_record parse) records
