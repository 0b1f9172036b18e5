-- ===== src/Timeline/Views/Replaced.antt =====
-- src/cache/message-store.ts: `replaceMessage` on the map from ids to messages.
use mathlib.Core.Path.{fun_ext}
use privchat_sdk_typescript.Prelude.{
  ℕ, ◌≡◌, ◌≢◌, refl, ◌∙◌, ap, Text, Option, some, Bool, List, [], ◌∷◌, ◌++◌, arith, inl, inr,
  Bool-cases, ◌==◌, text_eq, text_beq_iff, if◌then◌else◌, All, keep, not,
}
use privchat_sdk_typescript.Table.{get}
use privchat_sdk_typescript.Maps.{IsDistinct, get-keep, kept, keep-IsDistinct}
use privchat_sdk_typescript.Sorting.{sort, get-sort}
use privchat_sdk_typescript.Cache.{MessageRecord}
use privchat_sdk_typescript.Contents.{Json}
use privchat_sdk_typescript.Timeline.{
  MessageStore, get_messages, cmp_for, note_rows, message_id_of, normalize_record, replace_message,
  is_other,
}
use privchat_sdk_typescript.Timeline.Merging.{IsDistinct-last, others}
use privchat_sdk_typescript.Timeline.Sorted.{IsDisplayed, get_messages-set_buffer}
use privchat_sdk_typescript.Timeline.Views.{
  view, makes_way, replaced_view, same_message-are_one, view-note_rows,
}

is_other-makes_way :
    (replaced : Text) (next m : MessageRecord)
    → is_other replaced next m ≡ not (makes_way replaced next m)
unfolding is_other
is_other-makes_way replaced next m = ground (arith, same_message-are_one next m)

get-last :
    (next : MessageRecord) (ms : List MessageRecord) (k : Text)
    → All (λ m. m.id ≢ next.id) ms
    → get message_id_of k (ms ++ next ∷ [])
      ≡ (if next.id == k then some next else get message_id_of k ms)
unfolding get
get-last next [] k a = refl
get-last next (m ∷ ms) k a =
    ground (arith, get-last next ms k a.1, text_beq_iff m.id k, text_beq_iff next.id k)

replaced_at :
    (replaced : Text) (next : MessageRecord) (k : Text) (rows : List MessageRecord)
    → IsDistinct message_id_of rows
    → get message_id_of k (keep (is_other replaced next) rows)
      ≡ kept (λ m. not (makes_way replaced next m)) (get message_id_of k rows)
replaced_at replaced next k rows d =
    get-keep message_id_of (is_other replaced next) k rows d
    ∙ ap (λ p. kept p (get message_id_of k rows)) (fun_ext (is_other-makes_way replaced next))

module _ (parse : Text → Option Json) where
  -- Replacing a message in a store whose buffers are in display order with no id twice is, for the map
  -- from ids to messages, the change that `replaced_view` describes; the other channels' maps stay.
  pub replace_message-view :
      (s : MessageStore) (c : Text) (channel_type : ℕ) (replaced : Text) (m : MessageRecord)
      (is_remote : Bool)
      → IsDisplayed s
      → (d : Text)
      → view (replace_message parse s c channel_type replaced m is_remote).0 d ≡ (
          if c == d then replaced_view replaced (normalize_record parse m) (view s d) else view s d)
  unfolding replace_message
  replace_message-view s c channel_type replaced m is_remote shown d = fun_ext λ k. at k
    where
      next : MessageRecord
      next = normalize_record parse m

      noted : MessageStore
      noted = note_rows s c (next ∷ [])

      filtered : List MessageRecord
      filtered = keep (is_other replaced next) (get_messages s c)

      apart : IsDistinct message_id_of (filtered ++ next ∷ [])
      apart =
          IsDistinct-last next filtered
            (keep-IsDistinct message_id_of (is_other replaced next) (get_messages s c)
              (shown c).distinct)
            (others replaced next (get_messages s c))

      written :
          (k : Text)
          → get message_id_of k (sort (cmp_for noted c) (filtered ++ next ∷ []))
            ≡ replaced_view replaced next (view s c) k
      written k =
          get-sort (cmp_for noted c) message_id_of k (filtered ++ next ∷ []) apart
          ∙ get-last next filtered k (others replaced next (get_messages s c))
          ∙ ap (λ o. if next.id == k then some next else o)
              (replaced_at replaced next k (get_messages s c) (shown c).distinct)

      at :
          (k : Text)
          → view (replace_message parse s c channel_type replaced m is_remote).0 d k
            ≡ (if c == d then replaced_view replaced next (view s d) else view s d) k
      at k = elim (Bool-cases (c == d)) [
        | inl e ↦
            rw (get_messages-set_buffer, e)
              (written k
                ∙ ap (λ j. replaced_view replaced next (view s j) k) ((text_beq_iff c d).0 e))
        | inr e ↦
            rw (get_messages-set_buffer, e) (view-note_rows s c d (next ∷ []) k (shown d).distinct)
      ]
