-- ===== src/Timeline/Noted.antt =====
-- src/cache/message-store.ts: what noting rows and setting a buffer do to the order of a channel.
use privchat_sdk_typescript.Prelude.{
  ◌≡◌, refl, subst, Text, Option, none, some, true, false, List, [], ◌∷◌, arith, inl, inr, ◌⊎◌,
  Bool-cases, ◌==◌, text_eq, text_beq_iff, All, some_by, or_else, nat_eq,
}
use privchat_sdk_typescript.Maps.{IsDistinct}
use privchat_sdk_typescript.Sorting.{sort, sort-IsSorted, sort-IsDistinct, sort-All}
use privchat_sdk_typescript.Cache.{MessageRecord, ChannelOrderMode, by_pts, by_server_id}
use privchat_sdk_typescript.Cache.Order.{has_pts_gap}
use privchat_sdk_typescript.Cache.Database.{same_mode}
use privchat_sdk_typescript.Timeline.{
  MessageStore, declared_mode, get_messages, get_channel_order_mode, cmp_in, cmp_for, set_buffer,
  set_channel_order_mode, note_rows, message_id_of,
}
use privchat_sdk_typescript.Timeline.Sorted.{
  HasNoGap, IsShown, IsDisplayed, cmp_in-IsComparator, get_messages-set_buffer,
  declared_mode-set_buffer, declared_mode-set_channel_order_mode,
  get_messages-set_channel_order_mode, resorted, resorted-IsShown,
}

All-no_gap : (rs : List MessageRecord) → some_by has_pts_gap rs ≡ false → All HasNoGap rs
All-no_gap [] h = tt
All-no_gap (r ∷ rs) h = ground (arith, All-no_gap rs)

some_no_gap : (rs : List MessageRecord) → All HasNoGap rs → some_by has_pts_gap rs ≡ false
some_no_gap [] a = refl
some_no_gap (r ∷ rs) a = ground (arith, some_no_gap rs a.1)

pub note_rows-cases :
    (s : MessageStore) (c : Text) (rs : List MessageRecord)
    → ((note_rows s c rs ≡ s) × ((declared_mode s c ≡ none) → All HasNoGap rs))
      ⊎ ((note_rows s c rs ≡ set_channel_order_mode s c by_server_id)
          × (some_by has_pts_gap rs ≡ true))
unfolding note_rows get_channel_order_mode
note_rows-cases s c rs =
    elim (Bool-cases (same_mode (or_else (declared_mode s c) by_pts) by_server_id)) [
      | inl degraded ↦ inl (rw (note_rows, degraded) refl, λ e. absurd (ground arith))
      | inr by ↦ elim (Bool-cases (some_by has_pts_gap rs)) [
        | inl gap ↦ inr (rw (note_rows, by, gap) refl, gap)
        | inr whole ↦ inl (rw (note_rows, by, whole) refl, λ e. All-no_gap rs whole)
      ]
    ]

pub note_rows-undeclared :
    (s : MessageStore) (c : Text) (rs : List MessageRecord)
    → declared_mode (note_rows s c rs) c ≡ none
    → (note_rows s c rs ≡ s) × All HasNoGap rs
note_rows-undeclared s c rs h = elim (note_rows-cases s c rs) [
  | inl (kept, whole) ↦ (kept, whole (cc))
  | inr (changed, gap) ↦ absurd (
      ground
        (arith, changed, declared_mode-set_channel_order_mode s c c by_server_id, text_beq_iff c c))
]

note_rows-other :
    (s : MessageStore) (c d : Text) (rs : List MessageRecord)
    → (c == d) ≡ false
    → IsShown (declared_mode s d) (get_messages s d)
    → IsShown (declared_mode (note_rows s c rs) d) (get_messages (note_rows s c rs) d)
note_rows-other s c d rs e shown = elim (note_rows-cases s c rs) [
  | inl (kept, whole) ↦ rw kept shown
  | inr (changed, gap) ↦
      rw (changed, declared_mode-set_channel_order_mode, get_messages-set_channel_order_mode, e)
        shown
]

note_rows-IsShown :
    (s : MessageStore) (c : Text) (rs : List MessageRecord)
    → IsShown (declared_mode s c) (get_messages s c)
    → ((declared_mode s c ≡ none) → All HasNoGap rs)
    → IsShown (declared_mode (note_rows s c rs) c) (get_messages (note_rows s c rs) c)
note_rows-IsShown s c rs shown whole = elim (note_rows-cases s c rs) [
  | inl (kept, _) ↦ rw kept shown
  | inr (changed, gap) ↦
      rw
        (
          changed,
          declared_mode-set_channel_order_mode,
          get_messages-set_channel_order_mode,
          (text_beq_iff c c).1 refl,
        )
        (resorted-IsShown (declared_mode s c) by_server_id (get_messages s c) shown
          (λ e. absurd (ground (arith, some_no_gap rs (whole e)))))
]

pub note_rows-IsDistinct :
    (s : MessageStore) (c : Text) (rs : List MessageRecord)
    → IsDistinct message_id_of (get_messages s c)
    → IsDistinct message_id_of (get_messages (note_rows s c rs) c)
note_rows-IsDistinct s c rs d = elim (note_rows-cases s c rs) [
  | inl (kept, whole) ↦ rw kept d
  | inr (changed, gap) ↦
      rw (changed, get_messages-set_channel_order_mode, (text_beq_iff c c).1 refl)
        (resorted-distinct (declared_mode s c))
]
  where
    resorted-distinct :
        (prev : Option ChannelOrderMode)
        → IsDistinct message_id_of (resorted prev by_server_id (get_messages s c))
    resorted-distinct none = d
    resorted-distinct (some prev) =
        ground (arith, d, sort-IsDistinct (cmp_in by_server_id) message_id_of (get_messages s c) d)

-- A new buffer for one channel, the others as they are.
pub set_buffer-IsDisplayed :
    (s : MessageStore) (c : Text) (rs ms : List MessageRecord)
    → IsDisplayed s
    → IsShown (declared_mode (note_rows s c rs) c) ms
    → IsDisplayed (set_buffer (note_rows s c rs) c ms)
set_buffer-IsDisplayed s c rs ms shown new d = elim (Bool-cases (c == d)) [
  | inl e ↦
      rw (declared_mode-set_buffer, get_messages-set_buffer, e)
        (subst (λ k. IsShown (declared_mode (note_rows s c rs) k) ms) ((text_beq_iff c d).0 e) new)
  | inr e ↦
      rw (declared_mode-set_buffer, get_messages-set_buffer, e)
        (note_rows-other s c d rs e (shown d))
]

pub sorted-IsShown :
    (s : MessageStore) (c : Text) (ms : List MessageRecord)
    → IsDistinct message_id_of ms
    → ((declared_mode s c ≡ none) → All HasNoGap ms)
    → IsShown (declared_mode s c) (sort (cmp_for s c) ms)
unfolding get_channel_order_mode
sorted-IsShown s c ms d whole = record {
  sorted = sort-IsSorted _ (cmp_in-IsComparator (or_else (declared_mode s c) by_pts)) ms;
  distinct = sort-IsDistinct _ message_id_of ms d;
  complete = λ e. sort-All _ HasNoGap ms (whole e);
}

pub note_rows-IsDisplayed :
    (s : MessageStore) (c : Text) (rs : List MessageRecord)
    → IsDisplayed s
    → ((declared_mode s c ≡ none) → All HasNoGap rs)
    → IsDisplayed (note_rows s c rs)
note_rows-IsDisplayed s c rs shown whole d = elim (Bool-cases (c == d)) [
  | inl e ↦
      subst (λ k. IsShown (declared_mode (note_rows s c rs) k) (get_messages (note_rows s c rs) k))
        ((text_beq_iff c d).0 e) (note_rows-IsShown s c rs (shown c) whole)
  | inr e ↦ note_rows-other s c d rs e (shown d)
]

pub note_rows-messages :
    (s : MessageStore) (c : Text) (rs : List MessageRecord)
    → declared_mode s c ≡ none
    → get_messages (note_rows s c rs) c ≡ get_messages s c
note_rows-messages s c rs h = elim (note_rows-cases s c rs) [
  | inl (kept, whole) ↦ rw kept refl
  | inr (changed, gap) ↦
      rw (changed, get_messages-set_channel_order_mode, (text_beq_iff c c).1 refl, h) refl
]

-- After the rows are noted a channel without a declared mode is as before, and has no gap.
pub whole_after :
    (s : MessageStore) (c : Text) (rs : List MessageRecord)
    → IsDisplayed s
    → declared_mode (note_rows s c rs) c ≡ none
    → All HasNoGap (get_messages (note_rows s c rs) c)
whole_after s c rs shown h =
    let (kept, whole) = note_rows-undeclared s c rs h in rw kept ((shown c).complete (cc))
