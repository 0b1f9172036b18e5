-- ===== src/Timeline/Sorted.antt =====
-- src/cache/message-store.ts: every buffer is in the display order of its channel's mode.
use privchat_sdk_typescript.Prelude.{
  ◌≡◌, refl, sym, ◌∙◌, ap, subst, Text, Option, none, some, true, false, List, [], arith, inl, inr,
  ◌⊎◌, Bool-cases, Option-cases, ◌==◌, text_eq, text_beq_iff, if◌then◌else◌, All, or_else,
}
use privchat_sdk_typescript.Table.{get}
use privchat_sdk_typescript.Maps.{IsDistinct, get-set}
use privchat_sdk_typescript.Sorting.{
  sort, IsSorted, sort-IsSorted, sort-IsDistinct, IsComparator, by_text-IsComparator,
}
use privchat_sdk_typescript.Cache.{MessageRecord, ChannelOrderMode, by_pts, by_server_id}
use privchat_sdk_typescript.Cache.Order.{display_sort_key, has_pts_gap}
use privchat_sdk_typescript.Cache.Order.Laws.{compare_display_order-text}
use privchat_sdk_typescript.Cache.Database.{same_mode}
use privchat_sdk_typescript.Timeline.{
  MessageStore, mode_key, buffer_key, messages_in, declared_mode, get_messages,
  get_channel_order_mode, cmp_in, cmp_for, set_buffer, set_mode, set_channel_order_mode,
  message_id_of,
}

abbrev pub HasNoGap : MessageRecord → Type 0
HasNoGap m = has_pts_gap m ≡ false

-- A channel's buffer under the mode declared for it: in display order, no id twice, and without a
-- declared mode no confirmed row lacks its pts.
pub record IsShown (declared : Option ChannelOrderMode) (messages : List MessageRecord)
    : Type 0 where
  pub sorted : IsSorted (cmp_in (or_else declared by_pts)) messages
  pub distinct : IsDistinct message_id_of messages
  pub complete : declared ≡ none → All HasNoGap messages

abbrev pub IsDisplayed : MessageStore → Type 0
IsDisplayed store = (c : Text) → IsShown (declared_mode store c) (get_messages store c)

pub cmp_in-IsComparator : (mode : ChannelOrderMode) → IsComparator (cmp_in mode)
cmp_in-IsComparator mode =
    by_text-IsComparator (cmp_in mode) (λ m. display_sort_key m mode)
      (λ a b. compare_display_order-text a b mode)

-- What the setters change.
pub get_messages-set_buffer :
    (s : MessageStore) (c d : Text) (ms : List MessageRecord)
    → get_messages (set_buffer s c ms) d ≡ (if c == d then ms else get_messages s d)
unfolding get_messages set_buffer
get_messages-set_buffer s c d ms =
    ground (arith, get-set buffer_key d (record { channel_id = c; messages = ms }) s.buffers)

pub declared_mode-set_buffer :
    (s : MessageStore) (c d : Text) (ms : List MessageRecord)
    → declared_mode (set_buffer s c ms) d ≡ declared_mode s d
unfolding declared_mode set_buffer
declared_mode-set_buffer s c d ms = refl

get_messages-set_mode :
    (s : MessageStore) (c d : Text) (mode : ChannelOrderMode)
    → get_messages (set_mode s c mode) d ≡ get_messages s d
unfolding get_messages set_mode
get_messages-set_mode s c d mode = refl

declared_mode-set_mode :
    (s : MessageStore) (c d : Text) (mode : ChannelOrderMode)
    → declared_mode (set_mode s c mode) d ≡ (if c == d then some mode else declared_mode s d)
unfolding declared_mode set_mode
declared_mode-set_mode s c d mode =
    ground (arith, get-set mode_key d (record { channel_id = c; mode = mode }) s.order_modes)

-- The buffer under a new mode.
abbrev pub resorted :
    Option ChannelOrderMode → ChannelOrderMode → List MessageRecord → List MessageRecord
resorted none mode ms = ms
resorted (some prev) mode ms = if same_mode prev mode then ms else sort (cmp_in mode) ms

cmp_for-set_mode :
    (s : MessageStore) (c : Text) (mode : ChannelOrderMode)
    → get_channel_order_mode (set_mode s c mode) c ≡ mode
unfolding get_channel_order_mode
cmp_for-set_mode s c mode = ground (arith, declared_mode-set_mode s c c mode, text_beq_iff c c)

pub declared_mode-set_channel_order_mode :
    (s : MessageStore) (c d : Text) (mode : ChannelOrderMode)
    → declared_mode (set_channel_order_mode s c mode) d
      ≡ (if c == d then some mode else declared_mode s d)
unfolding set_channel_order_mode
declared_mode-set_channel_order_mode s c d mode = elim (Option-cases (declared_mode s c)) [
  | inl undeclared ↦ rw (set_channel_order_mode, undeclared) (declared_mode-set_mode s c d mode)
  | inr (prev, declared) ↦ elim (Bool-cases (same_mode prev mode)) [
    | inl same ↦ rw (set_channel_order_mode, declared, same) (declared_mode-set_mode s c d mode)
    | inr other ↦ elim (Option-cases (get buffer_key c s.buffers)) [
      | inl empty ↦
          rw (set_channel_order_mode, declared, other, empty) (declared_mode-set_mode s c d mode)
      | inr (buf, held) ↦
          rw (set_channel_order_mode, declared, other, held)
            (declared_mode-set_buffer _ c d _ ∙ declared_mode-set_mode s c d mode)
    ]
  ]
]

get_messages_of :
    (s : MessageStore) (c d : Text)
    → (c == d) ≡ true
    → get_messages s d ≡ messages_in (get buffer_key c s.buffers)
unfolding get_messages
get_messages_of s c d e = cc ((text_beq_iff c d).0 e)

sort-absent :
    (mode : ChannelOrderMode) (ms : List MessageRecord) → ms ≡ [] → ms ≡ sort (cmp_in mode) ms
unfolding sort
sort-absent mode ms e = e ∙ sym (ap (sort (cmp_in mode)) e)

sort_under :
    (s : MessageStore) (c : Text) (mode : ChannelOrderMode) (ms ns : List MessageRecord)
    → ns ≡ ms
    → sort (cmp_for (set_mode s c mode) c) ms ≡ sort (cmp_in mode) ns
sort_under s c mode ms ns e = cc (cmp_for-set_mode s c mode, e)

pub get_messages-set_channel_order_mode :
    (s : MessageStore) (c d : Text) (mode : ChannelOrderMode)
    → get_messages (set_channel_order_mode s c mode) d
      ≡ (if c == d then resorted (declared_mode s c) mode (get_messages s d) else get_messages s d)
unfolding set_channel_order_mode
get_messages-set_channel_order_mode s c d mode = elim (Option-cases (declared_mode s c)) [
  | inl undeclared ↦
      rw (set_channel_order_mode, undeclared) (ground (arith, get_messages-set_mode s c d mode))
  | inr (prev, declared) ↦ elim (Bool-cases (same_mode prev mode)) [
    | inl same ↦
        rw (set_channel_order_mode, declared, same)
          (ground (arith, same, get_messages-set_mode s c d mode))
    | inr other ↦ elim (Option-cases (get buffer_key c s.buffers)) [
      | inl empty ↦
          rw (set_channel_order_mode, declared, other, empty)
            (elim (Bool-cases (c == d)) [
              | inl e ↦ rw e (
                  get_messages-set_mode s c d mode
                  ∙ sort-absent mode (get_messages s d)
                      (get_messages_of s c d e ∙ ap messages_in empty))
              | inr e ↦ rw e (get_messages-set_mode s c d mode)
            ])
      | inr (buf, held) ↦
          rw (set_channel_order_mode, declared, other, held)
            (get_messages-set_buffer _ c d _ ∙ elim (Bool-cases (c == d)) [
              | inl e ↦ rw e (
                  sort_under s c mode buf.messages (get_messages s d)
                    (get_messages_of s c d e ∙ ap messages_in held))
              | inr e ↦ rw e (get_messages-set_mode s c d mode)
            ])
    ]
  ]
]

same_mode-eq : (a b : ChannelOrderMode) → same_mode a b ≡ true → a ≡ b
same_mode-eq by_pts by_pts e = refl
same_mode-eq by_pts by_server_id e = cc
same_mode-eq by_server_id by_pts e = cc
same_mode-eq by_server_id by_server_id e = refl

pub resorted-IsShown :
    (prev : Option ChannelOrderMode) (mode : ChannelOrderMode) (ms : List MessageRecord)
    → IsShown prev ms
    → ((prev ≡ none) → (mode ≡ by_pts) ⊎ (ms ≡ []))
    → IsShown (some mode) (resorted prev mode ms)
resorted-IsShown none mode ms shown same = record {
  sorted = elim (same refl) [
    | inl e ↦ subst (λ m. IsSorted (cmp_in m) ms) (sym e) shown.sorted
    | inr e ↦ subst (IsSorted (cmp_in mode)) (sym e) tt
  ];
  distinct = shown.distinct;
  complete = λ e. cc;
}
resorted-IsShown (some prev) mode ms shown same = elim (Bool-cases (same_mode prev mode)) [
  | inl e ↦ rw e (record {
    sorted = subst (λ m. IsSorted (cmp_in m) ms) (same_mode-eq prev mode e) shown.sorted;
    distinct = shown.distinct;
    complete = λ e. cc;
  })
  | inr e ↦ rw e (record {
    sorted = sort-IsSorted (cmp_in mode) (cmp_in-IsComparator mode) ms;
    distinct = sort-IsDistinct (cmp_in mode) message_id_of ms shown.distinct;
    complete = λ e. cc;
  })
]

-- Declaring a mode keeps every buffer in display order, under two conditions: where no mode was declared
-- for the channel before, the new one is that of the pts, or the channel's buffer is empty.
pub set_channel_order_mode-IsDisplayed :
    (s : MessageStore) (c : Text) (mode : ChannelOrderMode)
    → IsDisplayed s
    → ((declared_mode s c ≡ none) → (mode ≡ by_pts) ⊎ (get_messages s c ≡ []))
    → IsDisplayed (set_channel_order_mode s c mode)
set_channel_order_mode-IsDisplayed s c mode shown same d = elim (Bool-cases (c == d)) [
  | inl e ↦
      let here = (text_beq_iff c d).0 e in
      rw (declared_mode-set_channel_order_mode, get_messages-set_channel_order_mode, e)
        (subst (λ k. IsShown (some mode) (resorted (declared_mode s c) mode (get_messages s k)))
          here (resorted-IsShown (declared_mode s c) mode (get_messages s c) (shown c) same))
  | inr e ↦
      rw (declared_mode-set_channel_order_mode, get_messages-set_channel_order_mode, e) (shown d)
]
