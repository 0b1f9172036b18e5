-- ===== src/Timeline/Reach.antt =====
-- src/cache/message-store.ts: the store as a state machine, one step per call that changes it.
use privchat_sdk_typescript.Prelude.{
  ℕ, ◌≡◌, ◌≢◌, subst, Text, Option, none, Bool, true, false, List, [], inl, inr, ◌⊎◌, Bool-cases,
  List-cases, ◌==◌, text_eq, nat_eq, text_beq_iff, if◌then◌else◌, keep, not, or_else, length,
}
use privchat_sdk_typescript.Table
use privchat_sdk_typescript.Table.{get, get-delete, All-keep}
use privchat_sdk_typescript.Maps.{keep-IsDistinct}
use privchat_sdk_typescript.Sorting.{keep-IsSorted}
use privchat_sdk_typescript.Cache.{MessageRecord, ChannelRecord, ChannelOrderMode, by_pts}
use privchat_sdk_typescript.Contents.{Json}
use privchat_sdk_typescript.Timeline.{
  MessageStore, buffer_key, messages_in, declared_mode, get_messages, cmp_in, set_buffer,
  set_channel_order_mode, message_id_of, replace_window, upsert_messages, replace_message,
  remove_message, clear_buffer, clear, upsert_channel, upsert_channels,
}
use privchat_sdk_typescript.Timeline.Sorted.{
  HasNoGap, IsShown, IsDisplayed, get_messages-set_buffer, declared_mode-set_buffer,
  set_channel_order_mode-IsDisplayed,
}
use privchat_sdk_typescript.Timeline.Displayed.{
  replace_message-IsDisplayed, upsert_messages-IsDisplayed, replace_window-IsDisplayed,
}

abbrev pub new_store : MessageStore
new_store = record { order_modes = []; channels = []; buffers = [] }

-- The mode of a channel is declared before its buffer holds rows, or is that of the pts.
abbrev pub IsTimely : MessageStore → Text → ChannelOrderMode → Type 0
IsTimely s c mode = (declared_mode s c ≢ none) ⊎ ((mode ≡ by_pts) ⊎ (get_messages s c ≡ []))

module _ (parse : Text → Option Json) where
  -- The calls of the store that change it.
  pub data Step : MessageStore → MessageStore → Type 0 where
    window :
        {s : MessageStore} (c : Text) (channel_type : ℕ) (records : List MessageRecord)
        (is_remote : Bool)
        → Step s (replace_window parse s c channel_type records is_remote).0
    upsert :
        {s : MessageStore} (c : Text) (channel_type : ℕ) (records : List MessageRecord)
        (is_remote : Bool)
        → Step s (upsert_messages parse s c channel_type records is_remote).0
    replace :
        {s : MessageStore} (c : Text) (channel_type : ℕ) (replaced : Text) (m : MessageRecord)
        (is_remote : Bool)
        → Step s (replace_message parse s c channel_type replaced m is_remote).0
    remove :
        {s : MessageStore} (c : Text) (channel_type : ℕ) (message_id : Text)
        → Step s (remove_message s c channel_type message_id).0
    drop :
        {s : MessageStore} (c : Text) (channel_type : ℕ) → Step s (clear_buffer s c channel_type).0
    wipe : {s : MessageStore} → Step s (clear s)
    channel : {s : MessageStore} (r : ChannelRecord) → Step s (upsert_channel s r)
    channels : {s : MessageStore} (rs : List ChannelRecord) → Step s (upsert_channels s rs)
    declare :
        {s : MessageStore} (c : Text) (mode : ChannelOrderMode)
        → IsTimely s c mode
        → Step s (set_channel_order_mode s c mode)

  -- A store that calls have led to, from the empty one.
  pub data Reach : MessageStore → Type 0 where
    start : Reach new_store
    later : {s t : MessageStore} → Reach s → Step s t → Reach t

new_store-IsDisplayed : IsDisplayed new_store
unfolding declared_mode get_messages get
new_store-IsDisplayed c = record { sorted = tt; distinct = tt; complete = λ e. tt }

empty-IsShown : (declared : Option ChannelOrderMode) → IsShown declared []
empty-IsShown declared = record { sorted = tt; distinct = tt; complete = λ e. tt }

keep-IsShown :
    (declared : Option ChannelOrderMode) (p : MessageRecord → Bool) (ms : List MessageRecord)
    → IsShown declared ms
    → IsShown declared (keep p ms)
keep-IsShown declared p ms shown = record {
  sorted = keep-IsSorted (cmp_in (or_else declared by_pts)) p ms shown.sorted;
  distinct = keep-IsDistinct message_id_of p ms shown.distinct;
  complete = λ e. All-keep HasNoGap p ms (shown.complete e);
}

rewritten-IsDisplayed :
    (s : MessageStore) (c : Text) (ms : List MessageRecord)
    → IsDisplayed s
    → IsShown (declared_mode s c) ms
    → IsDisplayed (set_buffer s c ms)
rewritten-IsDisplayed s c ms shown new d = elim (Bool-cases (c == d)) [
  | inl e ↦
      rw (declared_mode-set_buffer, get_messages-set_buffer, e)
        (subst (λ k. IsShown (declared_mode s k) ms) ((text_beq_iff c d).0 e) new)
  | inr e ↦ rw (declared_mode-set_buffer, get_messages-set_buffer, e) (shown d)
]

remove_message-IsDisplayed :
    (s : MessageStore) (c : Text) (channel_type : ℕ) (message_id : Text)
    → IsDisplayed s
    → IsDisplayed (remove_message s c channel_type message_id).0
unfolding remove_message
remove_message-IsDisplayed s c channel_type message_id shown =
    elim (Bool-cases (length next == length (get_messages s c))) [
      | inl e ↦ rw (remove_message, e) shown
      | inr e ↦
          rw (remove_message, e)
            (rewritten-IsDisplayed s c next shown (keep-IsShown (declared_mode s c) _ _ (shown c)))
    ]
  where
    next : List MessageRecord
    next = keep (λ m. not (m.id == message_id)) (get_messages s c)

clear_buffer-IsDisplayed :
    (s : MessageStore) (c : Text) (channel_type : ℕ)
    → IsDisplayed s
    → IsDisplayed (clear_buffer s c channel_type).0
unfolding clear_buffer get_messages declared_mode
clear_buffer-IsDisplayed s c channel_type shown = elim (List-cases (get_messages s c)) [
  | inl e ↦ rw (clear_buffer, e) shown
  | inr (m, ms, e) ↦ rw (clear_buffer, e) (λ d. dropped d)
]
  where
    kept_or_empty :
        (b : Bool) (d : Text)
        → IsShown (declared_mode s d) (messages_in (if b then none else get buffer_key d s.buffers))
    kept_or_empty true d = empty-IsShown (declared_mode s d)
    kept_or_empty false d = shown d

    dropped :
        (d : Text)
        → IsShown
            (declared_mode (record s { buffers = Table.delete buffer_key c s.buffers }) d)
            (get_messages (record s { buffers = Table.delete buffer_key c s.buffers }) d)
    dropped d = rw (get-delete buffer_key d c s.buffers) (kept_or_empty (c == d) d)

clear-IsDisplayed : (s : MessageStore) → IsDisplayed s → IsDisplayed (clear s)
unfolding clear declared_mode get_messages get
clear-IsDisplayed s shown d = empty-IsShown (declared_mode s d)

module _ (parse : Text → Option Json) where
  Step-IsDisplayed : {s t : MessageStore} → Step parse s t → IsDisplayed s → IsDisplayed t
  Step-IsDisplayed {s} (window c channel_type records is_remote) shown =
      replace_window-IsDisplayed parse s c channel_type records is_remote shown
  Step-IsDisplayed {s} (upsert c channel_type records is_remote) shown =
      upsert_messages-IsDisplayed parse s c channel_type records is_remote shown
  Step-IsDisplayed {s} (replace c channel_type replaced m is_remote) shown =
      replace_message-IsDisplayed parse s c channel_type replaced m is_remote shown
  Step-IsDisplayed {s} (remove c channel_type message_id) shown =
      remove_message-IsDisplayed s c channel_type message_id shown
  Step-IsDisplayed {s} (drop c channel_type) shown = clear_buffer-IsDisplayed s c channel_type shown
  Step-IsDisplayed {s} wipe shown = clear-IsDisplayed s shown
  Step-IsDisplayed {s} (channel r) shown = unfold upsert_channel declared_mode get_messages in shown
  Step-IsDisplayed {s} (channels rs) shown =
      unfold upsert_channels declared_mode get_messages in shown
  Step-IsDisplayed {s} (declare c mode (inl declared)) shown =
      set_channel_order_mode-IsDisplayed s c mode shown (λ e. absurd (declared e))
  Step-IsDisplayed {s} (declare c mode (inr timely)) shown =
      set_channel_order_mode-IsDisplayed s c mode shown (λ e. timely)

  -- In every store that calls lead to from the empty one, every buffer is in the display order of its
  -- channel's mode and has no id twice. The calls are all that change the store, in any order, where a
  -- channel that has rows but no declared mode is not declared to be in another mode than that of the pts.
  pub Reach-IsDisplayed : {s : MessageStore} → Reach parse s → IsDisplayed s
  Reach-IsDisplayed start = new_store-IsDisplayed
  Reach-IsDisplayed (later r st) = Step-IsDisplayed st (Reach-IsDisplayed r)
