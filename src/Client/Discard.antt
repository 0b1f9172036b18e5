-- ===== src/Client/Discard.antt =====
-- src/client.ts: `discardOutboxEntry`, the user drops a message that is not sent.
use privchat_sdk_typescript.Prelude.{
  ℕ, ◌≤◌, ◌≡◌, ◌≢◌, ◌⊎◌, refl, sym, ◌∙◌, ap, Text, none, some, Bool, true, false, not, List, [],
  ◌∷◌, arith, ◌==◌, nat_eq, text_eq, text_beq_iff, inl, inr, Bool-cases, Option-cases,
  if◌then◌else◌, Result, ok, err, keep, length,
}
use privchat_sdk_typescript.Table.{get, get-delete}
use privchat_sdk_typescript.Cache.{MessageRecord, OutboxEntry}
use privchat_sdk_typescript.Cache.OutboxTable.{outbox_key, get_outbox_entry, delete_outbox_entry}
use privchat_sdk_typescript.Cache.Database.{CacheDb, delete_message_by_id, get_message, message_key}
use privchat_sdk_typescript.Client.{
  OutboxCallError, cache_disabled, outbox_row_not_found, storage_failed, CallFaults, guarded,
}
use privchat_sdk_typescript.Outbox.{World, event, emit, discarded}
use privchat_sdk_typescript.Timeline.{MessageStore, remove_message, get_messages, message_id_of}
use privchat_sdk_typescript.Timeline.Sorted.{get_messages-set_buffer}
use privchat_sdk_typescript.Timeline.Views.{view}

-- The world without the row and its message. `deletes` says that the message's deletion from the
-- database, for which nobody waits, succeeds.
abbrev pub discarded_world : Bool → World MessageStore → Text → OutboxEntry → World MessageStore
discarded_world deletes w outbox_id entry =
    emit
      (record w {
        outbox = delete_outbox_entry w.outbox outbox_id;
        memory = (remove_message w.memory entry.channel_id entry.channel_type entry.message_id).0;
        cache = if deletes then delete_message_by_id w.cache entry.message_id else w.cache;
      })
      (event entry discarded none none)

-- `cached` says that the cache and the outbox are there.
unfoldable pub discard_outbox_entry :
    Bool
    → Bool
    → CallFaults
    → World MessageStore
    → Text
    → Result OutboxCallError (World MessageStore)
unfolding guarded
discard_outbox_entry cached deletes faults w outbox_id =
    if cached
    then guarded faults.read (elim (get_outbox_entry w.outbox outbox_id) [
      | none ↦ err outbox_row_not_found
      | some entry ↦ guarded faults.write (ok (discarded_world deletes w outbox_id entry))
    ])
    else err cache_disabled

get-removed :
    (k : Text) (ms : List MessageRecord)
    → get message_id_of k (keep (λ m. not (m.id == k)) ms) ≡ none
unfolding get
get-removed k [] = refl
get-removed k (m ∷ ms) = ground (arith, get-removed k ms)

length-keep : (p : MessageRecord → Bool) (ms : List MessageRecord) → length (keep p ms) ≤ length ms
length-keep p [] = omega arith
length-keep p (m ∷ ms) = ground (arith, length-keep p ms)

-- A filter that takes nothing out.
keep_all :
    (p : MessageRecord → Bool) (ms : List MessageRecord)
    → length (keep p ms) ≡ length ms
    → keep p ms ≡ ms
keep_all p [] e = refl
keep_all p (m ∷ ms) e = elim (Bool-cases (p m)) [
  | inl kept ↦ rw kept (ap (λ rest. m ∷ rest) (keep_all p ms (ground arith)))
  | inr gone ↦ absurd (ground (arith, length-keep p ms))
]

view-remove_message :
    (s : MessageStore) (c : Text) (channel_type : ℕ) (k : Text)
    → view (remove_message s c channel_type k).0 c k ≡ none
unfolding remove_message
view-remove_message s c channel_type k =
    elim (Bool-cases
      (length (keep (λ m. not (m.id == k)) (get_messages s c)) == length (get_messages s c))) [
        | inl same ↦
            rw (remove_message, same)
              (sym (
                  ap (get message_id_of k)
                    (keep_all (λ m. not (m.id == k)) (get_messages s c) (ground arith)))
                ∙ get-removed k (get_messages s c))
        | inr fewer ↦
            rw (remove_message, fewer, get_messages-set_buffer, (text_beq_iff c c).1 refl)
              (get-removed k (get_messages s c))
      ]

-- The message is gone: from the outbox, where the other rows stay, from the memory, and from the
-- database where its deletion succeeds. The observers are told, and nothing is sent.
pub record IsDiscarded (deletes : Bool) (w w' : World MessageStore) (outbox_id : Text)
    (entry : OutboxEntry) : Type 0 where
  pub rows :
      (j : Text)
      → get_outbox_entry w'.outbox j
        ≡ (if outbox_id == j then none else get_outbox_entry w.outbox j)
  pub hidden : view w'.memory entry.channel_id entry.message_id ≡ none
  pub erased :
      get_message w'.cache entry.message_id
      ≡ (if deletes then none else get_message w.cache entry.message_id)
  pub told : w'.events ≡ event entry discarded none none ∷ w.events
  pub unsent : w'.wire ≡ w.wire

-- What each outcome of the call means; after an error nothing has changed.
abbrev pub Settles :
    Bool
    → Bool
    → CallFaults
    → World MessageStore
    → Text
    → Result OutboxCallError (World MessageStore)
    → Type 0
Settles cached deletes faults w outbox_id (err cache_disabled) = cached ≡ false
Settles cached deletes faults w outbox_id (err outbox_row_not_found) =
    (cached ≡ true) × ((faults.read ≡ none) × (get_outbox_entry w.outbox outbox_id ≡ none))
Settles cached deletes faults w outbox_id (err (storage_failed e)) =
    (cached ≡ true)
    × ((faults.read ≡ some e)
        ⊎ ((faults.read ≡ none)
            × ((faults.write ≡ some e) × (get_outbox_entry w.outbox outbox_id ≢ none))))
Settles cached deletes faults w outbox_id (ok w') =
    (cached ≡ true)
    × ((faults.read ≡ none) × (faults.write ≡ none))
    × (entry : OutboxEntry) × (get_outbox_entry w.outbox outbox_id ≡ some entry)
    × IsDiscarded deletes w w' outbox_id entry

erased_message :
    (deletes : Bool) (db : CacheDb) (id : Text)
    → get_message (if deletes then delete_message_by_id db id else db) id
      ≡ (if deletes then none else get_message db id)
erased_message true db id =
    get-delete message_key id id db.messages ∙ rw ((text_beq_iff id id).1 refl) refl
erased_message false db id = refl

-- The call fails for exactly three reasons: the cache is not there, the outbox has no such row, or the
-- storage fails at the reading of the row or at its deletion. In every other case the row is gone from
-- the outbox and all others stay, the message is gone from the memory, and from the database if its
-- deletion there succeeds, one event says so, and nothing is sent.
pub discard_outbox_entry-Settles :
    (cached deletes : Bool) (faults : CallFaults) (w : World MessageStore) (outbox_id : Text)
    → Settles cached deletes faults w outbox_id
        (discard_outbox_entry cached deletes faults w outbox_id)
unfolding discard_outbox_entry guarded
discard_outbox_entry-Settles false deletes faults w outbox_id = refl
discard_outbox_entry-Settles true deletes faults w outbox_id = elim (Option-cases faults.read) [
  | inr (e, unread) ↦ rw (discard_outbox_entry, unread) (refl, inl refl)
  | inl read ↦ elim (Option-cases (get_outbox_entry w.outbox outbox_id)) [
    | inl missing ↦ rw (discard_outbox_entry, read, missing) (refl, (refl, missing))
    | inr (entry, found) ↦ elim (Option-cases faults.write) [
      | inr (e, unwritten) ↦
          rw (discard_outbox_entry, read, found, unwritten)
            (refl, inr (refl, (refl, λ gone. ground (arith, gone, found))))
      | inl written ↦
          rw (discard_outbox_entry, read, found, written)
            (refl, (refl, refl), entry, found, discarded_from entry)
    ]
  ]
]
  where
    deleted :
        (j : Text)
        → get_outbox_entry (delete_outbox_entry w.outbox outbox_id) j
          ≡ (if outbox_id == j then none else get_outbox_entry w.outbox j)
    deleted j = get-delete outbox_key j outbox_id w.outbox

    discarded_from :
        (entry : OutboxEntry)
        → IsDiscarded deletes w (discarded_world deletes w outbox_id entry) outbox_id entry
    discarded_from entry = record {
      rows = deleted;
      hidden = view-remove_message w.memory entry.channel_id entry.channel_type entry.message_id;
      erased = erased_message deletes w.cache entry.message_id;
      told = refl;
      unsent = refl;
    }
