-- ===== src/Sync/Page.antt =====
-- src/sync-engine.ts: `mergeCommits` as one transaction and what it publishes, the bookkeeping of an
-- empty page, and the recovery that the server demands. A write that the source lets fail in silence
-- succeeds here. The clock is `now`.
pub mod Collect
pub mod Advance
pub mod Replay
use privchat_sdk_typescript.Prelude.{
  ℕ, ◌+◌, Text, Option, none, some, Bool, true, false, not, ◌&&◌, ◌||◌, List, [], ◌∷◌, ◌++◌, map,
  ◌==◌, keep, nat_eq, text_eq, bool_eq, option_eq, or_else, coalesce, ltb, codes, some_by,
  if◌then◌else◌, Result, ok, err, big_int, to_decimal, ◌>>=◌,
}
use privchat_sdk_typescript.Table
use privchat_sdk_typescript.Cache.{MessageRecord, ChannelRecord}
use privchat_sdk_typescript.Cache.Database.{
  CacheDb, CacheError, StoredMessage, by_channel_smid, clear_channel_messages,
}
use privchat_sdk_typescript.Cache.Database
use privchat_sdk_typescript.Cache.Database.Upsert
use privchat_sdk_typescript.Cache.Database.Ack.{apply_ack}
use privchat_sdk_typescript.Contents.{Json}
use privchat_sdk_typescript.Timeline.{
  MessageStore, channel_key, get_channel, upsert_channel, set_channel_order_mode, replace_message,
  clear_buffer, set_of,
}
use privchat_sdk_typescript.Timeline
use privchat_sdk_typescript.Sync.{ServerCommit, SyncStore}
use privchat_sdk_typescript.Sync.Merge.{
  CommitDecoder, commit_to_message_record, PageState, merge_step,
}

pub record SyncStateRecord : Type 0 where
  pub channel_id : Text
  pub channel_type : ℕ
  pub min_loaded_at : Option ℕ
  pub max_loaded_at : Option ℕ
  pub latest_pts : Option Text
  pub last_sync_at : ℕ

abbrev pub sync_state_key : SyncStateRecord → Text
sync_state_key s = s.channel_id

-- The tables that the engine writes, and the memory.
pub record SyncWorld : Type 0 where
  pub cache : CacheDb
  pub channels : List ChannelRecord
  pub sync_states : List SyncStateRecord
  pub memory : MessageStore

-- The engine's surroundings: the parser behind the display text, the decoder of commits, the user, the
-- clock, opening a conversation (nothing where it fails), the pts in an error that demands recovery, and
-- whether the storage takes what an empty page says.
pub record PageDeps : Type 0 where
  pub parse : Text → Option Json
  pub decoder : CommitDecoder
  pub current_user_id : Option Text
  pub now : ℕ
  pub open_conversation : Text → ℕ → SyncWorld → SyncWorld
  pub error_current_pts : Option Text
  pub stores_empty_page : Bool

abbrev pub stored_channel : SyncWorld → Text → Option ChannelRecord
stored_channel w c = Table.get channel_key c w.channels

abbrev pub known_channel : SyncWorld → Text → Option ChannelRecord
known_channel w c = coalesce (stored_channel w c) (get_channel w.memory c)

abbrev pub put_channel : SyncWorld → ChannelRecord → SyncWorld
put_channel w r = record w { channels = Table.put channel_key r w.channels }

abbrev pub put_known : SyncWorld → Option ChannelRecord → SyncWorld
put_known w none = w
put_known w (some r) = put_channel w r

abbrev pub min_loaded_of : Option SyncStateRecord → Option ℕ
min_loaded_of none = none
min_loaded_of (some s) = s.min_loaded_at

abbrev pub max_loaded_of : Option SyncStateRecord → Option ℕ
max_loaded_of none = none
max_loaded_of (some s) = s.max_loaded_at

-- The row keeps what an earlier one says was loaded.
unfoldable pub put_sync_state : PageDeps → SyncWorld → Text → ℕ → Text → SyncWorld
put_sync_state deps w c channel_type latest_pts =
    let previous = Table.get sync_state_key c w.sync_states in
    record w {
      sync_states =
          Table.put sync_state_key
            (record {
              channel_id = c;
              channel_type = channel_type;
              min_loaded_at = min_loaded_of previous;
              max_loaded_at = max_loaded_of previous;
              latest_pts = some latest_pts;
              last_sync_at = deps.now;
            })
            w.sync_states;
    }

abbrev pub pts_of : Option ChannelRecord → Option Text
pts_of none = none
pts_of (some r) = some r.latest_pts

abbrev pub read_pts_of : Option ChannelRecord → Option Text
read_pts_of none = none
read_pts_of (some r) = some r.read_pts

abbrev pub updated_of : Option ChannelRecord → ℕ
updated_of none = 0
updated_of (some r) = r.updated_at

-- The loop over the commits.
unfoldable pub merge_loop :
    PageDeps → CacheDb → Text → ℕ → Text → PageState → List ServerCommit → Option PageState
merge_loop deps db c channel_type read_pts p [] = some p
merge_loop deps db c channel_type read_pts p (commit ∷ rest) =
    elim (merge_step db c deps.current_user_id read_pts p commit
      (commit_to_message_record deps.decoder commit c channel_type deps.current_user_id)) [
        | none ↦ none
        | some p' ↦ merge_loop deps db c channel_type read_pts p' rest
      ]

abbrev pub page_start : ℕ → Option ChannelRecord → PageState
page_start pts channel = record {
  newly_inserted = 0;
  unread_bump = 0;
  max_pts_seen = pts;
  max_timestamp_seen = updated_of channel;
  to_upsert = [];
  ack_swaps = [];
  swapped = [];
}

unfoldable pub collect_page :
    PageDeps → CacheDb → Text → ℕ → Option ChannelRecord → List ServerCommit → Option PageState
unfolding merge_loop
collect_page deps db c channel_type channel commits =
    elim (big_int (or_else (pts_of channel) (codes "0"))) [
      | none ↦ none
      | some pts ↦
          merge_loop deps db c channel_type (or_else (read_pts_of channel) (codes "0"))
            (page_start pts channel) commits
    ]

-- The acknowledged rows, as stored.
unfoldable pub apply_acks :
    CacheDb → List MessageRecord → Result CacheError (CacheDb × List MessageRecord)
apply_acks db [] = ok (db, [])
apply_acks db (acked ∷ rest) =
    apply_ack db acked >>= λ r. apply_acks r.0 rest >>= λ s. ok (s.0, r.1 ∷ s.1)

-- The channel after the page, where anything of it changes.
unfoldable pub advance_channel : ChannelRecord → PageState → ℕ → Text → Option ChannelRecord
advance_channel channel p pts server_current_pts =
    let moved = ltb pts p.max_pts_seen in
    let later = ltb channel.updated_at p.max_timestamp_seen in
    let bumped = ltb 0 p.unread_bump in
    let observed = not (channel.server_current_pts == some server_current_pts) in
    if moved || later || bumped || observed
    then some (record channel {
      latest_pts = if moved then to_decimal p.max_pts_seen else channel.latest_pts;
      updated_at = if later then p.max_timestamp_seen else channel.updated_at;
      unread_count = if bumped then channel.unread_count + p.unread_bump else channel.unread_count;
      server_current_pts = some server_current_pts;
    })
    else none

unfoldable pub next_channel_of : Option ChannelRecord → PageState → Text → Option ChannelRecord
next_channel_of none p server_current_pts = none
next_channel_of (some channel) p server_current_pts = elim (big_int channel.latest_pts) [
  | none ↦ none
  | some pts ↦ advance_channel channel p pts server_current_pts
]

-- The rows of the page's messages, each once, as they are on disk at the end.
unfoldable pub final_rows : CacheDb → Text → List Text → List MessageRecord
final_rows db c [] = []
final_rows db c (s ∷ ss) = elim (by_channel_smid db c s) [
  | none ↦ final_rows db c ss
  | some row ↦ row.row ∷ final_rows db c ss
]

pub record PageCommit : Type 0 where
  pub newly_inserted : ℕ
  pub ack_swaps : List MessageRecord
  pub upserts : List MessageRecord
  pub next_channel : Option ChannelRecord

-- The acknowledgements first, then the other rows; the acknowledged rows are given back.
unfoldable pub write_rows : CacheDb → PageState → Result CacheError (CacheDb × List MessageRecord)
write_rows db p =
    apply_acks db p.ack_swaps >>= λ r. Upsert.upsert_messages r.0 p.to_upsert >>= λ u. ok (u.0, r.1)

-- The rows are written, then the channel, then the cursor.
unfoldable pub write_page :
    PageDeps
    → SyncWorld
    → Text
    → ℕ
    → List ServerCommit
    → Text
    → Text
    → PageState
    → Option (PageCommit × SyncWorld)
write_page deps w c channel_type commits cursor server_current_pts p = elim (write_rows w.cache p) [
  | err thrown ↦ none
  | ok (db, acked) ↦
      let before = known_channel w c in
      let next = next_channel_of before p server_current_pts in
      let written = put_known (record w { cache = db }) next in
      let pts = or_else (coalesce (pts_of next) (pts_of before)) cursor in
      let final = put_sync_state deps written c channel_type pts in
      some (
        record {
          newly_inserted = p.newly_inserted;
          ack_swaps = acked;
          upserts = final_rows db c (set_of (map (λ m. m.server_msg_id) commits));
          next_channel = coalesce (stored_channel final c) next;
        },
        final,
      )
]

-- What the page made durable goes to the memory.
unfoldable pub replace_all :
    (Text → Option Json) → MessageStore → Text → ℕ → List MessageRecord → MessageStore
replace_all parse store c channel_type [] = store
replace_all parse store c channel_type (m ∷ ms) =
    replace_all parse (replace_message parse store c channel_type m.id m true).0 c channel_type ms

abbrev pub publish_channel : MessageStore → Option ChannelRecord → MessageStore
publish_channel store none = store
publish_channel store (some r) = upsert_channel store r

unfoldable pub publish : PageDeps → SyncWorld → Text → ℕ → PageCommit → SyncWorld
unfolding replace_all
publish deps w c channel_type page =
    let moded = set_channel_order_mode w.memory c (Database.get_channel_order_mode w.cache c) in
    let swapped = replace_all deps.parse moded c channel_type page.ack_swaps in
    let stored = (Timeline.upsert_messages deps.parse swapped c channel_type page.upserts true).0 in
    record w { memory = publish_channel stored page.next_channel }

unfoldable pub merge_commits :
    PageDeps → Text → ℕ → SyncWorld → List ServerCommit → Text → Text → Option (ℕ × SyncWorld)
unfolding collect_page write_page publish
merge_commits deps c channel_type w commits cursor server_current_pts =
    elim (collect_page deps w.cache c channel_type (known_channel w c) commits) [
      | none ↦ none
      | some p ↦ elim (write_page deps w c channel_type commits cursor server_current_pts p) [
        | none ↦ none
        | some (page, final) ↦ some (page.newly_inserted, publish deps final c channel_type page)
      ]
    ]

-- An empty page: the channel takes the server's pts where it differs.
abbrev pub observed_channel : Option ChannelRecord → Text → Option ChannelRecord
observed_channel none server_current_pts = none
observed_channel (some r) server_current_pts =
    if r.server_current_pts == some server_current_pts
    then none
    else some (record r { server_current_pts = some server_current_pts })

-- A transaction that fails throws, and changes nothing on disk or in memory.
unfoldable pub persist_empty_page : PageDeps → Text → ℕ → SyncWorld → Text → Text → Option SyncWorld
persist_empty_page deps c channel_type w server_current_pts cursor =
    let channel = get_channel w.memory c in
    let next = observed_channel channel server_current_pts in
    let final =
      put_sync_state deps (put_known w next) c channel_type (or_else (pts_of channel) cursor) in
    if deps.stores_empty_page
    then some (record final { memory = publish_channel final.memory next })
    else none

-- A change of the channel in memory and on disk.
unfoldable pub change_channel : SyncWorld → Text → (ChannelRecord → ChannelRecord) → SyncWorld
change_channel w c change = elim (get_channel w.memory c) [
  | none ↦ w
  | some r ↦ put_channel (record w { memory = upsert_channel w.memory (change r) }) (change r)
]

abbrev pub hint : SyncWorld → Text → Option Text → SyncWorld
hint w c none = w
hint w c (some pts) = change_channel w c (λ r. record r { server_current_pts = some pts })

unfoldable pub handle_resync : PageDeps → Text → ℕ → SyncWorld → SyncWorld
unfolding change_channel
handle_resync deps c channel_type w =
    let dropped = record w { memory = (clear_buffer w.memory c channel_type).0 } in
    let reset = change_channel dropped c (λ r. record r { latest_pts = codes "0" }) in
    let restarted = put_sync_state deps reset c channel_type (codes "0") in
    let cleared = record restarted { cache = clear_channel_messages restarted.cache c } in
    hint (deps.open_conversation c channel_type cleared) c deps.error_current_pts

-- What the paging loop asks of the cache and the memory.
abbrev pub sync_store : PageDeps → Text → ℕ → SyncStore SyncWorld
sync_store deps c channel_type = record {
  latest_pts = λ w. pts_of (get_channel w.memory c);
  merge_commits = merge_commits deps c channel_type;
  persist_empty_page = persist_empty_page deps c channel_type;
  handle_resync = handle_resync deps c channel_type;
}
