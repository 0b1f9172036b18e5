-- ===== src/Examples/Pages.antt =====
-- Concrete pages of commits.
use privchat_sdk_typescript.Prelude.{
  ℕ, arith, ◌≡◌, refl, Text, Option, none, some, Bool, true, false, List, [], ◌∷◌, codes, big_int,
  text_beq, map,
}
use privchat_sdk_typescript.Cache.{ChannelRecord, by_pts}
use privchat_sdk_typescript.Cache.Database.{CacheDb}
use privchat_sdk_typescript.Table.{get}
use privchat_sdk_typescript.Maps.{set}
use privchat_sdk_typescript.Timeline.{get_channel, upsert_channel}
use privchat_sdk_typescript.Sync.{ServerCommit, run_sync}
use privchat_sdk_typescript.Sync.Page.{sync_store}
use privchat_sdk_typescript.Sync.Forward.{IsAt, EndsAt, run_sync-EndsAt}
use privchat_sdk_typescript.Sync.Merge.{
  CommitDecoder, PageState, pending_row, merge_step, merge_commit, commit_to_message_record,
  message_equals,
}
use privchat_sdk_typescript.Sync.Page.{
  SyncWorld, PageDeps, stored_channel, merge_commits, collect_page, merge_loop,
}
use privchat_sdk_typescript.Sync.Page.Advance.{IsMerged, merge_commits-IsMerged}
use privchat_sdk_typescript.Sync.Page.Replay.{IsReplayed, merge_commits-replay}
use privchat_sdk_typescript.Timeline.Reach.{new_store}
use privchat_sdk_typescript.Examples.{alice, room, empty_db}
use privchat_sdk_typescript.Examples.Runs.{commit, endless}

abbrev decoder : CommitDecoder
decoder = record {
  resolve_new_message = λ c. none;
  stringify = λ j. [];
  encode_utf8 = λ s. s;
  next_local_message_record_id = λ c. codes "r-1";
}

abbrev deps : PageDeps
deps = record {
  parse = λ s. none;
  decoder = decoder;
  current_user_id = some alice;
  now = 5000;
  open_conversation = λ c channel_type w. w;
  error_current_pts = none;
  stores_empty_page = true;
}

abbrev room_channel : ChannelRecord
room_channel = record {
  channel_id = room;
  channel_type = 1;
  title = none;
  peer_user_id = none;
  latest_pts = codes "7";
  read_pts = codes "7";
  peer_read_pts = none;
  server_current_pts = none;
  unread_count = 2;
  last_message_preview = none;
  last_message_type = none;
  last_message_pts = none;
  last_message_revoked = none;
  pinned = none;
  muted = none;
  hidden = none;
  updated_at = 1000;
  sync_version = 1;
}

abbrev before_page : SyncWorld
before_page = record {
  cache = empty_db;
  channels = room_channel ∷ [];
  sync_states = [];
  memory = new_store;
}

-- The page's message is on disk already.
abbrev replayed_world : SyncWorld
replayed_world = record before_page {
  cache = record empty_db {
    messages =
        record {
          row = commit_to_message_record decoder commit room 1 (some alice);
          sort_key = [];
          pts_gap = 0;
        }
        ∷ [];
  };
}

replayed_held : stored_channel replayed_world room ≡ some room_channel
unfolding get text_beq
replayed_held = refl

pts_read : big_int room_channel.latest_pts ≡ some 7
unfolding big_int
pts_read = refl

IsReplayed-commit : IsReplayed deps replayed_world.cache room 1 commit
unfolding big_int commit_to_message_record message_equals pending_row text_beq
    privchat_sdk_typescript.Sync.Merge.extract_content
    privchat_sdk_typescript.Cache.Inbound.normalize_sent_at_ms
IsReplayed-commit = record {
  pts = 8;
  reads = refl;
  row = record {
    row = commit_to_message_record decoder commit room 1 (some alice);
    sort_key = [];
    pts_gap = 0;
  };
  stored = refl;
  equal = refl;
  settled = λ p. refl;
}

merge_commits-replay_example :
    (w' : SyncWorld) × (merge_commits deps room 1 replayed_world
        (commit ∷ [])
        (codes "8")
        (codes "9")
      ≡ some (0, w'))
    × (w'.cache ≡ replayed_world.cache)
    × (r' : ChannelRecord) × (stored_channel w' room ≡ some r')
    × (get_channel w'.memory room ≡ some r')
    × (r'.unread_count ≡ 2)
merge_commits-replay_example =
    merge_commits-replay deps room 1 replayed_world (commit ∷ []) (codes "8") (codes "9")
      room_channel 7 replayed_held pts_read (IsReplayed-commit, tt)

-- The message is new: it counts as inserted.
page_run :
    (w' : SyncWorld) × (merge_commits deps room 1 before_page (commit ∷ []) (codes "8") (codes "9")
      ≡ some (1, w'))
unfolding merge_commits big_int get text_beq merge_step pending_row merge_commit
    privchat_sdk_typescript.Sync.Page.write_rows privchat_sdk_typescript.Sync.Page.apply_acks
    privchat_sdk_typescript.Cache.Database.Upsert.upsert_messages
    privchat_sdk_typescript.Cache.Database.Upsert.upsert_loop
    privchat_sdk_typescript.Cache.Database.Upsert.upsert_one
    privchat_sdk_typescript.Cache.Database.Upsert.find_existing commit_to_message_record
    privchat_sdk_typescript.Cache.Database.put_message privchat_sdk_typescript.Cache.Database.stamp
    privchat_sdk_typescript.Cache.Database.Upsert.merge_row
    privchat_sdk_typescript.Cache.Database.Upsert.channels_of
    privchat_sdk_typescript.Cache.Database.Upsert.find_by_lmid
    privchat_sdk_typescript.Cache.Database.Upsert.find_by_network
    privchat_sdk_typescript.Cache.Database.Upsert.merged_status
    privchat_sdk_typescript.Cache.Database.Upsert.reconcile_all
    privchat_sdk_typescript.Cache.Database.Upsert.reread
    privchat_sdk_typescript.Cache.Database.reconcile_order_mode
    privchat_sdk_typescript.Cache.Inbound.merge_sent_at
    privchat_sdk_typescript.Cache.Inbound.normalize_sent_at_ms
    privchat_sdk_typescript.Cache.Order.display_sort_key
    privchat_sdk_typescript.Cache.Order.encode_sort_key
    privchat_sdk_typescript.Cache.Order.has_pts_gap privchat_sdk_typescript.Cache.Order.is_absent
    privchat_sdk_typescript.Cache.Order.pending_group privchat_sdk_typescript.Prelude.all_digits
    privchat_sdk_typescript.Prelude.decimal_from privchat_sdk_typescript.Prelude.to_decimal
    privchat_sdk_typescript.Prelude.value_from privchat_sdk_typescript.Sync.Merge.content_payload
    privchat_sdk_typescript.Sync.Merge.extract_content privchat_sdk_typescript.Sync.Merge.is_unread
    message_equals privchat_sdk_typescript.Sync.Page.advance_channel collect_page
    privchat_sdk_typescript.Sync.Page.final_rows merge_loop
    privchat_sdk_typescript.Sync.Page.next_channel_of
    privchat_sdk_typescript.Sync.Page.put_sync_state privchat_sdk_typescript.Sync.Page.write_page
    privchat_sdk_typescript.Table.put privchat_sdk_typescript.Prelude.text_compare
page_run = (_, refl)

before_page_held : stored_channel before_page room ≡ some room_channel
unfolding get text_beq
before_page_held = refl

merge_commits-IsMerged_example : IsMerged page_run.0 room room_channel (commit ∷ []) 1
merge_commits-IsMerged_example =
    merge_commits-IsMerged deps room 1 before_page (commit ∷ []) (codes "8") (codes "9")
      room_channel 7 1 page_run.0 before_page_held pts_read page_run.1

-- A message that a page lists twice counts as new, and as unread, twice.
twice_counted :
    (p : PageState) × (collect_page deps empty_db room 1 (some room_channel) (commit ∷ commit ∷ [])
      ≡ some p)
    × (p.newly_inserted ≡ 2)
    × (p.unread_bump ≡ 2)
unfolding merge_commits big_int get text_beq merge_step pending_row merge_commit
    privchat_sdk_typescript.Sync.Page.write_rows privchat_sdk_typescript.Sync.Page.apply_acks
    privchat_sdk_typescript.Cache.Database.Upsert.upsert_messages
    privchat_sdk_typescript.Cache.Database.Upsert.upsert_loop
    privchat_sdk_typescript.Cache.Database.Upsert.upsert_one
    privchat_sdk_typescript.Cache.Database.Upsert.find_existing commit_to_message_record
    privchat_sdk_typescript.Cache.Database.put_message privchat_sdk_typescript.Cache.Database.stamp
    privchat_sdk_typescript.Cache.Database.Upsert.merge_row
    privchat_sdk_typescript.Cache.Database.Upsert.channels_of
    privchat_sdk_typescript.Cache.Database.Upsert.find_by_lmid
    privchat_sdk_typescript.Cache.Database.Upsert.find_by_network
    privchat_sdk_typescript.Cache.Database.Upsert.merged_status
    privchat_sdk_typescript.Cache.Database.Upsert.reconcile_all
    privchat_sdk_typescript.Cache.Database.Upsert.reread
    privchat_sdk_typescript.Cache.Database.reconcile_order_mode
    privchat_sdk_typescript.Cache.Inbound.merge_sent_at
    privchat_sdk_typescript.Cache.Inbound.normalize_sent_at_ms
    privchat_sdk_typescript.Cache.Order.display_sort_key
    privchat_sdk_typescript.Cache.Order.encode_sort_key
    privchat_sdk_typescript.Cache.Order.has_pts_gap privchat_sdk_typescript.Cache.Order.is_absent
    privchat_sdk_typescript.Cache.Order.pending_group privchat_sdk_typescript.Prelude.all_digits
    privchat_sdk_typescript.Prelude.decimal_from privchat_sdk_typescript.Prelude.to_decimal
    privchat_sdk_typescript.Prelude.value_from privchat_sdk_typescript.Sync.Merge.content_payload
    privchat_sdk_typescript.Sync.Merge.extract_content privchat_sdk_typescript.Sync.Merge.is_unread
    message_equals privchat_sdk_typescript.Sync.Page.advance_channel collect_page
    privchat_sdk_typescript.Sync.Page.final_rows merge_loop
    privchat_sdk_typescript.Sync.Page.next_channel_of
    privchat_sdk_typescript.Sync.Page.put_sync_state privchat_sdk_typescript.Sync.Page.write_page
    privchat_sdk_typescript.Table.put privchat_sdk_typescript.Prelude.text_compare
twice_counted = (_, refl, refl, refl)

-- The channel is in memory too.
abbrev at_seven : SyncWorld
at_seven = record before_page { memory = upsert_channel new_store room_channel }

at_seven-IsAt : IsAt room 7 at_seven
unfolding get text_beq get_channel upsert_channel set
at_seven-IsAt = record {
  channel = room_channel;
  disk = refl;
  memory = refl;
  pts = 7;
  reads = pts_read;
  reached = omega arith;
}

run_sync-EndsAt_example : EndsAt room 7 (run_sync (sync_store deps room 1) endless room 1 at_seven)
run_sync-EndsAt_example = run_sync-EndsAt deps endless room 1 7 at_seven at_seven-IsAt
