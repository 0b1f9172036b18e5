-- ===== src/Examples/Runs.antt =====
-- Examples for the synchronisation.
use privchat_sdk_typescript.Prelude.{Text, none, some, true, [], ◌∷◌, codes, length}
use privchat_sdk_typescript.Contents.{string}
use privchat_sdk_typescript.Sync.{ServerCommit, page, SyncStore, SyncEngineDeps, run_sync}
use privchat_sdk_typescript.Sync.Paging.{IsPaged, run_sync-IsPaged}
use privchat_sdk_typescript.Examples.{room, bob}

-- The state is the pts that the channel has reached.
abbrev pts_store : SyncStore Text
pts_store = record {
  latest_pts = λ w. some w;
  merge_commits = λ w commits cursor current. some (length commits, cursor);
  persist_empty_page = λ w current cursor. some w;
  handle_resync = λ w. codes "0";
}

abbrev pub commit : ServerCommit
commit = record {
  event_id = none;
  pts = codes "8";
  server_msg_id = codes "42";
  local_message_id = none;
  channel_id = room;
  channel_type = 1;
  message_type = codes "text";
  content = string (codes "yo");
  server_timestamp = 1700000001000;
  sender_id = bob;
}

-- A server that always has more.
abbrev pub endless : SyncEngineDeps
endless = record {
  call_difference =
      λ n req. page (record { commits = commit ∷ []; current_pts = codes "9"; has_more = true });
  page_limit = 100;
  max_pages = 2;
}

run_sync-IsPaged_example :
    IsPaged endless (codes "7") 2 (run_sync pts_store endless room 1 (codes "7"))
run_sync-IsPaged_example = run_sync-IsPaged pts_store endless room 1 (codes "7")
