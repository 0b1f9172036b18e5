-- ===== src/Sync.antt =====
-- src/sync-engine.ts: `runSync`, the paging loop of one channel. What a page does to the cache and the
-- memory is the interface `SyncStore`; the server is a function of the round trip and the request.
pub mod Paging
pub mod Merge
pub mod Page
pub mod Forward
use privchat_sdk_typescript.Prelude.{
  ℕ, zero, suc, ◌+◌, Text, Option, none, some, Bool, true, false, List, [], ◌∷◌, ◌==◌, nat_eq, ltb,
  or_else, codes, if◌then◌else◌,
}
use privchat_sdk_typescript.Contents.{Json}

pub record ServerCommit : Type 0 where
  pub event_id : Option Text
  pub pts : Text
  pub server_msg_id : Text
  pub local_message_id : Option Text
  pub channel_id : Text
  pub channel_type : ℕ
  pub message_type : Text
  pub content : Json
  pub server_timestamp : ℕ
  pub sender_id : Text

pub record GetDifferenceRequest : Type 0 where
  pub channel_id : Text
  pub channel_type : ℕ
  pub last_pts : Text
  pub limit : ℕ

pub record GetDifferenceResponse : Type 0 where
  pub commits : List ServerCommit
  pub current_pts : Text
  pub has_more : Bool

-- What a round trip comes to: a page, an error that the server names by its code, or another error.
pub data Reply : Type 0 where
  page : GetDifferenceResponse → Reply
  rpc_error : ℕ → Reply
  thrown : Reply

abbrev pub sync_channel_resync_required : ℕ
sync_channel_resync_required = 20900

abbrev pub sync_full_rebuild_required : ℕ
sync_full_rebuild_required = 20902

pub data SyncStatus : Type 0 where
  current synced resynced rebuild_required : SyncStatus

pub record SyncResult : Type 0 where
  pub channel_id : Text
  pub channel_type : ℕ
  pub status : SyncStatus
  pub commits_applied : ℕ
  pub pages_fetched : ℕ
  pub latest_pts_before : Text
  pub latest_pts_after : Text

-- The channel's cache and memory, as a state `W`: the pts that the channel has reached, the merge of a
-- page (how many commits were new; `none` where its transaction fails), the bookkeeping of an empty
-- page, and the recovery that the server demands.
pub record SyncStore (W : Type 0) : Type 0 where
  pub latest_pts : W → Option Text
  pub merge_commits : W → List ServerCommit → Text → Text → Option (ℕ × W)
  pub persist_empty_page : W → Text → Text → Option W
  pub handle_resync : W → W

-- The engine's settings and the server.
pub record SyncEngineDeps : Type 0 where
  pub call_difference : ℕ → GetDifferenceRequest → Reply
  pub page_limit : ℕ
  pub max_pages : ℕ

pub data Outcome (W : Type 0) : Type 0 where
  -- The result, the state, and the requests that were sent, the newest first.
  finished : SyncResult → W → List GetDifferenceRequest → Outcome W
  threw : W → List GetDifferenceRequest → Outcome W

-- The pts of the page's last commit; `none` for a page without commits.
abbrev pub page_cursor : List ServerCommit → Option Text
page_cursor [] = none
page_cursor (c ∷ []) = some c.pts
page_cursor (c ∷ d ∷ rest) = page_cursor (d ∷ rest)

module _ {W : Type 0} (store : SyncStore W) (deps : SyncEngineDeps) (channel_id : Text)
    (channel_type : ℕ) (before : Text) where
  abbrev pub request : Text → GetDifferenceRequest
  request cursor = record {
    channel_id = channel_id;
    channel_type = channel_type;
    last_pts = cursor;
    limit = deps.page_limit;
  }

  abbrev pub result : SyncStatus → ℕ → ℕ → Text → SyncResult
  result status applied pages after = record {
    channel_id = channel_id;
    channel_type = channel_type;
    status = status;
    commits_applied = applied;
    pages_fetched = pages;
    latest_pts_before = before;
    latest_pts_after = after;
  }

  abbrev pub snapshot_latest_pts : W → Text
  snapshot_latest_pts w = or_else (store.latest_pts w) before

  -- The errors of the server's that the loop handles; the others are thrown on.
  unfoldable pub on_rpc_error : ℕ → ℕ → W → List GetDifferenceRequest → Outcome W
  on_rpc_error code pages w sent =
      let resynced_w = store.handle_resync w in
      if code == sync_channel_resync_required
      then finished (result resynced 0 pages (or_else (store.latest_pts resynced_w) (codes "0")))
          resynced_w sent
      else if code == sync_full_rebuild_required
      then finished (result rebuild_required 0 pages before) w sent
      else threw w sent

  -- A page without commits ends the loop.
  unfoldable pub on_empty_page :
      GetDifferenceResponse → Text → ℕ → ℕ → W → List GetDifferenceRequest → Outcome W
  on_empty_page resp cursor pages applied w sent =
      if resp.has_more
      then finished (result synced applied pages (snapshot_latest_pts w)) w sent
      else elim (store.persist_empty_page w resp.current_pts cursor) [
        | none ↦ threw w sent
        | some kept ↦
            finished
              (result (if ltb 0 applied then synced else current) applied pages
                (snapshot_latest_pts kept))
              kept sent
      ]

  -- `budget` is how many round trips are left, `pages` how many there have been.
  unfoldable pub sync_pages : ℕ → Text → ℕ → ℕ → W → List GetDifferenceRequest → Outcome W
  sync_pages zero cursor pages applied w sent =
      finished (result synced applied pages (snapshot_latest_pts w)) w sent
  sync_pages (suc budget) cursor pages applied w sent =
      let req = request cursor in
      elim (deps.call_difference pages req) [
        | thrown ↦ threw w (req ∷ sent)
        | rpc_error code ↦ on_rpc_error code (pages + 1) w (req ∷ sent)
        | page resp ↦ elim (page_cursor resp.commits) [
          | none ↦ on_empty_page resp cursor (pages + 1) applied w (req ∷ sent)
          | some next ↦ elim (store.merge_commits w resp.commits next resp.current_pts) [
            | none ↦ threw w (req ∷ sent)
            | some (fresh, w') ↦ elim resp.has_more [
              | false ↦
                  finished (result synced (applied + fresh) (pages + 1) (snapshot_latest_pts w')) w'
                    (req ∷ sent)
              | true ↦ sync_pages budget next (pages + 1) (applied + fresh) w' (req ∷ sent)
            ]
          ]
        ]
      ]

-- The cursor that the run starts from.
abbrev pub resolve_cursor : {W : Type 0} → SyncStore W → W → Text
resolve_cursor store w = or_else (store.latest_pts w) (codes "0")

unfoldable pub run_sync : {W : Type 0} → SyncStore W → SyncEngineDeps → Text → ℕ → W → Outcome W
run_sync store deps channel_id channel_type w =
    let before = resolve_cursor store w in
    sync_pages store deps channel_id channel_type before deps.max_pages before 0 0 w []
