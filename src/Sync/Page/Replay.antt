-- ===== src/Sync/Page/Replay.antt =====
-- src/sync-engine.ts: a page that is merged once more.
use privchat_sdk_typescript.Prelude.{
  ℕ, ◌≡◌, refl, ◌∙◌, ap, Text, Option, none, some, true, List, [], ◌∷◌, arith, All, big_int, ok,
  coalesce,
}
use privchat_sdk_typescript.Cache.{MessageRecord, ChannelRecord}
use privchat_sdk_typescript.Cache.Database.{CacheDb, StoredMessage, by_channel_smid}
use privchat_sdk_typescript.Cache.Database.Upsert.{upsert_messages}
use privchat_sdk_typescript.Timeline.{get_channel}
use privchat_sdk_typescript.Sync.{ServerCommit}
use privchat_sdk_typescript.Sync.Merge.{
  PageState, seen, merge_step, merge_commit, pending_row, commit_to_message_record, message_equals,
}
use privchat_sdk_typescript.Sync.Page.{
  SyncWorld, PageDeps, stored_channel, known_channel, merge_loop, collect_page, page_start,
  apply_acks, PageCommit, write_rows, write_page, publish, merge_commits, put_known, put_sync_state,
  next_channel_of,
}
use privchat_sdk_typescript.Sync.Page.Collect.{collect_page-start}
use privchat_sdk_typescript.Sync.Page.Advance.{merge_commits-IsMerged}

module _ (deps : PageDeps) (db : CacheDb) (c : Text) (channel_type : ℕ) where
  abbrev pub record_of : ServerCommit → MessageRecord
  record_of commit =
      commit_to_message_record deps.decoder commit c channel_type deps.current_user_id

  -- The commit's message is on disk as it is, and it acknowledges no pending row.
  pub record IsReplayed (commit : ServerCommit) : Type 0 where
    pub pts : ℕ
    pub reads : big_int commit.pts ≡ some pts
    pub row : StoredMessage
    pub stored : by_channel_smid db c commit.server_msg_id ≡ some row
    pub equal : message_equals row.row (record_of commit) ≡ true
    pub settled : (p : PageState) → pending_row db c p commit.local_message_id ≡ none

  -- Nothing to write, and nothing new.
  record IsIdle (p p' : PageState) : Type 0 where
    inserted : p'.newly_inserted ≡ p.newly_inserted
    upserts : p'.to_upsert ≡ p.to_upsert
    swaps : p'.ack_swaps ≡ p.ack_swaps

  merge_step-replay :
      (read_pts : Text) (p : PageState) (commit : ServerCommit) (h : IsReplayed commit)
      → merge_step db c deps.current_user_id read_pts p commit (record_of commit)
        ≡ some (seen p h.pts (record_of commit).timestamp)
  unfolding merge_step merge_commit
  merge_step-replay read_pts p commit h =
      rw (merge_step, h.reads, h.settled p, merge_commit, h.stored, h.equal) refl

  merge_loop-replay :
      (read_pts : Text) (p : PageState) (commits : List ServerCommit)
      → All IsReplayed commits
      → (p' : PageState) × (merge_loop deps db c channel_type read_pts p commits ≡ some p')
        × IsIdle p p'
  unfolding merge_loop
  merge_loop-replay read_pts p [] a =
      (p, refl, record { inserted = refl; upserts = refl; swaps = refl })
  merge_loop-replay read_pts p (commit ∷ rest) (h, more) =
      let q = seen p h.pts (record_of commit).timestamp in
      let (p', e, idle) = merge_loop-replay read_pts q rest more in
      (
        p',
        rw (merge_loop, merge_step-replay read_pts p commit h) e,
        record { inserted = idle.inserted; upserts = idle.upserts; swaps = idle.swaps },
      )

write_rows-idle :
    (db : CacheDb) (p : PageState)
    → p.to_upsert ≡ []
    → p.ack_swaps ≡ []
    → write_rows db p ≡ ok (db, [])
unfolding write_rows apply_acks upsert_messages
write_rows-idle db p e f = rw (write_rows, f, apply_acks, e, upsert_messages) refl

put_known-cache : (w : SyncWorld) (o : Option ChannelRecord) → (put_known w o).cache ≡ w.cache
put_known-cache w none = refl
put_known-cache w (some r) = refl

-- The page commits without touching a message.
write_page-idle :
    (deps : PageDeps) (w : SyncWorld) (c : Text) (channel_type : ℕ) (commits : List ServerCommit)
    (cursor s : Text) (p : PageState)
    → write_rows w.cache p ≡ ok (w.cache, [])
    → (result : PageCommit × SyncWorld) × (write_page deps w c channel_type commits cursor s p
        ≡ some result)
      × (result.0.newly_inserted ≡ p.newly_inserted)
      × (result.1.cache ≡ w.cache)
unfolding write_page put_sync_state
write_page-idle deps w c channel_type commits cursor s p e =
    rw (write_page, e) (_, refl, refl, put_known-cache w (next_channel_of (known_channel w c) p s))

merge_commits-computed :
    (deps : PageDeps) (c : Text) (channel_type : ℕ) (w : SyncWorld) (commits : List ServerCommit)
    (cursor s : Text) (p : PageState) (result : PageCommit × SyncWorld)
    → collect_page deps w.cache c channel_type (known_channel w c) commits ≡ some p
    → write_page deps w c channel_type commits cursor s p ≡ some result
    → merge_commits deps c channel_type w commits cursor s
      ≡ some (result.0.newly_inserted, publish deps result.1 c channel_type result.0)
unfolding merge_commits
merge_commits-computed deps c channel_type w commits cursor s p result e f =
    rw (merge_commits, e, f) refl

publish-cache :
    (deps : PageDeps) (w : SyncWorld) (c : Text) (channel_type : ℕ) (page : PageCommit)
    → (publish deps w c channel_type page).cache ≡ w.cache
unfolding publish
publish-cache deps w c channel_type page = refl

-- A page of which every message is on disk as it is, and acknowledges no pending row, is merged without
-- an error where the channel's row is on disk with a number as its pts. No commit counts as new, the
-- messages on disk stay as they are, and so does the channel's unread count, on disk and in memory.
pub merge_commits-replay :
    (deps : PageDeps) (c : Text) (channel_type : ℕ) (w : SyncWorld) (commits : List ServerCommit)
    (cursor s : Text) (r : ChannelRecord) (a : ℕ)
    → stored_channel w c ≡ some r
    → big_int r.latest_pts ≡ some a
    → All (IsReplayed deps w.cache c channel_type) commits
    → (w' : SyncWorld) × (merge_commits deps c channel_type w commits cursor s ≡ some (0, w'))
      × (w'.cache ≡ w.cache)
      × (r' : ChannelRecord) × (stored_channel w' c ≡ some r')
      × (get_channel w'.memory c ≡ some r')
      × (r'.unread_count ≡ r.unread_count)
merge_commits-replay deps c channel_type w commits cursor s r a held e replayed =
    let (p, looped, idle) =
      merge_loop-replay deps w.cache c channel_type r.read_pts (page_start a (some r)) commits
        replayed in
    let collected =
      ap (λ o. collect_page deps w.cache c channel_type o commits)
        (ap (λ o. coalesce o (get_channel w.memory c)) held)
      ∙ collect_page-start deps w.cache c channel_type r commits a e
      ∙ looped in
    let (result, wrote, counted, same) =
      write_page-idle deps w c channel_type commits cursor s p
        (write_rows-idle w.cache p idle.upserts idle.swaps) in
    let w' = publish deps result.1 c channel_type result.0 in
    let none_new : result.0.newly_inserted ≡ 0 = counted ∙ idle.inserted in
    let merged =
      merge_commits-computed deps c channel_type w commits cursor s p result collected wrote
      ∙ ap (λ n. some (n, w')) none_new in
    let (r', disk, memory, advanced) =
      merge_commits-IsMerged deps c channel_type w commits cursor s r a 0 w' held e merged in
    (
      w',
      merged,
      publish-cache deps result.1 c channel_type result.0 ∙ same,
      r',
      disk,
      memory,
      omega (arith, advanced.unread_kept, advanced.unread_bounded),
    )
