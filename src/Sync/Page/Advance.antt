-- ===== src/Sync/Page/Advance.antt =====
-- src/sync-engine.ts: a merged page never takes the channel back.
use privchat_sdk_typescript.Prelude.{
  ℕ, ◌+◌, ◌≤◌, ◌≡◌, refl, sym, ◌∙◌, ap, Text, Option, some, List, [], ◌∷◌, arith, ◌==◌, text_eq,
  text_beq_iff, inl, inr, Bool-cases, Option-cases, All, length, big_int, big_int-to_decimal,
  to_decimal, Gives, Gives-some, max, not, ◌||◌, option_eq, or_else, if◌then◌else◌, ltb,
  Result-cases, coalesce,
}
use privchat_sdk_typescript.Table.{get-put, get_key}
use privchat_sdk_typescript.Maps.{get-set}
use privchat_sdk_typescript.Cache.{ChannelRecord}
use privchat_sdk_typescript.Cache.Database.{CacheDb}
use privchat_sdk_typescript.Timeline.{MessageStore, channel_key, get_channel, upsert_channel}
use privchat_sdk_typescript.Sync.{ServerCommit}
use privchat_sdk_typescript.Sync.Merge.{PageState, seen}
use privchat_sdk_typescript.Sync.Page.{
  SyncWorld, PageDeps, stored_channel, known_channel, collect_page, page_start, advance_channel,
  next_channel_of, PageCommit, write_rows, write_page, publish, merge_commits, put_known,
  put_sync_state, publish_channel,
}
use privchat_sdk_typescript.Sync.Page.Collect.{IsSeen, IsCollected, collect_page-Collects}

-- The channel before and after a page of which `n` commits were new.
pub record IsAdvanced (r r' : ChannelRecord) (commits : List ServerCommit) (n : ℕ) : Type 0 where
  pub before : ℕ
  pub reads_before : big_int r.latest_pts ≡ some before
  pub after : ℕ
  pub reads_after : big_int r'.latest_pts ≡ some after
  pub forward : before ≤ after
  pub covers : All (λ m. (pts : ℕ) × (big_int m.pts ≡ some pts) × (pts ≤ after)) commits
  pub activity : r.updated_at ≤ r'.updated_at
  pub unread_kept : r.unread_count ≤ r'.unread_count
  pub unread_bounded : r'.unread_count ≤ r.unread_count + n
  pub fresh_bounded : n ≤ length commits

-- The channel that the page leaves.
abbrev after_page : ChannelRecord → PageState → ℕ → Text → ChannelRecord
after_page r p a server_current_pts = or_else (advance_channel r p a server_current_pts) r

record Projects (r r' : ChannelRecord) (p : PageState) (a : ℕ) : Type 0 where
  same : r'.channel_id ≡ r.channel_id
  reads : big_int r'.latest_pts ≡ some (max a p.max_pts_seen)
  activity : r.updated_at ≤ r'.updated_at
  unread : r'.unread_count ≡ r.unread_count + p.unread_bump

moved_pts :
    (r : ChannelRecord) (p : PageState) (a : ℕ)
    → big_int r.latest_pts ≡ some a
    → big_int (if ltb a p.max_pts_seen then to_decimal p.max_pts_seen else r.latest_pts)
      ≡ some (max a p.max_pts_seen)
moved_pts r p a e = elim (Bool-cases (ltb a p.max_pts_seen)) [
  | inl up ↦ rw up (big_int-to_decimal p.max_pts_seen ∙ ap some (ground arith))
  | inr same ↦ rw same (e ∙ ap some (ground arith))
]

after_page-Projects :
    (r : ChannelRecord) (p : PageState) (a : ℕ) (s : Text)
    → big_int r.latest_pts ≡ some a
    → Projects r (after_page r p a s) p a
unfolding advance_channel
after_page-Projects r p a s e =
    elim (Bool-cases (
      ltb a p.max_pts_seen
      || ltb r.updated_at p.max_timestamp_seen
      || ltb 0 p.unread_bump
      || not (r.server_current_pts == some s))) [
        | inl changed ↦
            rw (advance_channel, changed)
              (record {
                same = refl;
                reads = moved_pts r p a e;
                activity = ground arith;
                unread = ground arith;
              })
        | inr same ↦
            rw (advance_channel, same)
              (record {
                same = refl;
                reads = e ∙ ap some (ground (arith, same));
                activity = omega arith;
                unread = ground arith;
              })
      ]

-- What the transaction leaves of the channel, on disk and for the memory.
record IsWritten (w : SyncWorld) (c : Text) (r' : ChannelRecord) (p : PageState)
    (result : PageCommit × SyncWorld) : Type 0 where
  counted : result.0.newly_inserted ≡ p.newly_inserted
  published : result.0.next_channel ≡ some r'
  stored : stored_channel result.1 c ≡ some r'

put_known-stored :
    (w : SyncWorld) (c : Text) (r : ChannelRecord) (p : PageState) (a : ℕ) (s : Text)
    → r.channel_id ≡ c
    → stored_channel w c ≡ some r
    → big_int r.latest_pts ≡ some a
    → stored_channel (put_known w (advance_channel r p a s)) c ≡ some (after_page r p a s)
put_known-stored w c r p a s here held e = elim (Option-cases (advance_channel r p a s)) [
  | inl same ↦ rw same held
  | inr (r', changed) ↦
      let named : r'.channel_id ≡ c =
        sym (ap (λ o. (or_else o r).channel_id) changed)
        ∙ (after_page-Projects r p a s e).same
        ∙ here in
      rw changed
        (get-put channel_key c r' w.channels ∙ rw ((text_beq_iff r'.channel_id c).1 named) refl)
]

stored_after :
    (deps : PageDeps) (w : SyncWorld) (c : Text) (channel_type : ℕ) (r : ChannelRecord)
    (p : PageState) (a : ℕ) (s pts : Text) (next : Option ChannelRecord) (db : CacheDb)
    → stored_channel w c ≡ some r
    → big_int r.latest_pts ≡ some a
    → next ≡ advance_channel r p a s
    → stored_channel
        (put_sync_state deps (put_known (record w { cache = db }) next) c channel_type pts)
        c
      ≡ some (after_page r p a s)
unfolding put_sync_state
stored_after deps w c channel_type r p a s pts next db held e same =
    ap (λ o. stored_channel (put_known (record w { cache = db }) o) c) same
    ∙ put_known-stored (record w { cache = db }) c r p a s (get_key channel_key c w.channels r held)
        held e

next_channel_of-known :
    (w : SyncWorld) (c : Text) (r : ChannelRecord) (p : PageState) (a : ℕ) (s : Text)
    → stored_channel w c ≡ some r
    → big_int r.latest_pts ≡ some a
    → next_channel_of (known_channel w c) p s ≡ advance_channel r p a s
unfolding next_channel_of
next_channel_of-known w c r p a s held e =
    ap (λ o. next_channel_of o p s) (ap (λ o. coalesce o (get_channel w.memory c)) held)
    ∙ rw (next_channel_of, e) refl

write_page-IsWritten :
    (deps : PageDeps) (w : SyncWorld) (c : Text) (channel_type : ℕ) (commits : List ServerCommit)
    (cursor s : Text) (p : PageState) (r : ChannelRecord) (a : ℕ)
    → stored_channel w c ≡ some r
    → big_int r.latest_pts ≡ some a
    → Gives
        (IsWritten w c (after_page r p a s) p)
        (write_page deps w c channel_type commits cursor s p)
unfolding write_page
write_page-IsWritten deps w c channel_type commits cursor s p r a held e =
    elim (Result-cases (write_rows w.cache p)) [
      | inl ((db, acked), wrote) ↦
          let stored =
            stored_after deps w c channel_type r p a s _ _ db held e
              (next_channel_of-known w c r p a s held e) in
          rw (write_page, wrote)
            (record {
              counted = refl;
              published = ap (λ o. coalesce o (next_channel_of (known_channel w c) p s)) stored;
              stored = stored;
            })
      | inr (thrown, failed) ↦ rw (write_page, failed) tt
    ]

get_channel-publish :
    (store : MessageStore) (o : Option ChannelRecord) (c : Text) (r : ChannelRecord)
    → o ≡ some r
    → r.channel_id ≡ c
    → get_channel (publish_channel store o) c ≡ some r
unfolding get_channel upsert_channel
get_channel-publish store o c r e here =
    ap (λ x. get_channel (publish_channel store x) c) e
    ∙ get-set channel_key c r store.channels
    ∙ rw ((text_beq_iff r.channel_id c).1 here) refl

publish-channel :
    (deps : PageDeps) (w : SyncWorld) (c : Text) (channel_type : ℕ) (page : PageCommit)
    (r : ChannelRecord)
    → page.next_channel ≡ some r
    → r.channel_id ≡ c
    → (get_channel (publish deps w c channel_type page).memory c ≡ some r)
      × (stored_channel (publish deps w c channel_type page) c ≡ stored_channel w c)
unfolding publish
publish-channel deps w c channel_type page r e here =
    (get_channel-publish _ page.next_channel c r e here, refl)

-- The channel as the page leaves it, in memory and on disk.
abbrev pub IsMerged : SyncWorld → Text → ChannelRecord → List ServerCommit → ℕ → Type 0
IsMerged w c r commits n =
    (r' : ChannelRecord) × (stored_channel w c ≡ some r')
    × (get_channel w.memory c ≡ some r')
    × IsAdvanced r r' commits n

covered :
    (p : PageState) (a : ℕ) (commits : List ServerCommit)
    → All (IsSeen p) commits
    → All (λ m. (pts : ℕ) × (big_int m.pts ≡ some pts) × (pts ≤ max a p.max_pts_seen)) commits
covered p a [] h = tt
covered p a (m ∷ ms) h = ((h.0.pts, h.0.reads, omega (arith, h.0.within)), covered p a ms h.1)

projected-IsAdvanced :
    (r r' : ChannelRecord) (p : PageState) (a n : ℕ) (commits : List ServerCommit)
    → big_int r.latest_pts ≡ some a
    → Projects r r' p a
    → IsCollected (page_start a (some r)) commits p
    → n ≡ p.newly_inserted
    → IsAdvanced r r' commits n
projected-IsAdvanced r r' p a n commits e proj (all, seen) counted = record {
  before = a;
  reads_before = e;
  after = max a p.max_pts_seen;
  reads_after = proj.reads;
  forward = omega arith;
  covers = covered p a commits seen;
  activity = proj.activity;
  unread_kept = omega (arith, proj.unread);
  unread_bounded = omega (arith, proj.unread, all.counted, counted);
  fresh_bounded = omega (arith, all.inserted, counted);
}

-- A page that is merged into a channel whose row is on disk, with a number as its pts, leaves the same
-- row on disk and in memory. Its pts is a number, at least the one before and that of every commit of
-- the page; its last activity is not earlier; its unread count is at least the one before, and grows by
-- no more than the number of commits that were new, which is at most that of all commits.
pub merge_commits-IsMerged :
    (deps : PageDeps) (c : Text) (channel_type : ℕ) (w : SyncWorld) (commits : List ServerCommit)
    (cursor s : Text) (r : ChannelRecord) (a : ℕ) (n : ℕ) (w' : SyncWorld)
    → stored_channel w c ≡ some r
    → big_int r.latest_pts ≡ some a
    → merge_commits deps c channel_type w commits cursor s ≡ some (n, w')
    → IsMerged w' c r commits n
unfolding merge_commits
merge_commits-IsMerged deps c channel_type w commits cursor s r a n w' held e h =
    Gives-some (λ result. IsMerged result.1 c r commits result.0) _ (n, w') gives h
  where
    known : known_channel w c ≡ some r
    known = ap (λ o. coalesce o (get_channel w.memory c)) held

    finished :
        (p : PageState) (page : PageCommit) (final : SyncWorld)
        → IsCollected (page_start a (some r)) commits p
        → IsWritten w c (after_page r p a s) p (page, final)
        → IsMerged (publish deps final c channel_type page) c r commits page.newly_inserted
    finished p page final all written =
        let proj = after_page-Projects r p a s e in
        let (memory, disk) =
          publish-channel deps final c channel_type page (after_page r p a s) written.published
            (proj.same ∙ get_key channel_key c w.channels r held) in
        (
          after_page r p a s,
          disk ∙ written.stored,
          memory,
          projected-IsAdvanced r (after_page r p a s) p a page.newly_inserted commits e proj all
              written.counted,
        )

    gives :
        Gives
          (λ result. IsMerged result.1 c r commits result.0)
          (merge_commits deps c channel_type w commits cursor s)
    gives =
        elim (Option-cases (collect_page deps w.cache c channel_type (known_channel w c) commits)) [
          | inl threw ↦ rw (merge_commits, threw) tt
          | inr (p, collected) ↦
              let all = collect_page-Collects deps w.cache c channel_type r commits a p e (
                sym (ap (λ o. collect_page deps w.cache c channel_type o commits) known)
                ∙ collected) in
              elim (Option-cases (write_page deps w c channel_type commits cursor s p)) [
                | inl threw ↦ rw (merge_commits, collected, threw) tt
                | inr ((page, final), wrote) ↦
                    rw (merge_commits, collected, wrote)
                      (finished p page final all (
                        Gives-some (IsWritten w c (after_page r p a s) p) _ (page, final)
                          (write_page-IsWritten deps w c channel_type commits cursor s p r a held e)
                          wrote))
              ]
        ]
