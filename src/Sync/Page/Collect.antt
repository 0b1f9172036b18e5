-- ===== src/Sync/Page/Collect.antt =====
-- src/sync-engine.ts: what the loop over a page's commits collects.
use privchat_sdk_typescript.Prelude.{
  ℕ, suc, ◌+◌, ◌≤◌, ◌≡◌, refl, sym, ◌∙◌, Text, Option, some, Bool, List, [], ◌∷◌, arith, text_eq,
  inl, inr, Bool-cases, Option-cases, All, length, big_int, Gives, Gives-some, Gives-map,
  if◌then◌else◌,
}
use privchat_sdk_typescript.Cache.{MessageRecord, ChannelRecord}
use privchat_sdk_typescript.Cache.Database.{CacheDb, by_channel_smid}
use privchat_sdk_typescript.Sync.{ServerCommit}
use privchat_sdk_typescript.Sync.Merge.{
  PageState, seen, merge_step, merge_commit, pending_row, commit_to_message_record, message_equals,
  is_unread,
}
use privchat_sdk_typescript.Sync.Page.{PageDeps, merge_loop, collect_page, page_start}

-- What one commit, or several, add to what a page collects.
pub record Collects (n : ℕ) (p p' : PageState) : Type 0 where
  pub pts : p.max_pts_seen ≤ p'.max_pts_seen
  pub timestamp : p.max_timestamp_seen ≤ p'.max_timestamp_seen
  pub inserted : p'.newly_inserted ≤ p.newly_inserted + n
  pub unread : p.unread_bump ≤ p'.unread_bump
  pub counted : p'.unread_bump + p.newly_inserted ≤ p.unread_bump + p'.newly_inserted

-- The page has seen the commit's pts.
pub record IsSeen (p : PageState) (commit : ServerCommit) : Type 0 where
  pub pts : ℕ
  pub reads : big_int commit.pts ≡ some pts
  pub within : pts ≤ p.max_pts_seen

Collects-trans :
    {m n : ℕ} {p q r : PageState} → Collects m p q → Collects n q r → Collects (m + n) p r
Collects-trans a b = record {
  pts = omega (arith, a.pts, b.pts);
  timestamp = omega (arith, a.timestamp, b.timestamp);
  inserted = omega (arith, a.inserted, b.inserted);
  unread = omega (arith, a.unread, b.unread);
  counted = omega (arith, a.counted, b.counted);
}

module _ (db : CacheDb) (c : Text) (uid : Option Text) (read_pts : Text) where
  inserted-Collects :
      (p : PageState) (b : Bool) (rows : List MessageRecord)
      → Collects 1 p (record p {
        to_upsert = rows;
        newly_inserted = p.newly_inserted + 1;
        unread_bump = if b then p.unread_bump + 1 else p.unread_bump;
      })
  inserted-Collects p b rows = record {
    pts = omega arith;
    timestamp = omega arith;
    inserted = omega arith;
    unread = ground arith;
    counted = ground arith;
  }

  same-Collects :
      (p q : PageState)
      → p.max_pts_seen ≤ q.max_pts_seen
      → p.max_timestamp_seen ≤ q.max_timestamp_seen
      → q.newly_inserted ≡ p.newly_inserted
      → q.unread_bump ≡ p.unread_bump
      → Collects 0 p q
  same-Collects p q a b e f = record {
    pts = a;
    timestamp = b;
    inserted = omega arith;
    unread = omega arith;
    counted = omega arith;
  }

  Collects-weaken : {p q : PageState} → Collects 0 p q → Collects 1 p q
  Collects-weaken a = record {
    pts = a.pts;
    timestamp = a.timestamp;
    inserted = omega (arith, a.inserted);
    unread = a.unread;
    counted = a.counted;
  }

  merge_commit-Collects :
      (p : PageState) (commit : ServerCommit) (pts : ℕ) (next : MessageRecord)
      → Gives (Collects 1 p) (merge_commit db c uid read_pts p commit pts next)
  unfolding merge_commit
  merge_commit-Collects p commit pts next =
      elim (Option-cases (by_channel_smid db c commit.server_msg_id)) [
        | inl fresh ↦ elim (Option-cases (big_int read_pts)) [
          | inl bad ↦ rw (merge_commit, fresh, bad) tt
          | inr (read, good) ↦
              rw (merge_commit, fresh, good)
                (inserted-Collects p (is_unread uid commit pts read next) _)
        ]
        | inr (existing, held) ↦ elim (Bool-cases (message_equals existing.row next)) [
          | inl same ↦
              rw (merge_commit, held, same)
                (Collects-weaken (same-Collects p p (omega arith) (omega arith) refl refl))
          | inr drift ↦
              rw (merge_commit, held, drift)
                (Collects-weaken (same-Collects p _ (omega arith) (omega arith) refl refl))
        ]
      ]

  seen-Collects : (p : PageState) (pts t : ℕ) → Collects 0 p (seen p pts t)
  seen-Collects p pts t = same-Collects p (seen p pts t) (ground arith) (ground arith) refl refl

  pts_seen : (p : PageState) (pts t : ℕ) → pts ≤ (seen p pts t).max_pts_seen
  pts_seen p pts t = ground arith

  Collects-seen :
      (p q : PageState) (commit : ServerCommit) (pts t : ℕ)
      → big_int commit.pts ≡ some pts
      → Collects 1 (seen p pts t) q
      → Collects 1 p q × IsSeen q commit
  Collects-seen p q commit pts t e a = (
    Collects-trans (seen-Collects p pts t) a,
    record { pts = pts; reads = e; within = omega (arith, pts_seen p pts t, a.pts) },
  )

  merge_step-Collects :
      (p p' : PageState) (commit : ServerCommit) (next : MessageRecord)
      → merge_step db c uid read_pts p commit next ≡ some p'
      → Collects 1 p p' × IsSeen p' commit
  unfolding merge_step
  merge_step-Collects p p' commit next h =
      Gives-some (λ q. Collects 1 p q × IsSeen q commit) _ p' (gives) h
    where
      gives :
          Gives (λ q. Collects 1 p q × IsSeen q commit) (merge_step db c uid read_pts p commit next)
      gives = elim (Option-cases (big_int commit.pts)) [
        | inl bad ↦ rw (merge_step, bad) tt
        | inr (pts, good) ↦ elim (Option-cases (pending_row db c p commit.local_message_id)) [
          | inl other ↦
              rw (merge_step, good, other)
                (Gives-map (λ q a. Collects-seen p q commit pts next.timestamp good a) _
                  (merge_commit-Collects (seen p pts next.timestamp) commit pts next))
          | inr (row, ours) ↦
              rw (merge_step, good, ours)
                (Collects-seen p _ commit pts next.timestamp good
                  (Collects-weaken (same-Collects _ _ (omega arith) (omega arith) refl refl)))
        ]
      ]

IsSeen-later :
    {n : ℕ} {p q : PageState} {commit : ServerCommit}
    → Collects n p q
    → IsSeen p commit
    → IsSeen q commit
IsSeen-later a h = record { pts = h.pts; reads = h.reads; within = omega (arith, h.within, a.pts) }

Collects-suc : {n : ℕ} {p q r : PageState} → Collects 1 p q → Collects n q r → Collects (suc n) p r
Collects-suc {n} {p} {q} {r} a b = record {
  pts = omega (arith, a.pts, b.pts);
  timestamp = omega (arith, a.timestamp, b.timestamp);
  inserted = omega (arith, a.inserted, b.inserted);
  unread = omega (arith, a.unread, b.unread);
  counted = omega (arith, a.counted, b.counted);
}

abbrev pub IsCollected : PageState → List ServerCommit → PageState → Type 0
IsCollected p commits p' = Collects (length commits) p p' × All (IsSeen p') commits

-- The whole page.
merge_loop-Collects :
    (deps : PageDeps) (db : CacheDb) (c : Text) (channel_type : ℕ) (read_pts : Text) (p : PageState)
    (commits : List ServerCommit)
    → Gives (IsCollected p commits) (merge_loop deps db c channel_type read_pts p commits)
unfolding merge_loop
merge_loop-Collects deps db c channel_type read_pts p [] = (
  record {
    pts = omega arith;
    timestamp = omega arith;
    inserted = omega arith;
    unread = omega arith;
    counted = omega arith;
  },
  tt,
)
merge_loop-Collects deps db c channel_type read_pts p (commit ∷ rest) =
    elim (Option-cases (merge_step db c deps.current_user_id read_pts p commit next)) [
      | inl threw ↦ rw (merge_loop, threw) tt
      | inr (q, stepped) ↦
          let (one, here) =
            merge_step-Collects db c deps.current_user_id read_pts p q commit next stepped in
          rw (merge_loop, stepped)
            (Gives-map (λ r more. (Collects-suc one more.0, (IsSeen-later more.0 here, more.1)))
              (merge_loop deps db c channel_type read_pts q rest)
              (merge_loop-Collects deps db c channel_type read_pts q rest))
    ]
  where
    next : MessageRecord
    next = commit_to_message_record deps.decoder commit c channel_type deps.current_user_id

pub collect_page-start :
    (deps : PageDeps) (db : CacheDb) (c : Text) (channel_type : ℕ) (r : ChannelRecord)
    (commits : List ServerCommit) (a : ℕ)
    → big_int r.latest_pts ≡ some a
    → collect_page deps db c channel_type (some r) commits
      ≡ merge_loop deps db c channel_type r.read_pts (page_start a (some r)) commits
unfolding collect_page
collect_page-start deps db c channel_type r commits a e = rw (collect_page, e) refl

pub collect_page-Collects :
    (deps : PageDeps) (db : CacheDb) (c : Text) (channel_type : ℕ) (r : ChannelRecord)
    (commits : List ServerCommit) (a : ℕ) (p : PageState)
    → big_int r.latest_pts ≡ some a
    → collect_page deps db c channel_type (some r) commits ≡ some p
    → IsCollected (page_start a (some r)) commits p
unfolding collect_page
collect_page-Collects deps db c channel_type r commits a p e h =
    Gives-some (IsCollected (page_start a (some r)) commits) _ p
      (merge_loop-Collects deps db c channel_type r.read_pts (page_start a (some r)) commits)
      (sym (collect_page-start deps db c channel_type r commits a e) ∙ h)
