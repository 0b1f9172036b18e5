-- ===== src/Sync/Forward.antt =====
-- src/sync-engine.ts: a run of the paging loop over the cache and the memory.
use privchat_sdk_typescript.Prelude.{
  ℕ, zero, suc, ◌+◌, ◌≤◌, ◌≡◌, refl, sym, ◌∙◌, ap, subst, Text, Option, none, some, Bool, true,
  false, List, [], ◌∷◌, arith, ◌==◌, text_eq, option_eq, text_beq_iff, nat_eq, inl, inr, ◌⊎◌,
  Bool-cases, Option-cases, big_int, or_else, Gives, Gives-some,
}
use privchat_sdk_typescript.Table.{get-put, get_key}
use privchat_sdk_typescript.Maps.{get-set}
use privchat_sdk_typescript.Cache.{ChannelRecord}
use privchat_sdk_typescript.Timeline.{channel_key, get_channel, upsert_channel}
use privchat_sdk_typescript.Sync.{
  ServerCommit, GetDifferenceRequest, GetDifferenceResponse, Reply, page, rpc_error, thrown,
  SyncEngineDeps, Outcome, finished, threw, SyncStatus, resynced, sync_pages, run_sync, request,
  resolve_cursor, on_rpc_error, on_empty_page, page_cursor, sync_channel_resync_required,
  sync_full_rebuild_required,
}
use privchat_sdk_typescript.Sync.Page.{
  SyncWorld, PageDeps, stored_channel, sync_store, merge_commits, persist_empty_page,
  observed_channel, put_known, put_sync_state, publish_channel, pts_of,
}
use privchat_sdk_typescript.Sync.Page.Advance.{merge_commits-IsMerged}

-- The channel is the same on disk and in memory, and its pts is a number, at least `low`.
pub record IsAt (c : Text) (low : ℕ) (w : SyncWorld) : Type 0 where
  pub channel : ChannelRecord
  pub disk : stored_channel w c ≡ some channel
  pub memory : get_channel w.memory c ≡ some channel
  pub pts : ℕ
  pub reads : big_int channel.latest_pts ≡ some pts
  pub reached : low ≤ pts

-- The run took the channel back to the start, as the server demands.
abbrev pub is_resynced : SyncStatus → Bool
is_resynced resynced = true
is_resynced _ = false

-- Where the run leaves the channel.
abbrev pub EndsAt : Text → ℕ → Outcome SyncWorld → Type 0
EndsAt c low (finished result w sent) = (is_resynced result.status ≡ true) ⊎ IsAt c low w
EndsAt c low (threw w sent) = IsAt c low w

module _ (deps : PageDeps) (c : Text) (channel_type : ℕ) where
  merge_commits-IsAt :
      (low : ℕ) (w w' : SyncWorld) (commits : List ServerCommit) (cursor s : Text) (n : ℕ)
      → IsAt c low w
      → merge_commits deps c channel_type w commits cursor s ≡ some (n, w')
      → IsAt c low w'
  merge_commits-IsAt low w w' commits cursor s n h e =
      let (r', disk, memory, advanced) =
        merge_commits-IsMerged deps c channel_type w commits cursor s h.channel h.pts n w' h.disk
          h.reads e in
      record {
        channel = r';
        disk = disk;
        memory = memory;
        pts = advanced.after;
        reads = advanced.reads_after;
        reached = omega (
          arith,
          h.reached,
          advanced.forward,
          ap (or_else_zero) (sym h.reads ∙ advanced.reads_before),
        );
      }
    where
      or_else_zero : Option ℕ → ℕ
      or_else_zero o = or_else o 0

  -- The channel's row in another shape, under the same pts.
  abbrev Fits : Text → Option ChannelRecord → Type 0
  Fits pts none = Unit {0}
  Fits pts (some r) = (r.channel_id ≡ c) × (r.latest_pts ≡ pts)

  observed_channel-Fits :
      (r : ChannelRecord) (s : Text)
      → r.channel_id ≡ c
      → Fits r.latest_pts (observed_channel (some r) s)
  observed_channel-Fits r s here = elim (Bool-cases (r.server_current_pts == some s)) [
    | inl same ↦ rw same tt
    | inr other ↦ rw other (here, refl)
  ]

  put_and_published :
      (low : ℕ) (w : SyncWorld) (pts : Text) (o : Option ChannelRecord) (h : IsAt c low w)
      → Fits h.channel.latest_pts o
      → let final = put_sync_state deps (put_known w o) c channel_type pts in
        IsAt c low (record final { memory = publish_channel final.memory o })
  unfolding put_sync_state get_channel upsert_channel
  put_and_published low w pts none h fits = record {
    channel = h.channel;
    disk = h.disk;
    memory = h.memory;
    pts = h.pts;
    reads = h.reads;
    reached = h.reached;
  }
  put_and_published low w pts (some r) h (here, same) = record {
    channel = r;
    disk = get-put channel_key c r w.channels ∙ rw ((text_beq_iff r.channel_id c).1 here) refl;
    memory =
        get-set channel_key c r w.memory.channels ∙ rw ((text_beq_iff r.channel_id c).1 here) refl;
    pts = h.pts;
    reads = ap big_int same ∙ h.reads;
    reached = h.reached;
  }

  persist_empty_page-IsAt :
      (low : ℕ) (w : SyncWorld) (s cursor : Text)
      → IsAt c low w
      → Gives (IsAt c low) (persist_empty_page deps c channel_type w s cursor)
  unfolding persist_empty_page put_sync_state
  persist_empty_page-IsAt low w s cursor h =
      let kept =
        put_and_published low w (or_else (pts_of (get_channel w.memory c)) cursor)
          (observed_channel (get_channel w.memory c) s) h
          (subst (λ o. Fits h.channel.latest_pts (observed_channel o s)) (sym h.memory)
            (observed_channel-Fits h.channel s
              (get_key channel_key c w.channels h.channel h.disk))) in
      elim (Bool-cases deps.stores_empty_page) [
        | inl taken ↦ rw taken kept
        | inr refused ↦ rw refused tt
      ]

  module _ (server : SyncEngineDeps) (before : Text) where
    on_empty_page-EndsAt :
        (low : ℕ) (resp : GetDifferenceResponse) (cursor : Text) (pages applied : ℕ) (w : SyncWorld)
        (sent : List GetDifferenceRequest)
        → IsAt c low w
        → EndsAt c low (
            on_empty_page
              (sync_store deps c channel_type)
              server
              c
              channel_type
              before
              resp
              cursor
              pages
              applied
              w
              sent)
    unfolding on_empty_page
    on_empty_page-EndsAt low resp cursor pages applied w sent h = elim (Bool-cases resp.has_more) [
      | inl more ↦ rw (on_empty_page, more) (inr h)
      | inr last ↦
          elim (Option-cases (persist_empty_page deps c channel_type w resp.current_pts cursor)) [
            | inl refused ↦ rw (on_empty_page, last, refused) h
            | inr (w', stored) ↦
                rw (on_empty_page, last, stored)
                  (inr (
                    Gives-some (IsAt c low)
                      (persist_empty_page deps c channel_type w resp.current_pts cursor) w'
                      (persist_empty_page-IsAt low w resp.current_pts cursor h) stored))
          ]
    ]

    on_rpc_error-EndsAt :
        (low code pages : ℕ) (w : SyncWorld) (sent : List GetDifferenceRequest)
        → IsAt c low w
        → EndsAt c low (
            on_rpc_error
              (sync_store deps c channel_type)
              server
              c
              channel_type
              before
              code
              pages
              w
              sent)
    unfolding on_rpc_error
    on_rpc_error-EndsAt low code pages w sent h =
        elim (Bool-cases (code == sync_channel_resync_required)) [
          | inl resync ↦ rw (on_rpc_error, resync) (inl refl)
          | inr other ↦ elim (Bool-cases (code == sync_full_rebuild_required)) [
            | inl rebuild ↦ rw (on_rpc_error, other, rebuild) (inr h)
            | inr unknown ↦ rw (on_rpc_error, other, unknown) h
          ]
        ]

    abbrev asked : Text → GetDifferenceRequest
    asked cursor = request (sync_store deps c channel_type) server c channel_type before cursor

    abbrev paged : ℕ → Text → ℕ → ℕ → SyncWorld → List GetDifferenceRequest → Outcome SyncWorld
    paged budget cursor pages applied w sent =
        sync_pages (sync_store deps c channel_type) server c channel_type before budget cursor pages
          applied w sent

    reply-EndsAt :
        (low budget : ℕ) (cursor : Text) (pages applied : ℕ) (w : SyncWorld)
        (sent : List GetDifferenceRequest) (reply : Reply)
        → IsAt c low w
        → ((next : Text) (n : ℕ) (w' : SyncWorld)
            → IsAt c low w'
            → EndsAt c low (paged budget next (pages + 1) n w' (asked cursor ∷ sent)))
        → server.call_difference pages (asked cursor) ≡ reply
        → EndsAt c low (paged (suc budget) cursor pages applied w sent)
    unfolding sync_pages
    reply-EndsAt low budget cursor pages applied w sent thrown h rest e = rw (sync_pages, e) h
    reply-EndsAt low budget cursor pages applied w sent (rpc_error code) h rest e =
        rw (sync_pages, e) (on_rpc_error-EndsAt low code (pages + 1) w (asked cursor ∷ sent) h)
    reply-EndsAt low budget cursor pages applied w sent (page resp) h rest e =
        elim (Option-cases (page_cursor resp.commits)) [
          | inl empty ↦
              rw (sync_pages, e, empty)
                (on_empty_page-EndsAt low resp cursor (pages + 1) applied w (asked cursor ∷ sent) h)
          | inr (next, last) ↦
              elim (Option-cases
                (merge_commits deps c channel_type w resp.commits next resp.current_pts)) [
                  | inl failed ↦ rw (sync_pages, e, last, failed) h
                  | inr ((fresh, w'), merged) ↦
                      let h' =
                        merge_commits-IsAt low w w' resp.commits next resp.current_pts fresh h
                          merged in
                      elim (Bool-cases resp.has_more) [
                        | inl more ↦
                            rw (sync_pages, e, last, merged, more)
                              (rest next (applied + fresh) w' h')
                        | inr done ↦ rw (sync_pages, e, last, merged, done) (inr h')
                      ]
                ]
        ]

    sync_pages-EndsAt :
        (low budget : ℕ) (cursor : Text) (pages applied : ℕ) (w : SyncWorld)
        (sent : List GetDifferenceRequest)
        → IsAt c low w
        → EndsAt c low (paged budget cursor pages applied w sent)
    unfolding sync_pages
    sync_pages-EndsAt low zero cursor pages applied w sent h = inr h
    sync_pages-EndsAt low (suc budget) cursor pages applied w sent h =
        reply-EndsAt low budget cursor pages applied w sent
          (server.call_difference pages (asked cursor)) h
          (λ next n w' h'.
            sync_pages-EndsAt low budget next (pages + 1) n w' (asked cursor ∷ sent) h')
          refl

-- A run on a channel that is the same on disk and in memory, with a number as its pts, leaves it the
-- same on disk and in memory with a number as its pts that is not lower, whatever the server answers
-- and whichever merge fails, unless the run ends as one in which the server demanded a resync.
pub run_sync-EndsAt :
    (deps : PageDeps) (server : SyncEngineDeps) (c : Text) (channel_type low : ℕ) (w : SyncWorld)
    → IsAt c low w
    → EndsAt c low (run_sync (sync_store deps c channel_type) server c channel_type w)
unfolding run_sync
run_sync-EndsAt deps server c channel_type low w h =
    sync_pages-EndsAt deps c channel_type server (resolve_cursor (sync_store deps c channel_type) w)
      low server.max_pages (resolve_cursor (sync_store deps c channel_type) w) 0 0 w [] h
