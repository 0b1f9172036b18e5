-- ===== src/Sync/Paging.antt =====
-- src/sync-engine.ts: the round trips of a run.
use privchat_sdk_typescript.Prelude.{
  ℕ, zero, suc, ◌+◌, ◌≤◌, ◌≡◌, refl, Text, some, List, [], ◌∷◌, length, arith, or_else,
  Option-cases, Bool-cases, inl, inr, ◌==◌, nat_eq,
}
use privchat_sdk_typescript.Sync.{
  Reply, page, rpc_error, thrown, GetDifferenceRequest, GetDifferenceResponse, SyncStore,
  SyncEngineDeps, Outcome, finished, threw, page_cursor, request, sync_channel_resync_required,
  sync_full_rebuild_required, on_rpc_error, on_empty_page, sync_pages, run_sync, resolve_cursor,
}

module _ (deps : SyncEngineDeps) (before : Text) where
  -- The cursor that a reply leaves.
  abbrev pub after_reply : Text → Reply → Text
  after_reply cursor (page resp) = or_else (page_cursor resp.commits) cursor
  after_reply cursor (rpc_error code) = cursor
  after_reply cursor thrown = cursor

  -- The cursor after the requests sent, the newest first.
  unfoldable pub cursor_after : List GetDifferenceRequest → Text
  cursor_after [] = before
  cursor_after (r ∷ older) = after_reply r.last_pts (deps.call_difference (length older) r)

  -- Each request asks for what follows the last commit of the page before it.
  unfoldable pub IsChain : List GetDifferenceRequest → Type 0
  unfolding cursor_after
  IsChain [] = Unit {0}
  IsChain (r ∷ older) = (r.last_pts ≡ cursor_after older) × IsChain older

abbrev pub requests : {W : Type 0} → Outcome W → List GetDifferenceRequest
requests (finished result w sent) = sent
requests (threw w sent) = sent

-- A result counts the requests sent.
abbrev pub Counts : {W : Type 0} → Outcome W → Type 0
Counts (finished result w sent) = result.pages_fetched ≡ length sent
Counts (threw w sent) = Unit {0}

-- What holds of a run: every page it fetched is counted, at most `bound`, and the requests are a chain.
pub record IsPaged {W : Type 0} (deps : SyncEngineDeps) (before : Text) (bound : ℕ) (o : Outcome W)
    : Type 0 where
  pub counted : Counts o
  pub bounded : length (requests o) ≤ bound
  pub chained : IsChain deps before (requests o)

module _ {W : Type 0} (store : SyncStore W) (deps : SyncEngineDeps) (channel_id : Text)
    (channel_type : ℕ) (before : Text) where
  rpc-requests :
      (code pages : ℕ) (w : W) (sent : List GetDifferenceRequest)
      → pages ≡ length sent
      → (requests (on_rpc_error store deps channel_id channel_type before code pages w sent) ≡ sent)
        × Counts (on_rpc_error store deps channel_id channel_type before code pages w sent)
  unfolding on_rpc_error
  rpc-requests code pages w sent count = elim (Bool-cases (code == sync_channel_resync_required)) [
    | inl resync ↦ rw resync (refl, count)
    | inr other ↦ elim (Bool-cases (code == sync_full_rebuild_required)) [
      | inl rebuild ↦ rw (other, rebuild) (refl, count)
      | inr unknown ↦ rw (other, unknown) (refl, tt)
    ]
  ]

  empty-requests :
      (resp : GetDifferenceResponse) (cursor : Text) (pages applied : ℕ) (w : W)
      (sent : List GetDifferenceRequest)
      → pages ≡ length sent
      → (requests (
            on_empty_page store deps channel_id channel_type before resp cursor pages applied w
              sent)
          ≡ sent)
        × Counts (
            on_empty_page store deps channel_id channel_type before resp cursor pages applied w
              sent)
  unfolding on_empty_page
  empty-requests resp cursor pages applied w sent count = elim (Bool-cases resp.has_more) [
    | inl more ↦ rw (on_empty_page, more) (refl, count)
    | inr last ↦ elim (Option-cases (store.persist_empty_page w resp.current_pts cursor)) [
      | inl refused ↦ rw (on_empty_page, last, refused) (refl, tt)
      | inr (kept, stored) ↦ rw (on_empty_page, last, stored) (refl, count)
    ]
  ]

  -- A run that ends with this request.
  ended :
      (budget : ℕ) (sent : List GetDifferenceRequest) (req : GetDifferenceRequest) (o : Outcome W)
      → IsChain deps before (req ∷ sent)
      → (requests o ≡ req ∷ sent) × Counts o
      → IsPaged deps before (suc budget + length sent) o
  ended budget sent req o chain (same, count) = record {
    counted = count;
    bounded = rw same (omega arith);
    chained = rw same chain;
  }

  widen :
      (small large : ℕ) (o : Outcome W)
      → small ≤ large
      → IsPaged deps before small o
      → IsPaged deps before large o
  widen small large o h p = record {
    counted = p.counted;
    bounded = omega (arith, p.bounded);
    chained = p.chained;
  }

  module _ (budget : ℕ) (cursor : Text) (pages applied : ℕ) (w : W)
      (sent : List GetDifferenceRequest) (count : pages ≡ length sent)
      (chain : IsChain deps before
        (request store deps channel_id channel_type before cursor ∷ sent))
      (rest : (cursor' : Text) (pages' applied' : ℕ) (w' : W) (sent' : List GetDifferenceRequest)
        → pages' ≡ length sent'
        → cursor' ≡ cursor_after deps before sent'
        → IsChain deps before sent'
        → IsPaged deps before (budget + length sent') (
            sync_pages store deps channel_id channel_type before budget cursor' pages' applied' w'
              sent')) where
    abbrev now_sent : List GetDifferenceRequest
    now_sent = request store deps channel_id channel_type before cursor ∷ sent

    reached :
        (resp : GetDifferenceResponse) (next : Text)
        → deps.call_difference pages (request store deps channel_id channel_type before cursor)
          ≡ page resp
        → page_cursor resp.commits ≡ some next
        → next ≡ cursor_after deps before now_sent
    unfolding cursor_after
    reached resp next e last =
        let there : deps.call_difference (length sent)
              (request store deps channel_id channel_type before cursor)
            ≡ page resp =
          rw count at e in
        rw (there, last) refl

    reply-step :
        (reply : Reply)
        → deps.call_difference pages (request store deps channel_id channel_type before cursor)
          ≡ reply
        → IsPaged deps before (suc budget + length sent) (
            sync_pages store deps channel_id channel_type before
              (suc budget)
              cursor
              pages
              applied
              w
              sent)
    unfolding sync_pages cursor_after
    reply-step thrown e = rw (sync_pages, e) (ended budget sent _ _ chain (refl, tt))
    reply-step (rpc_error code) e =
        rw (sync_pages, e)
          (ended budget sent _ _ chain (rpc-requests code (pages + 1) w now_sent (omega arith)))
    reply-step (page resp) e = elim (Option-cases (page_cursor resp.commits)) [
      | inl empty ↦
          rw (sync_pages, e, empty)
            (ended budget sent _ _ chain
              (empty-requests resp cursor (pages + 1) applied w now_sent (omega arith)))
      | inr (next, last) ↦
          elim (Option-cases (store.merge_commits w resp.commits next resp.current_pts)) [
            | inl failure ↦
                rw (sync_pages, e, last, failure) (ended budget sent _ _ chain (refl, tt))
            | inr ((fresh, w'), merged) ↦ elim (Bool-cases resp.has_more) [
              | inl more ↦
                  rw (sync_pages, e, last, merged, more)
                    (widen (budget + length now_sent) (suc budget + length sent) _ (omega arith) (
                      rest next (pages + 1) (applied + fresh) w' now_sent (omega arith)
                        (reached resp next e last) chain))
              | inr done ↦
                  rw (sync_pages, e, last, merged, done)
                    (ended budget sent _ _ chain (refl, omega arith))
            ]
          ]
    ]

  sync_pages-IsPaged :
      (budget : ℕ) (cursor : Text) (pages applied : ℕ) (w : W) (sent : List GetDifferenceRequest)
      → pages ≡ length sent
      → cursor ≡ cursor_after deps before sent
      → IsChain deps before sent
      → IsPaged deps before
          (budget + length sent)
          (sync_pages store deps channel_id channel_type before budget cursor pages applied w sent)
  unfolding sync_pages IsChain
  sync_pages-IsPaged zero cursor pages applied w sent count at chain = record {
    counted = count;
    bounded = omega arith;
    chained = chain;
  }
  sync_pages-IsPaged (suc budget) cursor pages applied w sent count at chain =
      reply-step budget cursor pages applied w sent count (at, chain) (sync_pages-IsPaged budget)
        (deps.call_difference pages (request store deps channel_id channel_type before cursor)) refl

-- A run makes at most `max_pages` round trips and reports exactly as many as it made; the first asks
-- from the pts that the channel has reached and each next one from the last commit of the page
-- before, whatever the server answers and whichever merge fails.
pub run_sync-IsPaged :
    {W : Type 0} (store : SyncStore W) (deps : SyncEngineDeps) (channel_id : Text)
    (channel_type : ℕ) (w : W)
    → IsPaged deps
        (resolve_cursor store w)
        deps.max_pages
        (run_sync store deps channel_id channel_type w)
unfolding run_sync cursor_after IsChain
run_sync-IsPaged store deps channel_id channel_type w =
    let before = resolve_cursor store w in
    widen store deps channel_id channel_type before (deps.max_pages + 0) deps.max_pages _
      (omega arith)
      (sync_pages-IsPaged store deps channel_id channel_type before deps.max_pages before 0 0 w []
        refl refl tt)
