-- ===== src/Uploads/Gaps.antt =====
-- The loop of uploadSealedFileChunked in src/chunked-upload.ts that sends the missing ranges of the
-- sealed blob, a piece at a time. `S` is the platform's and the server's state.
pub mod Keeping
pub mod Ends
pub mod Grid
use privchat_sdk_typescript.Prelude.{
  ℕ, zero, suc, ◌+◌, ◌-◌, ◌*◌, ◌/◌, ◌^◌, Option, none, some, Bool, List, [], ◌∷◌, length, map, min,
  max, Result, err, ok, ltb, leb, if◌then◌else◌, compare, Ordering,
}
use privchat_sdk_typescript.Sorting.{sort}
use privchat_sdk_typescript.Codes.{ChunkVerdict}
use privchat_sdk_typescript.Uploads.{
  UploadDeps, UploadError, ChunkedUploadSession, Range, Act, after, ◌>>=◌, ◌>>◌, give, throw, run,
  does, session_gone, chunk_rejected, no_progress, put_chunk, fetch_status, subarray,
}
use privchat_sdk_typescript.Uploads.Sizer.{ChunkSizer, on_success, on_failure}

abbrev pub chunk_retries : ℕ
chunk_retries = 2

abbrev pub by_offset : Range → Range → Ordering
by_offset a b = compare a.offset b.offset

abbrev pub missing_bytes : List Range → ℕ
missing_bytes [] = 0
missing_bytes (gap ∷ rest) = gap.length + missing_bytes rest

-- The variables of the loop.
pub record Gaps (R : Type 0) : Type 0 where
  pub gaps : List Range
  pub sizer : ChunkSizer R
  pub failures_since_progress : ℕ

-- Whole cells of the grid, unless the piece ends the blob or the gap is smaller.
unfoldable pub piece_length : ℕ → ℕ → ℕ → Range → ℕ
piece_length base total next gap =
    let len = min next gap.length in
    let whole = if ltb (gap.offset + len) total then max (len / base * base) base else len in
    min whole gap.length

-- The gaps once `len` bytes of the first are stored.
unfoldable pub advanced : Range → List Range → ℕ → List Range
advanced gap rest len =
    if leb gap.length len
    then rest
    else record { offset = gap.offset + len; length = gap.length - len } ∷ rest

pub data Round (R : Type 0) : Type 0 where
  again : Gaps R → Round R
  over : Round R

abbrev pub follow :
    {S R : Type 0}
    → Result UploadError (Round R) × S
    → (Gaps R → S → Option (Result UploadError (Unit {0}) × S))
    → Option (Result UploadError (Unit {0}) × S)
follow (err e, s) next = some (err e, s)
follow (ok over, s) next = some (ok tt, s)
follow (ok (again st), s) next = next st s

module _ {S R : Type 0} (d : UploadDeps S R) (session : ChunkedUploadSession) (blob : List ℕ) where
  unfoldable pub report : List Range → S → S
  report gaps =
      let loaded = length blob - missing_bytes gaps in
      d.on_progress (record {
        loaded = loaded;
        total = length blob;
        percent = if ltb 0 (length blob) then d.percent loaded (length blob) else 100;
      })

  -- After `ok`: the piece is stored.
  pub stored : Gaps R → Range → List Range → ℕ → ℕ → Act S (Round R)
  unfolding report
  stored st gap rest len started = do
    finished ← run d.now
    does (report (advanced gap rest len))
    give (
        again (record {
          gaps = advanced gap rest len;
          sizer = on_success d st.sizer len (finished - started);
          failures_since_progress = 0;
        }))

  -- After `retry`, with the failure counted.
  pub delayed : Gaps R → ℕ → Act S (Round R)
  delayed st failures = do
    does (d.sleep (300 * 2 ^ min failures 4))
    give (again (record st { failures_since_progress = failures; sizer = on_failure st.sizer }))

  -- After `resync`, with the failure counted: the server's own list of what is missing.
  pub resynced : Gaps R → ℕ → Act S (Round R)
  unfolding report
  resynced st failures = do
    status ← fetch_status d session
    if status.completed then give over else do
      does (report (sort by_offset status.missing))
      give (
          again (record st {
            gaps = sort by_offset status.missing;
            failures_since_progress = failures;
          }))

  -- A failure without progress: past the budget, the upload fails.
  pub budgeted : ℕ → ℕ → Act S (Round R) → Act S (Round R)
  budgeted failures offset next =
      if ltb chunk_retries failures then throw (no_progress failures offset) else next

  pub settle : ChunkVerdict → Gaps R → Range → List Range → ℕ → ℕ → Act S (Round R)
  unfolding stored delayed resynced budgeted
  settle ChunkVerdict.ok st gap rest len started = stored st gap rest len started
  settle ChunkVerdict.gone st gap rest len started = throw session_gone
  settle ChunkVerdict.restart st gap rest len started = throw session_gone
  settle ChunkVerdict.fatal st gap rest len started = throw (chunk_rejected gap.offset)
  settle ChunkVerdict.retry st gap rest len started =
      let failures = suc st.failures_since_progress in
      budgeted failures gap.offset (delayed st failures)
  settle ChunkVerdict.resync st gap rest len started =
      let failures = suc st.failures_since_progress in
      budgeted failures gap.offset (resynced st failures)

  -- The piece that a round sends.
  abbrev pub sent_length : Gaps R → Range → ℕ
  sent_length st gap = piece_length st.sizer.base (length blob) st.sizer.next gap

  -- A round of the loop, on the first gap and the others.
  unfoldable pub send_piece : Gaps R → Range → List Range → Act S (Round R)
  unfolding settle
  send_piece st gap rest = do
    let len = sent_length st gap
    started ← run d.now
    verdict ← put_chunk d session gap.offset (subarray blob gap.offset (gap.offset + len))
    settle verdict st gap rest len started

  -- The body of the loop, with what follows a round that does not end it.
  pub loop_body :
      List Range
      → Gaps R
      → S
      → (Gaps R → S → Option (Result UploadError (Unit {0}) × S))
      → Option (Result UploadError (Unit {0}) × S)
  unfolding send_piece
  loop_body [] st s next = some (ok tt, s)
  loop_body (gap ∷ rest) st s next = follow (send_piece st gap rest s) next

  -- The loop on fuel; `none` means that the fuel ran out.
  unfoldable pub send_gaps : ℕ → Gaps R → S → Option (Result UploadError (Unit {0}) × S)
  unfolding loop_body
  send_gaps zero st s = none
  send_gaps (suc fuel) st s = loop_body st.gaps st s (send_gaps fuel)
