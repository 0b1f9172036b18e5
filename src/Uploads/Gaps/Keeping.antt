-- ===== src/Uploads/Gaps/Keeping.antt =====
-- What the loop over the gaps of src/chunked-upload.ts relies on of a server, and how gaps shrink.
use privchat_sdk_typescript.Prelude.{
  ℕ, ◌+◌, ◌≤◌, ◌<◌, ◌≡◌, refl, List, [], ◌∷◌, All, ok, arith, true, false,
}
use privchat_sdk_typescript.Sorting.{insert, sort}
use privchat_sdk_typescript.Codes.{ChunkVerdict}
use privchat_sdk_typescript.Uploads.{
  UploadDeps, ChunkedUploadSession, Progress, Range, UploadStatus, put_chunk, fetch_status,
  subarray,
}
use privchat_sdk_typescript.Uploads.Gaps.{missing_bytes, by_offset, piece_length, advanced}

abbrev pub IsGap : Range → Type 0
IsGap gap = 0 < gap.length

-- A piece is not empty and lies in its gap.
pub piece_length_bounds :
    (base total next : ℕ) (gap : Range)
    → 0 < base
    → base ≤ next
    → 0 < gap.length
    → (0 < piece_length base total next gap) × (piece_length base total next gap ≤ gap.length)
unfolding piece_length
piece_length_bounds base total next gap b n g = ground arith

pub advanced-IsGap :
    (gap : Range) (rest : List Range) (len : ℕ) → All IsGap rest → All IsGap (advanced gap rest len)
unfolding advanced
advanced-IsGap gap rest len a = ground arith

pub missing_bytes-advanced :
    (gap : Range) (rest : List Range) (len : ℕ)
    → len ≤ gap.length
    → missing_bytes (advanced gap rest len) + len ≡ gap.length + missing_bytes rest
unfolding advanced
missing_bytes-advanced gap rest len h = ground arith

pub missing_bytes-sort :
    (gaps : List Range) → missing_bytes (sort by_offset gaps) ≡ missing_bytes gaps
unfolding sort
missing_bytes-sort [] = refl
missing_bytes-sort (gap ∷ rest) =
    omega (arith, missing_bytes-insert gap (sort by_offset rest), missing_bytes-sort rest)
  where
    missing_bytes-insert :
        (gap : Range) (gaps : List Range)
        → missing_bytes (insert by_offset gap gaps) ≡ gap.length + missing_bytes gaps
    missing_bytes-insert gap [] = refl
    missing_bytes-insert gap (g ∷ gs) = ground (arith, missing_bytes-insert gap gs)

-- What a server and a platform do. `Behind s gaps`: whatever the server misses lies in `gaps`.
-- A stored piece is no longer missing, nothing else makes the server miss more, and a status lists
-- what is missing, in ranges that are not empty. `Completed`: a status said so.
pub record Keeps {S R : Type 0} (d : UploadDeps S R) (session : ChunkedUploadSession)
    (blob : List ℕ) (Behind : S → List Range → Type 0) (Completed : S → Type 0) : Type 0 where
  pub clock : (s : S) (gaps : List Range) → Behind s gaps → Behind (d.now s).1 gaps
  pub timer : (n : ℕ) (s : S) (gaps : List Range) → Behind s gaps → Behind (d.sleep n s) gaps
  pub callback :
      (p : Progress) (s : S) (gaps : List Range) → Behind s gaps → Behind (d.on_progress p s) gaps
  pub chunk_stored :
      (s : S) (gap : Range) (rest : List Range) (len : ℕ)
      → Behind s (gap ∷ rest)
      → len ≤ gap.length
      → (put_chunk d session gap.offset (subarray blob gap.offset (gap.offset + len)) s).0
        ≡ ok ChunkVerdict.ok
      → Behind
          (put_chunk d session gap.offset (subarray blob gap.offset (gap.offset + len)) s).1
          (advanced gap rest len)
  pub chunk_kept :
      (s : S) (offset : ℕ) (bytes : List ℕ) (gaps : List Range)
      → Behind s gaps
      → Behind (put_chunk d session offset bytes s).1 gaps
  pub status_listed :
      (s : S) (status : UploadStatus)
      → (fetch_status d session s).0 ≡ ok status
      → status.completed ≡ false
      → All IsGap status.missing
        × Behind (fetch_status d session s).1 (sort by_offset status.missing)
  pub status_left :
      (s : S) (gaps : List Range) (status : UploadStatus)
      → Behind s gaps
      → (fetch_status d session s).0 ≡ ok status
      → status.completed ≡ false
      → missing_bytes status.missing ≤ missing_bytes gaps
  pub status_completed :
      (s : S) (status : UploadStatus)
      → (fetch_status d session s).0 ≡ ok status
      → status.completed ≡ true
      → Completed (fetch_status d session s).1
