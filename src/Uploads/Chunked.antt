-- ===== src/Uploads/Chunked.antt =====
-- uploadSealedFileChunked of src/chunked-upload.ts, by either data plane.
pub mod Whole
use privchat_sdk_typescript.Prelude.{
  ℕ, zero, suc, ◌*◌, Text, Option, none, some, Bool, true, false, List, [], ◌∷◌, not, nat_eq,
  length, ltb, ◌==◌, or_else, if◌then◌else◌, codes, ◌&&◌, ◌||◌, Result, err, ok,
}
use privchat_sdk_typescript.Sorting.{sort}
use privchat_sdk_typescript.Uploads.{
  UploadDeps, UploadError, ChunkedUploadSession, Transport, proxy_offset, s3_multipart, Range,
  UploadStatus, Payload, Act, after, ◌>>=◌, ◌>>◌, give, throw, does, session_gone, bad_geometry,
  still_exists, no_attachment_key, no_chunk_size, incomplete_token, still_missing, wrong_length,
  rpc_failed, fetch_status, complete, assert_secure_upload_url,
}
use privchat_sdk_typescript.Uploads.Sizer.{new_sizer, base_of}
use privchat_sdk_typescript.Uploads.Gaps.{Gaps, by_offset, report, send_gaps, chunk_retries}
use privchat_sdk_typescript.Uploads.Parts.{upload_s3_parts}

-- What the steps before the loop come to.
pub data Start (R : Type 0) : Type 0 where
  finished : Payload → Start R
  missing : Gaps R → Start R

module _ {S R : Type 0} (d : UploadDeps S R) where
  module _ (session : ChunkedUploadSession) (blob : List ℕ) where
    -- The rounds of the S3 data plane, `left` of them; gives what is missing still.
    unfoldable pub s3_rounds : ℕ → List Range → Act S (List Range)
    s3_rounds zero gaps = give gaps
    s3_rounds (suc left) [] = give []
    s3_rounds (suc left) (gap ∷ rest) = do
      upload_s3_parts d session blob (gap ∷ rest)
      status ← fetch_status d session
      s3_rounds left status.missing

    module _ (business_id : Option Text) where
      pub completes : Act S (Start R)
      completes = do result ← complete d session business_id; give (finished result)

      pub after_rounds : List Range → Act S (Start R)
      unfolding completes
      after_rounds [] = completes
      after_rounds (gap ∷ rest) = throw (still_missing (length (gap ∷ rest)))

      -- What is missing at first, reported.
      pub listed : List Range → Act S (Start R)
      unfolding report
      listed gaps = do
        does (report d session blob gaps)
        give (
            missing (record {
              gaps = gaps;
              sizer = new_sizer (base_of session.base_unit);
              failures_since_progress = 0;
            }))

      pub on_transport : Transport → List Range → Act S (Start R)
      unfolding after_rounds listed s3_rounds
      on_transport s3_multipart gaps = do
        left ← s3_rounds (suc chunk_retries) gaps
        after_rounds left
      on_transport proxy_offset gaps = listed (sort by_offset gaps)

      pub start_upload : Act S (Start R)
      unfolding completes on_transport
      start_upload = do
        assert_secure_upload_url d session.upload_url
        first ← fetch_status d session
        if first.completed then completes else on_transport session.transport first.missing

      pub end_upload :
          Option (Result UploadError (Unit {0}) × S) → Option (Result UploadError Payload × S)
      end_upload none = none
      end_upload (some (err e, s)) = some (err e, s)
      end_upload (some (ok u, s)) = some (complete d session business_id s)

      pub continue_upload :
          ℕ → Result UploadError (Start R) × S → Option (Result UploadError Payload × S)
      unfolding end_upload
      continue_upload fuel (err e, s) = some (err e, s)
      continue_upload fuel (ok (finished result), s) = some (ok result, s)
      continue_upload fuel (ok (missing st), s) = end_upload (send_gaps d session blob fuel st s)

      -- `fuel` bounds the rounds of the loop over the gaps; `none` means that it ran out.
      unfoldable pub upload_sealed_file_chunked : ℕ → S → Option (Result UploadError Payload × S)
      unfolding start_upload continue_upload
      upload_sealed_file_chunked fuel s = continue_upload fuel (start_upload s)
