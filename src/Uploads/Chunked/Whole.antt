-- ===== src/Uploads/Chunked/Whole.antt =====
-- uploadSealedFileChunked of src/chunked-upload.ts ends, and completes only a file that is whole.
use privchat_sdk_typescript.Prelude.{
  ℕ, zero, suc, ◌+◌, ◌*◌, ◌≤◌, ◌<◌, ◌≡◌, inl, inr, refl, Text, Option, some, List, [], ◌∷◌, All,
  Result, err, ok, arith, false, Bool-cases, Result-cases, ap, if◌then◌else◌, subst,
}
use privchat_sdk_typescript.Sorting.{sort, sort-All}
use privchat_sdk_typescript.Uploads.{
  UploadDeps, UploadError, ChunkedUploadSession, Transport, proxy_offset, s3_multipart, Range,
  UploadStatus, Payload, On, On-after, On-intro, after, fetch_status, complete,
  assert_secure_upload_url,
}
use privchat_sdk_typescript.Uploads.Sizer.{base_of, base_of-positive, new_sizer-IsSized}
use privchat_sdk_typescript.Uploads.Gaps.{missing_bytes, by_offset, chunk_retries, report}
use privchat_sdk_typescript.Uploads.Gaps.Keeping.{IsGap, Keeps, missing_bytes-sort}
use privchat_sdk_typescript.Uploads.Gaps.Ends.{IsLoop, Uploaded, send_gaps-Ends}
use privchat_sdk_typescript.Uploads.Parts.{upload_s3_parts}
use privchat_sdk_typescript.Uploads.Chunked.{
  Start, finished, missing, s3_rounds, completes, after_rounds, listed, on_transport, start_upload,
  end_upload, continue_upload, upload_sealed_file_chunked,
}

module _ {S R : Type 0} (d : UploadDeps S R) (session : ChunkedUploadSession) (blob : List ℕ)
    (Behind : S → List Range → Type 0) (Completed : S → Type 0)
    (keeps : Keeps d session blob Behind Completed) (most : ℕ)
    (listed_at_most : (s : S) (status : UploadStatus)
      → (fetch_status d session s).0 ≡ ok status
      → missing_bytes status.missing ≤ most)
    (business_id : Option Text) where
  -- The answer of the completion that was asked for when the server missed nothing.
  abbrev pub CompletedBy : Payload → S → Type 0
  CompletedBy result s =
      (before : S) × Uploaded d session blob Behind Completed keeps before
      × (complete d session business_id before ≡ (ok result, s))

  abbrev Started : Start R → S → Type 0
  Started (finished result) s = CompletedBy result s
  Started (missing st) s =
      IsLoop d session blob Behind Completed keeps st s × (missing_bytes st.gaps ≤ most)

  abbrev WholeIfNothing : List Range → S → Type 0
  WholeIfNothing gaps s = gaps ≡ [] → Uploaded d session blob Behind Completed keeps s

  status_given-Whole :
      (s : S) (status : UploadStatus)
      → (fetch_status d session s).0 ≡ ok status
      → WholeIfNothing status.missing (fetch_status d session s).1
  unfolding sort
  status_given-Whole s status given none_left = elim (Bool-cases status.completed) [
    | inl done ↦ inr (keeps.status_completed s status given done)
    | inr more ↦ inl (
        subst (λ gaps. Behind (fetch_status d session s).1 (sort by_offset gaps)) none_left
          (keeps.status_listed s status given more).1)
  ]

  status-Whole : (s : S) → On (λ status. WholeIfNothing status.missing) (fetch_status d session s)
  status-Whole s = On-intro _ (fetch_status d session s) (status_given-Whole s)

  s3_rounds-Whole :
      (left : ℕ) (gaps : List Range) (s : S)
      → WholeIfNothing gaps s
      → On WholeIfNothing (s3_rounds d session blob left gaps s)
  unfolding s3_rounds
  s3_rounds-Whole zero gaps s whole = whole
  s3_rounds-Whole (suc left) [] s whole = whole
  s3_rounds-Whole (suc left) (gap ∷ rest) s whole =
      On-after (λ u s'. Unit {0}) WholeIfNothing (upload_s3_parts d session blob (gap ∷ rest) s) _
        (On-intro (λ u s'. Unit {0}) (upload_s3_parts d session blob (gap ∷ rest) s)
          (λ u given. tt))
        (λ u s' t.
          On-after (λ status. WholeIfNothing status.missing) WholeIfNothing
            (fetch_status d session s') (λ status. s3_rounds d session blob left status.missing)
            (status-Whole s') (λ status s'' whole'. s3_rounds-Whole left status.missing s'' whole'))

  completes-Started :
      (s : S)
      → Uploaded d session blob Behind Completed keeps s
      → On Started (completes d session blob business_id s)
  unfolding completes
  completes-Started s whole =
      On-after (λ result. CompletedBy result) Started (complete d session business_id s) _
        (On-intro _ (complete d session business_id s)
          (λ result given. (s, whole, ap (λ r. (r, (complete d session business_id s).1)) given)))
        (λ result s' by. by)

  after_rounds-Started :
      (gaps : List Range) (s : S)
      → WholeIfNothing gaps s
      → On Started (after_rounds d session blob business_id gaps s)
  unfolding after_rounds
  after_rounds-Started [] s whole = completes-Started s (whole refl)
  after_rounds-Started (gap ∷ rest) s whole = tt

  listed-Started :
      (gaps : List Range) (s : S)
      → All IsGap gaps
      → Behind s gaps
      → missing_bytes gaps ≤ most
      → On Started (listed d session blob business_id gaps s)
  unfolding listed report
  listed-Started gaps s positive behind few = (
    record {
      sized = new_sizer-IsSized (base_of session.base_unit) (base_of-positive session.base_unit);
      positive = positive;
      budget = omega arith;
      behind = keeps.callback _ s gaps behind;
    },
    few,
  )

  on_transport-Started :
      (transport : Transport) (s : S) (status : UploadStatus)
      → (fetch_status d session s).0 ≡ ok status
      → status.completed ≡ false
      → On Started (
          on_transport d session blob business_id transport status.missing
            (fetch_status d session s).1)
  unfolding on_transport
  on_transport-Started s3_multipart s status given more =
      On-after WholeIfNothing Started
        (s3_rounds d session blob (suc chunk_retries) status.missing (fetch_status d session s).1)
        (after_rounds d session blob business_id)
        (s3_rounds-Whole (suc chunk_retries) status.missing (fetch_status d session s).1
          (status_given-Whole s status given))
        after_rounds-Started
  on_transport-Started proxy_offset s status given more =
      let kept = keeps.status_listed s status given more in
      listed-Started (sort by_offset status.missing) (fetch_status d session s).1
        (sort-All by_offset IsGap status.missing kept.0) kept.1
        (omega (arith, missing_bytes-sort status.missing, listed_at_most s status given))

  first_status-Started :
      (s : S) (status : UploadStatus)
      → (fetch_status d session s).0 ≡ ok status
      → On Started (
          (if status.completed
              then completes d session blob business_id
              else on_transport d session blob business_id session.transport status.missing)
            (fetch_status d session s).1)
  first_status-Started s status given = elim (Bool-cases status.completed) [
    | inl done ↦ rw done (completes-Started _ (inr (keeps.status_completed s status given done)))
    | inr more ↦ rw more (on_transport-Started session.transport s status given more)
  ]

  start_upload-Started : (s : S) → On Started (start_upload d session blob business_id s)
  unfolding start_upload
  start_upload-Started s =
      On-after (λ u s'. Unit {0}) Started (assert_secure_upload_url d session.upload_url s) _
        (On-intro (λ u s'. Unit {0}) (assert_secure_upload_url d session.upload_url s)
          (λ u given. tt))
        (λ u s' t. elim (Result-cases (fetch_status d session s').0) [
          | inl (status, given) ↦ rw (given, after) (first_status-Started s' status given)
          | inr (thrown, failed) ↦ rw (failed, after) tt
        ])

  abbrev EndsBy : Option (Result UploadError Payload × S) → Type 0
  EndsBy o = (r : Result UploadError Payload) × (s : S) × (o ≡ some (r, s)) × On CompletedBy (r, s)

  end_upload-EndsBy :
      (r : Result UploadError (Unit {0})) (s : S)
      → On (λ u. Uploaded d session blob Behind Completed keeps) (r, s)
      → EndsBy (end_upload d session blob business_id (some (r, s)))
  unfolding end_upload
  end_upload-EndsBy (err e) s whole = (err e, s, refl, tt)
  end_upload-EndsBy (ok u) s whole = (
    (complete d session business_id s).0,
    (complete d session business_id s).1,
    refl,
    On-intro CompletedBy (complete d session business_id s)
        (λ result given. (s, whole, ap (λ r. (r, (complete d session business_id s).1)) given)),
  )

  continue_upload-EndsBy :
      (fuel : ℕ) (start : Result UploadError (Start R) × S)
      → 3 * most + 2 < fuel
      → On Started start
      → EndsBy (continue_upload d session blob business_id fuel start)
  unfolding continue_upload
  continue_upload-EndsBy fuel (err e, s) enough started = (err e, s, refl, tt)
  continue_upload-EndsBy fuel (ok (finished result), s) enough started =
      (ok result, s, refl, started)
  continue_upload-EndsBy fuel (ok (missing st), s) enough started =
      let (r, s', ended, whole) =
        send_gaps-Ends d session blob Behind Completed keeps fuel st s started.0 (omega arith) in
      rw ended (end_upload-EndsBy r s' whole)

  -- With enough fuel for what a status may list, the upload of a sealed file ends; and it gives a
  -- result only where the server answered the completion with it, asked for when the server missed
  -- nothing or had said that it has the whole file.
  pub upload_sealed_file_chunked-CompletedBy :
      (fuel : ℕ) (s : S)
      → 3 * most + 2 < fuel
      → (r : Result UploadError Payload) × (s' : S) × (upload_sealed_file_chunked d session blob
            business_id fuel s
          ≡ some (r, s'))
        × On CompletedBy (r, s')
  unfolding upload_sealed_file_chunked
  upload_sealed_file_chunked-CompletedBy fuel s enough =
      continue_upload-EndsBy fuel (start_upload d session blob business_id s) enough
        (start_upload-Started s)
