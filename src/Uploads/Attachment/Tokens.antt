-- ===== src/Uploads/Attachment/Tokens.antt =====
-- uploadSealedAttachment of src/chunked-upload.ts ends, and names the token that its result is for.
use privchat_sdk_typescript.Prelude.{
  ℕ, ◌≡◌, ◌⊎◌, inl, inr, refl, Text, Bool, Option, some, List, Result, err, ok, true, false,
  Bool-cases, Option-cases, ap,
}
use privchat_sdk_typescript.Uploads.{
  UploadDeps, UploadError, ChunkedUploadSession, Payload, On, On-after, On-intro, after, give,
}
use privchat_sdk_typescript.Uploads.Chunked.{upload_sealed_file_chunked}
use privchat_sdk_typescript.Uploads.Attachment.{
  UploadClient, UploadToken, UploadFile, UploadedFile, Offer, claimed, offered, claim_of, sha,
  token_asked, claim, claim_miss_should_reupload, reupload, unless_exists, first_offer,
  second_offer, sealed_for, with_token, upload_sealed, upload_again, renew, upload_offered,
  upload_first, upload_sealed_attachment,
}

module _ {S R : Type 0} (d : UploadDeps S R) (client : UploadClient S) (file : UploadFile)
    (fuel : ℕ)
    (each_ends : (prepared : UploadToken) (before : S) (session : ChunkedUploadSession)
        (blob : List ℕ) (s : S)
      → sealed_for d client prepared file.plaintext before ≡ (ok (session, blob), s)
      → (r : Result UploadError Payload) × (s' : S) × (upload_sealed_file_chunked d session blob
            file.business_id fuel s
          ≡ some (r, s'))) where
  -- The file was claimed by the token.
  abbrev pub Claimed : UploadedFile → S → Type 0
  Claimed f s =
      (before : S) × (client.file_claim_existing f.token (sha d client file) before
        ≡ (ok f.result, s))

  -- The file was sealed for the session of the token, and what was sealed was uploaded there at once.
  abbrev pub Sent : UploadedFile → S → Type 0
  Sent f s =
      (prepared : UploadToken) × (asked : S) × (session : ChunkedUploadSession) × (blob : List ℕ)
      × (before : S) × (sealed_for d client prepared file.plaintext asked
          ≡ (ok (session, blob), before))
      × (session.upload_token ≡ f.token)
      × (upload_sealed_file_chunked d session blob file.business_id fuel before
          ≡ some (ok f.result, s))

  abbrev pub Delivered : UploadedFile → S → Type 0
  Delivered f s = Claimed f s ⊎ Sent f s

  abbrev Offered : Offer → S → Type 0
  Offered (claimed f) s = Claimed f s
  Offered (offered prepared) s = Unit {0}

  claim-Offered : (token : Text) (s : S) → On Offered (claim d client file token s)
  unfolding claim
  claim-Offered token s =
      On-after
        (λ result s'. client.file_claim_existing token (sha d client file) s ≡ (ok result, s'))
        Offered (client.file_claim_existing token (sha d client file) s) _
        (On-intro _ (client.file_claim_existing token (sha d client file) s) (λ result given.
          ap (λ r. (r, (client.file_claim_existing token (sha d client file) s).1)) given))
        (λ result s' given. (s, given))

  requested-Offered :
      (force : Bool) (s : S)
      → On Offered (after (token_asked d client file force s) (λ prepared. give (offered prepared)))
  requested-Offered force s =
      On-after (λ prepared s'. Unit {0}) Offered (token_asked d client file force s) _
        (On-intro (λ prepared s'. Unit {0}) (token_asked d client file force s)
          (λ prepared given. tt))
        (λ prepared s' t. tt)

  reupload-Offered :
      (r : Result UploadError Offer × S) → On Offered r → On Offered (reupload d client file r)
  unfolding reupload
  reupload-Offered (ok offer, s) h = h
  reupload-Offered (err e, s) h = elim (Bool-cases (claim_miss_should_reupload e)) [
    | inl missed ↦ rw missed (requested-Offered true s)
    | inr other ↦ rw other tt
  ]

  unless_exists-Offered :
      (offer : Offer) (s : S) → Offered offer s → On Offered (unless_exists d client file offer s)
  unfolding unless_exists
  unless_exists-Offered (claimed f) s h = h
  unless_exists-Offered (offered prepared) s h = elim (Bool-cases prepared.already_exists) [
    | inl held ↦ rw held tt
    | inr not_held ↦ rw not_held tt
  ]

  first_offer-Offered : (s : S) → On Offered (first_offer d client file s)
  unfolding first_offer
  first_offer-Offered s =
      On-after (λ prepared s'. Unit {0}) Offered (token_asked d client file false s) _
        (On-intro (λ prepared s'. Unit {0}) (token_asked d client file false s)
          (λ prepared given. tt))
        (λ prepared s' t. elim (Option-cases (claim_of prepared)) [
          | inl none_held ↦ rw none_held (unless_exists-Offered (offered prepared) s' tt)
          | inr (token, held) ↦ rw held (
              On-after Offered Offered (reupload d client file (claim d client file token s'))
                (unless_exists d client file)
                (reupload-Offered (claim d client file token s') (claim-Offered token s'))
                unless_exists-Offered)
        ])

  second_offer-Offered : (s : S) → On Offered (second_offer d client file s)
  unfolding second_offer
  second_offer-Offered s =
      On-after (λ prepared s'. Unit {0}) Offered (token_asked d client file false s) _
        (On-intro (λ prepared s'. Unit {0}) (token_asked d client file false s)
          (λ prepared given. tt))
        (λ prepared s' t. elim (Option-cases (claim_of prepared)) [
          | inl none_held ↦ rw none_held tt
          | inr (token, held) ↦ rw held (claim-Offered token s')
        ])

  abbrev Ends : Option (Result UploadError UploadedFile × S) → Type 0
  Ends o = (r : Result UploadError UploadedFile) × (s : S) × (o ≡ some (r, s)) × On Delivered (r, s)

  with_token-Ends :
      (prepared : UploadToken) (asked : S) (session : ChunkedUploadSession) (blob : List ℕ) (s : S)
      → sealed_for d client prepared file.plaintext asked ≡ (ok (session, blob), s)
      → Ends (
          with_token session.upload_token
            (upload_sealed_file_chunked d session blob file.business_id fuel s))
  with_token-Ends prepared asked session blob s fits =
      ended (each_ends prepared asked session blob s fits)
    where
      ended :
          ((r : Result UploadError Payload) × (s' : S) × (upload_sealed_file_chunked d session blob
                file.business_id fuel s
              ≡ some (r, s')))
          → Ends (
              with_token session.upload_token
                (upload_sealed_file_chunked d session blob file.business_id fuel s))
      ended (err e, s', done) = (err e, s', rw done refl, tt)
      ended (ok result, s', done) = (
        ok (record { result = result; token = session.upload_token }),
        s',
        rw done refl,
        inr (prepared, asked, session, blob, s, fits, refl, done),
      )

  upload_sealed-Ends :
      (prepared : UploadToken) (asked : S)
      (sealed : Result UploadError (ChunkedUploadSession × List ℕ) × S)
      → sealed_for d client prepared file.plaintext asked ≡ sealed
      → Ends (upload_sealed d client file fuel sealed)
  unfolding upload_sealed
  upload_sealed-Ends prepared asked (err e, s) fits = (err e, s, refl, tt)
  upload_sealed-Ends prepared asked (ok (session, blob), s) fits =
      with_token-Ends prepared asked session blob s fits

  upload_again-Ends :
      (offer : Result UploadError Offer × S)
      → On Offered offer
      → Ends (upload_again d client file fuel offer)
  unfolding upload_again
  upload_again-Ends (err e, s) h = (err e, s, refl, tt)
  upload_again-Ends (ok (claimed f), s) h = (ok f, s, refl, inl h)
  upload_again-Ends (ok (offered prepared), s) h =
      upload_sealed-Ends prepared s (sealed_for d client prepared file.plaintext s) refl

  renew-Ends :
      (r : Result UploadError UploadedFile) (s : S)
      → On Delivered (r, s)
      → Ends (renew d client file fuel (some (r, s)))
  unfolding renew
  renew-Ends (ok f) s h = (ok f, s, refl, h)
  renew-Ends (err UploadError.session_gone) s h =
      upload_again-Ends (second_offer d client file s) (second_offer-Offered s)
  renew-Ends (err e) s h = (err e, s, refl, tt)

  upload_offered-Ends :
      (prepared : UploadToken) (asked : S)
      (sealed : Result UploadError (ChunkedUploadSession × List ℕ) × S)
      → sealed_for d client prepared file.plaintext asked ≡ sealed
      → Ends (upload_offered d client file fuel sealed)
  unfolding upload_offered
  upload_offered-Ends prepared asked (err e, s) fits = (err e, s, refl, tt)
  upload_offered-Ends prepared asked (ok sealed, s) fits =
      let (r, s', done, h) = upload_sealed-Ends prepared asked (ok sealed, s) fits in
      rw done (renew-Ends r s' h)

  upload_first-Ends :
      (offer : Result UploadError Offer × S)
      → On Offered offer
      → Ends (upload_first d client file fuel offer)
  unfolding upload_first
  upload_first-Ends (err e, s) h = (err e, s, refl, tt)
  upload_first-Ends (ok (claimed f), s) h = (ok f, s, refl, inl h)
  upload_first-Ends (ok (offered prepared), s) h =
      upload_offered-Ends prepared s (sealed_for d client prepared file.plaintext s) refl

  -- Where the fuel is enough for the upload of what the file is sealed into, for any session that is
  -- offered, the upload of the file ends; and if it does not throw, the token that it gives with the
  -- result is the one that claimed the file, or that of a session for which the file was sealed and in
  -- which what was sealed was then uploaded, with that result.
  pub upload_sealed_attachment-Delivered :
      (s : S)
      → (r : Result UploadError UploadedFile) × (s' : S) × (upload_sealed_attachment d client file
            fuel s
          ≡ some (r, s'))
        × On Delivered (r, s')
  unfolding upload_sealed_attachment
  upload_sealed_attachment-Delivered s =
      upload_first-Ends (first_offer d client file s) (first_offer-Offered s)
