-- ===== src/Uploads/Attachment.antt =====
-- uploadSealedAttachment of src/chunked-upload.ts: a token, the claim of
-- a file that the server has, the sealing, the upload by either data plane, a new session once.
pub mod Tokens
use privchat_sdk_typescript.Prelude.{
  ℕ, zero, suc, ◌*◌, Text, Option, none, some, Bool, true, false, List, [], ◌∷◌, not, nat_eq,
  length, ltb, ◌==◌, or_else, if◌then◌else◌, codes, ◌&&◌, ◌||◌, Result, err, ok,
}
use privchat_sdk_typescript.Sorting.{sort}
use privchat_sdk_typescript.Uploads.{
  UploadDeps, UploadError, ChunkedUploadSession, Transport, proxy_offset, s3_multipart, Range,
  UploadStatus, Payload, Act, after, ◌>>=◌, ◌>>◌, give, throw, does, session_gone, bad_geometry,
  still_exists, no_attachment_key, no_chunk_size, incomplete_token, still_missing, wrong_length,
  rpc_failed, fetch_status, complete, assert_secure_upload_url,
}
use privchat_sdk_typescript.Uploads.Sizer.{new_sizer, base_of}
use privchat_sdk_typescript.Uploads.Gaps.{Gaps, by_offset, report, send_gaps, chunk_retries}
use privchat_sdk_typescript.Uploads.Parts.{upload_s3_parts}
use privchat_sdk_typescript.Uploads.Chunked.{upload_sealed_file_chunked}

pub record AttachmentKey : Type 0 where
  pub key : Text
  pub key_id : Text

-- The response to `file/request_chunked_upload_token`.
pub record UploadToken : Type 0 where
  pub already_exists : Bool
  pub claim_token : Option Text
  pub upload_token : Option Text
  pub upload_url : Option Text
  pub base_unit : Option ℕ
  pub expires_at : Option ℕ
  pub transport : Option Transport
  pub part_size : Option ℕ
  pub total_parts : Option ℕ
  pub attachment_key : Option AttachmentKey
  pub chunk_plain_size : Option ℕ
  pub total_size : Option ℕ

pub record UploadFile : Type 0 where
  pub plaintext : List ℕ
  pub filename : Text
  pub mime_type : Text
  pub file_type : Text
  pub business_type : Option Text
  pub business_id : Option Text

-- `supported_upload_transports` is the same in every request.
pub record TokenRequest : Type 0 where
  pub file_type : Text
  pub business_type : Text
  pub plaintext_size : ℕ
  pub plaintext_sha256 : Text
  pub mime_type : Text
  pub filename : Text
  pub force_upload : Bool

-- The RPC client, and the sealing by the platform's cryptography.
pub record UploadClient (S : Type 0) : Type 0 where
  pub file_request_chunked_upload_token : TokenRequest → Act S UploadToken
  pub file_claim_existing : Text → Text → Act S Payload
  pub seal_attachment : List ℕ → AttachmentKey → ℕ → Act S (List ℕ)

pub record UploadedFile : Type 0 where
  pub result : Payload
  pub token : Text

-- A string that is set and not empty.
unfoldable pub set_text : Option Text → Option Text
set_text none = none
set_text (some []) = none
set_text (some (x ∷ xs)) = some (x ∷ xs)

strip : Text → Text
strip [] = []
strip (x ∷ xs) =
    let rest = strip xs in elim rest [ [] ↦ if x == b'/' then [] else x ∷ [] | y ∷ ys ↦ x ∷ y ∷ ys ]

abbrev pub is_set : Option ℕ → Bool
is_set none = false
is_set (some n) = not (n == 0)

pub claim_miss_should_reupload : UploadError → Bool
claim_miss_should_reupload (rpc_failed (some code)) = code == 10201
claim_miss_should_reupload _ = false

session_with : UploadToken → Text → Text → ChunkedUploadSession
session_with r token url = record {
  upload_token = token;
  upload_url = url;
  base_unit = if is_set r.base_unit then or_else r.base_unit 0 else 65536;
  transport = or_else r.transport proxy_offset;
  part_size = r.part_size;
  total_parts = r.total_parts;
  expires_at = r.expires_at;
}

abbrev is_s3 : Transport → Bool
is_s3 s3_multipart = true
is_s3 proxy_offset = false

module _ {S R : Type 0} (d : UploadDeps S R) (client : UploadClient S) where
  -- `replace(/\/+$/, '')` of the URL, and the checks on the response.
  session_of : UploadToken → Act S ChunkedUploadSession
  unfolding strip session_with
  session_of r = elim (set_text r.upload_token) [
    | none ↦ throw incomplete_token
    | some token ↦ elim (set_text r.upload_url) [
      | none ↦ throw incomplete_token
      | some url ↦
          if is_s3 (or_else r.transport proxy_offset)
            && not (is_set r.part_size && is_set r.total_parts)
          then throw bad_geometry
          else assert_secure_upload_url d (strip url) >> give (session_with r token (strip url))
    ]
  ]

  length_checked : Option ℕ → List ℕ → Act S (List ℕ)
  length_checked none blob = give blob
  length_checked (some expected) blob =
      if expected == length blob then give blob else throw (wrong_length (length blob) expected)

  seal_for_session : UploadToken → List ℕ → Act S (List ℕ)
  unfolding length_checked
  seal_for_session prepared plaintext = elim prepared.attachment_key [
    | none ↦ throw no_attachment_key
    | some key ↦
        if is_set prepared.chunk_plain_size
        then client.seal_attachment plaintext key (or_else prepared.chunk_plain_size 0)
          >>= length_checked prepared.total_size
        else throw no_chunk_size
  ]

  -- A sealed file and the session that it is for.
  pub sealed_for : UploadToken → List ℕ → Act S (ChunkedUploadSession × List ℕ)
  unfolding session_of seal_for_session
  sealed_for prepared plaintext = do
    session ← session_of prepared
    blob ← seal_for_session prepared plaintext
    give (session, blob)

pub data Offer : Type 0 where
  claimed : UploadedFile → Offer
  offered : UploadToken → Offer

-- The claim token of a file that the server has.
abbrev pub claim_of : UploadToken → Option Text
claim_of prepared = if prepared.already_exists then set_text prepared.claim_token else none

abbrev pub with_token :
    {S : Type 0}
    → Text
    → Option (Result UploadError Payload × S)
    → Option (Result UploadError UploadedFile × S)
with_token token none = none
with_token token (some (err e, s)) = some (err e, s)
with_token token (some (ok result, s)) = some (ok (record { result = result; token = token }), s)

module _ {S R : Type 0} (d : UploadDeps S R) (client : UploadClient S) (file : UploadFile) where
  abbrev pub sha : Text
  sha = d.sha256_hex file.plaintext

  pub token_asked : Bool → Act S UploadToken
  token_asked force_upload = client.file_request_chunked_upload_token (record {
    file_type = file.file_type;
    business_type = or_else file.business_type (codes "message");
    plaintext_size = length file.plaintext;
    plaintext_sha256 = sha;
    mime_type = file.mime_type;
    filename = file.filename;
    force_upload = force_upload;
  })

  pub claim : Text → Act S Offer
  claim token = do
    result ← client.file_claim_existing token sha
    give (claimed (record { result = result; token = token }))

  -- A claim that misses asks for an upload.
  pub reupload : Result UploadError Offer × S → Result UploadError Offer × S
  unfolding claim_miss_should_reupload token_asked
  reupload (ok offer, s) = (ok offer, s)
  reupload (err e, s) =
      if claim_miss_should_reupload e
      then (token_asked true >>= λ prepared. give (offered prepared)) s
      else (err e, s)

  pub unless_exists : Offer → Act S Offer
  unless_exists (claimed result) = give (claimed result)
  unless_exists (offered prepared) =
      if prepared.already_exists then throw still_exists else give (offered prepared)

  pub first_offer : Act S Offer
  unfolding token_asked claim reupload unless_exists
  first_offer = do
    prepared ← token_asked false
    offer ← elim (claim_of prepared) [
      | none ↦ give (offered prepared)
      | some token ↦ λ s. reupload (claim token s)
    ]
    unless_exists offer

  pub second_offer : Act S Offer
  unfolding token_asked claim
  second_offer = do
    again ← token_asked false
    elim (claim_of again) [ none ↦ give (offered again) | some token ↦ claim token ]

  pub upload_sealed :
      ℕ
      → Result UploadError (ChunkedUploadSession × List ℕ) × S
      → Option (Result UploadError UploadedFile × S)
  upload_sealed fuel (err e, s) = some (err e, s)
  upload_sealed fuel (ok (session, blob), s) =
      with_token session.upload_token
        (upload_sealed_file_chunked d session blob file.business_id fuel s)

  -- The second session's upload is the last.
  pub upload_again : ℕ → Result UploadError Offer × S → Option (Result UploadError UploadedFile × S)
  unfolding upload_sealed
  upload_again fuel (err e, s) = some (err e, s)
  upload_again fuel (ok (claimed result), s) = some (ok result, s)
  upload_again fuel (ok (offered again), s) =
      upload_sealed fuel (sealed_for d client again file.plaintext s)

  -- Only a session that is gone is renewed, and what the sealing throws is not caught.
  pub renew :
      ℕ
      → Option (Result UploadError UploadedFile × S)
      → Option (Result UploadError UploadedFile × S)
  unfolding upload_again second_offer
  renew fuel none = none
  renew fuel (some (ok result, s)) = some (ok result, s)
  renew fuel (some (err session_gone, s)) = upload_again fuel (second_offer s)
  renew fuel (some (err e, s)) = some (err e, s)

  pub upload_offered :
      ℕ
      → Result UploadError (ChunkedUploadSession × List ℕ) × S
      → Option (Result UploadError UploadedFile × S)
  unfolding upload_sealed renew
  upload_offered fuel (err e, s) = some (err e, s)
  upload_offered fuel (ok sealed, s) = renew fuel (upload_sealed fuel (ok sealed, s))

  pub upload_first : ℕ → Result UploadError Offer × S → Option (Result UploadError UploadedFile × S)
  unfolding upload_offered
  upload_first fuel (err e, s) = some (err e, s)
  upload_first fuel (ok (claimed result), s) = some (ok result, s)
  upload_first fuel (ok (offered prepared), s) =
      upload_offered fuel (sealed_for d client prepared file.plaintext s)

  unfoldable pub upload_sealed_attachment : ℕ → S → Option (Result UploadError UploadedFile × S)
  unfolding upload_first first_offer
  upload_sealed_attachment fuel s = upload_first fuel (first_offer s)
