-- ===== src/Uploads/Parts.antt =====
-- The S3 data plane of src/chunked-upload.ts: the geometry of the parts, and uploadS3Parts.
pub mod Batches
pub mod Tiles
use privchat_sdk_typescript.Prelude.{
  ℕ, zero, suc, ◌+◌, ◌-◌, ◌*◌, ◌/◌, ◌^◌, Text, Option, none, some, Bool, true, false, List, [], ◌∷◌,
  ◌++◌, not, nat_eq, length, map, min, ltb, leb, ◌==◌, or_else, if◌then◌else◌, codes, find_by,
  some_by, take, ◌&&◌, ◌||◌, Result, err, ok, Bool-cases,
}
use privchat_sdk_typescript.Uploads.{
  UploadDeps, UploadError, ChunkedUploadSession, Range, SignedPart, PartDeclaration, Request,
  Response, Envelope, Payload, Act, after, ◌>>=◌, ◌>>◌, give, throw, run, does, session_gone,
  bad_geometry, part_urls_failed, part_omitted, part_failed, part_list, binary, token_header,
  json_header, response, network_error, abort_error, aborted, code_is, fetched, read_envelope,
  subarray, drop, assert_secure_upload_url,
}
use privchat_sdk_typescript.Uploads.Gaps.{missing_bytes, chunk_retries}

-- `partSize` and `totalParts` where both are set and neither is 0.
unfoldable pub geometry : ChunkedUploadSession → Option (ℕ × ℕ)
geometry session = elim session.part_size [
  | none ↦ none
  | some size ↦ elim session.total_parts [
    | none ↦ none
    | some parts ↦ if size == 0 || parts == 0 then none else some (size, parts)
  ]
]

-- The length of a part, from 1 to `parts`: the last has what is left.
unfoldable pub part_length : ℕ → ℕ → ℕ → ℕ → ℕ
part_length size parts total number = if number == parts then total - size * (parts - 1) else size

unfoldable pub part_offset : ℕ → ℕ → ℕ
part_offset size number = (number - 1) * size

unfoldable pub s3_part_length : {S : Type 0} → ChunkedUploadSession → ℕ → ℕ → Act S ℕ
s3_part_length session total number = elim (geometry session) [
  | none ↦ throw bad_geometry
  | some (size, parts) ↦
      if ltb number 1 || ltb parts number
      then throw bad_geometry
      else give (part_length size parts total number)
]

abbrev pub spans : ℕ → ℕ → Range → Bool
spans offset length gap = leb gap.offset offset && leb (offset + length) (gap.offset + gap.length)

-- The loop over the part numbers, `left` of them from `number` on.
unfoldable pub missing_from : ℕ → ℕ → ℕ → List Range → ℕ → ℕ → List ℕ
missing_from size parts total missing zero number = []
missing_from size parts total missing (suc left) number =
    if some_by (spans (part_offset size number) (part_length size parts total number)) missing
    then number ∷ missing_from size parts total missing left (suc number)
    else missing_from size parts total missing left (suc number)

unfoldable pub missing_s3_parts :
    {S : Type 0} → ChunkedUploadSession → ℕ → List Range → Act S (List ℕ)
unfolding missing_from
missing_s3_parts session total missing = elim (geometry session) [
  | none ↦ throw bad_geometry
  | some (size, parts) ↦ give (missing_from size parts total missing parts 1)
]

unfoldable pub batches : ℕ → ℕ → List ℕ → List (List ℕ)
batches size zero numbers = []
batches size (suc fuel) [] = []
batches size (suc fuel) (n ∷ ns) = take size (n ∷ ns) ∷ batches size fuel (drop size (n ∷ ns))

-- `byNumber.get(number)`: of two parts with one number the later is in the map.
signed_part : List SignedPart → ℕ → Option SignedPart
signed_part [] number = none
signed_part (p ∷ ps) number = elim (signed_part ps number) [
  | some later ↦ some later
  | none ↦ if p.part_number == number then some p else none
]

part_urls_request : ChunkedUploadSession → List PartDeclaration → Request
part_urls_request session parts = record {
  verb = codes "POST";
  url = session.upload_url ++ codes "/part-url";
  headers = token_header session ∷ json_header ∷ [];
  body = part_list parts;
}

part_urls_of : {S : Type 0} → Envelope → Act S (List SignedPart)
part_urls_of env =
    if code_is 20613 env.code
    then throw session_gone
    else if not (code_is 0 env.code)
    then throw (part_urls_failed env.code)
    else elim env.payload [
      | none ↦ throw (part_urls_failed env.code)
      | some p ↦ give (or_else p.parts [])
    ]

part_request : SignedPart → List ℕ → Request
part_request part bytes = record {
  verb = codes "PUT";
  url = part.url;
  headers = part.required_headers;
  body = binary bytes;
}

abbrev pub is_ok : Response → Bool
is_ok r = leb 200 r.status && ltb r.status 300

module _ {S R : Type 0} (d : UploadDeps S R) where
  request_part_urls : ChunkedUploadSession → List PartDeclaration → Act S (List SignedPart)
  unfolding part_urls_request part_urls_of
  request_part_urls session parts = do
    r ← fetched d (part_urls_request session parts)
    env ← read_envelope d r
    part_urls_of env

  -- The attempts at one part, `left` of them; `false` where none succeeded.
  unfoldable pub put_part : ℕ → ℕ → Request → Act S Bool
  put_part zero attempt request = give false
  put_part (suc left) attempt request = do
    let again = put_part left (suc attempt) request
    let retried =
        if ltb attempt chunk_retries then does (d.sleep (300 * 2 ^ attempt)) >> again else again
    got ← run (d.fetch request)
    elim got [
      | response r ↦ if is_ok r then give true else retried
      | network_error ↦ retried
      | abort_error ↦ throw aborted
    ]

  module _ (session : ChunkedUploadSession) (size : ℕ) (blob : List ℕ) where
    declaration : ℕ → Act S PartDeclaration
    declaration number = do
      length_of_part ← s3_part_length session (length blob) number
      give (record {
        part_number = number;
        content_length = length_of_part;
        checksum_sha256_hex =
            d.sha256_hex
              (subarray blob (part_offset size number) (part_offset size number + length_of_part));
      })

    declarations : List ℕ → Act S (List PartDeclaration)
    unfolding declaration
    declarations [] = give []
    declarations (n ∷ ns) = do one ← declaration n; others ← declarations ns; give (one ∷ others)

    -- After a part is stored: the progress.
    loaded_part : ℕ → PartDeclaration → Act S ℕ
    loaded_part loaded part = do
      let now_loaded = min (loaded + part.content_length) (length blob)
      does (
          d.on_progress (record {
            loaded = now_loaded;
            total = length blob;
            percent = d.percent now_loaded (length blob);
          }))
      give now_loaded

    -- One declared part; gives the number of bytes that are uploaded then.
    upload_part : List SignedPart → ℕ → PartDeclaration → Act S ℕ
    unfolding signed_part part_request put_part loaded_part
    upload_part signed loaded part = elim (signed_part signed part.part_number) [
      | none ↦ throw (part_omitted part.part_number)
      | some target ↦ do
        assert_secure_upload_url d target.url
        let start = part_offset size part.part_number
        let bytes = subarray blob start (start + part.content_length)
        uploaded ← put_part (suc chunk_retries) 0 (part_request target bytes)
        if uploaded then loaded_part loaded part else throw (part_failed part.part_number)
    ]

    upload_parts : List SignedPart → ℕ → List PartDeclaration → Act S ℕ
    unfolding upload_part
    upload_parts signed loaded [] = give loaded
    upload_parts signed loaded (part ∷ rest) = do
      now_loaded ← upload_part signed loaded part
      upload_parts signed now_loaded rest

    upload_batches : ℕ → List (List ℕ) → Act S (Unit {0})
    unfolding declarations request_part_urls upload_parts
    upload_batches loaded [] = give tt
    upload_batches loaded (batch ∷ rest) = do
      declared ← declarations batch
      signed ← request_part_urls session declared
      now_loaded ← upload_parts signed loaded declared
      upload_batches now_loaded rest

  unfoldable pub upload_s3_parts : ChunkedUploadSession → List ℕ → List Range → Act S (Unit {0})
  unfolding upload_batches
  upload_s3_parts session blob missing = elim session.part_size [
    | none ↦ throw bad_geometry
    | some size ↦ do
      numbers ← missing_s3_parts session (length blob) missing
      upload_batches session size blob (length blob - missing_bytes missing)
          (batches 100 (length numbers) numbers)
  ]
