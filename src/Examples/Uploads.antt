-- ===== src/Examples/Uploads.antt =====
-- Concrete uploads: a server that is busy for a while, then takes a file of three bytes in one piece.
use privchat_sdk_typescript.Prelude.{
  ℕ, zero, suc, ◌+◌, ◌-◌, ◌*◌, ◌/◌, ◌≤◌, ◌<◌, ◌≡◌, ◌⊎◌, inl, inr, refl, Text, Option, none, some,
  Bool, true, false, List, [], ◌∷◌, All, length, max, some_by, ◌++◌, Bool-cases, codes, nat_eq,
  arith, ◌==◌, if◌then◌else◌, subst, ap, Result, err, ok,
}
use privchat_sdk_typescript.Sorting.{sort}
use privchat_sdk_typescript.Codes.{ChunkVerdict, chunk_verdict}
use privchat_sdk_typescript.Uploads.Chunked.{upload_sealed_file_chunked}
use privchat_sdk_typescript.Uploads.Attachment.{
  UploadClient, UploadToken, UploadFile, UploadedFile, sealed_for, upload_sealed_attachment,
}
use privchat_sdk_typescript.Uploads.Attachment.Tokens.{
  Delivered, upload_sealed_attachment-Delivered,
}
use privchat_sdk_typescript.Uploads.Parts.{missing_from, batches}
use privchat_sdk_typescript.Uploads.Parts.Tiles.{
  IsAligned, lists, covers, part_of, lists-missing_from-part_of,
}
use privchat_sdk_typescript.Uploads.Chunked.Whole.{
  CompletedBy, upload_sealed_file_chunked-CompletedBy,
}
use privchat_sdk_typescript.Uploads.{
  UploadError, UploadDeps, ChunkedUploadSession, proxy_offset, Range, RpcJson, Payload, Request,
  Body, no_body, binary, part_list, business, Fetched, response, Progress, Url, UploadStatus, Act,
  put_chunk, fetch_status, fetched, read_envelope, status_of, subarray, On,
}
use privchat_sdk_typescript.Uploads.Sizer.{ChunkSizer, IsSized, new_sizer, new_sizer-IsSized}
use privchat_sdk_typescript.Uploads.Gaps.{missing_bytes, by_offset, advanced, piece_length}
use privchat_sdk_typescript.Uploads.Gaps.Keeping.{IsGap, Keeps}
use privchat_sdk_typescript.Uploads.Gaps.Grid.{IsPiece, piece_length-IsPiece}

-- Whether the file is stored, and for how many requests more the server is busy.
abbrev Store : Type 0
Store = Bool × ℕ

abbrev take_chunk : ℕ → Store → Text × Store
take_chunk n (stored, suc busy) = (codes "1", (stored, busy))
take_chunk n (stored, zero) =
    if n == 3 then (codes "0", (true, zero)) else (codes "1", (stored, zero))

abbrev answer : Body → Store → Text × Store
answer no_body (true, busy) = (codes "3", (true, busy))
answer no_body (false, busy) = (codes "2", (false, busy))
answer (binary bytes) s = take_chunk (length bytes) s
answer (part_list parts) s = (codes "1", s)
answer (business id) (true, busy) = (codes "4", (true, busy))
answer (business id) (false, busy) = (codes "5", (false, busy))

abbrev nothing : Payload
nothing = record { missing = none; completed = none; parts = none; file_url = none }

abbrev whole : Range
whole = record { offset = 0; length = 3 }

abbrev reply : ℕ → RpcJson
reply c =
    if c == b'0'
    then record { code = some 0; payload = none }
    else if c == b'1'
    then record { code = some 20612; payload = none }
    else if c == b'2'
    then record { code = some 0; payload = some (record nothing { missing = some (whole ∷ []) }) }
    else if c == b'3'
    then record { code = some 0; payload = some (record nothing { completed = some true }) }
    else if c == b'4'
    then record { code = some 0; payload = some (record nothing { file_url = some (codes "f") }) }
    else record { code = some 20615; payload = none }

abbrev parse : Text → Option RpcJson
parse [] = none
parse (c ∷ rest) = some (reply c)

abbrev serve : Request → Store → Fetched × Store
serve request s =
    let (text, s') = answer request.body s in
    (response (record { status = 200; text = some text }), s')

abbrev deps : UploadDeps Store ℕ
deps = record {
  fetch = serve;
  parse_rpc_json = parse;
  parse_url = λ text. some (record { protocol = codes "https:"; hostname = text });
  sha256_hex = λ bytes. bytes;
  now = λ s. (0, s);
  sleep = λ n s. s;
  on_progress = λ p s. s;
  percent = λ loaded total. 0;
  sample = λ bytes elapsed. bytes * 1000 / max elapsed 1;
  blend = λ rate sample. (7 * rate + 3 * sample) / 10;
  floor = λ rate. rate;
}

abbrev files : ChunkedUploadSession
files = record {
  upload_token = codes "t";
  upload_url = codes "https://files";
  base_unit = 65536;
  transport = proxy_offset;
  part_size = none;
  total_parts = none;
  expires_at = none;
}

abbrev bytes3 : List ℕ
bytes3 = 1 ∷ 2 ∷ 3 ∷ []

abbrev Behind : Store → List Range → Type 0
Behind s gaps = (s.0 ≡ true) ⊎ (3 ≤ missing_bytes gaps)

abbrev Completed : Store → Type 0
Completed s = s.0 ≡ true

abbrev missing_status : UploadStatus
missing_status = record { missing = whole ∷ []; completed = false }

abbrev whole_status : UploadStatus
whole_status = record { missing = []; completed = true }

abbrev status_at : Bool → UploadStatus
status_at true = whole_status
status_at false = missing_status

module _ (session : ChunkedUploadSession) where
  chunk_kept :
      (s : Store) (offset : ℕ) (bytes : List ℕ) (gaps : List Range)
      → Behind s gaps
      → Behind (put_chunk deps session offset bytes s).1 gaps
  unfolding put_chunk read_envelope
  chunk_kept (stored, suc busy) offset bytes gaps h = h
  chunk_kept (stored, zero) offset bytes gaps h = elim (Bool-cases (length bytes == 3)) [
    | inl fits ↦ rw fits (inl refl)
    | inr other ↦ rw other h
  ]

  chunk_stored :
      (s : Store) (offset : ℕ) (bytes : List ℕ)
      → (put_chunk deps session offset bytes s).0 ≡ ok ChunkVerdict.ok
      → (put_chunk deps session offset bytes s).1.0 ≡ true
  unfolding put_chunk chunk_verdict
  chunk_stored (stored, suc busy) offset bytes h = cc
  chunk_stored (stored, zero) offset bytes h = elim (Bool-cases (length bytes == 3)) [
    | inl fits ↦ rw fits refl
    | inr other ↦ let e = rw other at h in cc
  ]

  fetch_status_at :
      (stored : Bool) (busy : ℕ)
      → fetch_status deps session (stored, busy) ≡ (ok (status_at stored), (stored, busy))
  unfolding fetch_status status_of
  fetch_status_at true busy = refl
  fetch_status_at false busy = refl

  status_given :
      (s : Store) (status : UploadStatus)
      → (fetch_status deps session s).0 ≡ ok status
      → (status ≡ status_at s.0) × ((fetch_status deps session s).1 ≡ s)
  status_given (stored, busy) status h =
      let e = rw (fetch_status_at stored busy) at h in
      (cc, ap (λ r. r.1) (fetch_status_at stored busy))

  listed :
      (s : Store) (status : UploadStatus)
      → (fetch_status deps session s).0 ≡ ok status
      → status.completed ≡ false
      → All IsGap status.missing
        × Behind (fetch_status deps session s).1 (sort by_offset status.missing)
  unfolding sort
  listed (stored, busy) status h more =
      let (e, same) = status_given (stored, busy) status h in
      rw same (missing_at stored status e more)
    where
      missing_at :
          (stored : Bool) (status : UploadStatus)
          → status ≡ status_at stored
          → status.completed ≡ false
          → All IsGap status.missing × Behind (stored, busy) (sort by_offset status.missing)
      missing_at true status e more = cc
      missing_at false status e more = rw e ((omega arith, tt), inr (omega arith))

  left :
      (s : Store) (gaps : List Range) (status : UploadStatus)
      → Behind s gaps
      → (fetch_status deps session s).0 ≡ ok status
      → status.completed ≡ false
      → missing_bytes status.missing ≤ missing_bytes gaps
  left (true, busy) gaps status behind h more = cc (status_given (true, busy) status h).0
  left (false, busy) gaps status (inl e) h more = cc
  left (false, busy) gaps status (inr e) h more =
      rw (status_given (false, busy) status h).0 (omega arith)

  completed :
      (s : Store) (status : UploadStatus)
      → (fetch_status deps session s).0 ≡ ok status
      → status.completed ≡ true
      → Completed (fetch_status deps session s).1
  completed (true, busy) status h done = rw (status_given (true, busy) status h).1 refl
  completed (false, busy) status h done = cc (status_given (false, busy) status h).0

  at_most_three :
      (s : Store) (status : UploadStatus)
      → (fetch_status deps session s).0 ≡ ok status
      → missing_bytes status.missing ≤ 3
  at_most_three (true, busy) status h = rw (status_given (true, busy) status h).0 (omega arith)
  at_most_three (false, busy) status h = rw (status_given (false, busy) status h).0 (omega arith)

  deps-Keeps : (blob : List ℕ) → Keeps deps session blob Behind Completed
  deps-Keeps blob = record {
    clock = λ s gaps h. h;
    timer = λ n s gaps h. h;
    callback = λ p s gaps h. h;
    chunk_stored = λ s gap rest len h fits e. inl (chunk_stored s _ _ e);
    chunk_kept = chunk_kept;
    status_listed = listed;
    status_left = left;
    status_completed = completed;
  }

upload_sealed_file_chunked-CompletedBy_example :
    (r : Result UploadError Payload) × (s' : Store) × (upload_sealed_file_chunked deps files bytes3
        none 12
        (false, 1)
      ≡ some (r, s'))
    × On
        (CompletedBy deps files bytes3 Behind Completed
          (deps-Keeps files bytes3)
          3
          (at_most_three files)
          none)
        (r, s')
upload_sealed_file_chunked-CompletedBy_example =
    upload_sealed_file_chunked-CompletedBy deps files bytes3 Behind Completed
      (deps-Keeps files bytes3) 3 (at_most_three files) none 12 (false, 1) (omega arith)

upload_run :
    upload_sealed_file_chunked deps files bytes3 none 12 (false, 1)
    ≡ some (ok (record nothing { file_url = some (codes "f") }), (true, 0))
unfolding upload_sealed_file_chunked privchat_sdk_typescript.Uploads.assert_secure_upload_url
    privchat_sdk_typescript.Prelude.text_beq fetch_status status_of
    privchat_sdk_typescript.Uploads.Gaps.send_gaps sort put_chunk chunk_verdict piece_length
    privchat_sdk_typescript.Uploads.Sizer.on_failure privchat_sdk_typescript.Uploads.Sizer.clamp
    new_sizer privchat_sdk_typescript.Uploads.Sizer.base_of advanced
    privchat_sdk_typescript.Uploads.complete privchat_sdk_typescript.Uploads.completed_by
upload_run = refl

sizer : ChunkSizer ℕ
sizer = new_sizer 4

piece_length-IsPiece_example :
    IsPiece 4 11
      (record { offset = 0; length = 11 })
      (piece_length 4 11 4 (record { offset = 0; length = 11 }))
unfolding sizer new_sizer
piece_length-IsPiece_example =
    piece_length-IsPiece sizer 11 (record { offset = 0; length = 11 })
      (new_sizer-IsSized 4 (omega arith)) (omega arith)

-- A blob of 11 bytes in three parts of 4, of which the second and the third are missing.
tail : List Range
tail = record { offset = 4; length = 7 } ∷ []

tail-IsAligned : All (IsAligned 4 11) tail
unfolding tail
tail-IsAligned = ((1, 0, refl, inr refl), tt)

lists-missing_from-part_of_example :
    lists (missing_from 4 3 11 tail 3 1) (part_of 4 3 9) ≡ some_by (covers 9) tail
lists-missing_from-part_of_example =
    lists-missing_from-part_of 4 3 11 (omega arith) (omega arith) (omega arith) (omega arith) 9 tail
      (omega arith) tail-IsAligned

missing_run : missing_from 4 3 11 tail 3 1 ≡ 2 ∷ 3 ∷ []
unfolding missing_from tail privchat_sdk_typescript.Uploads.Parts.part_offset
    privchat_sdk_typescript.Uploads.Parts.part_length
missing_run = refl

-- A client whose server does not have the file.
abbrev client : UploadClient Store
client = record {
  file_request_chunked_upload_token = λ request s. (
    ok (record {
      already_exists = false;
      claim_token = none;
      upload_token = some (codes "t");
      upload_url = some (codes "https://files/");
      base_unit = none;
      expires_at = none;
      transport = none;
      part_size = none;
      total_parts = none;
      attachment_key = some (record { key = codes "k"; key_id = codes "1" });
      chunk_plain_size = some 16;
      total_size = some 3;
    }),
    s,
  );
  file_claim_existing = λ token sha s. (ok nothing, s);
  seal_attachment = λ plaintext key size s. (ok plaintext, s);
}

abbrev file : UploadFile
file = record {
  plaintext = bytes3;
  filename = codes "f";
  mime_type = codes "text/plain";
  file_type = codes "file";
  business_type = none;
  business_id = none;
}

each_ends :
    (prepared : UploadToken) (before : Store) (session : ChunkedUploadSession) (blob : List ℕ)
    (s : Store)
    → sealed_for deps client prepared file.plaintext before ≡ (ok (session, blob), s)
    → (r : Result UploadError Payload) × (s' : Store) × (upload_sealed_file_chunked deps session
          blob none 12 s
        ≡ some (r, s'))
each_ends prepared before session blob s fits =
    let (r, s', e, whole) =
      upload_sealed_file_chunked-CompletedBy deps session blob Behind Completed
        (deps-Keeps session blob) 3 (at_most_three session) none 12 s (omega arith) in
    (r, s', e)

upload_sealed_attachment-Delivered_example :
    (r : Result UploadError UploadedFile) × (s' : Store) × (upload_sealed_attachment deps client
        file 12
        (false, 1)
      ≡ some (r, s'))
    × On (Delivered deps client file 12 each_ends) (r, s')
upload_sealed_attachment-Delivered_example =
    upload_sealed_attachment-Delivered deps client file 12 each_ends (false, 1)
