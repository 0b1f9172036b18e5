-- ===== src/Uploads.antt =====
-- src/chunked-upload.ts: sessions, the HTTP calls on them, and the verdicts on their answers. The
-- calls of the platform (fetch, the URL parser, SHA-256, the clock, timers) and the JSON parser are
-- `UploadDeps`; `S` is whatever these calls may change, `R` the floating-point rates.
pub mod Acts
pub mod Sizer
pub mod Gaps
pub mod Parts
pub mod Chunked
pub mod Attachment
use privchat_sdk_typescript.Prelude.{
  ℕ, ◌+◌, ◌-◌, ◌≡◌, refl, Text, Option, none, some, Bool, true, false, List, [], ◌∷◌, ◌++◌, ◌&&◌,
  ◌||◌, Result, err, ok, ltb, leb, ◌==◌, if◌then◌else◌, codes, to_decimal, text_beq, nat_eq,
  or_else, take, not, zero, suc,
}
unfoldable pub use Acts.*
use privchat_sdk_typescript.Codes.{ChunkVerdict, retry, fatal, chunk_verdict}

pub data Transport : Type 0 where
  proxy_offset s3_multipart : Transport

pub record ChunkedUploadSession : Type 0 where
  pub upload_token : Text
  pub upload_url : Text
  pub base_unit : ℕ
  pub transport : Transport
  pub part_size : Option ℕ
  pub total_parts : Option ℕ
  pub expires_at : Option ℕ

pub record Range : Type 0 where
  pub offset : ℕ
  pub length : ℕ

pub record SignedPart : Type 0 where
  pub part_number : ℕ
  pub url : Text
  pub required_headers : List (Text × Text)

pub record PartDeclaration : Type 0 where
  pub part_number : ℕ
  pub content_length : ℕ
  pub checksum_sha256_hex : Text

-- What a request carries; the JSON bodies as the values that they print.
pub data Body : Type 0 where
  no_body : Body
  binary : List ℕ → Body
  part_list : List PartDeclaration → Body
  business : Option Text → Body

pub record Request : Type 0 where
  pub verb : Text
  pub url : Text
  pub headers : List (Text × Text)
  pub body : Body

-- `none` where reading the body throws.
pub record Response : Type 0 where
  pub status : ℕ
  pub text : Option Text

pub data Fetched : Type 0 where
  response : Response → Fetched
  network_error abort_error : Fetched

-- The fields that the callers read of an envelope's `data`.
pub record Payload : Type 0 where
  pub missing : Option (List Range)
  pub completed : Option Bool
  pub parts : Option (List SignedPart)
  pub file_url : Option Text

-- A parsed body.
pub record RpcJson : Type 0 where
  pub code : Option ℕ
  pub payload : Option Payload

-- `none` is the code -1 of a body that does not parse.
pub record Envelope : Type 0 where
  pub code : Option ℕ
  pub payload : Option Payload

pub record Url : Type 0 where
  pub protocol : Text
  pub hostname : Text

pub record Progress : Type 0 where
  pub loaded : ℕ
  pub total : ℕ
  pub percent : ℕ

pub record UploadStatus : Type 0 where
  pub missing : List Range
  pub completed : Bool

-- `sample` is bytes over `max(elapsedMs / 1000, 0.001)`, `blend` is `0.7 * rate + 0.3 * sample`,
-- `floor` the whole part, `percent` the rounded share of the total.
pub record UploadDeps (S R : Type 0) : Type 0 where
  pub fetch : Request → S → Fetched × S
  pub parse_rpc_json : Text → Option RpcJson
  pub parse_url : Text → Option Url
  pub sha256_hex : List ℕ → Text
  pub now : S → ℕ × S
  pub sleep : ℕ → S → S
  pub on_progress : Progress → S → S
  pub percent : ℕ → ℕ → ℕ
  pub sample : ℕ → ℕ → R
  pub blend : R → R → R
  pub floor : R → ℕ

-- `bytes.subarray(start, end)`.
abbrev pub drop : ℕ → List ℕ → List ℕ
drop zero xs = xs
drop (suc n) [] = []
drop (suc n) (x ∷ xs) = drop n xs

abbrev pub subarray : List ℕ → ℕ → ℕ → List ℕ
subarray bytes start end = take (end - start) (drop start bytes)

unbracket_end : Text → Text
unbracket_end [] = []
unbracket_end (x ∷ []) = if x == b']' then [] else x ∷ []
unbracket_end (x ∷ y ∷ rest) = x ∷ unbracket_end (y ∷ rest)

-- `hostname.replace(/^\[|\]$/g, '')`.
unbracket : Text → Text
unfolding unbracket_end
unbracket [] = []
unbracket (x ∷ rest) = if x == b'[' then unbracket_end rest else unbracket_end (x ∷ rest)

ends_with : Text → Text → Bool
ends_with [] tail = text_beq [] tail
ends_with (x ∷ rest) tail = text_beq (x ∷ rest) tail || ends_with rest tail

unfoldable pub is_local : Text → Bool
unfolding unbracket ends_with
is_local hostname =
    let name = unbracket hostname in
    text_beq name (codes "localhost")
    || (text_beq name (codes "127.0.0.1")
        || (text_beq name (codes "::1") || ends_with name (codes ".local")))

abbrev pub token_header : ChunkedUploadSession → Text × Text
token_header session = (codes "X-Upload-Token", session.upload_token)

abbrev pub json_header : Text × Text
json_header = (codes "Content-Type", codes "application/json")

abbrev pub status_request : ChunkedUploadSession → Request
status_request session = record {
  verb = codes "GET";
  url = session.upload_url ++ codes "/status";
  headers = token_header session ∷ [];
  body = no_body;
}

abbrev pub chunk_request : ChunkedUploadSession → ℕ → List ℕ → Text → Request
chunk_request session offset bytes digest = record {
  verb = codes "PUT";
  url = session.upload_url ++ (codes "/chunk?offset=" ++ to_decimal offset);
  headers =
      token_header session
      ∷ (codes "X-Chunk-SHA256", digest)
      ∷ (codes "Content-Type", codes "application/octet-stream")
      ∷ [];
  body = binary bytes;
}

abbrev pub complete_request : ChunkedUploadSession → Option Text → Request
complete_request session business_id = record {
  verb = codes "POST";
  url = session.upload_url ++ codes "/complete";
  headers = token_header session ∷ json_header ∷ [];
  body = business business_id;
}

abbrev pub answered : {S : Type 0} → Fetched → Act S Response
answered (response r) = give r
answered network_error = throw unreachable
answered abort_error = throw aborted

abbrev pub parsed : Option RpcJson → Envelope
parsed none = record { code = none; payload = none }
parsed (some json) = record { code = some (or_else json.code 0); payload = json.payload }

abbrev pub verdict_of : Option ℕ → Bool → ChunkVerdict
verdict_of none is_server_error = if is_server_error then retry else fatal
verdict_of (some code) is_server_error = chunk_verdict code is_server_error

abbrev pub code_is : ℕ → Option ℕ → Bool
code_is code none = false
code_is code (some c) = c == code

abbrev pub status_data : {S : Type 0} → Option Payload → Act S UploadStatus
status_data none = throw no_data
status_data (some p) =
    give (record { missing = or_else p.missing []; completed = or_else p.completed false })

-- The answer to a status request.
unfoldable pub status_of : {S : Type 0} → Envelope → Act S UploadStatus
status_of env =
    if code_is 20613 env.code
    then throw session_gone
    else if not (code_is 0 env.code)
    then throw (status_failed env.code)
    else status_data env.payload

abbrev pub complete_data : {S : Type 0} → Envelope → Act S Payload
complete_data env = elim env.payload [ none ↦ throw (complete_failed env.code) | some p ↦ give p ]

-- The answer to a completion.
unfoldable pub completed_by : {S : Type 0} → Envelope → Act S Payload
completed_by env =
    if code_is 20613 env.code || code_is 20618 env.code
    then throw session_gone
    else if not (code_is 0 env.code)
    then throw (complete_failed env.code)
    else complete_data env

module _ {S R : Type 0} (d : UploadDeps S R) where
  unfoldable pub assert_secure_upload_url : Text → Act S (Unit {0})
  assert_secure_upload_url value = elim (d.parse_url value) [
    | none ↦ throw unreadable_url
    | some url ↦
        if text_beq url.protocol (codes "https:")
          || (text_beq url.protocol (codes "http:") && is_local url.hostname)
        then give tt
        else throw insecure_url
  ]

  -- A rejected fetch is thrown on.
  unfoldable pub fetched : Request → Act S Response
  fetched request = do got ← run (d.fetch request); answered got

  -- A body that does not parse has the code -1, which no table of codes has: `none`.
  unfoldable pub read_envelope : Response → Act S Envelope
  read_envelope r = elim r.text [
    | none ↦ throw unreachable
    | some text ↦ give (parsed (d.parse_rpc_json text))
  ]

  unfoldable pub fetch_status : ChunkedUploadSession → Act S UploadStatus
  unfolding fetched read_envelope
  fetch_status session = do
    r ← fetched (status_request session)
    env ← read_envelope r
    status_of env

  unfoldable pub put_chunk : ChunkedUploadSession → ℕ → List ℕ → Act S ChunkVerdict
  unfolding read_envelope
  put_chunk session offset bytes = do
    got ← run (d.fetch (chunk_request session offset bytes (d.sha256_hex bytes)))
    elim got [
      | response r ↦ do env ← read_envelope r; give (verdict_of env.code (leb 500 r.status))
      | network_error ↦ give retry
      | abort_error ↦ throw aborted
    ]

  unfoldable pub complete : ChunkedUploadSession → Option Text → Act S Payload
  unfolding fetched read_envelope
  complete session business_id = do
    r ← fetched (complete_request session business_id)
    env ← read_envelope r
    completed_by env
