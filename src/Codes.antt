-- ===== src/Codes.antt =====
-- The tables of codes: src/send-error.ts, src/auth-error.ts, src/content-type.ts and the verdict on a
-- chunk in src/chunked-upload.ts.
pub mod Laws
use privchat_sdk_typescript.Prelude.{
  ℕ, zero, suc, Text, Option, none, some, Bool, true, false, List, [], ◌∷◌, ◌==◌, nat_eq, text_eq,
  some_by, codes, or_else, if◌then◌else◌, String,
}

abbrev pub has_code : List ℕ → ℕ → Bool
has_code set code = some_by (λ c. c == code) set

abbrev pub retryable_server_codes : List ℕ
retryable_server_codes = 2 ∷ 3 ∷ 5 ∷ 6 ∷ 7 ∷ 8 ∷ 9 ∷ 10300 ∷ 10303 ∷ []

unfoldable pub is_retryable_server_code : ℕ → Bool
is_retryable_server_code code = has_code retryable_server_codes code

pub data AuthErrorKind : Type 0 where
  transient recoverable terminal : AuthErrorKind

abbrev pub recoverable_codes : List ℕ
recoverable_codes = 10000 ∷ 10002 ∷ []

abbrev pub terminal_codes : List ℕ
terminal_codes = 10001 ∷ 10003 ∷ 10004 ∷ 10005 ∷ 10006 ∷ 10007 ∷ 10008 ∷ 10009 ∷ 10010 ∷ []

unfoldable pub classify_auth_error_code : ℕ → AuthErrorKind
classify_auth_error_code code =
    if has_code recoverable_codes code
    then recoverable
    else if has_code terminal_codes code
    then terminal
    else transient

pub data ContentTypeName : Type 0 where
  text voice image video file system sticker contact_card location link forward : ContentTypeName
  red_packet money_transfer unknown : ContentTypeName

-- `BY_TAG`, from tag 0 on.
abbrev pub by_tag : List ContentTypeName
by_tag =
    text ∷ voice ∷ image ∷ video ∷ file ∷ system ∷ sticker ∷ contact_card ∷ location ∷ link
    ∷ forward ∷ red_packet ∷ money_transfer ∷ []

-- The string that a name is in the source.
abbrev pub spelling : ContentTypeName → String
spelling text = "text"
spelling voice = "voice"
spelling image = "image"
spelling video = "video"
spelling file = "file"
spelling system = "system"
spelling sticker = "sticker"
spelling contact_card = "contact_card"
spelling location = "location"
spelling link = "link"
spelling forward = "forward"
spelling red_packet = "red_packet"
spelling money_transfer = "money_transfer"
spelling unknown = "unknown"

abbrev pub element {ℓ} : {A : Type ℓ} → List A → ℕ → Option A
element [] n = none
element (x ∷ xs) zero = some x
element (x ∷ xs) (suc n) = element xs n

unfoldable pub content_type_from_wire_tag : ℕ → ContentTypeName
content_type_from_wire_tag tag = or_else (element by_tag tag) unknown

tag_in : List ContentTypeName → ℕ → Text → Option ℕ
tag_in [] n name = none
tag_in (t ∷ ts) n name = if codes (spelling t) == name then some n else tag_in ts (suc n) name

unfoldable pub content_type_to_wire_tag : Text → ℕ
unfolding tag_in
content_type_to_wire_tag name = or_else (tag_in by_tag 0 name) 0

pub data ChunkVerdict : Type 0 where
  ok retry resync gone restart fatal : ChunkVerdict

-- The response's code, and whether its HTTP status is 500 or more.
unfoldable pub chunk_verdict : ℕ → Bool → ChunkVerdict
chunk_verdict code is_server_error =
    if has_code (0 ∷ 20614 ∷ []) code
    then ok
    else if has_code (20611 ∷ 20612 ∷ []) code
    then retry
    else if has_code (20610 ∷ 20615 ∷ []) code
    then resync
    else if code == 20613
    then gone
    else if code == 20618
    then restart
    else if is_server_error
    then retry
    else fatal
