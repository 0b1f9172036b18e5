-- ===== src/Contents.antt =====
-- src/message-content.ts: the legacy envelope, a JSON object that carries a message's text, and the
-- display text of a content. The JSON parser is a package's: `parse` stands for `parseRpcJson`, which
-- calls it, and gives nothing where the parser throws.
pub mod Laws
pub mod Entities
pub mod Links
pub mod Projection
pub mod Safe
use privchat_sdk_typescript.Prelude.{
  ℕ, zero, suc, Text, Option, none, some, Bool, true, false, not, ◌&&◌, ◌||◌, List, [], ◌∷◌, ◌==◌,
  nat_eq, text_eq, leb, codes, some_by, if◌then◌else◌,
}

mutual
  pub data Json : Type 0 where
    null : Json
    boolean : Bool → Json
    number : Text → Json
    string : Text → Json
    array : Items → Json
    object : Fields → Json

  pub data Items : Type 0 where
    no_items : Items
    item : Json → Items → Items

  pub data Fields : Type 0 where
    no_fields : Fields
    field : Text → Json → Fields → Fields

-- `raw[key]`, where undefined is none.
abbrev pub field_of : Text → Fields → Option Json
field_of key no_fields = none
field_of key (field k value rest) = if k == key then some value else field_of key rest

-- `value ?? undefined`.
abbrev pub not_null : Option Json → Option Json
not_null (some null) = none
not_null value = value

abbrev pub has_own : Fields → Text → Bool
has_own raw key = elim (field_of key raw) [ none ↦ false | some value ↦ true ]

-- The code units that String.prototype.trim removes.
abbrev pub is_space : ℕ → Bool
is_space c =
    (leb 9 c && leb c 13)
    || (leb 8192 c && leb c 8202)
    || some_by (λ d. c == d) (32 ∷ 160 ∷ 5760 ∷ 8232 ∷ 8233 ∷ 8239 ∷ 8287 ∷ 12288 ∷ 65279 ∷ [])

unfoldable pub trim_start : Text → Text
trim_start [] = []
trim_start (c ∷ s) = if is_space c then trim_start s else c ∷ s

unfoldable pub trim_end : Text → Text
trim_end [] = []
trim_end (c ∷ s) = let rest = trim_end s in if is_space c && rest == [] then [] else c ∷ rest

abbrev pub trim : Text → Text
trim s = trim_end (trim_start s)

abbrev pub opens_object : Text → Bool
opens_object [] = false
opens_object (c ∷ s) = c == b'{'

abbrev pub legacy_envelope_markers : List Text
legacy_envelope_markers =
    codes "metadata"
    ∷ codes "reply_to_message_id"
    ∷ codes "mentioned_user_ids"
    ∷ codes "message_source"
    ∷ []

pub record LegacyMessageEnvelope : Type 0 where
  pub content : Text
  pub raw : Fields

abbrev pub envelope_of : Json → Option LegacyMessageEnvelope
envelope_of (object raw) = elim (field_of (codes "content") raw) [
  | some (string content) ↦
      if some_by (has_own raw) legacy_envelope_markers
      then some (record { content = content; raw = raw })
      else none
  | _ ↦ none
]
envelope_of _ = none

module _ (parse : Text → Option Json) where
  unfoldable pub decode_legacy_text : Text → Option LegacyMessageEnvelope
  decode_legacy_text value =
      let trimmed = trim value in
      if opens_object trimmed
      then elim (parse trimmed) [ none ↦ none | some candidate ↦ envelope_of candidate ]
      else none

  -- The argument is a JSON value, where a text is one that may hold an envelope.
  unfoldable pub decode_legacy_message_envelope : Json → Option LegacyMessageEnvelope
  unfolding decode_legacy_text
  decode_legacy_message_envelope (string value) = decode_legacy_text value
  decode_legacy_message_envelope candidate = envelope_of candidate

  -- `depth` is how many envelopes may still be opened.
  unfoldable pub normalize_from : ℕ → Text → Text
  unfolding decode_legacy_text
  normalize_from zero current = current
  normalize_from (suc depth) current = elim (decode_legacy_text current) [
    | none ↦ current
    | some decoded ↦
        let rest = normalize_from depth decoded.content in
        if decoded.content == current then current else rest
  ]

  unfoldable pub normalize_message_display_content : Json → Text
  unfolding normalize_from
  normalize_message_display_content (string value) = normalize_from 3 value
  normalize_message_display_content value = []
