-- ===== src/Contents/Projection.antt =====
-- projectMessageContent of src/message-content.ts: what a renderer shows of a message. `parse` is
-- parseRpcJson, nothing where it throws; `patterns` the platform's regular expressions.
use privchat_sdk_typescript.Prelude.{
  Text, Option, none, some, Bool, true, false, not, List, [], ◌∷◌, ◌++◌, ◌&&◌, ◌||◌, ◌==◌, nat_eq,
  text_eq, keep, some_by, codes, coalesce, or_else, all_digits, if◌then◌else◌,
}
use privchat_sdk_typescript.Codes.{ContentTypeName, system, red_packet, money_transfer}
use privchat_sdk_typescript.Contents.{
  Json, Items, Fields, null, number, string, array, object, not_null, no_items, item, field_of,
  trim, trim_start, opens_object, LegacyMessageEnvelope, decode_legacy_message_envelope,
  normalize_message_display_content,
}
use privchat_sdk_typescript.Contents.Entities.{
  MessageTextEntity, Patterns, scan_message_text_entities,
}
use privchat_sdk_typescript.Contents.Links.{MessageLink, string_of, sanitize_message_links}

-- The fields that the projection reads; what a JSON payload may hold in place of a typed value is JSON.
pub record MessagePayloadEnvelope : Type 0 where
  pub content : Text
  pub metadata : Option Json
  pub reply_to_message_id : Option Json
  pub mentioned_user_ids : Option (List Text)
  pub links : Option Json

pub record ProjectMessageContentInput : Type 0 where
  pub content_type : ContentTypeName
  pub content : Json
  pub envelope : Option MessagePayloadEnvelope
  pub reply_to_message_id : Option Json
  pub mentioned_user_ids : Option (List Text)

pub record SystemMessageRef : Type 0 where
  pub type : Text
  pub target_id : Option Text
  pub text : Option Text

pub record SystemMessage : Type 0 where
  pub template : Text
  pub refs : List SystemMessageRef

pub record MoneyMessageSnapshot : Type 0 where
  pub ref_id : Option Text
  pub title : Option Text
  pub summary : Option Text
  pub status : Option Text
  pub amount_text : Option Text
  pub scene : Option Text
  pub packet_type : Option Text

pub record MessageContentBase : Type 0 where
  pub text : Text
  pub entities : List MessageTextEntity
  pub reply_to_message_id : Option Text
  pub mentioned_user_ids : List Text
  pub links : List MessageLink

pub data MessageContent : Type 0 where
  text_content : MessageContentBase → MessageContent
  system_content : MessageContentBase → Option SystemMessage → MessageContent
  money_content : MessageContentBase → ContentTypeName → MoneyMessageSnapshot → MessageContent
  other_content : MessageContentBase → ContentTypeName → Option Json → MessageContent

opens_array : Text → Bool
opens_array [] = false
opens_array (c ∷ rest) = c == b'['

unfoldable pub looks_like_json : Text → Bool
unfolding opens_array
looks_like_json value = opens_object (trim_start value) || opens_array (trim_start value)

-- A number or bigint as the text that String gives.
abbrev pub id_string : Option Json → Option Text
id_string (some (string s)) = some s
id_string (some (number n)) = some n
id_string value = none

unfoldable pub all_zeros : Text → Bool
all_zeros [] = true
all_zeros (c ∷ rest) = c == b'0' && all_zeros rest

unfoldable pub anchor_of : Option Text → Option Text
unfolding all_zeros
anchor_of none = none
anchor_of (some raw) =
    let trimmed = trim raw in
    if trimmed == [] || (not (all_digits trimmed) || all_zeros trimmed) then none else some trimmed

unfoldable pub reply_anchor_id : Option Json → Option Text
unfolding anchor_of
reply_anchor_id value = anchor_of (id_string value)

ids_in : Items → List Text
ids_in no_items = []
ids_in (item value rest) = elim (id_string (some value)) [
  | none ↦ ids_in rest
  | some id ↦ id ∷ ids_in rest
]

unfoldable pub id_list : Option Json → List Text
unfolding ids_in
id_list (some (array items)) = ids_in items
id_list value = []

-- The first of each text, in order.
distinct : List Text → List Text → List Text
distinct seen [] = []
distinct seen (t ∷ ts) =
    let rest = distinct (t ∷ seen) ts in
    let skipped = distinct seen ts in if some_by (λ s. s == t) seen then skipped else t ∷ rest

unfoldable pub unique_strings : List Text → List Text
unfolding distinct
unique_strings values = distinct [] (keep (λ value. not (value == [])) values)

module _ (parse : Text → Option Json) where
  object_in : Option Json → Option Fields
  object_in (some (object raw)) = some raw
  object_in value = none

  unfoldable pub parse_object : Text → Option Fields
  unfolding object_in
  parse_object value = if opens_object (trim_start value) then object_in (parse value) else none

ref_of : Json → List SystemMessageRef
ref_of (object ref) =
    record {
      type = or_else (string_of (field_of (codes "type") ref)) [];
      target_id = id_string (field_of (codes "target_id") ref);
      text = string_of (field_of (codes "text") ref);
    }
    ∷ []
ref_of value = []

refs_in : Items → List SystemMessageRef
unfolding ref_of
refs_in no_items = []
refs_in (item value rest) = ref_of value ++ refs_in rest

refs_of : Option Json → List SystemMessageRef
unfolding refs_in
refs_of (some (array items)) = refs_in items
refs_of value = []

pub system_in : Option Fields → Option SystemMessage
unfolding refs_of
system_in none = none
system_in (some raw) = elim (string_of (field_of (codes "template") raw)) [
  | none ↦ none
  | some template ↦
      some (record { template = template; refs = refs_of (field_of (codes "refs") raw) })
]

number_of : Option Json → Option Text
number_of (some (number n)) = some n
number_of value = none

pub money_in : Option Fields → MoneyMessageSnapshot
unfolding number_of
money_in none = record {
  ref_id = none;
  title = none;
  summary = none;
  status = none;
  amount_text = none;
  scene = none;
  packet_type = none;
}
money_in (some raw) = record {
  ref_id =
      coalesce (id_string (field_of (codes "redPacketId") raw))
        (id_string (field_of (codes "transferId") raw));
  title = string_of (field_of (codes "title") raw);
  summary = string_of (field_of (codes "summary") raw);
  status = string_of (field_of (codes "status") raw);
  amount_text = string_of (field_of (codes "amountText") raw);
  scene = string_of (field_of (codes "scene") raw);
  packet_type = number_of (field_of (codes "type") raw);
}

-- `legacy?.raw`, then `raw?.[key]`.
abbrev pub raw_field : Text → Option LegacyMessageEnvelope → Option Json
raw_field key none = none
raw_field key (some legacy) = field_of key legacy.raw

-- `metadata?.links`.
abbrev pub links_in : Option Json → Option Json
links_in (some (object metadata)) = field_of (codes "links") metadata
links_in value = none

abbrev pub of_envelope :
    {A : Type 0} → (MessagePayloadEnvelope → Option A) → Option MessagePayloadEnvelope → Option A
of_envelope read none = none
of_envelope read (some envelope) = read envelope

-- `typeof content === 'string' ? content : envelope?.content`.
unfoldable pub display_source : Json → Option MessagePayloadEnvelope → Json
display_source (string s) envelope = string s
display_source content none = null
display_source content (some envelope) = string envelope.content

abbrev pub not_json : Text → Text
not_json value = if looks_like_json value then [] else value

-- The template, or the text, unless it looks like JSON.
unfoldable pub system_text : Text → Option SystemMessage → Text
system_text value none = not_json value
system_text value (some s) = s.template

module _ (parse : Text → Option Json) (patterns : Patterns) where
  mentioned_of : ProjectMessageContentInput → Option LegacyMessageEnvelope → List Text
  mentioned_of input legacy = unique_strings (
      or_else (of_envelope (λ e. e.mentioned_user_ids) input.envelope) (
        or_else input.mentioned_user_ids (id_list (raw_field (codes "mentioned_user_ids") legacy))))

  unfoldable pub reply_of : ProjectMessageContentInput → Option LegacyMessageEnvelope → Option Text
  reply_of input legacy =
      coalesce (reply_anchor_id (of_envelope (λ e. e.reply_to_message_id) input.envelope)) (
        coalesce (reply_anchor_id input.reply_to_message_id)
          (reply_anchor_id (raw_field (codes "reply_to_message_id") legacy)))

  unfoldable pub base_of : ProjectMessageContentInput → Text → MessageContentBase
  unfolding mentioned_of reply_of
  base_of input safe_text =
      let legacy = decode_legacy_message_envelope parse input.content in
      let mentioned = mentioned_of input legacy in
      record {
        text = safe_text;
        entities = scan_message_text_entities patterns safe_text mentioned;
        reply_to_message_id = reply_of input legacy;
        mentioned_user_ids = mentioned;
        links = sanitize_message_links (
            coalesce (not_null (of_envelope (λ e. e.links) input.envelope))
              (links_in (raw_field (codes "metadata") legacy)));
      }

  unfoldable pub project_as : ContentTypeName → ProjectMessageContentInput → Text → MessageContent
  unfolding base_of system_text system_in money_in
  project_as ContentTypeName.text input shown = text_content (base_of input shown)
  project_as system input shown =
      let message = system_in (parse_object parse shown) in
      system_content (base_of input (system_text shown message)) message
  project_as red_packet input shown =
      let money = money_in (parse_object parse shown) in
      money_content (base_of input (or_else (coalesce money.title money.summary) [])) red_packet
        money
  project_as money_transfer input shown =
      let money = money_in (parse_object parse shown) in
      money_content (base_of input (or_else (coalesce money.title money.summary) [])) money_transfer
        money
  project_as kind input shown =
      other_content (base_of input (not_json shown)) kind
        (of_envelope (λ e. e.metadata) input.envelope)

  unfoldable pub project_message_content : ProjectMessageContentInput → MessageContent
  unfolding project_as display_source
  project_message_content input =
      project_as input.content_type input
        (normalize_message_display_content parse (display_source input.content input.envelope))

abbrev pub base_in : MessageContent → MessageContentBase
base_in (text_content base) = base
base_in (system_content base message) = base
base_in (money_content base kind money) = base
base_in (other_content base kind metadata) = base
