-- ===== src/Contents/Links.antt =====
-- sanitizeMessageLinks of src/codec/payload.ts: the links of a message that are well-formed.
use privchat_sdk_typescript.Prelude.{
  ℕ, zero, suc, ◌+◌, Text, Option, none, some, Bool, false, not, List, [], ◌∷◌, ◌&&◌, leb, ◌==◌,
  nat_eq, text_eq, length, codes, if◌then◌else◌,
}
use privchat_sdk_typescript.Contents.{
  Json, Items, Fields, string, array, object, no_items, item, no_fields, field, field_of, trim,
}

pub record MessageLink : Type 0 where
  pub text : Text
  pub route : Text
  pub params : List (Text × Text)

is_high : ℕ → Bool
is_high c = leb 55296 c && leb c 56319

is_low : ℕ → Bool
is_low c = leb 56320 c && leb c 57343

-- `[...s].length`: a low surrogate after a high one is no character of its own.
chars_from : Bool → Text → ℕ
unfolding is_high is_low
chars_from paired [] = 0
chars_from paired (c ∷ rest) = (if paired && is_low c then 0 else 1) + chars_from (is_high c) rest

unfoldable pub char_count : Text → ℕ
unfolding chars_from
char_count s = chars_from false s

unfoldable pub is_short : ℕ → Text → Bool
is_short most s = not (trim s == []) && leb (char_count s) most

-- `typeof item === 'string'`.
abbrev pub string_of : Option Json → Option Text
string_of (some (string s)) = some s
string_of value = none

short_field : ℕ → Option Text → Option Text
short_field most none = none
short_field most (some s) = if is_short most s then some s else none

-- The entries, if each has a short key and a value that is a string and not too long.
short_params : Fields → Option (List (Text × Text))
short_params no_fields = some []
short_params (field key (string value) rest) =
    let others = short_params rest in
    if is_short 128 key && leb (char_count value) 128
    then elim others [ none ↦ none | some params ↦ some ((key, value) ∷ params) ]
    else none
short_params (field key _ rest) = none

few_params : Option (List (Text × Text)) → Option (List (Text × Text))
few_params none = none
few_params (some params) = if leb (length params) 8 then some params else none

params_of : Option Json → Option (List (Text × Text))
unfolding few_params short_params
params_of none = some []
params_of (some (object entries)) = few_params (short_params entries)
params_of (some _) = none

link_with : Option Text → Option Text → Option (List (Text × Text)) → Option MessageLink
link_with (some text) (some route) (some params) =
    some (record { text = text; route = route; params = params })
link_with _ _ _ = none

unfoldable pub link_of : Json → Option MessageLink
unfolding short_field params_of link_with
link_of (object raw) =
    link_with (short_field 200 (string_of (field_of (codes "text") raw)))
      (short_field 64 (string_of (field_of (codes "route") raw)))
      (params_of (field_of (codes "params") raw))
link_of value = none

-- The loop over the items, with room for `left` links more.
unfoldable pub links_of : ℕ → Items → List MessageLink
links_of zero items = []
links_of (suc left) no_items = []
links_of (suc left) (item value rest) =
    let with_link = links_of left rest in
    let without = links_of (suc left) rest in
    elim (link_of value) [ none ↦ without | some link ↦ link ∷ with_link ]

unfoldable pub sanitize_message_links : Option Json → List MessageLink
sanitize_message_links (some (array items)) = links_of 8 items
sanitize_message_links value = []
