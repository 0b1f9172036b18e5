-- ===== src/Contents/Safe.antt =====
-- What a renderer is given (src/message-content.ts): where raw JSON is kept out, and reply anchors that
-- are numbers.
use privchat_sdk_typescript.Prelude.{
  ◌<◌, ◌≡◌, Text, Option, none, some, true, false, [], nat_eq, text_eq, all_digits, value, coalesce,
  or_else,
}
use privchat_sdk_typescript.Contents.{Json}
use privchat_sdk_typescript.Contents.Entities.{Patterns}
use privchat_sdk_typescript.Contents.Projection.{
  MessageContent, text_content, system_content, money_content, other_content, looks_like_json,
  base_in,
}

-- No reply, or the numeral of a number that is not 0.
abbrev pub IsAnchor : Option Text → Type 0
IsAnchor none = Unit {0}
IsAnchor (some t) = (all_digits t ≡ true) × (0 < value t)

-- The text that is shown with a content: never raw JSON, except the user's own text, a system message's
-- template and a payment's title or summary, which are shown as they are.
abbrev pub IsShown : MessageContent → Type 0
IsShown (text_content base) = Unit {0}
IsShown (system_content base none) = looks_like_json base.text ≡ false
IsShown (system_content base (some message)) = base.text ≡ message.template
IsShown (money_content base kind money) =
    base.text ≡ or_else (coalesce money.title money.summary) []
IsShown (other_content base kind metadata) = looks_like_json base.text ≡ false

module _ (parse : Text → Option Json) (patterns : Patterns) where
  abbrev IsSafe : MessageContent → Type 0
  IsSafe content = IsShown content × IsAnchor (base_in content).reply_to_message_id
