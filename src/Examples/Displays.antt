-- ===== src/Examples/Displays.antt =====
-- A concrete message as a renderer shows it.
use privchat_sdk_typescript.Prelude.{
  ◌≡◌, Text, Option, none, some, true, [], ◌∷◌, All, some_by, arith, codes,
}
use privchat_sdk_typescript.Sorting.{sort}
use privchat_sdk_typescript.Codes.{image}
use privchat_sdk_typescript.Contents.{Json, no_fields, field, string, object}
use privchat_sdk_typescript.Contents.Entities.{
  Patterns, overlaps, by_position, candidates, scan_message_text_entities,
}
use privchat_sdk_typescript.Contents.Entities.Apart.{
  IsApart, IsWithin, scan_message_text_entities-IsApart,
}
use privchat_sdk_typescript.Contents.Projection.{ProjectMessageContentInput}
use privchat_sdk_typescript.Examples.{bob}

abbrev greeting : Text
greeting = codes "@bob 13800000000 @you"

abbrev found : Patterns
found = record {
  urls = λ text. [];
  phones = λ text. record { index = 5; raw = codes "13800000000" } ∷ [];
  mentions = λ text.
      record { index = 0; raw = codes "@bob" } ∷ record { index = 17; raw = codes "@you" } ∷ [];
}

scan_message_text_entities-IsApart_example :
    IsApart (scan_message_text_entities found greeting (bob ∷ []))
    × All (IsWithin greeting) (scan_message_text_entities found greeting (bob ∷ []))
    × All
        (λ c. some_by (overlaps c) (scan_message_text_entities found greeting (bob ∷ [])) ≡ true)
        (sort by_position (candidates found greeting (bob ∷ [])))
scan_message_text_entities-IsApart_example =
    scan_message_text_entities-IsApart greeting found tt (omega arith, tt)
      (omega arith, (omega arith, tt)) (bob ∷ [])

-- An image whose sender has written an envelope into the caption, with "null" for no reply.
abbrev caption : ProjectMessageContentInput
caption = record {
  content_type = image;
  content = string (codes "{1}");
  envelope = none;
  reply_to_message_id = some (string (codes "null"));
  mentioned_user_ids = none;
}

abbrev parse_caption : Text → Option Json
parse_caption text = some (object (field (codes "width") (string (codes "1")) no_fields))
