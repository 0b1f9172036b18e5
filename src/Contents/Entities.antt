-- ===== src/Contents/Entities.antt =====
-- scanMessageTextEntities of src/message-content.ts. The regular expressions are the platform's:
-- `Patterns` gives the matches of each in a text, as String.prototype.matchAll does.
pub mod Apart
use privchat_sdk_typescript.Prelude.{
  ℕ, zero, suc, ◌+◌, Text, Option, none, some, Bool, not, List, [], ◌∷◌, ◌++◌, ◌&&◌, ◌||◌, ltb,
  ◌==◌, nat_eq, length, keep, some_by, map, then_by, compare, Ordering, if◌then◌else◌,
}
use privchat_sdk_typescript.Sorting.{sort}
use privchat_sdk_typescript.Contents.{is_space}

pub data EntityType : Type 0 where
  mention url phone : EntityType

pub record MessageTextEntity : Type 0 where
  pub type : EntityType
  pub start : ℕ
  pub end : ℕ
  pub text : Text
  pub value : Text
  pub user_id : Option Text

pub record Match : Type 0 where
  pub index : ℕ
  pub raw : Text

pub record Patterns : Type 0 where
  pub urls : Text → List Match
  pub phones : Text → List Match
  pub mentions : Text → List Match

abbrev pub overlaps : MessageTextEntity → MessageTextEntity → Bool
overlaps a b = ltb a.start b.end && ltb b.start a.end

unfoldable pub entity_of : EntityType → (Text → Text) → Match → MessageTextEntity
entity_of type value m = record {
  type = type;
  start = m.index;
  end = m.index + length m.raw;
  text = m.raw;
  value = value m.raw;
  user_id = none;
}

-- `raw.replace(/[\s-]/g, '')`.
abbrev pub digits_only : Text → Text
digits_only raw = keep (λ c. not (is_space c || c == b'-')) raw

-- The urls and the phones.
unfoldable pub matched : Patterns → Text → List MessageTextEntity
unfolding entity_of
matched patterns text =
    map (entity_of url (λ raw. raw)) (patterns.urls text)
    ++ map (entity_of phone digits_only) (patterns.phones text)

-- `raw.slice(1)`.
abbrev pub without_first : Text → Text
without_first [] = []
without_first (c ∷ rest) = rest

unfoldable pub mention_spans : Patterns → Text → List MessageTextEntity
unfolding entity_of matched
mention_spans patterns text =
    keep (λ span. not (some_by (overlaps span) (matched patterns text)))
      (map (entity_of mention without_first) (patterns.mentions text))

-- The nth mention with the nth user.
unfoldable pub paired : List MessageTextEntity → List Text → List MessageTextEntity
paired [] ids = []
paired (span ∷ spans) [] = span ∷ paired spans []
paired (span ∷ spans) (id ∷ ids) = record span { user_id = some id } ∷ paired spans ids

unfoldable pub with_users : List MessageTextEntity → List Text → List MessageTextEntity
unfolding paired
with_users spans ids = if length spans == length ids then paired spans ids else spans

unfoldable pub by_position : MessageTextEntity → MessageTextEntity → Ordering
by_position a b = then_by (compare a.start b.start) (compare b.end a.end)

unfoldable pub accept : List MessageTextEntity → List MessageTextEntity → List MessageTextEntity
accept accepted [] = accepted
accept accepted (candidate ∷ rest) =
    accept (if some_by (overlaps candidate) accepted then accepted else accepted ++ candidate ∷ [])
      rest

unfoldable pub candidates : Patterns → Text → List Text → List MessageTextEntity
unfolding matched mention_spans with_users
candidates patterns text ids = matched patterns text ++ with_users (mention_spans patterns text) ids

unfoldable pub scan_message_text_entities : Patterns → Text → List Text → List MessageTextEntity
unfolding candidates accept by_position
scan_message_text_entities patterns text ids =
    accept [] (sort by_position (candidates patterns text ids))
