-- ===== src/Contents/Entities/Apart.antt =====
-- The entities of a text (src/message-content.ts) lie apart, in their order.
use privchat_sdk_typescript.Prelude.{
  ◌+◌, ◌≤◌, ◌<◌, ◌≡◌, refl, Text, Bool, true, false, List, [], ◌∷◌, ◌++◌, length, some_by, All,
  All-append, keep, map, Bool-cases, inl, inr, arith, if◌then◌else◌, ◌==◌, nat_eq,
}
use privchat_sdk_typescript.Sorting.{
  sort, sort-All, sort-IsSorted, IsSorted, IsComparator, not_after,
}
use privchat_sdk_typescript.Contents.Entities.{
  MessageTextEntity, Match, Patterns, EntityType, mention, url, phone, digits_only, without_first,
  overlaps, entity_of, matched, mention_spans, paired, with_users, by_position, accept, candidates,
  scan_message_text_entities,
}

-- Each entity ends before the next starts.
abbrev pub IsApart : List MessageTextEntity → Type 0
IsApart [] = Unit {0}
IsApart (a ∷ rest) = All (λ b. a.end ≤ b.start) rest × IsApart rest

-- An entity is not empty.
abbrev pub IsSpan : MessageTextEntity → Type 0
IsSpan a = a.start < a.end

by_position-IsComparator : IsComparator by_position
unfolding by_position
by_position-IsComparator = record {
  total = λ x y h. ground arith;
  trans = λ x y z h g. ground arith;
}

by_position-start :
    (a b : MessageTextEntity) → not_after (by_position a b) ≡ true → a.start ≤ b.start
unfolding by_position
by_position-start a b h = ground arith

IsApart-append :
    (xs : List MessageTextEntity) (c : MessageTextEntity)
    → IsApart xs
    → All (λ a. a.end ≤ c.start) xs
    → IsApart (xs ++ c ∷ [])
IsApart-append [] c h before = (tt, tt)
IsApart-append (a ∷ rest) c h before = (
  All-append (λ b. a.end ≤ b.start) rest (c ∷ []) h.0 (before.0, tt),
  IsApart-append rest c h.1 before.1,
)

clear_of :
    (xs : List MessageTextEntity) (c : MessageTextEntity)
    → some_by (overlaps c) xs ≡ false
    → IsSpan c
    → All (λ a. a.start ≤ c.start) xs
    → All (λ a. a.end ≤ c.start) xs
clear_of [] c h span before = tt
clear_of (a ∷ rest) c h span before = ground (arith, clear_of rest c)

All-each :
    {P Q : MessageTextEntity → Type 0}
    → ((e : MessageTextEntity) → P e → Q e)
    → (xs : List MessageTextEntity) → All P xs
    → All Q xs
All-each f [] h = tt
All-each f (x ∷ xs) h = (f x h.0, All-each f xs h.1)

accept-All :
    (P : MessageTextEntity → Type 0) (accepted rest : List MessageTextEntity)
    → All P accepted
    → All P rest
    → All P (accept accepted rest)
unfolding accept
accept-All P accepted [] h g = h
accept-All P accepted (c ∷ rest) h g = elim (Bool-cases (some_by (overlaps c) accepted)) [
  | inl taken ↦ rw taken (accept-All P accepted rest h g.1)
  | inr free ↦
      rw free
        (accept-All P (accepted ++ c ∷ []) rest (All-append P accepted (c ∷ []) h (g.0, tt)) g.1)
]

accept-IsApart :
    (accepted rest : List MessageTextEntity)
    → IsApart accepted
    → All (λ a. All (λ c. a.start ≤ c.start) rest) accepted
    → IsSorted by_position rest
    → All IsSpan rest
    → IsApart (accept accepted rest)
unfolding accept
accept-IsApart accepted [] apart before sorted spans = apart
accept-IsApart accepted (c ∷ rest) apart before sorted spans =
    elim (Bool-cases (some_by (overlaps c) accepted)) [
      | inl taken ↦ rw taken (accept-IsApart accepted rest apart tails sorted.1 spans.1)
      | inr free ↦ rw free (
          accept-IsApart (accepted ++ c ∷ []) rest
            (IsApart-append accepted c apart (clear_of accepted c free spans.0 heads))
            (All-append (λ a. All (λ d. a.start ≤ d.start) rest) accepted (c ∷ []) tails
              (All-each (λ d. by_position-start c d) rest sorted.0, tt))
            sorted.1 spans.1)
    ]
  where
    heads : All (λ a. a.start ≤ c.start) accepted
    heads = All-each (λ a h. h.0) accepted before

    tails : All (λ a. All (λ d. a.start ≤ d.start) rest) accepted
    tails = All-each (λ a h. h.1) accepted before

some_by-append :
    (p : MessageTextEntity → Bool) (xs ys : List MessageTextEntity)
    → some_by p xs ≡ true
    → some_by p (xs ++ ys) ≡ true
some_by-append p [] ys h = cc
some_by-append p (x ∷ xs) ys h = ground (arith, some_by-append p xs ys)

some_by-last :
    (p : MessageTextEntity → Bool) (xs : List MessageTextEntity) (c : MessageTextEntity)
    → p c ≡ true
    → some_by p (xs ++ c ∷ []) ≡ true
some_by-last p [] c h = rw h refl
some_by-last p (x ∷ xs) c h = ground (arith, some_by-last p xs c)

accept-keeps :
    (p : MessageTextEntity → Bool) (accepted rest : List MessageTextEntity)
    → some_by p accepted ≡ true
    → some_by p (accept accepted rest) ≡ true
unfolding accept
accept-keeps p accepted [] h = h
accept-keeps p accepted (c ∷ rest) h = elim (Bool-cases (some_by (overlaps c) accepted)) [
  | inl taken ↦ rw taken (accept-keeps p accepted rest h)
  | inr free ↦
      rw free (accept-keeps p (accepted ++ c ∷ []) rest (some_by-append p accepted (c ∷ []) h))
]

accept-overlaps :
    (accepted rest : List MessageTextEntity)
    → All IsSpan rest
    → All (λ c. some_by (overlaps c) (accept accepted rest) ≡ true) rest
unfolding accept
accept-overlaps accepted [] spans = tt
accept-overlaps accepted (c ∷ rest) spans =
    (accept-keeps (overlaps c) next rest met, accept-overlaps next rest spans.1)
  where
    next : List MessageTextEntity
    next = if some_by (overlaps c) accepted then accepted else accepted ++ c ∷ []

    met : some_by (overlaps c) next ≡ true
    met = elim (Bool-cases (some_by (overlaps c) accepted)) [
      | inl taken ↦ rw taken taken
      | inr free ↦ rw free (some_by-last (overlaps c) accepted c (ground arith))
    ]

-- A match that is not empty and lies in the text.
abbrev pub IsMatch : Text → Match → Type 0
IsMatch text m = (0 < length m.raw) × (m.index + length m.raw ≤ length text)

abbrev pub IsWithin : Text → MessageTextEntity → Type 0
IsWithin text e = (e.start < e.end) × (e.end ≤ length text)

module _ (text : Text) where
  entities-IsWithin :
      (type : EntityType) (value : Text → Text) (ms : List Match)
      → All (IsMatch text) ms
      → All (IsWithin text) (map (entity_of type value) ms)
  unfolding entity_of
  entities-IsWithin type value [] h = tt
  entities-IsWithin type value (m ∷ ms) h = (omega arith, entities-IsWithin type value ms h.1)

  paired-IsWithin :
      (spans : List MessageTextEntity) (ids : List Text)
      → All (IsWithin text) spans
      → All (IsWithin text) (paired spans ids)
  unfolding paired
  paired-IsWithin [] ids h = tt
  paired-IsWithin (span ∷ spans) [] h = (h.0, paired-IsWithin spans [] h.1)
  paired-IsWithin (span ∷ spans) (id ∷ ids) h = (h.0, paired-IsWithin spans ids h.1)

  keep-All :
      (p : MessageTextEntity → Bool) (xs : List MessageTextEntity)
      → All (IsWithin text) xs
      → All (IsWithin text) (keep p xs)
  keep-All p [] h = tt
  keep-All p (x ∷ xs) h = elim (Bool-cases (p x)) [
    | inl kept ↦ rw kept (h.0, keep-All p xs h.1)
    | inr left ↦ rw left (keep-All p xs h.1)
  ]

  with_users-IsWithin :
      (spans : List MessageTextEntity) (ids : List Text)
      → All (IsWithin text) spans
      → All (IsWithin text) (with_users spans ids)
  unfolding with_users
  with_users-IsWithin spans ids h = elim (Bool-cases (length spans == length ids)) [
    | inl fit ↦ rw fit (paired-IsWithin spans ids h)
    | inr other ↦ rw other h
  ]

  module _ (patterns : Patterns) (urls : All (IsMatch text) (patterns.urls text))
      (phones : All (IsMatch text) (patterns.phones text))
      (mentions : All (IsMatch text) (patterns.mentions text)) where
    candidates-IsWithin : (ids : List Text) → All (IsWithin text) (candidates patterns text ids)
    unfolding candidates matched mention_spans
    candidates-IsWithin ids =
        All-append (IsWithin text) (matched patterns text)
          (with_users (mention_spans patterns text) ids)
          (All-append (IsWithin text) (map (entity_of url (λ raw. raw)) (patterns.urls text)) _
            (entities-IsWithin url (λ raw. raw) (patterns.urls text) urls)
            (entities-IsWithin phone digits_only (patterns.phones text) phones))
          (with_users-IsWithin (mention_spans patterns text) ids (
            keep-All _ _
              (entities-IsWithin mention without_first (patterns.mentions text) mentions)))

    -- Where the patterns match what is not empty and within the text, the entities lie within the text,
    -- each ends before the next starts, and whatever was found overlaps one of them.
    pub scan_message_text_entities-IsApart :
        (ids : List Text)
        → IsApart (scan_message_text_entities patterns text ids)
          × All (IsWithin text) (scan_message_text_entities patterns text ids)
          × All
              (λ c. some_by (overlaps c) (scan_message_text_entities patterns text ids) ≡ true)
              (sort by_position (candidates patterns text ids))
    unfolding scan_message_text_entities
    scan_message_text_entities-IsApart ids =
        let found = candidates patterns text ids in
        let within = sort-All by_position (IsWithin text) found (candidates-IsWithin ids) in
        let spans = All-each (λ e h. h.0) (sort by_position found) within in
        (
          accept-IsApart [] (sort by_position found) tt tt
              (sort-IsSorted by_position by_position-IsComparator found) spans,
          accept-All (IsWithin text) [] (sort by_position found) tt within,
          accept-overlaps [] (sort by_position found) spans,
        )
