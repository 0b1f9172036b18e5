-- ===== src/Contents/Laws.antt =====
-- src/message-content.ts: what the display text is.
use privchat_sdk_typescript.Prelude.{
  ℕ, zero, suc, ◌≡◌, refl, Text, Option, none, some, arith, ◌⊎◌, inl, inr, Option-cases, Bool-cases,
  ◌==◌, text_eq, text_beq_iff, if◌then◌else◌, ◌≤◌, sym, subst, ◌∙◌,
}
use privchat_sdk_typescript.Contents.{
  Json, string, LegacyMessageEnvelope, decode_legacy_text, normalize_from,
  normalize_message_display_content,
}

module _ (parse : Text → Option Json) where
  -- Opening envelopes `n` times, each holding the text of the next.
  pub data Opens : ℕ → Text → Text → Type 0 where
    here : {s : Text} → Opens zero s s
    inside :
        {n : ℕ} {s t : Text} {e : LegacyMessageEnvelope}
        → decode_legacy_text parse s ≡ some e
        → Opens n e.content t
        → Opens (suc n) s t

  -- A text that is no envelope, or one that holds itself.
  abbrev pub IsPlain : Text → Type 0
  IsPlain s = (e : LegacyMessageEnvelope) → decode_legacy_text parse s ≡ some e → e.content ≡ s

  normalize_from-plain :
      (depth : ℕ) (s : Text)
      → decode_legacy_text parse s ≡ none
      → normalize_from parse (suc depth) s ≡ s
  unfolding normalize_from
  normalize_from-plain depth s h = rw (normalize_from, h) refl

  normalize_from-decoded :
      (depth : ℕ) (s : Text) (e : LegacyMessageEnvelope)
      → decode_legacy_text parse s ≡ some e
      → normalize_from parse (suc depth) s
        ≡ (if e.content == s then s else normalize_from parse depth e.content)
  unfolding normalize_from
  normalize_from-decoded depth s e h = rw (normalize_from, h) refl

  abbrev pub IsOpened : ℕ → Text → Text → Type 0
  IsOpened depth s t = (n : ℕ) × (n ≤ depth) × Opens n s t × ((n ≡ depth) ⊎ IsPlain t)

  IsOpened-inside :
      (depth : ℕ) (s t : Text) (e : LegacyMessageEnvelope)
      → decode_legacy_text parse s ≡ some e
      → IsOpened depth e.content t
      → IsOpened (suc depth) s t
  IsOpened-inside depth s t e h (n, le, opens, inl full) =
      (suc n, omega arith, inside h opens, inl (omega arith))
  IsOpened-inside depth s t e h (n, le, opens, inr plain) =
      (suc n, omega arith, inside h opens, inr plain)

  IsOpened-here : (depth : ℕ) (s t : Text) → t ≡ s → IsPlain s → IsOpened depth s t
  IsOpened-here depth s t e plain =
      subst (IsOpened depth s) (sym e) (zero, omega arith, here, inr plain)

  IsPlain-content :
      (s : Text) (e : LegacyMessageEnvelope)
      → decode_legacy_text parse s ≡ some e
      → e.content ≡ s
      → IsPlain s
  IsPlain-content s e h same d opened = cc

  normalize_from-IsOpened : (depth : ℕ) (s : Text) → IsOpened depth s (normalize_from parse depth s)
  normalize_from-IsOpened zero s = unfold normalize_from in (zero, omega arith, here, inl refl)
  normalize_from-IsOpened (suc depth) s = elim (Option-cases (decode_legacy_text parse s)) [
    | inl plain ↦
        IsOpened-here (suc depth) s _ (normalize_from-plain depth s plain) (λ e opened. cc)
    | inr (e, opened) ↦ elim (Bool-cases (e.content == s)) [
      | inl same ↦
          IsOpened-here (suc depth) s _ (normalize_from-decoded depth s e opened ∙ rw same refl)
            (IsPlain-content s e opened ((text_beq_iff _ _).0 same))
      | inr other ↦
          subst (IsOpened (suc depth) s)
            (sym (normalize_from-decoded depth s e opened ∙ rw other refl))
            (IsOpened-inside depth s _ e opened (normalize_from-IsOpened depth e.content))
    ]
  ]

  -- The display text of a text is what is left after opening at most three envelopes, one inside the
  -- other. Either three were opened, or what is left is no envelope but one that holds itself.
  pub normalize_message_display_content-IsOpened :
      (s : Text) → IsOpened 3 s (normalize_message_display_content parse (string s))
  unfolding normalize_message_display_content
  normalize_message_display_content-IsOpened s = normalize_from-IsOpened 3 s
