-- ===== src/Members/Watermark.antt =====
-- src/cache/group-member-store.ts: the watermarks of the groups' incremental syncs.
use privchat_sdk_typescript.Prelude.{
  ℕ, ◌<◌, max, ◌≡◌, refl, sym, ◌∙◌, ap, Text, Option, some, Bool, true, false, [], ◌∷◌, ◌++◌, arith,
  ◌==◌, nat_eq, text_eq, text_beq_iff, inl, inr, Bool-cases, if◌then◌else◌, leb, or_else, codes,
  value, value_from, to_decimal, to_decimal-IsDecimal, value-to_decimal, IsDecimal,
}
use privchat_sdk_typescript.Table
use privchat_sdk_typescript.Table.{get, get-put}
use privchat_sdk_typescript.Members.{
  MemberDb, Metadata, metadata_key, watermark_key, leading_digits, parse_int, saved_text,
  saved_watermark, group_member_sync_watermark, advance_group_member_watermark, members_of,
}

leading_digits-decimal : (s : Text) → IsDecimal s → leading_digits s ≡ s
unfolding leading_digits
leading_digits-decimal [] h = refl
leading_digits-decimal (c ∷ s) h = ground (arith, leading_digits-decimal s h.1)

-- A positive number is read back from its numeral.
parse_int-to_decimal : (n : ℕ) → 0 < n → parse_int (to_decimal n) ≡ some n
unfolding parse_int
parse_int-to_decimal n pos = elim (Bool-cases (to_decimal n == [])) [
  | inl empty ↦
      let gone : to_decimal n ≡ [] = (text_beq_iff (to_decimal n) []).0 empty in
      absurd (omega (arith, sym (value-to_decimal n) ∙ ap value gone ∙ nothing))
  | inr some_digit ↦
      rw (parse_int, leading_digits-decimal (to_decimal n) (to_decimal-IsDecimal n), some_digit)
        (ap some (value-to_decimal n))
]
  where
    nothing : value [] ≡ 0
    nothing = unfold value_from in refl

prefix_cancel : (p s t : Text) → (p ++ s) ≡ (p ++ t) → s ≡ t
prefix_cancel [] s t h = h
prefix_cancel (c ∷ p) s t h = prefix_cancel p s t (cc)

watermark_key-beq : (g h : Text) → (watermark_key g == watermark_key h) ≡ (g == h)
watermark_key-beq g h = ground (
  arith,
  text_beq_iff (watermark_key g) (watermark_key h),
  text_beq_iff g h,
  prefix_cancel (codes "group_member_watermark:") g h,
)

abbrev read : Option Metadata → ℕ
read o = or_else (parse_int (saved_text o)) 0

abbrev entry : Text → ℕ → Metadata
entry g version = record { key = watermark_key g; value = to_decimal version }

abbrev with_entry : MemberDb → Text → ℕ → MemberDb
with_entry db g version = record db {
  cache_metadata = Table.put metadata_key (entry g version) db.cache_metadata;
}

read-entry :
    (g : Text) (version : ℕ) (b : Bool) (o : Option Metadata)
    → 0 < version
    → read (if b then some (entry g version) else o) ≡ (if b then version else read o)
read-entry g version true o pos = ap (λ n. or_else n 0) (parse_int-to_decimal version pos)
read-entry g version false o pos = refl

saved_watermark-put :
    (db : MemberDb) (g h : Text) (version : ℕ)
    → 0 < version
    → saved_watermark (with_entry db g version) h
      ≡ (if g == h then version else saved_watermark db h)
unfolding saved_watermark
saved_watermark-put db g h version pos =
    ap read (get-put metadata_key (watermark_key h) (entry g version) db.cache_metadata)
    ∙ read-entry g version (watermark_key g == watermark_key h) _ pos
    ∙ ap (λ b. if b then version else saved_watermark db h) (watermark_key-beq g h)

group_member_sync_watermark-put :
    (db : MemberDb) (g h : Text) (version : ℕ)
    → 0 < version
    → group_member_sync_watermark (with_entry db g version) h
      ≡ (if g == h then version else group_member_sync_watermark db h)
unfolding group_member_sync_watermark members_of
group_member_sync_watermark-put db g h version pos =
    ground (arith, saved_watermark-put db g h version pos)

-- Advancing a group's watermark to a version makes it the greater of the two, and leaves the watermarks
-- of the other groups as they are.
pub group_member_sync_watermark-advance :
    (db : MemberDb) (g h : Text) (version : ℕ)
    → group_member_sync_watermark (advance_group_member_watermark db g version) h ≡ (
        if g == h
        then max (group_member_sync_watermark db h) version
        else group_member_sync_watermark db h)
unfolding advance_group_member_watermark
group_member_sync_watermark-advance db g h version =
    elim (Bool-cases (leb version (group_member_sync_watermark db g))) [
      | inl old ↦
          rw (advance_group_member_watermark, old)
            (ground (arith, old, text_beq_iff g h, ap (group_member_sync_watermark db)))
      | inr new ↦
          rw (advance_group_member_watermark, new)
            (group_member_sync_watermark-put db g h version (ground arith)
              ∙ ground (arith, new, text_beq_iff g h))
    ]
