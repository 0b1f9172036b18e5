-- ===== src/Uploads/Gaps/Grid.antt =====
-- The sizes of the pieces that src/chunked-upload.ts sends.
use native.Mathlib.Nat.{div-mul-le_self}
use privchat_sdk_typescript.Prelude.{
  ℕ, ◌+◌, ◌*◌, ◌/◌, ◌≤◌, ◌<◌, ◌≡◌, ◌⊎◌, inl, inr, min, max, arith, ltb, leb, true, false,
  Bool-cases,
}
use privchat_sdk_typescript.Uploads.{Range}
use privchat_sdk_typescript.Uploads.Sizer.{
  ChunkSizer, IsSized, IsMultiple, at_least_one, max_request_size,
}
use privchat_sdk_typescript.Uploads.Gaps.{piece_length}

-- A piece ends its gap, ends the blob, or is of whole cells.
abbrev pub IsPiece : ℕ → ℕ → Range → ℕ → Type 0
IsPiece base total gap len =
    (0 < len)
    × (len ≤ gap.length)
    × (len ≤ max max_request_size base)
    × ((len ≡ gap.length) ⊎ (total ≤ gap.offset + len) ⊎ IsMultiple base len)

module _ (base total next : ℕ) (gap : Range) where
  whole_cells :
      ltb (gap.offset + min next gap.length) total ≡ true
      → (piece_length base total next gap ≡ gap.length)
        ⊎ IsMultiple base (piece_length base total next gap)
  unfolding piece_length
  whole_cells inner =
      let (k, cells) = at_least_one (min next gap.length / base) base in
      elim (Bool-cases (leb gap.length (max (min next gap.length / base * base) base))) [
        | inl ends ↦ inl (ground arith)
        | inr fits ↦ inr (k, ground arith)
      ]

  ends_blob :
      ltb (gap.offset + min next gap.length) total ≡ false
      → total ≤ gap.offset + piece_length base total next gap
  unfolding piece_length
  ends_blob last = ground arith

-- Whatever the sizer has learnt, the piece of a gap that is not empty is one: not empty, within the
-- gap and the request limit, and of whole cells unless it ends the gap or the blob.
pub piece_length-IsPiece :
    {R : Type 0} (sizer : ChunkSizer R) (total : ℕ) (gap : Range)
    → IsSized sizer
    → 0 < gap.length
    → IsPiece sizer.base total gap (piece_length sizer.base total sizer.next gap)
unfolding piece_length
piece_length-IsPiece sizer total gap sized some_bytes =
    let base : ℕ = sizer.base in
    (
      ground (arith, sized.positive, sized.size.0),
      ground arith,
      ground (arith, sized.size.1, div-mul-le_self (min sizer.next gap.length) base),
      elim (Bool-cases (ltb (gap.offset + min sizer.next gap.length) total)) [
        | inr last ↦ inr (inl (ends_blob base total sizer.next gap last))
        | inl inner ↦ elim (whole_cells base total sizer.next gap inner) [
          | inl ends ↦ inl ends
          | inr cells ↦ inr (inr cells)
        ]
      ],
    )
