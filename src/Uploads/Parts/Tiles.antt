-- ===== src/Uploads/Parts/Tiles.antt =====
-- The parts of an S3 upload (src/chunked-upload.ts) tile the blob, and those that are missing are sent.
use native.Mathlib.Nat.{
  le-div_iff_mul-le, div-lt_iff_lt-mul, lt-div-mul-add, div-mul-le_self, mul_comm, mul-le-mul_right,
  suc-mul,
}
use native.Mathlib.Numerals.{add-one}
use privchat_sdk_typescript.Prelude.{
  ℕ, zero, suc, ◌+◌, ◌-◌, ◌*◌, ◌/◌, ◌≤◌, ◌<◌, ◌≡◌, ◌⊎◌, inl, inr, refl, Bool, false, List, [], ◌∷◌,
  ◌&&◌, min, arith, ltb, leb, ◌==◌, nat_eq, if◌then◌else◌, some_by, All, Bool-cases, ◌∙◌,
}
use privchat_sdk_typescript.Uploads.{Range}
use privchat_sdk_typescript.Uploads.Parts.{part_length, part_offset, spans, missing_from}

abbrev pub Holds : ℕ → ℕ → ℕ → ℕ → ℕ → Type 0
Holds size parts total number byte =
    (1 ≤ number)
    × (number ≤ parts)
    × (part_offset size number ≤ byte)
    × (byte < part_offset size number + part_length size parts total number)

-- A product as the source writes it, and with one more factor.
products : (k size : ℕ) → (size * k ≡ k * size) × ((k + 1) * size ≡ k * size + size)
products k size = (mul_comm size k, simp (add-one, suc-mul) refl)

-- The part that a byte is in.
abbrev pub part_of : ℕ → ℕ → ℕ → ℕ
part_of size parts byte = min (byte / size) (parts - 1) + 1

module _ (size parts total : ℕ) (some_size : 0 < size) (some_parts : 0 < parts)
    (fits : size * (parts - 1) ≤ total) where
  part_of-first : (byte : ℕ) → byte < total → Holds size parts total (part_of size parts byte) byte
  unfolding part_length part_offset
  part_of-first byte h = elim (Bool-cases (ltb (byte / size) (parts - 1))) [
    | inl inner ↦
        let at : part_of size parts byte ≡ byte / size + 1 = ground arith in
        rw at (ground (arith, div-mul-le_self byte size, lt-div-mul-add {a = byte} some_size))
    | inr last ↦
        let at : part_of size parts byte ≡ parts = ground arith in
        rw at (
          ground (
            arith,
            products (parts - 1) size,
            (le-div_iff_mul-le {k = size} {x = parts - 1} {y = byte} some_size).0,
          ))
  ]

  part_of-only :
      (byte number : ℕ) → Holds size parts total number byte → number ≡ part_of size parts byte
  unfolding part_length part_offset
  part_of-only byte number h = ground (
    arith,
    products (number - 1) size,
    (le-div_iff_mul-le {k = size} {x = number - 1} {y = byte} some_size).1,
    (div-lt_iff_lt-mul {k = size} {x = byte} {y = number - 1 + 1} some_size).1,
  )

module _ (size parts total : ℕ) (some_size : 0 < size) (some_parts : 0 < parts)
    (fits : size * (parts - 1) ≤ total) where
  -- Where all parts but the last fit into the blob, every byte of it is in a part, and in no other.
  pub part_of-Holds :
      (byte : ℕ)
      → byte < total
      → Holds size parts total (part_of size parts byte) byte
        × ((number : ℕ) → Holds size parts total number byte → number ≡ part_of size parts byte)
  part_of-Holds byte h = (
    part_of-first size parts total some_size some_parts fits byte h,
    part_of-only size parts total some_size some_parts fits byte,
  )

abbrev pub covers : ℕ → Range → Bool
covers byte gap = leb gap.offset byte && ltb byte (gap.offset + gap.length)

abbrev pub lists : List ℕ → ℕ → Bool
lists numbers n = some_by (λ m. m == n) numbers

module _ (size parts total : ℕ) (missing : List Range) where
  not_yet_listed :
      (left number n : ℕ)
      → n < number
      → lists (missing_from size parts total missing left number) n ≡ false
  unfolding missing_from
  not_yet_listed zero number n h = refl
  not_yet_listed (suc left) number n h = ground (arith, not_yet_listed left (suc number) n)

  lists-missing_from :
      (left number n : ℕ)
      → number ≤ n
      → n < number + left
      → lists (missing_from size parts total missing left number) n
        ≡ some_by (spans (part_offset size n) (part_length size parts total n)) missing
  unfolding missing_from
  lists-missing_from zero number n p q = absurd (omega arith)
  lists-missing_from (suc left) number n p q = elim (Bool-cases (number == n)) [
    | inl here ↦
        let at : number ≡ n = ground arith in rw at (ground (arith, not_yet_listed left (suc n) n))
    | inr later ↦ ground (arith, lists-missing_from left (suc number) n)
  ]

-- A range that starts where a part starts, and ends where one ends or with the blob.
abbrev pub IsAligned : ℕ → ℕ → Range → Type 0
IsAligned size total gap =
    (i : ℕ) × (j : ℕ) × (gap.offset ≡ i * size)
    × ((gap.offset + gap.length ≡ j * size) ⊎ (gap.offset + gap.length ≡ total))

module _ (size parts total : ℕ) (some_size : 0 < size) (some_parts : 0 < parts)
    (fits : size * (parts - 1) ≤ total) (no_more : total ≤ size * parts) where
  -- Where the part of a byte ends, against the end of an aligned range.
  module _ (q byte : ℕ) (gap : Range) (under : q * size ≤ byte)
      (over : byte < q * size + size) where
    abbrev part_end : ℕ
    part_end = if q + 1 == parts then total else q * size + size

    starts_with : (i : ℕ) → gap.offset ≡ i * size → leb gap.offset (q * size) ≡ leb gap.offset byte
    starts_with i e = ground (
      arith,
      (le-div_iff_mul-le {k = size} {x = i} {y = byte} some_size).1,
      (div-lt_iff_lt-mul {k = size} {x = byte} {y = q + 1} some_size).1,
      mul-le-mul_right {m = i} {n = q} size,
      products q size,
    )

    ends_with_part :
        (j : ℕ)
        → byte < total
        → gap.offset + gap.length ≡ j * size
        → leb part_end (gap.offset + gap.length) ≡ ltb byte (gap.offset + gap.length)
    ends_with_part j h e = ground (
      arith,
      (div-lt_iff_lt-mul {k = size} {x = byte} {y = j} some_size).1,
      (le-div_iff_mul-le {k = size} {x = q} {y = byte} some_size).1,
      mul-le-mul_right {m = q + 1} {n = j} size,
      products q size,
      mul_comm size parts,
    )

    ends_with_total :
        byte < total
        → gap.offset + gap.length ≡ total
        → leb part_end (gap.offset + gap.length) ≡ ltb byte (gap.offset + gap.length)
    ends_with_total h e = ground (
      arith,
      (div-lt_iff_lt-mul {k = size} {x = byte} {y = parts} some_size).1,
      (le-div_iff_mul-le {k = size} {x = q} {y = byte} some_size).1,
      mul-le-mul_right {m = q + 1} {n = parts - 1} size,
      products q size,
      products (parts - 1) size,
      mul_comm size parts,
    )

    part_end-total : q + 1 ≤ parts → q * size + part_length size parts total (q + 1) ≡ part_end
    unfolding part_length
    part_end-total below = ground (arith, products (parts - 1) size)

    spans_at :
        byte < total
        → q + 1 ≤ parts
        → IsAligned size total gap
        → spans (q * size) (part_length size parts total (q + 1)) gap ≡ covers byte gap
    spans_at h below (i, j, e, end) =
        rw (part_end-total below, starts_with i e)
          (elim end [
            | inl at ↦ rw (ends_with_part j h at) refl
            | inr at ↦ rw (ends_with_total h at) refl
          ])

  covers-spans :
      (byte : ℕ) (gap : Range)
      → byte < total
      → IsAligned size total gap
      → spans
          (part_offset size (part_of size parts byte))
          (part_length size parts total (part_of size parts byte))
          gap
        ≡ covers byte gap
  unfolding part_offset
  covers-spans byte gap h aligned =
      let inside : byte / size < parts =
        (div-lt_iff_lt-mul {k = size} {x = byte} {y = parts} some_size).1
          (omega (arith, mul_comm size parts)) in
      let at : part_of size parts byte ≡ byte / size + 1 = omega arith in
      let before : byte / size + 1 - 1 ≡ byte / size = omega arith in
      rw (at, before)
        (spans_at (byte / size) byte gap (div-mul-le_self byte size)
          (lt-div-mul-add {a = byte} some_size) h (omega arith) aligned)

  some-spans :
      (byte : ℕ) (missing : List Range)
      → byte < total
      → All (IsAligned size total) missing
      → some_by
          (spans
            (part_offset size (part_of size parts byte))
            (part_length size parts total (part_of size parts byte)))
          missing
        ≡ some_by (covers byte) missing
  some-spans byte [] h aligned = refl
  some-spans byte (gap ∷ rest) h aligned =
      rw (covers-spans byte gap h aligned.0, some-spans byte rest h aligned.1) refl

  -- Where the missing ranges start where parts start, and end where parts end or with the blob, the
  -- part of a byte is on the list of the parts to send exactly when the byte is missing.
  pub lists-missing_from-part_of :
      (byte : ℕ) (missing : List Range)
      → byte < total
      → All (IsAligned size total) missing
      → lists (missing_from size parts total missing parts 1) (part_of size parts byte)
        ≡ some_by (covers byte) missing
  lists-missing_from-part_of byte missing h aligned =
      lists-missing_from size parts total missing parts 1 (part_of size parts byte) (omega arith)
        (omega arith)
      ∙ some-spans byte missing h aligned
