-- ===== src/Uploads/Sizer.antt =====
-- ChunkSizer of src/chunked-upload.ts: the size of the next request. Sizes are whole numbers of
-- bytes; the rate is the platform's floating-point arithmetic, of which `clamp` reads the whole part.
use privchat_sdk_typescript.Prelude.{
  ℕ, zero, suc, ◌*◌, ◌/◌, ◌%◌, ◌^◌, ◌≤◌, ◌<◌, ◌≡◌, Option, none, some, min, max, arith, ltb,
  if◌then◌else◌,
}
use native.Mathlib.Nat.{div-mul-le_self}
use privchat_sdk_typescript.Uploads.{UploadDeps}

abbrev pub max_request_size : ℕ
max_request_size = 2097152

pub record ChunkSizer (R : Type 0) : Type 0 where
  pub base : ℕ
  pub rate : Option R
  pub next : ℕ

-- `Math.max(baseUnit | 0, 1)`: `| 0` reads the number as a signed word of 32 bits.
unfoldable pub base_of : ℕ → ℕ
base_of unit = let word = unit % 2 ^ 32 in if ltb word (2 ^ 31) then max word 1 else 1

unfoldable pub clamp : ℕ → ℕ → ℕ
clamp base want =
    let capped = min (max want base) (max max_request_size base) in max (capped / base * base) base

module _ {R : Type 0} where
  unfoldable pub new_sizer : ℕ → ChunkSizer R
  new_sizer base = record { base = base; rate = none; next = base }

  unfoldable pub on_failure : ChunkSizer R → ChunkSizer R
  on_failure sizer = record sizer { next = clamp sizer.base (sizer.next / 2); rate = none }

  module _ {S : Type 0} (d : UploadDeps S R) where
    blended : Option R → R → R
    blended none sample = sample
    blended (some rate) sample = d.blend rate sample

    unfoldable pub on_success : ChunkSizer R → ℕ → ℕ → ChunkSizer R
    unfolding blended
    on_success sizer bytes elapsed_ms =
        let rate = blended sizer.rate (d.sample bytes elapsed_ms) in
        record sizer { rate = some rate; next = clamp sizer.base (min (d.floor rate) (bytes * 4)) }

abbrev pub IsMultiple : ℕ → ℕ → Type 0
IsMultiple base n = (k : ℕ) × (n ≡ k * base)

-- A size of whole cells, at least one, and no more than a request holds.
abbrev pub IsSize : ℕ → ℕ → Type 0
IsSize base n = (base ≤ n) × (n ≤ max max_request_size base) × IsMultiple base n

pub at_least_one : (q base : ℕ) → IsMultiple base (max (q * base) base)
at_least_one zero base = (1, omega arith)
at_least_one (suc q) base = (suc q, omega (arith))

pub clamp-IsSize : (base want : ℕ) → IsSize base (clamp base want)
unfolding clamp
clamp-IsSize base want =
    let capped : ℕ = min (max want base) (max max_request_size base) in
    (omega arith, omega (arith, div-mul-le_self capped base), at_least_one (capped / base) base)

-- A sizer on a grid of positive cells, whose next size is one.
pub record IsSized {R : Type 0} (sizer : ChunkSizer R) : Type 0 where
  pub positive : 0 < sizer.base
  pub size : IsSize sizer.base sizer.next

module _ {R : Type 0} where
  pub new_sizer-IsSized : (base : ℕ) → 0 < base → IsSized (new_sizer {R = R} base)
  unfolding new_sizer
  new_sizer-IsSized base h = record {
    positive = h;
    size = (omega arith, omega arith, (1, omega arith));
  }

  module _ (sizer : ChunkSizer R) (sized : IsSized sizer) where
    pub on_failure-IsSized : IsSized (on_failure sizer)
    unfolding on_failure
    on_failure-IsSized = record {
      positive = sized.positive;
      size = clamp-IsSize sizer.base (sizer.next / 2);
    }

    pub on_success-IsSized :
        {S : Type 0} (d : UploadDeps S R) (bytes elapsed_ms : ℕ)
        → IsSized (on_success d sizer bytes elapsed_ms)
    unfolding on_success
    on_success-IsSized d bytes elapsed_ms = record {
      positive = sized.positive;
      size = clamp-IsSize sizer.base _;
    }

pub base_of-positive : (unit : ℕ) → 0 < base_of unit
unfolding base_of
base_of-positive unit = ground arith
