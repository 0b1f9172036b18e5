-- ===== src/Cache/Inbound.antt =====
-- src/cache/canonical-inbound.ts: send times. A push carries seconds, the other sources milliseconds.
pub mod Laws
use privchat_sdk_typescript.Prelude.{
  ℕ, ◌*◌, ◌^◌, Option, none, some, Bool, true, false, not, ◌==◌, nat_eq, leb, if◌then◌else◌, zero,
  suc,
}
use privchat_sdk_typescript.Cache.{TimePrecision, seconds, milliseconds}

-- A number off the wire: times are integers, and what is not finite or negative is refused.
pub data WireNumber : Type 0 where
  not_finite : WireNumber
  negative : ℕ → WireNumber
  natural : ℕ → WireNumber

abbrev pub min_plausible_ms : ℕ
min_plausible_ms = 10 ^ 11

unfoldable pub normalize_sent_at_ms : WireNumber → ℕ
normalize_sent_at_ms not_finite = 0
normalize_sent_at_ms (negative n) = 0
normalize_sent_at_ms (natural value) = if leb min_plausible_ms value then value else value * 1000

pub record SentAt : Type 0 where
  pub ms : ℕ
  pub precision : TimePrecision

abbrev pub same_precision : TimePrecision → TimePrecision → Bool
same_precision seconds seconds = true
same_precision seconds milliseconds = false
same_precision milliseconds seconds = false
same_precision milliseconds milliseconds = true

abbrev pub is_milliseconds : TimePrecision → Bool
is_milliseconds seconds = false
is_milliseconds milliseconds = true

-- The merged time, and whether two sources of one precision disagree.
unfoldable pub merge_sent_at : Option SentAt → SentAt → SentAt × Bool
merge_sent_at none incoming = (incoming, false)
merge_sent_at (some existing) incoming =
    if existing.ms == 0
    then (incoming, false)
    else if same_precision existing.precision incoming.precision
    then (existing, not (existing.ms == incoming.ms))
    else if is_milliseconds incoming.precision
    then (incoming, false)
    else (existing, false)
