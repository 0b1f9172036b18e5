-- ===== src/Cache/Inbound/Laws.antt =====
-- src/cache/canonical-inbound.ts: the unit is told from the size, and the precise time wins whatever
-- the order of arrival.
use privchat_sdk_typescript.Prelude.{
  ℕ, ◌*◌, ◌/◌, ◌≤◌, ◌<◌, ◌≡◌, refl, Option, none, some, Bool, true, false, ◌||◌, List, [], ◌∷◌,
  arith,
}
use privchat_sdk_typescript.Cache.{TimePrecision, seconds, milliseconds}
use privchat_sdk_typescript.Cache.Inbound.{
  natural, min_plausible_ms, normalize_sent_at_ms, SentAt, merge_sent_at, is_milliseconds,
}

-- A time in milliseconds is kept, its second count is scaled up, and the two name the same second,
-- for every time from 1973 on whose second count is below the threshold.
pub normalize_sent_at_ms_agree :
    (t : ℕ)
    → min_plausible_ms ≤ t
    → t / 1000 < min_plausible_ms
    → (normalize_sent_at_ms (natural t) ≡ t)
      × (normalize_sent_at_ms (natural (t / 1000)) / 1000 ≡ normalize_sent_at_ms (natural t) / 1000)
unfolding normalize_sent_at_ms
normalize_sent_at_ms_agree t h k = ground arith

-- What a source of a given precision says of a message that was sent at `t`.
abbrev pub observe : ℕ → TimePrecision → SentAt
observe t seconds = record { ms = t / 1000 * 1000; precision = seconds }
observe t milliseconds = record { ms = t; precision = milliseconds }

-- The time that a row holds after the sources have come in, one after the other, and whether any
-- merge reported a conflict.
unfoldable pub absorb_times : Option SentAt → List SentAt → Option SentAt × Bool
absorb_times held [] = (held, false)
absorb_times held (s ∷ rest) =
    let (merged, conflict) = merge_sent_at held s in
    let (final, later) = absorb_times (some merged) rest in (final, conflict || later)

abbrev pub any_precise : List TimePrecision → Bool
any_precise [] = false
any_precise (p ∷ ps) = is_milliseconds p || any_precise ps

abbrev pub observe_all : ℕ → List TimePrecision → List SentAt
observe_all t [] = []
observe_all t (p ∷ ps) = observe t p ∷ observe_all t ps

abbrev pub best : Bool → TimePrecision
best true = milliseconds
best false = seconds

absorb_times-observe :
    (t : ℕ) (p : TimePrecision) (ps : List TimePrecision)
    → 1000 ≤ t
    → absorb_times (some (observe t p)) (observe_all t ps)
      ≡ (some (observe t (best (is_milliseconds p || any_precise ps))), false)
unfolding absorb_times merge_sent_at
absorb_times-observe t seconds [] h = refl
absorb_times-observe t milliseconds [] h = refl
absorb_times-observe t seconds (seconds ∷ ps) h = ground (arith, absorb_times-observe t seconds ps)
absorb_times-observe t seconds (milliseconds ∷ ps) h =
    ground (arith, absorb_times-observe t milliseconds ps)
absorb_times-observe t milliseconds (seconds ∷ ps) h =
    ground (arith, absorb_times-observe t milliseconds ps)
absorb_times-observe t milliseconds (milliseconds ∷ ps) h =
    ground (arith, absorb_times-observe t milliseconds ps)

-- Whatever the number and the order of the sources of one message sent at `t`, the row ends with the
-- exact time if any of them carried milliseconds and with its second otherwise, and no merge reports
-- a conflict.
pub absorb_times_lem :
    (t : ℕ) (p : TimePrecision) (ps : List TimePrecision)
    → 1000 ≤ t
    → absorb_times none (observe_all t (p ∷ ps))
      ≡ (some (observe t (best (any_precise (p ∷ ps)))), false)
unfolding absorb_times merge_sent_at
absorb_times_lem t p ps h = ground (arith, absorb_times-observe t p ps)
