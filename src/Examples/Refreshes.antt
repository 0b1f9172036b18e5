-- ===== src/Examples/Refreshes.antt =====
-- A concrete run of the refresh coordinator: three callers, two refreshes, one failure to persist.
use privchat_sdk_typescript.Prelude.{ℕ, ◌≡◌, refl, some, true, false, List, [], ◌∷◌}
use privchat_sdk_typescript.Auth.{
  Coordinator, Event, calls, resolves, persists, clears, refreshed, asking, run,
}
use privchat_sdk_typescript.Auth.SingleFlight.{IsSingle, run-IsSingle}

-- The last event first.
abbrev events : List (Event ℕ ℕ ℕ)
events = calls 3 ∷ clears ∷ persists false ∷ calls 2 ∷ resolves 70 ∷ calls 1 ∷ []

abbrev coordinator : Coordinator ℕ ℕ ℕ
coordinator = record {
  inflight = asking (3 ∷ []);
  asked = 2;
  answers = (1, refreshed 70) ∷ (2, refreshed 70) ∷ [];
  warnings = 1;
}

events_run : run true events ≡ some coordinator
unfolding run
events_run = refl

run-IsSingle_example : IsSingle events coordinator
run-IsSingle_example = run-IsSingle true events coordinator events_run
