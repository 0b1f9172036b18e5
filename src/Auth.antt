-- ===== src/Auth.antt =====
-- src/auth-refresh.ts: AuthRefreshCoordinator as a state machine. A step is a call of `refresh` or
-- what the host's callbacks and the promises do next; `Tokens` and `Error` are the host's. A callback
-- does not call `refresh` before it returns.
pub mod SingleFlight
use privchat_sdk_typescript.Prelude.{
  ℕ, ◌+◌, suc, Option, none, some, Bool, true, false, not, List, [], ◌∷◌, ◌++◌, map, if◌then◌else◌,
}

-- What the shared promise comes to.
pub data Outcome (Tokens Error : Type 0) : Type 0 where
  refreshed : Tokens → Outcome Tokens Error
  rejected : Error → Outcome Tokens Error

-- `inflight`, with the callers that hold the promise. It is null when idle.
pub data Inflight (Tokens Error Caller : Type 0) : Type 0 where
  idle : Inflight Tokens Error Caller
  asking : List Caller → Inflight Tokens Error Caller
  persisting : Tokens → List Caller → Inflight Tokens Error Caller
  settled : Outcome Tokens Error → List Caller → Inflight Tokens Error Caller

-- `asked` counts the calls of refreshAuth, `warnings` the failures to persist. `answers` is in the
-- order of the calls, whatever the order in which the promises run their continuations.
pub record Coordinator (Tokens Error Caller : Type 0) : Type 0 where
  pub inflight : Inflight Tokens Error Caller
  pub asked : ℕ
  pub answers : List (Caller × Outcome Tokens Error)
  pub warnings : ℕ

pub data Event (Tokens Error Caller : Type 0) : Type 0 where
  calls : Caller → Event Tokens Error Caller
  resolves : Tokens → Event Tokens Error Caller
  refuses : Error → Event Tokens Error Caller
  persists : Bool → Event Tokens Error Caller
  clears : Event Tokens Error Caller

module _ {Tokens Error Caller : Type 0} where
  abbrev pub fresh : Coordinator Tokens Error Caller
  fresh = record { inflight = idle; asked = 0; answers = []; warnings = 0 }

  -- The caller shares the promise in flight, or starts one.
  unfoldable pub refresh :
      Coordinator Tokens Error Caller
      → Inflight Tokens Error Caller
      → Caller
      → Coordinator Tokens Error Caller
  refresh c idle caller = record c { inflight = asking (caller ∷ []); asked = suc c.asked }
  refresh c (asking waiting) caller = record c { inflight = asking (waiting ++ caller ∷ []) }
  refresh c (persisting tokens waiting) caller = record c {
    inflight = persisting tokens (waiting ++ caller ∷ []);
  }
  refresh c (settled outcome waiting) caller = record c {
    inflight = settled outcome (waiting ++ caller ∷ []);
  }

  -- refreshAuth has given tokens: they are persisted if the host wants to.
  unfoldable pub resolve :
      Bool
      → Coordinator Tokens Error Caller
      → Inflight Tokens Error Caller
      → Tokens
      → Option (Coordinator Tokens Error Caller)
  resolve persists_tokens c (asking waiting) tokens = some (record c {
    inflight =
        if persists_tokens then persisting tokens waiting else settled (refreshed tokens) waiting;
  })
  resolve persists_tokens c _ tokens = none

  unfoldable pub refuse :
      Coordinator Tokens Error Caller
      → Inflight Tokens Error Caller
      → Error
      → Option (Coordinator Tokens Error Caller)
  refuse c (asking waiting) error = some (record c { inflight = settled (rejected error) waiting })
  refuse c _ error = none

  -- A failure to persist is a warning and no more.
  unfoldable pub persist :
      Coordinator Tokens Error Caller
      → Inflight Tokens Error Caller
      → Bool
      → Option (Coordinator Tokens Error Caller)
  persist c (persisting tokens waiting) done = some (record c {
    inflight = settled (refreshed tokens) waiting;
    warnings = if done then c.warnings else suc c.warnings;
  })
  persist c _ done = none

  -- `finally`: the callers have their answer, and nothing is in flight.
  unfoldable pub clear_inflight :
      Coordinator Tokens Error Caller
      → Inflight Tokens Error Caller
      → Option (Coordinator Tokens Error Caller)
  clear_inflight c (settled outcome waiting) = some (record c {
    inflight = idle;
    answers = c.answers ++ map (λ caller. (caller, outcome)) waiting;
  })
  clear_inflight c _ = none

  -- Whether tokens are persisted is the host's configuration; an event that cannot be now is none.
  unfoldable pub step :
      Bool
      → Event Tokens Error Caller
      → Coordinator Tokens Error Caller
      → Option (Coordinator Tokens Error Caller)
  unfolding refresh resolve refuse persist clear_inflight
  step persists_tokens (calls caller) c = some (refresh c c.inflight caller)
  step persists_tokens (resolves tokens) c = resolve persists_tokens c c.inflight tokens
  step persists_tokens (refuses error) c = refuse c c.inflight error
  step persists_tokens (persists done) c = persist c c.inflight done
  step persists_tokens clears c = clear_inflight c c.inflight

  -- The events of a run, the last first.
  unfoldable pub run :
      Bool → List (Event Tokens Error Caller) → Option (Coordinator Tokens Error Caller)
  unfolding step
  run persists_tokens [] = some fresh
  run persists_tokens (event ∷ past) = elim (run persists_tokens past) [
    | none ↦ none
    | some c ↦ step persists_tokens event c
  ]
