-- ===== src/Outbox/Repair.antt =====
-- src/outbox-engine.ts: `repairIntegrityRows` and `attemptRepair`. The host's repair runs between the
-- claim and the replay, and other tabs with it.
pub mod Budget
use privchat_sdk_typescript.Prelude.{
  ℕ, ◌+◌, ◌-◌, Text, Option, none, some, Bool, true, false, List, [], ◌∷◌, ◌++◌, or_else, leb, keep,
  to_decimal, codes, if◌then◌else◌, Result, ok, err,
}
use privchat_sdk_typescript.Cache.{OutboxEntry, RepairKind, local_data_error}
use privchat_sdk_typescript.Cache.OutboxTable.{
  Outbox, OutboxStatusPatch, empty_patch, claim_repair_row, commit_repair_transition,
  is_integrity_error,
}
use privchat_sdk_typescript.Outbox
use privchat_sdk_typescript.Outbox.{Settings, backoff, OutboxEngineDeps, World, event, emit}
use privchat_sdk_typescript.Outbox.Resolve.{repair_lease, apply_ack_of}
use privchat_sdk_typescript.Outbox.Attempt.{replayed}

pub record OutboxIntegrityFault : Type 0 where
  pub outbox_id : Text
  pub local_message_id : Text
  pub channel_id : Text
  pub channel_type : ℕ
  pub server_message_id : Text
  pub repair_kind : Option RepairKind
  pub conflicting_id : Option Text
  pub conflicting_channel_id : Option Text
  pub error : Text
  pub repair_attempt : ℕ

-- What one pass on one row meets. `on_integrity_fault` is what the host's hook does to the world: it
-- returns, whether or not it throws, before the replay.
pub record RepairCircumstances (S : Type 0) : Type 0 where
  pub token : Text
  pub claims_at : ℕ
  pub concludes_at : ℕ
  pub on_integrity_fault : OutboxIntegrityFault → World S → World S
  pub fault : Option Text
  pub fresh_id : Text

unfoldable pub integrity_fault : OutboxEntry → ℕ → OutboxIntegrityFault
integrity_fault entry attempt = record {
  outbox_id = entry.outbox_id;
  local_message_id = entry.local_message_id;
  channel_id = entry.channel_id;
  channel_type = entry.channel_type;
  server_message_id = or_else entry.acked_server_message_id [];
  repair_kind = entry.repair_kind;
  conflicting_id = entry.conflicting_id;
  conflicting_channel_id = entry.conflicting_channel_id;
  error = or_else entry.last_error (codes "integrity fault");
  repair_attempt = attempt;
}

unfoldable pub given_up : ℕ → OutboxEntry → ℕ → OutboxStatusPatch
given_up now entry attempts = record empty_patch {
  status = some local_data_error;
  repair_lease_until = some 0;
  last_error = some (
      some (
        codes "local-data-error: repair failed "
        ++ (to_decimal attempts ++ (codes "x; " ++ or_else entry.last_error []))));
  updated_at = some now;
}

unfoldable pub backed_off : Settings → ℕ → ℕ → OutboxStatusPatch
backed_off settings now attempts = record empty_patch {
  repair_lease_until = some 0;
  repair_next_attempt_at = some (now + backoff settings (attempts - 1));
  updated_at = some now;
}

module _ {S : Type 0} (deps : OutboxEngineDeps S) (settings : Settings) where
  -- The replay after the host's repair: whether the row converged, and the world.
  unfoldable pub replay_repair : RepairCircumstances S → World S → OutboxEntry → Bool × World S
  replay_repair c w entry = elim entry.acked_server_message_id [
    | none ↦ (false, w)
    | some id ↦
        elim (apply_ack_of deps w entry (replayed entry id) (repair_lease c.token) c.fault
          c.fresh_id) [
            | err e ↦ (false, w)
            | ok (owned, done) ↦
                if owned
                then (true, emit done (event entry Outbox.sent (some id) none))
                else (false, done)
          ]
  ]

  abbrev pub attempt_repair : RepairCircumstances S → World S → OutboxEntry → ℕ → Bool × World S
  attempt_repair c w entry attempt =
      replay_repair c (c.on_integrity_fault (integrity_fault entry attempt) w) entry

  -- A pass that has not converged: the row is given up, or put off.
  unfoldable pub conclude_repair : RepairCircumstances S → World S → OutboxEntry → ℕ → World S
  conclude_repair c w entry attempts =
      let patch = given_up c.concludes_at entry attempts in
      let (stored, outbox) =
        commit_repair_transition c.concludes_at w.outbox entry.outbox_id c.token patch in
      let (_, delayed) =
        commit_repair_transition c.concludes_at w.outbox entry.outbox_id c.token
          (backed_off settings c.concludes_at attempts) in
      if leb settings.max_repair_attempts attempts
      then if stored
        then emit (record w { outbox = outbox })
            (event entry Outbox.local_data_error none (or_else patch.last_error none))
        else w
      else record w { outbox = delayed }

  abbrev pub settle_repair : RepairCircumstances S → OutboxEntry → ℕ → Bool × World S → World S
  settle_repair c entry attempts (true, w) = w
  settle_repair c entry attempts (false, w) = conclude_repair c w entry attempts

  -- What follows the claim.
  abbrev pub repair_claimed :
      RepairCircumstances S → World S → Option OutboxEntry × Outbox → World S
  repair_claimed c w (none, outbox) = w
  repair_claimed c w (some entry, outbox) =
      let attempts = or_else entry.repair_attempts 1 in
      settle_repair c entry attempts
        (attempt_repair c (record w { outbox = outbox }) entry attempts)

  unfoldable pub repair_row : RepairCircumstances S → World S → OutboxEntry → World S
  repair_row c w row =
      repair_claimed c w
        (claim_repair_row w.outbox row.outbox_id c.token c.claims_at settings.lease_ms)

  unfoldable pub repair_rows :
      (OutboxEntry → RepairCircumstances S) → World S → List OutboxEntry → World S
  repair_rows circumstances w [] = w
  repair_rows circumstances w (row ∷ rows) =
      repair_rows circumstances (repair_row (circumstances row) w row) rows

  unfoldable pub repair_integrity_rows : (OutboxEntry → RepairCircumstances S) → World S → World S
  repair_integrity_rows circumstances w =
      repair_rows circumstances w (keep (λ r. is_integrity_error r.status) w.outbox)
