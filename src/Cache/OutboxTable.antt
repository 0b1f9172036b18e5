-- ===== src/Cache/OutboxTable.antt =====
-- src/cache/outbox-store.ts: the outbox table. An operation takes the table and the clock, and
-- returns its result with the table; each is one transaction.
pub mod Leases
pub mod Due
use privchat_sdk_typescript.Prelude.{
  ℕ, ◌+◌, Text, Option, none, some, Bool, true, false, ◌&&◌, ◌||◌, List, [], ◌∷◌, ◌==◌, text_eq,
  option_eq, coalesce, or_else, ltb, leb, keep, take, if◌then◌else◌,
}
use privchat_sdk_typescript.Table
use privchat_sdk_typescript.Cache.{
  OutboxEntry, OutboxStatus, pending, sending, failed, ack_pending, integrity_error,
  local_data_error, RepairKind,
}

abbrev pub Outbox : Type 0
Outbox = List OutboxEntry

abbrev pub outbox_key : OutboxEntry → Text
outbox_key e = e.outbox_id

abbrev pub get_outbox_entry : Outbox → Text → Option OutboxEntry
get_outbox_entry db outbox_id = Table.get outbox_key outbox_id db

abbrev pub put_outbox_entry : Outbox → OutboxEntry → Outbox
put_outbox_entry db entry = Table.put outbox_key entry db

abbrev pub delete_outbox_entry : Outbox → Text → Outbox
delete_outbox_entry db outbox_id = Table.delete outbox_key outbox_id db

-- Mutable fields of a row; `none` leaves the field. `last_error = some none` removes the error.
pub record OutboxStatusPatch : Type 0 where
  pub status : Option OutboxStatus
  pub attempt_count : Option ℕ
  pub local_commit_failures : Option ℕ
  pub repair_attempts : Option ℕ
  pub repair_kind : Option RepairKind
  pub conflicting_id : Option Text
  pub conflicting_channel_id : Option Text
  pub repair_lease_token : Option Text
  pub repair_lease_until : Option ℕ
  pub repair_next_attempt_at : Option ℕ
  pub acked_server_message_id : Option Text
  pub acked_message_seq : Option ℕ
  pub next_attempt_at : Option ℕ
  pub last_error : Option (Option Text)
  pub updated_at : Option ℕ

-- The patch that names no field: `{}`.
abbrev pub empty_patch : OutboxStatusPatch
empty_patch = record {
  status = none;
  attempt_count = none;
  local_commit_failures = none;
  repair_attempts = none;
  repair_kind = none;
  conflicting_id = none;
  conflicting_channel_id = none;
  repair_lease_token = none;
  repair_lease_until = none;
  repair_next_attempt_at = none;
  acked_server_message_id = none;
  acked_message_seq = none;
  next_attempt_at = none;
  last_error = none;
  updated_at = none;
}

unfoldable pub apply_outbox_patch : ℕ → OutboxEntry → OutboxStatusPatch → OutboxEntry
apply_outbox_patch date_now existing patch = record existing {
  status = or_else patch.status existing.status;
  attempt_count = or_else patch.attempt_count existing.attempt_count;
  local_commit_failures = coalesce patch.local_commit_failures existing.local_commit_failures;
  repair_attempts = coalesce patch.repair_attempts existing.repair_attempts;
  repair_kind = coalesce patch.repair_kind existing.repair_kind;
  conflicting_id = coalesce patch.conflicting_id existing.conflicting_id;
  conflicting_channel_id = coalesce patch.conflicting_channel_id existing.conflicting_channel_id;
  repair_lease_token = coalesce patch.repair_lease_token existing.repair_lease_token;
  repair_lease_until = coalesce patch.repair_lease_until existing.repair_lease_until;
  repair_next_attempt_at = coalesce patch.repair_next_attempt_at existing.repair_next_attempt_at;
  acked_server_message_id = coalesce patch.acked_server_message_id existing.acked_server_message_id;
  acked_message_seq = coalesce patch.acked_message_seq existing.acked_message_seq;
  next_attempt_at = or_else patch.next_attempt_at existing.next_attempt_at;
  last_error = or_else patch.last_error existing.last_error;
  updated_at = or_else patch.updated_at date_now;
}

unfoldable pub update_outbox_status :
    ℕ → Outbox → Text → OutboxStatusPatch → Option OutboxEntry × Outbox
update_outbox_status date_now db outbox_id patch = elim (get_outbox_entry db outbox_id) [
  | none ↦ (none, db)
  | some existing ↦ (
    some (apply_outbox_patch date_now existing patch),
    put_outbox_entry db (apply_outbox_patch date_now existing patch),
  )
]

-- A row in `sending` may be taken over only once its lease has run out.
unfoldable pub claimable : OutboxEntry → ℕ → Bool
claimable row now = elim row.status [
  | pending ↦ true
  | failed ↦ true
  | sending ↦ leb (or_else row.lease_until 0) now
  | _ ↦ false
]

-- The row that a claim stores.
abbrev pub claimed_entry : Text → ℕ → ℕ → OutboxEntry → OutboxEntry
claimed_entry token now lease_ms row = record row {
  status = sending;
  lease_token = some token;
  lease_until = some (now + lease_ms);
  updated_at = now;
}

unfoldable pub claim_outbox_entry : Outbox → Text → Text → ℕ → ℕ → Option OutboxEntry × Outbox
unfolding claimable
claim_outbox_entry db outbox_id lease_token now lease_ms = elim (get_outbox_entry db outbox_id) [
  | none ↦ (none, db)
  | some row ↦
      let claimed = claimed_entry lease_token now lease_ms row in
      if claimable row now then (some claimed, put_outbox_entry db claimed) else (none, db)
]

unfoldable pub commit_outbox_transition :
    ℕ → Outbox → Text → Text → OutboxStatusPatch → Bool × Outbox
commit_outbox_transition date_now db outbox_id lease_token patch =
    elim (get_outbox_entry db outbox_id) [
      | none ↦ (false, db)
      | some row ↦
          if row.lease_token == some lease_token
          then (true, put_outbox_entry db (apply_outbox_patch date_now row patch))
          else (false, db)
    ]

abbrev pub is_integrity_error : OutboxStatus → Bool
is_integrity_error integrity_error = true
is_integrity_error pending = false
is_integrity_error sending = false
is_integrity_error failed = false
is_integrity_error ack_pending = false
is_integrity_error local_data_error = false

-- The row that a repair claim stores.
abbrev pub claimed_repair : Text → ℕ → ℕ → OutboxEntry → OutboxEntry
claimed_repair token now lease_ms row = record row {
  repair_attempts = some (or_else row.repair_attempts 0 + 1);
  repair_lease_token = some token;
  repair_lease_until = some (now + lease_ms);
  updated_at = now;
}

unfoldable pub claim_repair_row : Outbox → Text → Text → ℕ → ℕ → Option OutboxEntry × Outbox
claim_repair_row db outbox_id repair_lease_token now lease_ms =
    elim (get_outbox_entry db outbox_id) [
      | none ↦ (none, db)
      | some row ↦
          let claimed = claimed_repair repair_lease_token now lease_ms row in
          if is_integrity_error row.status
          then if ltb now (or_else row.repair_lease_until 0)
            then (none, db)
            else if ltb now (or_else row.repair_next_attempt_at 0)
            then (none, db)
            else (some claimed, put_outbox_entry db claimed)
          else (none, db)
    ]

unfoldable pub commit_repair_transition :
    ℕ → Outbox → Text → Text → OutboxStatusPatch → Bool × Outbox
commit_repair_transition date_now db outbox_id repair_lease_token patch =
    elim (get_outbox_entry db outbox_id) [
      | none ↦ (false, db)
      | some row ↦
          if row.repair_lease_token == some repair_lease_token
          then (true, put_outbox_entry db (apply_outbox_patch date_now row patch))
          else (false, db)
    ]

unfoldable pub delete_outbox_entry_if_repair_owner : Outbox → Text → Text → Bool × Outbox
delete_outbox_entry_if_repair_owner db outbox_id repair_lease_token =
    elim (get_outbox_entry db outbox_id) [
      | none ↦ (false, db)
      | some row ↦
          if row.repair_lease_token == some repair_lease_token
          then (true, delete_outbox_entry db outbox_id)
          else (false, db)
    ]

unfoldable pub delete_outbox_entry_if_owner : Outbox → Text → Text → Bool × Outbox
delete_outbox_entry_if_owner db outbox_id lease_token = elim (get_outbox_entry db outbox_id) [
  | none ↦ (false, db)
  | some row ↦
      if row.lease_token == some lease_token
      then (true, delete_outbox_entry db outbox_id)
      else (false, db)
]

-- `rows.filter(...)` of `listDueOutboxEntries`, on the rows that the index has already found.
unfoldable pub is_due : ℕ → OutboxEntry → Bool
is_due now row = elim row.status [
  | pending ↦ true
  | failed ↦ true
  | ack_pending ↦ true
  | sending ↦ leb (or_else row.lease_until 0) now
  | _ ↦ false
]

unfoldable pub list_due_outbox_entries : Outbox → ℕ → List OutboxEntry
unfolding is_due
list_due_outbox_entries db now =
    let all = keep (λ r. leb r.next_attempt_at now) (Table.sort_by (λ r. r.next_attempt_at) db) in
    Table.sort_by (λ r. r.created_at) (keep (is_due now) all)
