-- ===== src/Outbox/Flush.antt =====
-- src/outbox-engine.ts: `flushOutbox`, `processChannel` and `recoverLocalState`. The channels run at
-- the same time in the source; here one follows the other, and what the other channels and tabs do
-- during a row's send is the `meanwhile` of that row's circumstances.
pub mod Fifo
use privchat_sdk_typescript.Prelude.{
  ℕ, Text, Option, none, some, Bool, true, false, ◌&&◌, List, [], ◌∷◌, ◌++◌, ◌==◌, text_eq, nat_eq,
  keep, take, length, not, if◌then◌else◌,
}
use privchat_sdk_typescript.Cache.{OutboxEntry}
use privchat_sdk_typescript.Cache.OutboxTable.{list_due_outbox_entries}
use privchat_sdk_typescript.Outbox.{Settings, OutboxEngineDeps, World, Counters}
use privchat_sdk_typescript.Outbox.Attempt.{
  Circumstances, process_row, row_throws, retry_local_commit, is_ack_pending,
}
use privchat_sdk_typescript.Outbox.Repair.{RepairCircumstances, repair_integrity_rows}

pub record OutboxFlushOptions : Type 0 where
  pub channel_id : Option Text
  pub channel_type : Option ℕ
  pub limit : Option ℕ

pub record OutboxFlushResult : Type 0 where
  pub counters : Counters
  pub remaining : ℕ

abbrev pub has_type : Option ℕ → OutboxEntry → Bool
has_type none e = true
has_type (some t) e = e.channel_type == t

unfoldable pub is_selected : OutboxFlushOptions → OutboxEntry → Bool
is_selected options e = elim options.channel_id [
  | some c ↦ e.channel_id == c && has_type options.channel_type e
  | none ↦ has_type options.channel_type e
]

abbrev pub limited : Option ℕ → List OutboxEntry → List OutboxEntry
limited none rows = rows
limited (some n) rows = take n rows

-- The due rows that this flush takes on.
unfoldable pub selected_rows : OutboxFlushOptions → List OutboxEntry → List OutboxEntry
selected_rows options due = limited options.limit (keep (is_selected options) due)

pub record ChannelRows : Type 0 where
  pub key : Text
  pub rows : List OutboxEntry

-- A row goes to the end of its channel's rows; a new channel goes last.
unfoldable pub add_row : OutboxEntry → List ChannelRows → List ChannelRows
add_row row [] = record { key = row.channel_id; rows = row ∷ [] } ∷ []
add_row row (group ∷ groups) =
    let rest = add_row row groups in
    if group.key == row.channel_id
    then record group { rows = group.rows ++ row ∷ [] } ∷ groups
    else group ∷ rest

unfoldable pub group_by_channel : List ChannelRows → List OutboxEntry → List ChannelRows
group_by_channel groups [] = groups
group_by_channel groups (row ∷ rows) = group_by_channel (add_row row groups) rows

module _ {S : Type 0} (deps : OutboxEngineDeps S) (settings : Settings) where
  -- The rows in order, up to one whose processRow throws; the Boolean says that none did.
  unfoldable pub process_channel :
      (OutboxEntry → Circumstances S) → World S → List OutboxEntry → Bool × World S
  process_channel circumstances w [] = (true, w)
  process_channel circumstances w (row ∷ rows) =
      let w' = process_row deps settings (circumstances row) w row in
      let rest = process_channel circumstances w' rows in
      if row_throws deps settings (circumstances row) w row then (false, w') else rest

  -- A channel that throws does not stop the others.
  unfoldable pub process_channels :
      (OutboxEntry → Circumstances S) → World S → List ChannelRows → Bool × World S
  process_channels circumstances w [] = (true, w)
  process_channels circumstances w (group ∷ groups) =
      let (whole, w') = process_channel circumstances w group.rows in
      let (others, w2) = process_channels circumstances w' groups in (whole && others, w2)

  -- There is no result where the flush throws.
  unfoldable pub flush_outbox :
      (OutboxEntry → RepairCircumstances S)
      → (OutboxEntry → Circumstances S)
      → ℕ
      → OutboxFlushOptions
      → World S
      → Option OutboxFlushResult × World S
  flush_outbox repairs circumstances now options w =
      let fresh = record w {
        counters = record { attempted = 0; sent = 0; failed = 0; skipped = 0 };
      } in
      let repaired = repair_integrity_rows deps settings repairs fresh in
      let due = selected_rows options (list_due_outbox_entries repaired.outbox now) in
      let (whole, after) = process_channels circumstances repaired (group_by_channel [] due) in
      let result : OutboxFlushResult = record {
        counters = after.counters;
        remaining = length after.outbox;
      } in
      (if whole then some result else none, after)

  unfoldable pub recover_rows :
      (OutboxEntry → Circumstances S) → World S → List OutboxEntry → Bool × World S
  recover_rows circumstances w [] = (true, w)
  recover_rows circumstances w (row ∷ rows) =
      let w' = retry_local_commit deps settings (circumstances row) w row in
      let retried = recover_rows circumstances w' rows in
      let passed_over = recover_rows circumstances w rows in
      if is_ack_pending row.status
      then (if row_throws deps settings (circumstances row) w row then (false, w') else retried)
      else passed_over

  unfoldable pub recover_local_state :
      (OutboxEntry → RepairCircumstances S)
      → (OutboxEntry → Circumstances S)
      → ℕ
      → World S
      → Bool × World S
  recover_local_state repairs circumstances now w =
      let repaired = repair_integrity_rows deps settings repairs w in
      recover_rows circumstances repaired (list_due_outbox_entries repaired.outbox now)
