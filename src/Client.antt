-- ===== src/Client.antt =====
-- src/client.ts: `retryOutboxEntry`, the user's retry of one outbox row.
pub mod Discard
use privchat_sdk_typescript.Prelude.{
  ℕ, ◌≡◌, refl, Text, Option, none, some, Bool, true, not, Result, ok, err, if◌then◌else◌, arith,
  text_eq, Option-cases, inl, inr,
}
use privchat_sdk_typescript.Table.{get_key}
use privchat_sdk_typescript.Cache.{OutboxEntry, pending}
use privchat_sdk_typescript.Cache.OutboxTable.{
  Outbox, OutboxStatusPatch, empty_patch, apply_outbox_patch, update_outbox_status,
  get_outbox_entry, put_outbox_entry, claimable, claimed_entry, claim_outbox_entry,
}
use privchat_sdk_typescript.Outbox.{Settings, OutboxEngineDeps, World}
use privchat_sdk_typescript.Outbox.Attempt.{Circumstances}
use privchat_sdk_typescript.Outbox.Attempt.Delivery.{stored-found}
use privchat_sdk_typescript.Outbox.Repair.{RepairCircumstances}
use privchat_sdk_typescript.Outbox.Flush.{OutboxFlushResult, flush_outbox}

-- What the calls on an outbox row throw: the cache is not there, the outbox has no such row, or the
-- storage's own error.
pub data OutboxCallError : Type 0 where
  cache_disabled outbox_row_not_found : OutboxCallError
  storage_failed : Text → OutboxCallError

-- The errors of a call's awaited read and of its awaited write, if any.
pub record CallFaults : Type 0 where
  pub read : Option Text
  pub write : Option Text

unfoldable pub guarded :
    {A : Type 0} → Option Text → Result OutboxCallError A → Result OutboxCallError A
guarded none result = result
guarded (some e) result = err (storage_failed e)

abbrev pub retry_patch : OutboxStatusPatch
retry_patch = record empty_patch {
  status = some pending;
  attempt_count = some 0;
  next_attempt_at = some 0;
  last_error = some none;
}

-- The table after the reset; `none` where the call throws because there is no such row.
unfoldable pub reset_outbox_entry : ℕ → Outbox → Text → Option (OutboxEntry × Outbox)
reset_outbox_entry date_now outbox outbox_id = elim (get_outbox_entry outbox outbox_id) [
  | none ↦ none
  | some entry ↦ some (entry, (update_outbox_status date_now outbox outbox_id retry_patch).1)
]

module _ {S : Type 0} (deps : OutboxEngineDeps S) (settings : Settings) where
  -- The row is reset, and its channel flushed; the flush has no result where it throws. `cached` says
  -- that the outbox is there.
  unfoldable pub retry_outbox_entry :
      (OutboxEntry → RepairCircumstances S)
      → (OutboxEntry → Circumstances S)
      → Bool
      → CallFaults
      → ℕ
      → ℕ
      → World S
      → Text
      → Result OutboxCallError (Option OutboxFlushResult × World S)
  unfolding guarded
  retry_outbox_entry repairs circumstances cached faults date_now now w outbox_id =
      if not cached
      then err cache_disabled
      else guarded faults.read (elim (reset_outbox_entry date_now w.outbox outbox_id) [
        | none ↦ err outbox_row_not_found
        | some (entry, outbox) ↦ guarded faults.write (
            ok (
              flush_outbox deps settings repairs circumstances now
                (record {
                  channel_id = some entry.channel_id;
                  channel_type = some entry.channel_type;
                  limit = none;
                })
                (record w { outbox = outbox })))
      ])

reset-claimable :
    (date_now now : ℕ) (row : OutboxEntry)
    → claimable (apply_outbox_patch date_now row retry_patch) now ≡ true
unfolding claimable apply_outbox_patch
reset-claimable date_now now row = refl

reset-found :
    (date_now : ℕ) (outbox after : Outbox) (outbox_id : Text) (entry : OutboxEntry)
    → reset_outbox_entry date_now outbox outbox_id ≡ some (entry, after)
    → get_outbox_entry after outbox_id ≡ some (apply_outbox_patch date_now entry retry_patch)
unfolding reset_outbox_entry update_outbox_status apply_outbox_patch
reset-found date_now outbox after outbox_id entry h =
    elim (Option-cases (get_outbox_entry outbox outbox_id)) [
      | inl missing ↦ absurd (ground arith)
      | inr (row, found) ↦
          let reset = apply_outbox_patch date_now row retry_patch in
          let same : row ≡ entry = ground arith in
          let written : put_outbox_entry outbox reset ≡ after = ground arith in
          rw (← written, ← same)
            (stored-found outbox reset outbox_id (get_key _ outbox_id outbox row found))
    ]

-- After the reset of a row, whatever its state was, delivered or being sent under a live lease, any
-- attempt at any time claims it for sending.
pub reset_outbox_entry-claimed :
    (date_now : ℕ) (outbox after : Outbox) (outbox_id token : Text) (now lease_ms : ℕ)
    (entry : OutboxEntry)
    → reset_outbox_entry date_now outbox outbox_id ≡ some (entry, after)
    → (claim_outbox_entry after outbox_id token now lease_ms).0
      ≡ some (claimed_entry token now lease_ms (apply_outbox_patch date_now entry retry_patch))
unfolding claim_outbox_entry
reset_outbox_entry-claimed date_now outbox after outbox_id token now lease_ms entry h =
    let there = reset-found date_now outbox after outbox_id entry h in
    let free = reset-claimable date_now now entry in ground arith
