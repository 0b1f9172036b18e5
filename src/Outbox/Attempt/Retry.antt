-- ===== src/Outbox/Attempt/Retry.antt =====
-- src/outbox-engine.ts: when a failed row is tried again, and how long a send may take.
use privchat_sdk_typescript.Prelude.{
  ℕ, ◌+◌, ◌≤◌, ◌<◌, ◌≡◌, refl, Text, none, some, true, text_eq, arith, Bool-cases, inl, inr, leb,
  leb→le,
}
use privchat_sdk_typescript.Cache.{OutboxEntry, failed}
use privchat_sdk_typescript.Cache.OutboxTable.{
  Outbox, get_outbox_entry, apply_outbox_patch, claim_outbox_entry,
}
use privchat_sdk_typescript.Cache.OutboxTable.Leases.{claim_outbox_entry_exclusive}
use privchat_sdk_typescript.Table.{get_key}
use privchat_sdk_typescript.Outbox.{
  Settings, OutboxEngineConfig, configure, backoff, frozen_next_attempt_at, World,
}
use privchat_sdk_typescript.Outbox.Attempt.{
  transient_next, transient_error, failed_patch, handle_transient,
}
use privchat_sdk_typescript.Outbox.Attempt.Fencing.{is_owner, transition-owned}
use privchat_sdk_typescript.Outbox.Attempt.Delivery.{stored-found}

timeout-short :
    (config : OutboxEngineConfig)
    → 0 < (configure config).lease_ms
    → (configure config).send_timeout_ms < (configure config).lease_ms
unfolding configure
timeout-short config h = ground arith

-- With any configuration whose lease is not empty, the lease outlives the send: on the table that a
-- successful claim leaves, every claim of the row up to the moment when the send times out is refused.
pub send_timeout_within_lease :
    (config : OutboxEngineConfig) (outbox after : Outbox) (outbox_id token token' : Text)
    (now later : ℕ) (entry : OutboxEntry)
    → 0 < (configure config).lease_ms
    → claim_outbox_entry outbox outbox_id token now (configure config).lease_ms
      ≡ (some entry, after)
    → later ≤ now + (configure config).send_timeout_ms
    → claim_outbox_entry after outbox_id token' later (configure config).lease_ms ≡ (none, after)
send_timeout_within_lease config outbox after outbox_id token token' now later entry h claimed
      early =
    claim_outbox_entry_exclusive outbox outbox_id token now (configure config).lease_ms entry after
      token' later (configure config).lease_ms claimed (omega (arith, timeout-short config h))

-- The time of the next try after the `attempts`-th failure at `now`.
pub data NextTry (settings : Settings) (now attempts next : ℕ) : Type 0 where
  frozen :
      settings.max_attempts ≤ attempts
      → next ≡ frozen_next_attempt_at
      → NextTry settings now attempts next
  scheduled :
      attempts < settings.max_attempts
      → now ≤ next
      → next ≤ now + settings.max_delay_ms
      → NextTry settings now attempts next

transient_next-NextTry :
    (settings : Settings) (now : ℕ) (entry : OutboxEntry)
    → NextTry settings now (entry.attempt_count + 1) (transient_next settings now entry)
unfolding transient_next backoff
transient_next-NextTry settings now entry =
    elim (Bool-cases (leb settings.max_attempts (entry.attempt_count + 1))) [
      | inl spent ↦ frozen (leb→le _ _ spent) (rw spent refl)
      | inr left ↦ scheduled (ground arith) (ground arith) (ground arith)
    ]

-- The row as a transient failure leaves it.
pub record Rescheduled (settings : Settings) (now : ℕ) (entry : OutboxEntry) (outbox : Outbox)
    : Type 0 where
  pub row : OutboxEntry
  pub found : get_outbox_entry outbox entry.outbox_id ≡ some row
  pub status : row.status ≡ failed
  pub attempts : row.attempt_count ≡ entry.attempt_count + 1
  pub next : NextTry settings now (entry.attempt_count + 1) row.next_attempt_at

-- A transient failure that the owner records leaves the row failed with one more attempt, due again
-- after at most the longest delay, or frozen once the attempts are spent.
pub handle_transient-Rescheduled :
    {S : Type 0} (settings : Settings) (now : ℕ) (w : World S) (entry : OutboxEntry)
    (token error : Text)
    → is_owner w.outbox entry.outbox_id token ≡ true
    → Rescheduled settings now entry (handle_transient settings now w entry token error).outbox
unfolding handle_transient apply_outbox_patch
handle_transient-Rescheduled settings now w entry token error owner =
    let patch =
      failed_patch now entry (transient_next settings now entry)
        (transient_error settings entry error) in
    let (row, there, written) = transition-owned w.outbox entry.outbox_id token now patch owner in
    let after = apply_outbox_patch now row patch in
    rw written (record {
      row = after;
      found =
          stored-found w.outbox after entry.outbox_id
            (get_key _ entry.outbox_id w.outbox row there);
      status = refl;
      attempts = refl;
      next = transient_next-NextTry settings now entry;
    })
