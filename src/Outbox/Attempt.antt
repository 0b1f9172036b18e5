-- ===== src/Outbox/Attempt.antt =====
-- src/outbox-engine.ts: one row's attempt: `processRow`, its failure paths and the local replay of an
-- acknowledgement. Another tab may write the tables while a send is under way.
pub mod Fencing
pub mod Delivery
pub mod Wire
pub mod Retry
use privchat_sdk_typescript.Prelude.{
  ℕ, ◌+◌, ◌-◌, Text, Option, none, some, Bool, true, false, not, ◌&&◌, List, [], ◌∷◌, ◌++◌, ◌==◌,
  nat_eq, or_else, ltb, leb, to_decimal, codes, if◌then◌else◌, Result, ok, err,
}
use privchat_sdk_typescript.Codes.{is_retryable_server_code}
use privchat_sdk_typescript.Cache.{
  OutboxEntry, OutboxStatus, pending, sending, failed, ack_pending, integrity_error,
  local_data_error, message_rehydrate,
}
use privchat_sdk_typescript.Cache.OutboxTable.{
  Outbox, OutboxStatusPatch, empty_patch, update_outbox_status, claim_outbox_entry,
  commit_outbox_transition,
}
use privchat_sdk_typescript.Outbox
use privchat_sdk_typescript.Outbox.{
  Settings, backoff, frozen_next_attempt_at, OutboxEngineDeps, World, SendMessageResponse,
  build_request, event, emit, count_failed, count_sent, count_skipped, count_attempted,
}
use privchat_sdk_typescript.Outbox.Resolve.{
  CommitError, Lease, rehydrate_required, other, send_lease, no_lease, apply_ack_of,
}

-- What a send comes to.
pub data SendOutcome : Type 0 where
  resolved : SendMessageResponse → SendOutcome
  thrown : Text → SendOutcome

-- The send races a timer, which wins unless the send settles before it.
unfoldable pub send_with_timeout : Settings → ℕ → SendOutcome → SendOutcome
send_with_timeout settings took outcome =
    if ltb took settings.send_timeout_ms
    then outcome
    else thrown (
        codes "Error: send timed out after " ++ (to_decimal settings.send_timeout_ms ++ codes "ms"))

-- `formatErr` of the error.
unfoldable pub format_err : CommitError → Text
format_err (rehydrate_required message_id channel_id content_type) =
    codes "ProjectionRehydrateRequiredError: message "
    ++ (message_id
        ++ (codes " in "
            ++ (channel_id
                ++ (codes " is missing from the cache and a "
                    ++ (content_type
                        ++ codes
                            " payload cannot rebuild it; needs re-hydration from the server")))))
format_err (other e) = e

-- The patch that records a transient failure, and its error.
unfoldable pub transient_error : Settings → OutboxEntry → Text → Text
transient_error settings entry error =
    if leb settings.max_attempts (entry.attempt_count + 1)
    then codes "transient: max attempts ("
      ++ (to_decimal settings.max_attempts ++ (codes ") exceeded: " ++ error))
    else codes "transient: " ++ error

unfoldable pub transient_next : Settings → ℕ → OutboxEntry → ℕ
transient_next settings now entry =
    if leb settings.max_attempts (entry.attempt_count + 1)
    then frozen_next_attempt_at
    else now + backoff settings entry.attempt_count

abbrev pub failed_patch : ℕ → OutboxEntry → ℕ → Text → OutboxStatusPatch
failed_patch now entry next_attempt_at last_error = record empty_patch {
  status = some failed;
  attempt_count = some (entry.attempt_count + 1);
  next_attempt_at = some next_attempt_at;
  last_error = some (some last_error);
  updated_at = some now;
}

-- A fenced write where there is a token, a plain one where there is none.
unfoldable pub write_patch : ℕ → Outbox → Text → Option Text → OutboxStatusPatch → Bool × Outbox
write_patch now outbox outbox_id none patch =
    (true, (update_outbox_status now outbox outbox_id patch).1)
write_patch now outbox outbox_id (some token) patch =
    commit_outbox_transition now outbox outbox_id token patch

abbrev pub commit_failures : OutboxEntry → ℕ
commit_failures entry = or_else entry.local_commit_failures 0 + 1

unfoldable pub commit_failure_patch :
    Settings → ℕ → OutboxEntry → SendMessageResponse → CommitError → OutboxStatusPatch
commit_failure_patch settings now entry resp
      (rehydrate_required message_id channel_id content_type) =
    record empty_patch {
      status = some integrity_error;
      acked_server_message_id = some resp.server_message_id;
      acked_message_seq = some resp.message_seq;
      repair_kind = some message_rehydrate;
      conflicting_id = some message_id;
      conflicting_channel_id = some channel_id;
      next_attempt_at = some frozen_next_attempt_at;
      repair_next_attempt_at = some now;
      last_error = some (
          some (
            codes "integrity: "
            ++ format_err (rehydrate_required message_id channel_id content_type)));
      updated_at = some now;
    }
commit_failure_patch settings now entry resp (other e) = record empty_patch {
  status = some ack_pending;
  acked_server_message_id = some resp.server_message_id;
  acked_message_seq = some resp.message_seq;
  local_commit_failures = some (commit_failures entry);
  next_attempt_at = some (now + backoff settings (commit_failures entry - 1));
  last_error = some (some (codes "local-commit: " ++ e));
  updated_at = some now;
}

abbrev pub failure_status : CommitError → Outbox.EventStatus
failure_status (rehydrate_required m c t) = Outbox.integrity_error
failure_status (other e) = Outbox.ack_pending

module _ {S : Type 0} (settings : Settings) where
  -- The failure is recorded and published by the owner only.
  abbrev pub record_failure : ℕ → World S → OutboxEntry → Text → ℕ → Text → World S
  record_failure now w entry token next_attempt_at last_error =
      let (owned, outbox) =
        commit_outbox_transition now w.outbox entry.outbox_id token
          (failed_patch now entry next_attempt_at last_error) in
      if owned
      then count_failed
          (emit (record w { outbox = outbox }) (event entry Outbox.failed none (some last_error)))
      else w

  unfoldable pub handle_transient : ℕ → World S → OutboxEntry → Text → Text → World S
  handle_transient now w entry token error =
      record_failure now w entry token (transient_next settings now entry)
        (transient_error settings entry error)

  unfoldable pub handle_rejected : ℕ → World S → OutboxEntry → Text → ℕ → World S
  handle_rejected now w entry token code =
      record_failure now w entry token frozen_next_attempt_at
        (codes "rejected: code=" ++ to_decimal code)

  -- Where the record of the failure cannot be written, the call throws and leaves the world as it is.
  unfoldable pub handle_local_commit_failure :
      ℕ → Bool → World S → OutboxEntry → SendMessageResponse → Option Text → CommitError → World S
  handle_local_commit_failure now false w entry resp token error = w
  handle_local_commit_failure now true w entry resp token error =
      let patch = commit_failure_patch settings now entry resp error in
      let (stored, outbox) = write_patch now w.outbox entry.outbox_id token patch in
      if stored
      then count_failed (
          emit (record w { outbox = outbox })
            (event entry (failure_status error) none (or_else patch.last_error none)))
      else w

-- What one row's attempt meets: the token it draws, the clock when it claims and when it concludes,
-- whether the client is authenticated, what the other tabs do during the send, when and how the send
-- settles, whether the storage fails at the commit of an acknowledgement (`fault`), whether it takes the
-- record of such a failure (`records`), and the id that would be minted.
pub record Circumstances (S : Type 0) : Type 0 where
  pub token : Text
  pub claims_at : ℕ
  pub concludes_at : ℕ
  pub authenticated : Bool
  pub meanwhile : World S → World S
  pub took : ℕ
  pub outcome : SendOutcome
  pub fault : Option Text
  pub records : Bool
  pub fresh_id : Text

-- The response that a stored acknowledgement stands for.
abbrev pub replayed : OutboxEntry → Text → SendMessageResponse
replayed entry server_message_id = record {
  client_seq = 0;
  server_message_id = server_message_id;
  message_seq = or_else entry.acked_message_seq 0;
  reason_code = 0;
}

abbrev pub is_ack_pending : OutboxStatus → Bool
is_ack_pending ack_pending = true
is_ack_pending _ = false

module _ {S : Type 0} (deps : OutboxEngineDeps S) (settings : Settings) where
  unfoldable pub retry_local_commit : Circumstances S → World S → OutboxEntry → World S
  retry_local_commit c w entry = elim entry.acked_server_message_id [
    | none ↦ count_failed w
    | some id ↦ elim (apply_ack_of deps w entry (replayed entry id) no_lease c.fault c.fresh_id) [
      | err e ↦
          handle_local_commit_failure settings c.concludes_at c.records w entry (replayed entry id)
            none e
      | ok (owned, w') ↦ count_sent (emit w' (event entry Outbox.sent (some id) none))
    ]
  ]

  -- The server has taken the message.
  unfoldable pub conclude_accepted :
      Circumstances S → World S → OutboxEntry → SendMessageResponse → World S
  conclude_accepted c w entry resp =
      elim (apply_ack_of deps w entry resp (send_lease c.token) c.fault c.fresh_id) [
        | err e ↦
            handle_local_commit_failure settings c.concludes_at c.records w entry resp
              (some c.token) e
        | ok (owned, w') ↦
            if owned
            then count_sent (emit w' (event entry Outbox.sent (some resp.server_message_id) none))
            else w'
      ]

  -- What follows once the send has settled.
  unfoldable pub conclude : Circumstances S → World S → OutboxEntry → SendOutcome → World S
  conclude c w entry (thrown e) = handle_transient settings c.concludes_at w entry c.token e
  conclude c w entry (resolved resp) =
      if resp.reason_code == 0
      then conclude_accepted c w entry resp
      else if is_retryable_server_code resp.reason_code
      then handle_transient settings c.concludes_at w entry c.token
          (codes "Error: server rejected: code=" ++ to_decimal resp.reason_code)
      else handle_rejected settings c.concludes_at w entry c.token resp.reason_code

  -- The claimed row goes out.
  abbrev pub sent_out : World S → OutboxEntry → World S
  sent_out w entry =
      let announced = emit (count_attempted w) (event entry Outbox.sending none none) in
      record announced { wire = build_request entry ∷ w.wire }

  unfoldable pub attempt_send : Circumstances S → World S → OutboxEntry → World S
  attempt_send c w entry =
      let (claimed, outbox) =
        claim_outbox_entry w.outbox entry.outbox_id c.token c.claims_at settings.lease_ms in
      elim claimed [
        | none ↦ count_skipped w
        | some row ↦
            conclude c (c.meanwhile (sent_out (record w { outbox = outbox }) row)) row
              (send_with_timeout settings c.took c.outcome)
      ]

  unfoldable pub process_row : Circumstances S → World S → OutboxEntry → World S
  process_row c w entry =
      if is_ack_pending entry.status
      then retry_local_commit c w entry
      else if c.authenticated
      then attempt_send c w entry
      else count_skipped w

  -- Whether processRow throws: neither the acknowledgement nor the failure to commit it can be stored.
  unfoldable pub commit_throws :
      Circumstances S → World S → OutboxEntry → SendMessageResponse → Lease → Bool
  commit_throws c w entry resp lease =
      elim (apply_ack_of deps w entry resp lease c.fault c.fresh_id) [
        | err e ↦ not c.records
        | ok _ ↦ false
      ]

  abbrev conclude_throws : Circumstances S → World S → OutboxEntry → SendOutcome → Bool
  unfolding commit_throws
  conclude_throws c w entry (thrown e) = false
  conclude_throws c w entry (resolved resp) =
      (resp.reason_code == 0) && commit_throws c w entry resp (send_lease c.token)

  unfoldable pub row_throws : Circumstances S → World S → OutboxEntry → Bool
  unfolding commit_throws
  row_throws c w entry =
      if is_ack_pending entry.status
      then elim entry.acked_server_message_id [
        | none ↦ false
        | some id ↦ commit_throws c w entry (replayed entry id) no_lease
      ]
      else let (claimed, outbox) =
          claim_outbox_entry w.outbox entry.outbox_id c.token c.claims_at settings.lease_ms in
        elim claimed [
          | none ↦ false
          | some row ↦
              c.authenticated
              && conclude_throws c (c.meanwhile (sent_out (record w { outbox = outbox }) row)) row
                  (send_with_timeout settings c.took c.outcome)
        ]
