-- ===== src/Outbox/Attempt/Wire.antt =====
-- src/outbox-engine.ts: what `processRow` puts on the wire.
use privchat_sdk_typescript.Prelude.{
  ℕ, ◌≡◌, refl, Text, Option, none, some, Bool, not, ◌&&◌, List, [], ◌∷◌, ◌++◌, arith, Bool-cases,
  Option-cases, Result-cases, inl, inr, ok, >>=-eq-ok, if◌then◌else◌, ◌==◌, nat_eq,
}
use privchat_sdk_typescript.Codes.{is_retryable_server_code}
use privchat_sdk_typescript.Cache.{OutboxEntry, MessageRecord}
use privchat_sdk_typescript.Cache.OutboxTable.{
  Outbox, get_outbox_entry, claimable, claim_outbox_entry,
}
use privchat_sdk_typescript.Outbox.{
  Settings, OutboxEngineDeps, World, SendMessageResponse, SendMessageRequest, build_request,
}
use privchat_sdk_typescript.Outbox.Resolve.{
  CommitError, Lease, send_lease, no_lease, commit_acked, apply_ack_of, resolve_pending,
  acked_record,
}
use privchat_sdk_typescript.Outbox.Attempt.{
  Circumstances, SendOutcome, resolved, thrown, handle_transient, handle_rejected,
  handle_local_commit_failure, conclude_accepted, conclude, retry_local_commit, replayed,
  attempt_send, is_ack_pending, process_row,
}

-- The requests that an attempt on the row would send: the stored row's, if it may be sent now.
unfoldable pub sendable : Outbox → Text → ℕ → List SendMessageRequest
sendable outbox outbox_id now = elim (get_outbox_entry outbox outbox_id) [
  | none ↦ []
  | some row ↦ if claimable row now then build_request row ∷ [] else []
]

module _ {S : Type 0} (deps : OutboxEngineDeps S) (settings : Settings) (c : Circumstances S)
    (w : World S) (entry : OutboxEntry) where
  transient-wire :
      (error : Text)
      → (handle_transient settings c.concludes_at w entry c.token error).wire ≡ w.wire
  unfolding handle_transient
  transient-wire error = ground arith

  rejected-wire :
      (code : ℕ) → (handle_rejected settings c.concludes_at w entry c.token code).wire ≡ w.wire
  unfolding handle_rejected
  rejected-wire code = ground arith

  commit_failure-wire :
      (resp : SendMessageResponse) (token : Option Text) (e : CommitError)
      → (handle_local_commit_failure settings c.concludes_at c.records w entry resp token e).wire
        ≡ w.wire
  unfolding handle_local_commit_failure
  commit_failure-wire resp token e = elim (Bool-cases c.records) [
    | inl taken ↦ rw taken (ground arith)
    | inr lost ↦ rw lost refl
  ]

  commit-wire :
      (acked : MessageRecord) (lease : Lease) (fault : Option Text) (result : Bool × World S)
      → commit_acked deps w entry acked lease fault ≡ ok result
      → result.1.wire ≡ w.wire
  unfolding commit_acked
  commit-wire acked lease none result h = ground arith
  commit-wire acked lease (some e) result h = absurd (ground arith)

  apply-wire :
      (resp : SendMessageResponse) (lease : Lease) (result : Bool × World S)
      → apply_ack_of deps w entry resp lease c.fault c.fresh_id ≡ ok result
      → result.1.wire ≡ w.wire
  unfolding apply_ack_of
  apply-wire resp lease result h =
      let (pending_rec, _, committed) = >>=-eq-ok (resolve_pending deps w entry c.fresh_id) _ h in
      commit-wire (acked_record deps entry resp pending_rec) lease c.fault result committed

module _ {S : Type 0} (deps : OutboxEngineDeps S) (settings : Settings) (c : Circumstances S) where
  accepted-wire :
      (w : World S) (entry : OutboxEntry) (resp : SendMessageResponse)
      → (conclude_accepted deps settings c w entry resp).wire ≡ w.wire
  unfolding conclude_accepted
  accepted-wire w entry resp =
      elim (Result-cases (apply_ack_of deps w entry resp (send_lease c.token) c.fault c.fresh_id)) [
        | inl (result, done) ↦
            let same = apply-wire deps settings c w entry resp (send_lease c.token) result done in
            rw (conclude_accepted, done) (ground arith)
        | inr (e, failure) ↦
            rw (conclude_accepted, failure)
              (commit_failure-wire deps settings c w entry resp (some c.token) e)
      ]

  conclude-wire :
      (w : World S) (entry : OutboxEntry) (outcome : SendOutcome)
      → (conclude deps settings c w entry outcome).wire ≡ w.wire
  unfolding conclude
  conclude-wire w entry (thrown e) = transient-wire deps settings c w entry e
  conclude-wire w entry (resolved resp) = elim (Bool-cases (resp.reason_code == 0)) [
    | inl zero ↦ rw zero (accepted-wire w entry resp)
    | inr other ↦ elim (Bool-cases (is_retryable_server_code resp.reason_code)) [
      | inl retryable ↦ rw (other, retryable) (transient-wire deps settings c w entry _)
      | inr final ↦ rw (other, final) (rejected-wire deps settings c w entry resp.reason_code)
    ]
  ]

  retry-wire :
      (w : World S) (entry : OutboxEntry)
      → (retry_local_commit deps settings c w entry).wire ≡ w.wire
  unfolding retry_local_commit
  retry-wire w entry = elim (Option-cases entry.acked_server_message_id) [
    | inl missing ↦ rw (retry_local_commit, missing) refl
    | inr (id, stored) ↦
        let resp = replayed entry id in
        elim (Result-cases (apply_ack_of deps w entry resp no_lease c.fault c.fresh_id)) [
          | inl (result, done) ↦
              let same = apply-wire deps settings c w entry resp no_lease result done in
              rw (retry_local_commit, stored, done) same
          | inr (e, failure) ↦
              rw (retry_local_commit, stored, failure)
                (commit_failure-wire deps settings c w entry resp none e)
        ]
  ]

  attempt-wire :
      (w : World S) (entry : OutboxEntry)
      → ((v : World S) → (c.meanwhile v).wire ≡ v.wire)
      → (attempt_send deps settings c w entry).wire
        ≡ sendable w.outbox entry.outbox_id c.claims_at ++ w.wire
  unfolding attempt_send claim_outbox_entry sendable build_request
  attempt-wire w entry quiet = elim (Option-cases (get_outbox_entry w.outbox entry.outbox_id)) [
    | inl missing ↦ rw (attempt_send, claim_outbox_entry, sendable, missing) refl
    | inr (row, found) ↦ elim (Bool-cases (claimable row c.claims_at)) [
      | inl free ↦
          rw (attempt_send, claim_outbox_entry, sendable, found, free, conclude-wire, quiet) refl
      | inr held ↦ rw (attempt_send, claim_outbox_entry, sendable, found, held) refl
    ]
  ]

-- The engine sends at most one request for a row, and exactly when the snapshot does not say that the
-- server has it, the client is authenticated, and the row as stored at the moment of the claim may be
-- sent; the request is then the stored row's. The condition is that what happens during the send adds
-- nothing to the engine's own requests.
pub process_row-wire :
    {S : Type 0} (deps : OutboxEngineDeps S) (settings : Settings) (c : Circumstances S)
    (w : World S) (entry : OutboxEntry)
    → ((v : World S) → (c.meanwhile v).wire ≡ v.wire)
    → (process_row deps settings c w entry).wire ≡ (
        if not (is_ack_pending entry.status) && c.authenticated
        then sendable w.outbox entry.outbox_id c.claims_at ++ w.wire
        else w.wire)
unfolding process_row
process_row-wire deps settings c w entry quiet =
    let retried = retry-wire deps settings c w entry in
    let attempted = attempt-wire deps settings c w entry quiet in ground arith
