-- ===== src/Outbox/Attempt/Delivery.antt =====
-- src/outbox-engine.ts: a message that the server has taken is never sent again.
use privchat_sdk_typescript.Prelude.{
  ℕ, ◌≡◌, refl, Text, Option, none, some, Bool, true, false, Bool-cases, ◌⊎◌, text_eq, text_beq_iff,
  nat_beq_iff, option_eq, nat_eq, arith, Result-cases, inl, inr, ok, >>=-eq-ok,
}
use privchat_sdk_typescript.Table.{get-put, get-delete, get_key}
use privchat_sdk_typescript.Cache.{OutboxEntry, MessageRecord}
use privchat_sdk_typescript.Cache.OutboxTable.{
  Outbox, outbox_key, get_outbox_entry, put_outbox_entry, delete_outbox_entry, apply_outbox_patch,
  claim_outbox_entry,
}
use privchat_sdk_typescript.Cache.OutboxTable.Leases.{IsDelivered, claim_outbox_entry_delivered}
use privchat_sdk_typescript.Outbox.{Settings, OutboxEngineDeps, World, SendMessageResponse}
use privchat_sdk_typescript.Outbox.Resolve.{
  CommitError, rehydrate_required, other, send_lease, commit_acked, apply_ack_of, retire,
  resolve_pending, acked_record,
}
use privchat_sdk_typescript.Outbox.Attempt.{
  Circumstances, resolved, write_patch, commit_failure_patch, handle_local_commit_failure,
  conclude_accepted, conclude,
}
use privchat_sdk_typescript.Outbox.Attempt.Fencing.{is_owner, transition-owned, retire-owner}

-- The command is gone, or the row says that the server has the message as `server_message_id`, and has
-- still made as many attempts as `before`.
pub data Settled (outbox : Outbox) (outbox_id server_message_id : Text) (before : OutboxEntry)
    : Type 0 where
  retired :
      get_outbox_entry outbox outbox_id ≡ none → Settled outbox outbox_id server_message_id before
  kept :
      (row : OutboxEntry)
      → get_outbox_entry outbox outbox_id ≡ some row
      → IsDelivered row.status
      → row.acked_server_message_id ≡ some server_message_id
      → row.attempt_count ≡ before.attempt_count
      → Settled outbox outbox_id server_message_id before

patched-IsDelivered :
    (settings : Settings) (now : ℕ) (row entry : OutboxEntry) (resp : SendMessageResponse)
    (e : CommitError)
    → (let after = apply_outbox_patch now row (commit_failure_patch settings now entry resp e) in
        IsDelivered after.status
        × (after.acked_server_message_id ≡ some resp.server_message_id)
        × (after.attempt_count ≡ row.attempt_count)
        × (after.outbox_id ≡ row.outbox_id))
unfolding apply_outbox_patch commit_failure_patch
patched-IsDelivered settings now row entry resp (rehydrate_required m c t) = (tt, refl, refl, refl)
patched-IsDelivered settings now row entry resp (other e) = (tt, refl, refl, refl)

pub stored-found :
    (outbox : Outbox) (row : OutboxEntry) (outbox_id : Text)
    → row.outbox_id ≡ outbox_id
    → get_outbox_entry (put_outbox_entry outbox row) outbox_id ≡ some row
stored-found outbox row outbox_id key =
    rw get-put (ground (arith, text_beq_iff row.outbox_id outbox_id))

module _ {S : Type 0} (settings : Settings) (c : Circumstances S) (w : World S)
    (entry before : OutboxEntry) (resp : SendMessageResponse)
    (found : get_outbox_entry w.outbox entry.outbox_id ≡ some before)
    (owner : is_owner w.outbox entry.outbox_id c.token ≡ true) where
  failure-Settled :
      (e : CommitError)
      → Settled
          (handle_local_commit_failure settings c.concludes_at true w entry resp
            (some c.token)
            e).outbox
          entry.outbox_id
          resp.server_message_id
          before
  unfolding handle_local_commit_failure write_patch
  failure-Settled e =
      let patch = commit_failure_patch settings c.concludes_at entry resp e in
      let (row, there, written) =
        transition-owned w.outbox entry.outbox_id c.token c.concludes_at patch owner in
      let same : row ≡ before = cc (there, found) in
      let after = apply_outbox_patch c.concludes_at row patch in
      let (delivered, acked, count, id) =
        patched-IsDelivered settings c.concludes_at row entry resp e in
      let key : after.outbox_id ≡ entry.outbox_id =
        cc (id, get_key outbox_key entry.outbox_id w.outbox row there) in
      rw written (
        kept after (stored-found w.outbox after entry.outbox_id key) delivered acked
          (cc (count, same)))

module _ {S : Type 0} (deps : OutboxEngineDeps S) (c : Circumstances S) (w : World S)
    (entry : OutboxEntry) (owner : is_owner w.outbox entry.outbox_id c.token ≡ true) where
  committed-retired :
      (acked : MessageRecord) (fault : Option Text) (result : Bool × World S)
      → commit_acked deps w entry acked (send_lease c.token) fault ≡ ok result
      → (result.0 ≡ true) × (result.1.outbox ≡ delete_outbox_entry w.outbox entry.outbox_id)
  unfolding commit_acked retire
  committed-retired acked none result h =
      ground (arith, retire-owner w.outbox entry.outbox_id c.token)
  committed-retired acked (some e) result h = absurd (ground arith)

  applied-retired :
      (resp : SendMessageResponse) (result : Bool × World S)
      → apply_ack_of deps w entry resp (send_lease c.token) c.fault c.fresh_id ≡ ok result
      → (result.0 ≡ true) × (result.1.outbox ≡ delete_outbox_entry w.outbox entry.outbox_id)
  unfolding apply_ack_of
  applied-retired resp result h =
      let (pending_rec, _, committed) = >>=-eq-ok (resolve_pending deps w entry c.fresh_id) _ h in
      committed-retired (acked_record deps entry resp pending_rec) c.fault result committed

-- Once the server has taken a message, and the attempt still holds the row, the command is gone or
-- its row carries the server's identifier in a delivered state, with no attempt charged to it, whether
-- or not the local commit worked; or else the storage took neither the commit nor the record of its
-- failure, and nothing has changed.
pub conclude_accepted-Settled :
    {S : Type 0} (deps : OutboxEngineDeps S) (settings : Settings) (c : Circumstances S)
    (w : World S) (entry before : OutboxEntry) (resp : SendMessageResponse)
    → get_outbox_entry w.outbox entry.outbox_id ≡ some before
    → is_owner w.outbox entry.outbox_id c.token ≡ true
    → Settled
        (conclude_accepted deps settings c w entry resp).outbox
        entry.outbox_id
        resp.server_message_id
        before
      ⊎ ((c.records ≡ false) × (conclude_accepted deps settings c w entry resp ≡ w))
unfolding conclude_accepted handle_local_commit_failure
conclude_accepted-Settled deps settings c w entry before resp found owner =
    elim (Result-cases (apply_ack_of deps w entry resp (send_lease c.token) c.fault c.fresh_id)) [
      | inl (result, done) ↦
          let (owned, gone) = applied-retired deps c w entry owner resp result done in
          rw (conclude_accepted, done, owned, gone)
            (inl (
              retired
                (rw get-delete (ground (arith, text_beq_iff entry.outbox_id entry.outbox_id)))))
      | inr (e, failure) ↦ elim (Bool-cases c.records) [
        | inl taken ↦
            rw (conclude_accepted, failure, taken)
              (inl (failure-Settled settings c w entry before resp found owner e))
        | inr refused ↦ rw (conclude_accepted, failure, refused) (inr (refl, refl))
      ]
    ]

Settled-refused :
    (outbox : Outbox) (outbox_id smid : Text) (before : OutboxEntry) (token : Text)
    (later lease_ms : ℕ)
    → Settled outbox outbox_id smid before
    → claim_outbox_entry outbox outbox_id token later lease_ms ≡ (none, outbox)
unfolding claim_outbox_entry
Settled-refused outbox outbox_id smid before token later lease_ms (retired gone) = ground arith
Settled-refused outbox outbox_id smid before token later lease_ms
      (kept row there delivered acked count) =
    claim_outbox_entry_delivered outbox outbox_id row token later lease_ms there delivered

conclude-accepted :
    {S : Type 0} (deps : OutboxEngineDeps S) (settings : Settings) (c : Circumstances S)
    (w : World S) (entry : OutboxEntry) (resp : SendMessageResponse)
    → resp.reason_code ≡ 0
    → conclude deps settings c w entry (resolved resp)
      ≡ conclude_accepted deps settings c w entry resp
unfolding conclude
conclude-accepted deps settings c w entry resp accepted =
    let test = (nat_beq_iff resp.reason_code 0).1 accepted in rw test refl

-- When the server has taken a message (reason code 0), the attempt still holds the row and the storage
-- takes the record of a failure, every claim of the command for sending on the outbox that the attempt
-- leaves is refused and changes nothing, under whatever token, at whatever time, and whether or not the
-- local commit worked.
pub conclude_never_resent :
    {S : Type 0} (deps : OutboxEngineDeps S) (settings : Settings) (c : Circumstances S)
    (w : World S) (entry before : OutboxEntry) (resp : SendMessageResponse) (token : Text)
    (later lease_ms : ℕ)
    → get_outbox_entry w.outbox entry.outbox_id ≡ some before
    → is_owner w.outbox entry.outbox_id c.token ≡ true
    → resp.reason_code ≡ 0
    → c.records ≡ true
    → (let after = (conclude deps settings c w entry (resolved resp)).outbox in
        claim_outbox_entry after entry.outbox_id token later lease_ms ≡ (none, after))
conclude_never_resent deps settings c w entry before resp token later lease_ms found owner accepted
      records =
    rw (conclude-accepted deps settings c w entry resp accepted)
      (elim (conclude_accepted-Settled deps settings c w entry before resp found owner) [
        | inl settled ↦
            Settled-refused (conclude_accepted deps settings c w entry resp).outbox entry.outbox_id
              resp.server_message_id before token later lease_ms settled
        | inr (refused, same) ↦ absurd (ground (arith, records, refused))
      ])
