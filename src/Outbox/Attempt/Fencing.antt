-- ===== src/Outbox/Attempt/Fencing.antt =====
-- src/outbox-engine.ts: an attempt whose lease is gone writes and publishes nothing.
use privchat_sdk_typescript.Prelude.{
  ℕ, ◌≡◌, refl, Text, Option, none, some, Bool, true, false, ◌==◌, text_eq, option_eq, arith,
  Option-cases, Result-cases, inl, inr, ok, >>=-eq-ok, if◌then◌else◌,
}
use privchat_sdk_typescript.Cache.{OutboxEntry, MessageRecord}
use privchat_sdk_typescript.Cache.OutboxTable.{
  Outbox, OutboxStatusPatch, get_outbox_entry, put_outbox_entry, delete_outbox_entry,
  apply_outbox_patch, commit_outbox_transition, delete_outbox_entry_if_owner,
}
use privchat_sdk_typescript.Outbox.{Settings, OutboxEngineDeps, World, SendMessageResponse}
use privchat_sdk_typescript.Outbox.Resolve.{
  CommitError, send_lease, commit_acked, apply_ack_of, retire, resolve_pending, acked_record,
}
use privchat_sdk_typescript.Outbox.Attempt.{
  Circumstances, SendOutcome, resolved, thrown, write_patch, handle_transient, handle_rejected,
  handle_local_commit_failure, conclude_accepted, conclude,
}

-- The row is there, and under this token.
unfoldable pub is_owner : Outbox → Text → Text → Bool
is_owner outbox outbox_id token = elim (get_outbox_entry outbox outbox_id) [
  | none ↦ false
  | some row ↦ row.lease_token == some token
]

module _ (outbox : Outbox) (outbox_id token : Text) where
  pub transition-refused :
      (now : ℕ) (patch : OutboxStatusPatch)
      → is_owner outbox outbox_id token ≡ false
      → commit_outbox_transition now outbox outbox_id token patch ≡ (false, outbox)
  unfolding is_owner commit_outbox_transition
  transition-refused now patch h = elim (Option-cases (get_outbox_entry outbox outbox_id)) [
    | inl missing ↦ ground arith
    | inr (row, found) ↦ ground arith
  ]

  pub transition-owned :
      (now : ℕ) (patch : OutboxStatusPatch)
      → is_owner outbox outbox_id token ≡ true
      → (row : OutboxEntry) × (get_outbox_entry outbox outbox_id ≡ some row)
        × (commit_outbox_transition now outbox outbox_id token patch
            ≡ (true, put_outbox_entry outbox (apply_outbox_patch now row patch)))
  unfolding is_owner commit_outbox_transition
  transition-owned now patch h = elim (Option-cases (get_outbox_entry outbox outbox_id)) [
    | inl missing ↦ absurd (ground arith)
    | inr (row, found) ↦ (row, found, ground arith)
  ]

  pub retire-owner : delete_outbox_entry_if_owner outbox outbox_id token ≡ (
      if is_owner outbox outbox_id token
      then (true, delete_outbox_entry outbox outbox_id)
      else (false, outbox))
  unfolding is_owner delete_outbox_entry_if_owner
  retire-owner = elim (Option-cases (get_outbox_entry outbox outbox_id)) [
    | inl missing ↦ ground arith
    | inr (row, found) ↦ ground arith
  ]

module _ {S : Type 0} (settings : Settings) (w : World S) (entry : OutboxEntry) (token : Text)
    (lost : is_owner w.outbox entry.outbox_id token ≡ false) where
  transient-refused :
      (now : ℕ) (error : Text) → handle_transient settings now w entry token error ≡ w
  unfolding handle_transient
  transient-refused now error =
      rw (transition-refused w.outbox entry.outbox_id token now _ lost) refl

  rejected-refused : (now code : ℕ) → handle_rejected settings now w entry token code ≡ w
  unfolding handle_rejected
  rejected-refused now code = rw (transition-refused w.outbox entry.outbox_id token now _ lost) refl

  commit_failure-refused :
      (now : ℕ) (records : Bool) (resp : SendMessageResponse) (e : CommitError)
      → handle_local_commit_failure settings now records w entry resp (some token) e ≡ w
  unfolding handle_local_commit_failure write_patch
  commit_failure-refused now false resp e = refl
  commit_failure-refused now true resp e =
      rw (transition-refused w.outbox entry.outbox_id token now _ lost) refl

module _ {S : Type 0} (deps : OutboxEngineDeps S) (settings : Settings) (c : Circumstances S)
    (w : World S) (entry : OutboxEntry)
    (lost : is_owner w.outbox entry.outbox_id c.token ≡ false) where
  commit-refused :
      (acked : MessageRecord) (fault : Option Text) (result : Bool × World S)
      → commit_acked deps w entry acked (send_lease c.token) fault ≡ ok result
      → result ≡ (false, w)
  unfolding commit_acked retire
  commit-refused acked none result h = ground (arith, retire-owner w.outbox entry.outbox_id c.token)
  commit-refused acked (some e) result h = absurd (ground arith)

  apply-refused :
      (resp : SendMessageResponse) (result : Bool × World S)
      → apply_ack_of deps w entry resp (send_lease c.token) c.fault c.fresh_id ≡ ok result
      → result ≡ (false, w)
  unfolding apply_ack_of
  apply-refused resp result h =
      let (pending_rec, _, committed) = >>=-eq-ok (resolve_pending deps w entry c.fresh_id) _ h in
      commit-refused (acked_record deps entry resp pending_rec) c.fault result committed

  accepted-refused :
      (resp : SendMessageResponse) → conclude_accepted deps settings c w entry resp ≡ w
  unfolding conclude_accepted
  accepted-refused resp =
      elim (Result-cases (apply_ack_of deps w entry resp (send_lease c.token) c.fault c.fresh_id)) [
        | inl (result, done) ↦ rw (conclude_accepted, done, apply-refused resp result done) refl
        | inr (e, failure) ↦
            rw
              (
                conclude_accepted,
                failure,
                commit_failure-refused settings w entry c.token lost c.concludes_at c.records resp
                    e,
              )
              refl
      ]

-- Whatever the send came to, an attempt that no longer holds the row's lease leaves the database, the
-- memory, the events and the counters as they are.
pub conclude_fenced :
    {S : Type 0} (deps : OutboxEngineDeps S) (settings : Settings) (c : Circumstances S)
    (w : World S) (entry : OutboxEntry) (outcome : SendOutcome)
    → is_owner w.outbox entry.outbox_id c.token ≡ false
    → conclude deps settings c w entry outcome ≡ w
unfolding conclude
conclude_fenced deps settings c w entry (thrown e) lost =
    transient-refused settings w entry c.token lost c.concludes_at e
conclude_fenced deps settings c w entry (resolved resp) lost =
    rw
      (
        accepted-refused deps settings c w entry lost resp,
        transient-refused settings w entry c.token lost c.concludes_at _,
        rejected-refused settings w entry c.token lost c.concludes_at resp.reason_code,
      )
      (ground arith)
