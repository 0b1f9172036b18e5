-- ===== src/Outbox/Repair/Budget.antt =====
-- src/outbox-engine.ts: a repair pass ends a quarantined row or uses up one of its attempts.
use privchat_sdk_typescript.Prelude.{
  ℕ, ◌+◌, ◌≤◌, ◌<◌, ◌≡◌, refl, Text, Option, none, some, Bool, true, false, text_eq, text_beq_iff,
  option_eq, option_beq_iff, arith, Bool-cases, Option-cases, Result-cases, inl, inr, ok, >>=-eq-ok,
  or_else, leb, leb→le, ◌⊎◌,
}
use privchat_sdk_typescript.Table.{get-delete}
use privchat_sdk_typescript.Cache.{OutboxEntry, MessageRecord, integrity_error, local_data_error}
use privchat_sdk_typescript.Cache.OutboxTable.{
  Outbox, OutboxStatusPatch, get_outbox_entry, put_outbox_entry, delete_outbox_entry,
  apply_outbox_patch, claimed_repair, claim_repair_row, commit_repair_transition,
  delete_outbox_entry_if_repair_owner,
}
use privchat_sdk_typescript.Outbox.{Settings, OutboxEngineDeps, World, SendMessageResponse}
use privchat_sdk_typescript.Outbox.Resolve.{
  repair_lease, commit_acked, apply_ack_of, retire, resolve_pending, acked_record,
}
use privchat_sdk_typescript.Outbox.Attempt.{replayed}
use privchat_sdk_typescript.Outbox.Attempt.Delivery.{stored-found}
use privchat_sdk_typescript.Outbox.Repair.{
  RepairCircumstances, OutboxIntegrityFault, integrity_fault, given_up, backed_off, replay_repair,
  settle_repair, conclude_repair, repair_row,
}

-- How a row stands after its `attempts`-th pass.
pub data Repaired (settings : Settings) (outbox : Outbox) (outbox_id : Text) (attempts : ℕ)
    : Type 0 where
  converged : get_outbox_entry outbox outbox_id ≡ none → Repaired settings outbox outbox_id attempts
  put_off :
      (row : OutboxEntry)
      → get_outbox_entry outbox outbox_id ≡ some row
      → row.status ≡ integrity_error
      → row.repair_attempts ≡ some attempts
      → attempts < settings.max_repair_attempts
      → Repaired settings outbox outbox_id attempts
  abandoned :
      (row : OutboxEntry)
      → get_outbox_entry outbox outbox_id ≡ some row
      → row.status ≡ local_data_error
      → settings.max_repair_attempts ≤ attempts
      → Repaired settings outbox outbox_id attempts

claim-granted :
    (outbox : Outbox) (row : OutboxEntry) (token : Text) (now lease_ms : ℕ)
    → get_outbox_entry outbox row.outbox_id ≡ some row
    → row.status ≡ integrity_error
    → or_else row.repair_lease_until 0 ≤ now
    → or_else row.repair_next_attempt_at 0 ≤ now
    → claim_repair_row outbox row.outbox_id token now lease_ms ≡ (
      some (claimed_repair token now lease_ms row),
      put_outbox_entry outbox (claimed_repair token now lease_ms row),
    )
unfolding claim_repair_row
claim-granted outbox row token now lease_ms found status free due = ground arith

module _ (outbox : Outbox) (entry : OutboxEntry) (token : Text)
    (found : get_outbox_entry outbox entry.outbox_id ≡ some entry)
    (own : entry.repair_lease_token ≡ some token) where
  transition-owned :
      (now : ℕ) (patch : OutboxStatusPatch)
      → commit_repair_transition now outbox entry.outbox_id token patch
        ≡ (true, put_outbox_entry outbox (apply_outbox_patch now entry patch))
  unfolding commit_repair_transition
  transition-owned now patch = ground (arith, option_beq_iff entry.repair_lease_token (some token))

  delete-owned :
      delete_outbox_entry_if_repair_owner outbox entry.outbox_id token
      ≡ (true, delete_outbox_entry outbox entry.outbox_id)
  unfolding delete_outbox_entry_if_repair_owner
  delete-owned = ground (arith, option_beq_iff entry.repair_lease_token (some token))

module _ {S : Type 0} (deps : OutboxEngineDeps S) (settings : Settings) (c : RepairCircumstances S)
    (w : World S) (entry : OutboxEntry)
    (found : get_outbox_entry w.outbox entry.outbox_id ≡ some entry)
    (own : entry.repair_lease_token ≡ some c.token) where
  committed-retired :
      (acked : MessageRecord) (fault : Option Text) (result : Bool × World S)
      → commit_acked deps w entry acked (repair_lease c.token) fault ≡ ok result
      → (result.0 ≡ true) × (result.1.outbox ≡ delete_outbox_entry w.outbox entry.outbox_id)
  unfolding commit_acked retire
  committed-retired acked none result h =
      ground (arith, delete-owned w.outbox entry c.token found own)
  committed-retired acked (some e) result h = absurd (ground arith)

  applied-retired :
      (resp : SendMessageResponse) (result : Bool × World S)
      → apply_ack_of deps w entry resp (repair_lease c.token) c.fault c.fresh_id ≡ ok result
      → (result.0 ≡ true) × (result.1.outbox ≡ delete_outbox_entry w.outbox entry.outbox_id)
  unfolding apply_ack_of
  applied-retired resp result h =
      let (pending_rec, _, committed) = >>=-eq-ok (resolve_pending deps w entry c.fresh_id) _ h in
      committed-retired (acked_record deps entry resp pending_rec) c.fault result committed

  concluded-Repaired :
      (attempts : ℕ)
      → entry.status ≡ integrity_error
      → entry.repair_attempts ≡ some attempts
      → Repaired settings
          (conclude_repair deps settings c w entry attempts).outbox
          entry.outbox_id
          attempts
  unfolding conclude_repair apply_outbox_patch given_up backed_off
  concluded-Repaired attempts status count =
      let own_it = transition-owned w.outbox entry c.token found own c.concludes_at in
      elim (Bool-cases (leb settings.max_repair_attempts attempts)) [
        | inl spent ↦
            let after =
              apply_outbox_patch c.concludes_at entry (given_up c.concludes_at entry attempts) in
            rw (spent, own_it)
              (abandoned after (stored-found w.outbox after entry.outbox_id refl) refl
                (leb→le _ _ spent))
        | inr left ↦
            let after =
              apply_outbox_patch c.concludes_at entry
                (backed_off settings c.concludes_at attempts) in
            rw (left, own_it)
              (put_off after (stored-found w.outbox after entry.outbox_id refl) status count
                (ground arith))
      ]

module _ {S : Type 0} (deps : OutboxEngineDeps S) (settings : Settings) (c : RepairCircumstances S)
    (w : World S) (entry : OutboxEntry)
    (found : get_outbox_entry w.outbox entry.outbox_id ≡ some entry)
    (own : entry.repair_lease_token ≡ some c.token) where
  -- The replay retired the row, or changed nothing.
  replay-cases :
      (((replay_repair deps settings c w entry).0 ≡ true)
        × ((replay_repair deps settings c w entry).1.outbox
            ≡ delete_outbox_entry w.outbox entry.outbox_id))
      ⊎ (replay_repair deps settings c w entry ≡ (false, w))
  unfolding replay_repair
  replay-cases = elim (Option-cases entry.acked_server_message_id) [
    | inl missing ↦ inr (ground arith)
    | inr (id, acked) ↦
        let resp = replayed entry id in
        elim (Result-cases
          (apply_ack_of deps w entry resp (repair_lease c.token) c.fault c.fresh_id)) [
            | inl (result, done) ↦
                let (owned, gone) =
                  applied-retired deps settings c w entry found own resp result done in
                inl (ground arith, ground arith)
            | inr (e, failure) ↦ inr (ground arith)
          ]
  ]

  settled-Repaired :
      (attempts : ℕ) (r : Bool × World S)
      → entry.status ≡ integrity_error
      → entry.repair_attempts ≡ some attempts
      → (((r.0 ≡ true) × (r.1.outbox ≡ delete_outbox_entry w.outbox entry.outbox_id))
          ⊎ (r ≡ (false, w)))
      → Repaired settings
          (settle_repair deps settings c entry attempts r).outbox
          entry.outbox_id
          attempts
  settled-Repaired attempts (true, v) status count (inl (done, gone)) =
      rw gone
        (converged (rw get-delete (ground (arith, text_beq_iff entry.outbox_id entry.outbox_id))))
  settled-Repaired attempts (false, v) status count (inl (done, gone)) = absurd (ground arith)
  settled-Repaired attempts r status count (inr same) =
      rw same (concluded-Repaired deps settings c w entry found own attempts status count)

-- A quarantined row whose turn has come and that nobody is repairing is, after one pass, either gone
-- from the outbox, or still quarantined with one more attempt on its count and attempts left, or
-- declared a local data error because the attempts are spent; if the host's hook leaves the outbox
-- alone meanwhile.
pub repair_row-Repaired :
    {S : Type 0} (deps : OutboxEngineDeps S) (settings : Settings) (c : RepairCircumstances S)
    (w : World S) (row : OutboxEntry)
    → get_outbox_entry w.outbox row.outbox_id ≡ some row
    → row.status ≡ integrity_error
    → or_else row.repair_lease_until 0 ≤ c.claims_at
    → or_else row.repair_next_attempt_at 0 ≤ c.claims_at
    → ((f : OutboxIntegrityFault) (v : World S) → (c.on_integrity_fault f v).outbox ≡ v.outbox)
    → Repaired settings
        (repair_row deps settings c w row).outbox
        row.outbox_id
        (or_else row.repair_attempts 0 + 1)
unfolding repair_row
repair_row-Repaired {S} deps settings c w row found status free due quiet =
    let claimed = claimed_repair c.token c.claims_at settings.lease_ms row in
    let attempts = or_else row.repair_attempts 0 + 1 in
    let w1 : World S = record w { outbox = put_outbox_entry w.outbox claimed } in
    let w2 = c.on_integrity_fault (integrity_fault claimed attempts) w1 in
    let granted =
      claim-granted w.outbox row c.token c.claims_at settings.lease_ms found status free due in
    let found2 : get_outbox_entry w2.outbox row.outbox_id ≡ some claimed =
      rw (quiet (integrity_fault claimed attempts) w1)
        (stored-found w.outbox claimed row.outbox_id refl) in
    rw granted (
      settled-Repaired deps settings c w2 claimed found2 refl attempts
        (replay_repair deps settings c w2 claimed) status refl
        (replay-cases deps settings c w2 claimed found2 refl))
