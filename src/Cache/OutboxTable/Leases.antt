-- ===== src/Cache/OutboxTable/Leases.antt =====
-- src/cache/outbox-store.ts: who may write a row.
use privchat_sdk_typescript.Prelude.{
  if◌then◌else◌, ◌==◌, text_eq, ℕ, ◌+◌, ◌<◌, ◌≡◌, refl, ◌≢◌, inl, inr, Text, none, some, true,
  false, arith, text_eq, text_beq_iff, option_beq_iff, Option-cases,
}
use privchat_sdk_typescript.Table.{get-put, get_key}
use privchat_sdk_typescript.Cache.{
  OutboxEntry, OutboxStatus, pending, sending, failed, ack_pending, integrity_error,
  local_data_error,
}
use privchat_sdk_typescript.Cache.OutboxTable.{
  Outbox, outbox_key, get_outbox_entry, put_outbox_entry, claimed_entry, OutboxStatusPatch,
  apply_outbox_patch, claimable, claim_outbox_entry, commit_outbox_transition,
  delete_outbox_entry_if_owner,
}

-- The server has the message of such a row.
abbrev pub IsDelivered : OutboxStatus → Type 0
IsDelivered ack_pending = Unit {0}
IsDelivered integrity_error = Unit {0}
IsDelivered local_data_error = Unit {0}
IsDelivered pending = ⊥
IsDelivered sending = ⊥
IsDelivered failed = ⊥

not-claimable : (row : OutboxEntry) (now : ℕ) → IsDelivered row.status → claimable row now ≡ false
unfolding claimable
not-claimable row now h = ground arith

module _ (db : Outbox) (outbox_id : Text) where
  -- A row that the server has is never claimed for sending, and the attempt changes nothing.
  pub claim_outbox_entry_delivered :
      (row : OutboxEntry) (token : Text) (now lease_ms : ℕ)
      → get_outbox_entry db outbox_id ≡ some row
      → IsDelivered row.status
      → claim_outbox_entry db outbox_id token now lease_ms ≡ (none, db)
  unfolding claim_outbox_entry
  claim_outbox_entry_delivered row token now lease_ms found delivered =
      ground (arith, not-claimable row now delivered)

-- What a successful claim has done.
pub record Claimed (db : Outbox) (outbox_id token : Text) (now lease_ms : ℕ) (entry : OutboxEntry)
    (after : Outbox) : Type 0 where
  pub before : OutboxEntry
  pub found : get_outbox_entry db outbox_id ≡ some before
  pub was_claimable : claimable before now ≡ true
  pub entry_lem : entry ≡ claimed_entry token now lease_ms before
  pub stored : get_outbox_entry after outbox_id ≡ some entry
  pub rows :
      (k : Text)
      → get_outbox_entry after k ≡ (if outbox_id == k then some entry else get_outbox_entry db k)

claim_inversion :
    (db : Outbox) (outbox_id token : Text) (now lease_ms : ℕ) (entry : OutboxEntry) (after : Outbox)
    → claim_outbox_entry db outbox_id token now lease_ms ≡ (some entry, after)
    → (row : OutboxEntry) × (get_outbox_entry db outbox_id ≡ some row)
      × (claimable row now ≡ true)
      × (entry ≡ claimed_entry token now lease_ms row)
      × (after ≡ put_outbox_entry db entry)
unfolding claim_outbox_entry
claim_inversion db outbox_id token now lease_ms entry after h =
    elim (Option-cases (get_outbox_entry db outbox_id)) [
      | inl missing ↦ absurd (ground arith)
      | inr (row, found) ↦ (row, found, ground arith, ground arith, ground arith)
    ]

-- A claim that succeeds found a row that may be sent, stored it as sending under the caller's token
-- until the lease ends with everything else of the row as it was, and changed no other row.
pub claim_outbox_entry_lem :
    (db : Outbox) (outbox_id token : Text) (now lease_ms : ℕ) (entry : OutboxEntry) (after : Outbox)
    → claim_outbox_entry db outbox_id token now lease_ms ≡ (some entry, after)
    → Claimed db outbox_id token now lease_ms entry after
claim_outbox_entry_lem db outbox_id token now lease_ms entry after h =
    let (row, found, test, e, a) = claim_inversion db outbox_id token now lease_ms entry after h in
    let same : entry.outbox_id ≡ outbox_id =
      ground (arith, get_key outbox_key outbox_id db row found) in
    record {
      before = row;
      found = found;
      was_claimable = test;
      entry_lem = e;
      stored = rw (a, get-put) (ground (arith, text_beq_iff entry.outbox_id outbox_id));
      rows = λ k. rw (a, get-put, same) refl;
    }

leased-not-claimable :
    (row : OutboxEntry) (token : Text) (now lease_ms later : ℕ)
    → later < now + lease_ms
    → claimable (claimed_entry token now lease_ms row) later ≡ false
unfolding claimable
leased-not-claimable row token now lease_ms later h = ground arith

claim-refused :
    (db : Outbox) (outbox_id token : Text) (now lease_ms : ℕ) (row : OutboxEntry)
    → get_outbox_entry db outbox_id ≡ some row
    → claimable row now ≡ false
    → claim_outbox_entry db outbox_id token now lease_ms ≡ (none, db)
unfolding claim_outbox_entry
claim-refused db outbox_id token now lease_ms row found test = ground arith

-- On the table that a successful claim leaves, and before its lease ends, every claim of the row is
-- refused and changes nothing, the holder's own included.
pub claim_outbox_entry_exclusive :
    (db : Outbox) (outbox_id token : Text) (now lease_ms : ℕ) (entry : OutboxEntry) (after : Outbox)
    (token' : Text) (later lease_ms' : ℕ)
    → claim_outbox_entry db outbox_id token now lease_ms ≡ (some entry, after)
    → later < now + lease_ms
    → claim_outbox_entry after outbox_id token' later lease_ms' ≡ (none, after)
claim_outbox_entry_exclusive db outbox_id token now lease_ms entry after token' later lease_ms' h
      live =
    let c = claim_outbox_entry_lem db outbox_id token now lease_ms entry after h in
    claim-refused after outbox_id token' later lease_ms' entry c.stored
      (rw c.entry_lem (leased-not-claimable c.before token now lease_ms later live))

commit-refused :
    (date_now : ℕ) (db : Outbox) (outbox_id token : Text) (patch : OutboxStatusPatch)
    (row : OutboxEntry)
    → get_outbox_entry db outbox_id ≡ some row
    → row.lease_token ≢ some token
    → commit_outbox_transition date_now db outbox_id token patch ≡ (false, db)
unfolding commit_outbox_transition
commit-refused date_now db outbox_id token patch row found other =
    ground (arith, option_beq_iff row.lease_token (some token))

delete-refused :
    (db : Outbox) (outbox_id token : Text) (row : OutboxEntry)
    → get_outbox_entry db outbox_id ≡ some row
    → row.lease_token ≢ some token
    → delete_outbox_entry_if_owner db outbox_id token ≡ (false, db)
unfolding delete_outbox_entry_if_owner
delete-refused db outbox_id token row found other =
    ground (arith, option_beq_iff row.lease_token (some token))

-- Once another attempt has claimed the row, the earlier owner's transition and its delete are refused
-- and change nothing.
pub claim_outbox_entry_fences :
    (db : Outbox) (outbox_id token : Text) (now lease_ms : ℕ) (entry : OutboxEntry) (after : Outbox)
    (stale : Text) (date_now : ℕ) (patch : OutboxStatusPatch)
    → claim_outbox_entry db outbox_id token now lease_ms ≡ (some entry, after)
    → stale ≢ token
    → (commit_outbox_transition date_now after outbox_id stale patch ≡ (false, after))
      × (delete_outbox_entry_if_owner after outbox_id stale ≡ (false, after))
claim_outbox_entry_fences db outbox_id token now lease_ms entry after stale date_now patch h ne =
    let c = claim_outbox_entry_lem db outbox_id token now lease_ms entry after h in
    let other : entry.lease_token ≢ some stale = λ e. ne (cc (c.entry_lem, e)) in
    (
      commit-refused date_now after outbox_id stale patch entry c.stored other,
      delete-refused after outbox_id stale entry c.stored other,
    )

-- The owner's transition is applied, and to its own row only.
pub commit_outbox_transition_owner :
    (date_now : ℕ) (db : Outbox) (outbox_id token : Text) (patch : OutboxStatusPatch)
    (row : OutboxEntry)
    → get_outbox_entry db outbox_id ≡ some row
    → row.lease_token ≡ some token
    → commit_outbox_transition date_now db outbox_id token patch
      ≡ (true, put_outbox_entry db (apply_outbox_patch date_now row patch))
unfolding commit_outbox_transition
commit_outbox_transition_owner date_now db outbox_id token patch row found own =
    ground (arith, option_beq_iff row.lease_token (some token))
