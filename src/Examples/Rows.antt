-- ===== src/Examples/Rows.antt =====
-- Examples for the outbox table.
use privchat_sdk_typescript.Prelude.{
  ◌≡◌, ◌↔◌, Bool, true, refl, ◌≢◌, none, some, [], ◌∷◌, codes, false, arith, text_beq, text_beq_iff,
  text_compare, keep,
}
use mathlib.Core.List.{Perm}
use privchat_sdk_typescript.Table
use privchat_sdk_typescript.Table.{IsSorted}
use privchat_sdk_typescript.Cache.{OutboxEntry, ack_pending}
use privchat_sdk_typescript.Cache.OutboxTable.{
  Outbox, claim_outbox_entry, claimed_entry, commit_outbox_transition, delete_outbox_entry_if_owner,
  empty_patch, list_due_outbox_entries,
}
use privchat_sdk_typescript.Cache.OutboxTable.Leases.{
  claim_outbox_entry_delivered, claim_outbox_entry_exclusive, claim_outbox_entry_fences,
}
use privchat_sdk_typescript.Cache.OutboxTable.Due.{IsDue, list_due_outbox_entries_lem}
use privchat_sdk_typescript.Examples.{queued}

abbrev one_row : Outbox
one_row = queued ∷ []

-- The row once the first tab has claimed it.
abbrev pub in_flight : OutboxEntry
in_flight = claimed_entry (codes "tab-1") 5000 60000 queued

pub claimed_ok :
    claim_outbox_entry one_row queued.outbox_id (codes "tab-1") 5000 60000
    ≡ (some in_flight, in_flight ∷ [])
unfolding claim_outbox_entry Table.get text_beq Table.put text_compare
claimed_ok = refl

claim_outbox_entry_exclusive_example :
    claim_outbox_entry (in_flight ∷ []) queued.outbox_id (codes "tab-2") 6000 60000
    ≡ (none, in_flight ∷ [])
claim_outbox_entry_exclusive_example =
    claim_outbox_entry_exclusive one_row queued.outbox_id (codes "tab-1") 5000 60000 in_flight
      (in_flight ∷ []) (codes "tab-2") 6000 60000 claimed_ok (omega arith)

tokens_differ : codes "tab-0" ≢ codes "tab-1"
unfolding text_beq
tokens_differ e = cc ((text_beq_iff (codes "tab-0") (codes "tab-1")).1 e)

claim_outbox_entry_fences_example :
    (commit_outbox_transition 6000 (in_flight ∷ []) queued.outbox_id (codes "tab-0") empty_patch
      ≡ (false, in_flight ∷ []))
    × (delete_outbox_entry_if_owner (in_flight ∷ []) queued.outbox_id (codes "tab-0")
        ≡ (false, in_flight ∷ []))
claim_outbox_entry_fences_example =
    claim_outbox_entry_fences one_row queued.outbox_id (codes "tab-1") 5000 60000 in_flight
      (in_flight ∷ []) (codes "tab-0") 6000 empty_patch claimed_ok tokens_differ

abbrev pub delivered : OutboxEntry
delivered = record queued { status = ack_pending; acked_server_message_id = some (codes "41") }

delivered-found :
    Table.get (λ (e : OutboxEntry). e.outbox_id) queued.outbox_id (delivered ∷ []) ≡ some delivered
unfolding Table.get text_beq
delivered-found = refl

claim_outbox_entry_delivered_example :
    claim_outbox_entry (delivered ∷ []) queued.outbox_id (codes "tab-1") 5000 60000
    ≡ (none, delivered ∷ [])
claim_outbox_entry_delivered_example =
    claim_outbox_entry_delivered (delivered ∷ []) queued.outbox_id delivered (codes "tab-1") 5000
      60000 delivered-found tt

in_flight-found :
    Table.get (λ (e : OutboxEntry). e.outbox_id) queued.outbox_id (in_flight ∷ []) ≡ some in_flight
unfolding Table.get text_beq
in_flight-found = refl

list_due_outbox_entries_lem_example :
    IsSorted (λ r. r.created_at) (list_due_outbox_entries (delivered ∷ []) 9000)
    × (test : OutboxEntry → Bool) × ((row : OutboxEntry) → (test row ≡ true) ↔ IsDue 9000 row)
    × Perm (list_due_outbox_entries (delivered ∷ []) 9000) (keep test (delivered ∷ []))
list_due_outbox_entries_lem_example = list_due_outbox_entries_lem (delivered ∷ []) 9000
