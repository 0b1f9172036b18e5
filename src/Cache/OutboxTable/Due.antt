-- ===== src/Cache/OutboxTable/Due.antt =====
-- src/cache/outbox-store.ts: `listDueOutboxEntries`.
use mathlib.Core.List.{Perm}
use mathlib.Core.List.Perm
use privchat_sdk_typescript.Prelude.{
  ℕ, ◌≡◌, refl, [], ◌∷◌, Bool, true, ◌&&◌, leb, ◌≤◌, ◌↔◌, or_else, keep, arith,
}
use privchat_sdk_typescript.Table.{sort_by, sort_by-IsSorted, sort_by-perm, keep-perm, IsSorted}
use privchat_sdk_typescript.Cache.{OutboxEntry, OutboxStatus, pending, failed, ack_pending, sending}
use privchat_sdk_typescript.Cache.OutboxTable.{Outbox, is_due, list_due_outbox_entries}

keep-keep :
    (p q : OutboxEntry → Bool) (xs : Outbox) → keep p (keep q xs) ≡ keep (λ x. q x && p x) xs
keep-keep p q [] = refl
keep-keep p q (x ∷ xs) = ground (arith, keep-keep p q xs)

-- The statuses that ask for work: a row that is being sent, only once its lease has ended.
abbrev pub Waits : ℕ → OutboxEntry → OutboxStatus → Type 0
Waits now row pending = Unit {0}
Waits now row failed = Unit {0}
Waits now row ack_pending = Unit {0}
Waits now row sending = or_else row.lease_until 0 ≤ now
Waits now row _ = ⊥

abbrev pub IsDue : ℕ → OutboxEntry → Type 0
IsDue now row = (row.next_attempt_at ≤ now) × Waits now row row.status

is_due-Waits :
    (now : ℕ) (row : OutboxEntry) (status : OutboxStatus)
    → row.status ≡ status
    → (is_due now row ≡ true) ↔ Waits now row status
unfolding is_due
is_due-Waits now row pending e = ground (arith, e)
is_due-Waits now row failed e = ground (arith, e)
is_due-Waits now row ack_pending e = ground (arith, e)
is_due-Waits now row sending e = ground (arith, e)
is_due-Waits now row _ e = ground (arith, e)

is_due-IsDue :
    (now : ℕ) (row : OutboxEntry)
    → ((leb row.next_attempt_at now && is_due now row) ≡ true) ↔ IsDue now row
is_due-IsDue now row = ground (arith, is_due-Waits now row row.status refl)

-- The due rows, oldest first: exactly the rows of the table whose time has come and that are pending,
-- failed or waiting for their local commit, or in `sending` under a lease that has ended, each as
-- often as it stands in the table. (The Boolean test decides that property, whatever it is.)
pub list_due_outbox_entries_lem :
    (db : Outbox) (now : ℕ)
    → IsSorted (λ r. r.created_at) (list_due_outbox_entries db now)
      × (test : OutboxEntry → Bool) × ((row : OutboxEntry) → (test row ≡ true) ↔ IsDue now row)
      × Perm (list_due_outbox_entries db now) (keep test db)
unfolding list_due_outbox_entries
list_due_outbox_entries_lem db now =
    let by_index = sort_by (λ (r : OutboxEntry). r.next_attempt_at) db in
    let ready : OutboxEntry → Bool = λ r. leb r.next_attempt_at now in
    (
      sort_by-IsSorted (λ r. r.created_at) (keep (is_due now) (keep ready by_index)),
      (λ r. ready r && is_due now r),
      is_due-IsDue now,
      Perm.trans (sort_by-perm (λ r. r.created_at) (keep (is_due now) (keep ready by_index))) (
          rw (keep-keep (is_due now) ready by_index)
            (keep-perm _ (sort_by-perm (λ r. r.next_attempt_at) db))),
    )
