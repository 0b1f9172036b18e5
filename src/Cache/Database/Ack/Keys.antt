-- ===== src/Cache/Database/Ack/Keys.antt =====
-- src/cache/indexeddb-store.ts: an acknowledgement and a queued send keep the sort keys under the
-- order modes.
use privchat_sdk_typescript.Prelude.{
  ℕ, ◌≡◌, refl, sym, subst, Text, Option, none, some, arith, Bool-cases, inl, inr, ◌==◌, text_eq,
  ok, >>=-eq-ok,
}
use privchat_sdk_typescript.Cache.{MessageRecord, ChannelOrderMode}
use privchat_sdk_typescript.Cache.Database.{
  CacheDb, StoredMessage, stamp, put_message, gaps, wanted_mode, reconcile_order_mode,
}
use privchat_sdk_typescript.Cache.Database.Keys.{
  IsWellKeyed, Writes, Writes-refl, Writes-trans, put_stamped-Writes, delete_message_by_id-Writes,
  reconcile_order_mode-Reconciles, reconciled-IsWellKeyed,
}
use privchat_sdk_typescript.Cache.Database.Ack.{
  optimistic_row, remote_row, seq_or_allocate, inherited_seq, merge_acked, absorb, apply_ack,
}

seq_or_allocate-Writes :
    (c : Text) (db : CacheDb) (seq : Option ℕ) → Writes c db (seq_or_allocate db seq).1
seq_or_allocate-Writes c db (some n) = Writes-refl c db
seq_or_allocate-Writes c db none = record {
  mode = refl;
  keyed = λ h. h;
  fewer = λ k ne. omega arith;
}

absorb-Writes :
    (c : Text) (db : CacheDb) (id : Text) (m : Option StoredMessage) → Writes c db (absorb db id m)
absorb-Writes c db id none = Writes-refl c db
absorb-Writes c db id (some m) = elim (Bool-cases (m.row.id == id)) [
  | inl same ↦ rw same (Writes-refl c db)
  | inr other ↦ rw other (delete_message_by_id-Writes c db m.row.id)
]

-- An acknowledgement leaves every sort key written under its channel's mode and every channel with a
-- gap in the degraded mode, and the message's channel in exactly the mode that its rows call for.
pub apply_ack-IsWellKeyed :
    (db after : CacheDb) (acked out : MessageRecord)
    → IsWellKeyed db
    → apply_ack db acked ≡ ok (after, out)
    → IsWellKeyed after
      × (after.order_mode acked.channel_id ≡ wanted_mode (gaps after acked.channel_id))
unfolding apply_ack
apply_ack-IsWellKeyed db after acked out v h =
    let c = acked.channel_id in
    let local = optimistic_row db acked in
    let remote = remote_row db acked in
    let (seq, db') = seq_or_allocate db (inherited_seq local remote acked) in
    let merged = merge_acked local acked seq in
    let id = (stamp merged (db'.order_mode c)).row.id in
    let first = absorb db' id local in
    let cleared = absorb first id remote in
    let (written, put, result) =
      >>=-eq-ok (put_message cleared (stamp merged (db'.order_mode c))) _ h in
    let w0 = seq_or_allocate-Writes c db (inherited_seq local remote acked) in
    let w1 = absorb-Writes c db' id local in
    let w2 = absorb-Writes c first id remote in
    let wc = Writes-trans c db' first cleared w1 w2 in
    let w3 = put_stamped-Writes cleared written merged (
      subst
        (λ (modes : Text → ChannelOrderMode).
          put_message cleared (stamp merged (modes c)) ≡ ok written)
        (sym wc.mode) put) in
    let all = Writes-trans c db db' written w0 (Writes-trans c db' cleared written wc w3) in
    let e : (reconcile_order_mode written c).1 ≡ after = ground arith in
    rw (← e) (
      reconciled-IsWellKeyed c db written (reconcile_order_mode written c).1 v all
        (reconcile_order_mode-Reconciles c written))
