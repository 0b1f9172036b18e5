-- ===== src/Cache/Database/Upsert/Keys.antt =====
-- src/cache/indexeddb-store.ts: `upsertMessages` keeps the sort keys under the order modes.
use privchat_sdk_typescript.Prelude.{
  ℕ, ◌≤◌, ◌≡◌, refl, ◌≢◌, ap, sym, ◌∙◌, subst, Bool, Text, Option, none, some, arith, All, some_by,
  Bool-cases, inl, inr, ◌==◌, text_eq, text_beq_iff, List, [], ◌∷◌, false, true, ok, >>=-eq-ok,
  length,
}
use privchat_sdk_typescript.Cache.{MessageRecord, ChannelOrderMode}
use privchat_sdk_typescript.Cache.Database.{
  CacheDb, StoredMessage, stamp, put_message, gaps, wanted_mode, reconcile_order_mode,
  allocate_order_seq, get_channel_order_mode,
}
use privchat_sdk_typescript.Cache.Database.Keys.{
  IsKeyed, IsWellKeyed, Writes, Writes-refl, Writes-trans, put_stamped-Writes, wanted-degraded,
  delete_message_by_id-Writes, Reconciles, reconcile_order_mode-Reconciles,
}
use privchat_sdk_typescript.Cache.Database.Upsert.{
  Written, merge_row, row_of, drop_moved, stays_in_channel, write_row, upsert_one, upsert_loop,
  channels_of, reconcile_all, upsert_messages, find_existing,
}

merge_row-channel :
    (e : Option MessageRecord) (m : MessageRecord) (next : ℕ)
    → (merge_row e m next).0.channel_id ≡ m.channel_id
unfolding merge_row
merge_row-channel none m next = refl
merge_row-channel (some e) m next = refl

drop_moved-Writes :
    (c : Text) (db : CacheDb) (existing : Option StoredMessage) (m : StoredMessage)
    → Writes c db (drop_moved db existing m)
drop_moved-Writes c db none m = Writes-refl c db
drop_moved-Writes c db (some e) m = elim (Bool-cases (e.row.id == m.row.id)) [
  | inl same ↦ rw same (Writes-refl c db)
  | inr moved ↦ rw moved (delete_message_by_id-Writes c db e.row.id)
]

write_row-Writes :
    (db : CacheDb) (existing : Option StoredMessage) (m : MessageRecord) (next : ℕ) (w : Written)
    → write_row db existing (m, next) ≡ ok w
    → Writes m.channel_id db w.db
write_row-Writes db existing m next w h =
    let stamped = stamp m (get_channel_order_mode db m.channel_id) in
    let (after, put, result) =
      >>=-eq-ok (put_message (drop_moved db existing stamped) stamped) _ h in
    let dropped = drop_moved-Writes m.channel_id db existing stamped in
    let written = put_stamped-Writes (drop_moved db existing stamped) after m (
      subst
        (λ (modes : Text → ChannelOrderMode).
          put_message (drop_moved db existing stamped) (stamp m (modes m.channel_id)) ≡ ok after)
        (sym dropped.mode) put) in
    let e : w.db ≡ after = ground arith in
    rw e (Writes-trans m.channel_id db (drop_moved db existing stamped) after dropped written)

upsert_one-Writes :
    (db : CacheDb) (next : ℕ) (m : MessageRecord) (w : Written)
    → upsert_one db next m ≡ ok w
    → Writes m.channel_id db w.db
unfolding upsert_one
upsert_one-Writes db next m w h =
    let (existing, found, rest) = >>=-eq-ok (find_existing db m) _ h in
    elim (Bool-cases (stays_in_channel existing m)) [
      | inl stays ↦
          let (merged, next') = merge_row (row_of existing) m next in
          rw merge_row-channel at (write_row-Writes db existing merged next' w (rw stays at rest))
      | inr moves ↦ absurd (cc (rw moves at rest))
    ]

-- No record of the batch is in channel `k`.
abbrev pub Avoids : Text → List MessageRecord → Type 0
Avoids k ms = All (λ m. k ≢ m.channel_id) ms

-- What the loop over a batch does before the modes are decided anew.
record WritesBatch (ms : List MessageRecord) (db after : CacheDb) : Type 0 where
  mode : after.order_mode ≡ db.order_mode
  keyed : All (IsKeyed db.order_mode) db.messages → All (IsKeyed db.order_mode) after.messages
  fewer : (k : Text) → Avoids k ms → gaps after k ≤ gaps db k

upsert_loop-WritesBatch :
    (ms : List MessageRecord) (db : CacheDb) (next : ℕ) (after : CacheDb) (out : List StoredMessage)
    → upsert_loop db next ms ≡ ok (after, out)
    → WritesBatch ms db after
unfolding upsert_loop
upsert_loop-WritesBatch [] db next after out h =
    let e : after ≡ db = ground arith in
    rw e (record { mode = refl; keyed = λ a. a; fewer = λ k ne. omega arith })
upsert_loop-WritesBatch (m ∷ ms) db next after out h =
    let (w, one, rest) = >>=-eq-ok (upsert_one db next m) _ h in
    let (r, loop, result) = >>=-eq-ok (upsert_loop w.db w.next ms) _ rest in
    let e : r.0 ≡ after = ground arith in
    let first = upsert_one-Writes db next m w one in
    let later = upsert_loop-WritesBatch ms w.db w.next r.0 r.1 loop in
    rw (← e) (record {
      mode = cc (first.mode, later.mode);
      keyed = λ a. rw first.mode at (later.keyed (rw first.mode (first.keyed a)));
      fewer = λ k ne. omega (arith, first.fewer k ne.0, later.fewer k ne.1);
    })

is_in : Text → List Text → Bool
is_in k cs = some_by (λ c. c == k) cs

record ReconcilesAll (cs : List Text) (db after : CacheDb) : Type 0 where
  exact : (k : Text) → is_in k cs ≡ true → after.order_mode k ≡ wanted_mode (gaps after k)
  others : (k : Text) → is_in k cs ≡ false → after.order_mode k ≡ db.order_mode k
  same_gaps : (k : Text) → gaps after k ≡ gaps db k
  keyed : All (IsKeyed db.order_mode) db.messages → All (IsKeyed after.order_mode) after.messages

module _ (c : Text) (cs : List Text) (db final : CacheDb) where
  ReconcilesAll-cons :
      Reconciles c db (reconcile_order_mode db c).1
      → ReconcilesAll cs (reconcile_order_mode db c).1 final
      → ReconcilesAll (c ∷ cs) db final
  unfolding is_in
  ReconcilesAll-cons first later = record {
    exact = λ k i. elim (Bool-cases (is_in k cs)) [
      | inl again ↦ later.exact k again
      | inr last ↦
          let e : k ≡ c = ground (arith, text_beq_iff c k) in
          later.others k last ∙ rw e first.exact ∙ ap wanted_mode (sym (later.same_gaps k))
    ];
    others = λ k o.
        let ne : k ≢ c = λ e. cc ((text_beq_iff c k).1 (sym e), o) in
        later.others k (ground arith) ∙ first.others k ne;
    same_gaps = λ k. later.same_gaps k ∙ first.same_gaps k;
    keyed = λ a. later.keyed (first.keyed a);
  }

reconcile_all-ReconcilesAll :
    (cs : List Text) (db : CacheDb) → ReconcilesAll cs db (reconcile_all db cs)
unfolding reconcile_all is_in
reconcile_all-ReconcilesAll [] db = record {
  exact = λ k i. absurd (cc i);
  others = λ k o. refl;
  same_gaps = λ k. refl;
  keyed = λ a. a;
}
reconcile_all-ReconcilesAll (c ∷ cs) db =
    ReconcilesAll-cons c cs db (reconcile_all (reconcile_order_mode db c).1 cs)
      (reconcile_order_mode-Reconciles c db)
      (reconcile_all-ReconcilesAll cs (reconcile_order_mode db c).1)

is_in-ne : (k a : Text) (cs : List Text) → is_in a cs ≡ true → is_in k cs ≡ false → k ≢ a
is_in-ne k a cs i o e = cc (ap (λ x. is_in x cs) e, i, o)

-- A channel that `channels_of` does not list is not in the batch.
channels_of-Avoids :
    (k : Text) (seen : List Text) (ms : List MessageRecord)
    → is_in k (channels_of seen ms) ≡ false
    → is_in k seen ≡ false
    → Avoids k ms
unfolding channels_of is_in
channels_of-Avoids k seen [] h s = tt
channels_of-Avoids k seen (m ∷ ms) h s = elim (Bool-cases (is_in m.channel_id seen)) [
  | inl old ↦ (is_in-ne k m.channel_id seen old s, channels_of-Avoids k seen ms (rw old at h) s)
  | inr new ↦
      let listed : is_in k (m.channel_id ∷ channels_of (m.channel_id ∷ seen) ms) ≡ false =
        rw new at h in
      let ne : k ≢ m.channel_id = λ e. cc ((text_beq_iff m.channel_id k).1 (sym e), listed) in
      (ne, channels_of-Avoids k (m.channel_id ∷ seen) ms (ground arith) (ground arith))
]

-- The mode of channel `k` is the one that its rows call for.
abbrev pub IsExact : CacheDb → Text → Type 0
IsExact db k = db.order_mode k ≡ wanted_mode (gaps db k)

module _ (ms : List MessageRecord) (db looped after : CacheDb) (written : WritesBatch ms db looped)
    (decided : ReconcilesAll (channels_of [] ms) looped after) where
  batch-IsWellKeyed : IsWellKeyed db → IsWellKeyed after
  unfolding is_in
  batch-IsWellKeyed v = record {
    keyed = decided.keyed (
        subst (λ modes. All (IsKeyed modes) looped.messages) (sym written.mode)
          (written.keyed v.keyed));
    degraded = λ c gap. elim (Bool-cases (is_in c (channels_of [] ms))) [
      | inl touched ↦
          wanted-degraded (gaps after c) (after.order_mode c) (decided.exact c touched) gap
      | inr other ↦
          decided.others c other
          ∙ ap (λ (modes : Text → ChannelOrderMode). modes c) written.mode
          ∙ v.degraded c (
              omega (
                arith,
                decided.same_gaps c,
                written.fewer c (channels_of-Avoids c [] ms other refl),
              ))
    ];
  }

  batch-IsExact : (k : Text) → ¬ Avoids k ms → IsExact after k
  unfolding is_in
  batch-IsExact k present = elim (Bool-cases (is_in k (channels_of [] ms))) [
    | inl touched ↦ decided.exact k touched
    | inr other ↦ absurd (present (channels_of-Avoids k [] ms other refl))
  ]

-- A batch that is stored leaves every sort key written under its channel's mode and every channel
-- with a gap in the degraded mode, and each channel `k` of the batch in exactly the mode that its
-- rows call for.
pub upsert_messages-IsWellKeyed :
    (db after : CacheDb) (ms out : List MessageRecord) (k : Text)
    → IsWellKeyed db
    → ¬ Avoids k ms
    → upsert_messages db ms ≡ ok (after, out)
    → IsWellKeyed after × IsExact after k
unfolding upsert_messages
upsert_messages-IsWellKeyed db after [] out k v present h = absurd (present tt)
upsert_messages-IsWellKeyed db after (m ∷ ms) out k v present h =
    let (start, db') = allocate_order_seq db (length (m ∷ ms)) in
    let (r, loop, result) = >>=-eq-ok (upsert_loop db' start (m ∷ ms)) _ h in
    let cs = channels_of [] (m ∷ ms) in
    let e : reconcile_all r.0 cs ≡ after = ground arith in
    let written = upsert_loop-WritesBatch (m ∷ ms) db' start r.0 r.1 loop in
    let decided = reconcile_all-ReconcilesAll cs r.0 in
    let v' : IsWellKeyed db' = record { keyed = v.keyed; degraded = v.degraded } in
    rw (← e) (
      batch-IsWellKeyed (m ∷ ms) db' r.0 (reconcile_all r.0 cs) written decided v',
      batch-IsExact (m ∷ ms) db' r.0 (reconcile_all r.0 cs) written decided k present,
    )
